-- ===== src/Web/Errors.antt =====
-- The error handler and the exception handler of main in src/main.cpp, and what they call in
-- src/helpers.hpp. What public/error.html holds is an argument, empty when it cannot be read; so are
-- the time as text and the six random digits of the tracking id.
pub mod Answers
pub mod Files
pub mod Logged
use bartimaeus_app.Base.{
  ℕ, Bool, ◌||◌, ◌==◌, List, ◌++◌, Option, none, some, if◌then◌else◌, is_empty,
}
use bartimaeus_app.Base.Bytes.{Bytes, bytes, is_eq}
use bartimaeus_app.Hex.{hex_digits}
use bartimaeus_app.Helpers.Number.{decimal}
use bartimaeus_app.Helpers.Placeholder.{replace_placeholder}
use bartimaeus_app.Helpers.Search.{starts_with}
use bartimaeus_app.Web.Http.{Request, Response, set_status, set_content}

abbrev pub json_utf8 : Bytes
json_utf8 = bytes "application/json; charset=utf-8"

abbrev pub plain_utf8 : Bytes
plain_utf8 = bytes "text/plain; charset=utf-8"

abbrev pub html_utf8 : Bytes
html_utf8 = bytes "text/html; charset=utf-8"

unfoldable pub generate_error_tracking_id : List ℕ → Bytes
generate_error_tracking_id digits = bytes "ERR-" ++ hex_digits digits

-- The status as the log prints it.
abbrev status_text : Option ℕ → Bytes
status_text none = bytes "-1"
status_text (some n) = decimal n

-- The line that logErrorToConsoleAndFile writes to both.
unfoldable pub log_line : Bytes → Bytes → Option ℕ → Bytes → Bytes → Bytes → Bytes
log_line time_str tracking_id status path method details =
    bytes "["
    ++ (time_str
        ++ (bytes "]["
            ++ (tracking_id
                ++ (bytes "] Status: "
                    ++ (status_text status
                        ++ (bytes " | Method: "
                            ++ (method
                                ++ (bytes " | Path: "
                                    ++ (path
                                        ++ (bytes " | Details: "
                                            ++ (details ++ bytes "\n")))))))))))

-- One of four texts, by the status.
abbrev pub by_status : {A : Type 0} → Option ℕ → A → A → A → A → A
by_status none not_found forbidden internal other = other
by_status (some n) not_found forbidden internal other =
    if n == 404
    then not_found
    else if n == 403
    then forbidden
    else if n == 500
    then internal
    else other

unfoldable pub error_json : Bytes → Bytes → Bytes
error_json message tracking_id =
    bytes "{\"status\":\"error\", \"message\":\""
    ++ (message ++ (bytes "\", \"tracking_id\":\"" ++ (tracking_id ++ bytes "\"}")))

-- The three calls of replacePlaceholder
unfoldable pub fill_page : Bytes → Bytes → Bytes → Bytes → Option Bytes
fill_page title desc tracking_id html = elim (replace_placeholder html (bytes "{{TITLE}}") title) [
  | none ↦ none
  | some titled ↦ elim (replace_placeholder titled (bytes "{{DESCRIPTION}}") desc) [
    | none ↦ none
    | some described ↦ replace_placeholder described (bytes "{{TRACKING_ID}}") tracking_id
  ]
]

abbrev pub send_page : Response → Option Bytes → Option Response
send_page res none = none
send_page res (some page) = some (set_content page html_utf8 res)

unfoldable pub is_api_or_form : Bytes → Bool
is_api_or_form path =
    starts_with (bytes "/api") path
    || is_eq path (bytes "/login")
    || is_eq path (bytes "/signup")
    || is_eq path (bytes "/logout")

abbrev pub logged : Bytes → Option Response → Option (Bytes × Response)
logged line none = none
logged line (some res) = some (line, res)

module _ (html : Bytes) (digits : List ℕ) (time_str : Bytes) (req : Request) where
  abbrev pub tracking_id : Bytes
  tracking_id = generate_error_tracking_id digits

  abbrev pub error_details : Option ℕ → Bytes
  error_details status =
      by_status status (bytes "Resource not found on path: " ++ req.path)
        (bytes "Access Denied / Forbidden") (bytes "Internal Server Error")
        (bytes "HTTP Client Error")

  error_message : Option ℕ → Bytes
  error_message status =
      by_status status (bytes "Resource not found") (bytes "Access forbidden")
        (bytes "Internal server error") (bytes "An unexpected error occurred.")

  error_title : Option ℕ → Bytes
  error_title status =
      by_status status (bytes "Page Not Found (404)") (bytes "Access Denied (403)")
        (bytes "Internal Server Error (500)") (bytes "An Error Occurred")

  error_description : Option ℕ → Bytes
  error_description status =
      by_status status (bytes "The requested page does not exist or has been moved.")
        (bytes "You do not have permission to access this resource.")
        (bytes "An internal error occurred on the server. Please try again later.")
        (bytes "An unexpected error occured while processing your request.")

  error_answer : Response → Option Response
  unfolding error_message error_title error_description
  error_answer res =
      if is_empty res.body
      then (if is_api_or_form req.path
          then some (set_content (error_json (error_message res.status) tracking_id) json_utf8 res)
          else if is_empty html
          then some
              (set_content (bytes "An error occurred. Tracking ID: " ++ tracking_id) plain_utf8 res)
          else send_page res
              (fill_page (error_title res.status) (error_description res.status) tracking_id html))
      else some res

  -- The log line and the response; `none` means that the fuel of replacePlaceholder ran out.
  unfoldable pub error_handler : Response → Option (Bytes × Response)
  unfolding error_answer
  error_handler res =
      logged
        (log_line time_str tracking_id res.status req.path req.method (error_details res.status))
        (error_answer res)

  exception_answer : Response → Option Response
  exception_answer res =
      if starts_with (bytes "/api") req.path
      then some (
          set_content (error_json (bytes "Internal server error") tracking_id) json_utf8
            (set_status 500 res))
      else if is_empty html
      then some (
          set_content (bytes "Internal Server Error. Tracking ID: " ++ tracking_id) plain_utf8
            (set_status 500 res))
      else send_page (set_status 500 res) (
          fill_page (bytes "Internal Server Error (500)")
            (bytes "An unexpected error occurred on the server.") tracking_id html)

  -- `what` is the text of a std::exception, and `none` for a null pointer. Anything else that was
  -- thrown passes through the handler.
  unfoldable pub exception_handler : Option Bytes → Response → Option (Bytes × Response)
  unfolding exception_answer
  exception_handler what res =
      logged
        (log_line time_str tracking_id (some 500) req.path req.method
          (elim what [ none ↦ bytes "Unknown Exception" | some message ↦ message ]))
        (exception_answer res)
