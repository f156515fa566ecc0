-- ===== src/Web/Errors/Logged.antt =====
-- An exception in a handler: what is logged, and what the client gets.
use bartimaeus_app.Base.{
  ℕ, ◌≡◌, refl, ap, ◌∙◌, false, List, Option, none, some, is_empty, [], ◌∷◌, ◌++◌, Option-cases,
  inl, inr,
}
use bartimaeus_app.Base.Bytes.{Bytes, bytes}
use bartimaeus_app.Hex.{hex_digits}
use bartimaeus_app.Helpers.Number.{decimal}
use bartimaeus_app.Web.Http.{Request, Response}
use bartimaeus_app.Web.Errors.{error_details, log_line, generate_error_tracking_id}
use bartimaeus_app.Web.Errors.Answers.{
  response_of, IsAnswer, exception_handler-kept, error_handler-kept,
}
use bartimaeus_app.Web.Errors.Files.{
  Files, Output, log_error_to_console_and_file, page, beside, error_line, message_of, handle_error,
  handle_exception,
}

beside-response :
    {F : Type 0} (fs : Files F) (out : Output F) (answer : Option (Bytes × Response))
    (res : Response)
    → response_of answer ≡ some res
    → beside fs out answer ≡ some (res, out)
beside-response fs out none res e = cc
beside-response fs out (some (line, got)) res e = let same : got ≡ res = cc in rw same refl

-- The parts of a line, one after the other.
abbrev pub joined : List Bytes → Bytes
joined [] = []
joined (part ∷ []) = part
joined (part ∷ next ∷ parts) = part ++ joined (next ∷ parts)

-- The line of an answer with status 500.
abbrev pub IsLine : List ℕ → Bytes → Request → Bytes → Bytes → Type 0
IsLine digits time_str req details line =
    line
    ≡ joined (
        bytes "["
        ∷ time_str
        ∷ bytes "]["
        ∷ (bytes "ERR-" ++ hex_digits digits)
        ∷ bytes "] Status: "
        ∷ bytes "500"
        ∷ bytes " | Method: "
        ∷ req.method
        ∷ bytes " | Path: "
        ∷ req.path
        ∷ bytes " | Details: "
        ∷ details
        ∷ bytes "\n"
        ∷ [])

error_line-IsLine :
    (digits : List ℕ) (time_str : Bytes) (req : Request) (details : Bytes)
    → IsLine digits time_str req details (error_line digits time_str req (some 500) details)
unfolding log_line generate_error_tracking_id decimal bytes
error_line-IsLine digits time_str req details = refl

-- The line is printed, and stands at the end of error.log; or it is printed with a warning, when the
-- file cannot be opened.
pub data IsLogged {F : Type 0} (fs : Files F) (line : Bytes) (out : Output F)
    : Output F → Type 0 where
  written :
      (files : F)
      → fs.append (bytes "error.log") line out.files ≡ some files
      → IsLogged fs line out (record { files = files; console = out.console ++ line ∷ [] })
  not_opened :
      fs.append (bytes "error.log") line out.files ≡ none
      → IsLogged fs line out (record {
        files = out.files;
        console =
            out.console ++ line ∷ bytes "[Warning] Failed to open error.log for writing.\n" ∷ [];
      })

log-IsLogged :
    {F : Type 0} (fs : Files F) (line : Bytes) (out : Output F)
    → IsLogged fs line out (log_error_to_console_and_file fs line out)
unfolding log_error_to_console_and_file
log-IsLogged fs line out = elim (Option-cases (fs.append (bytes "error.log") line out.files)) [
  | inl e ↦ rw (log_error_to_console_and_file, e) (not_opened e)
  | inr (files, e) ↦ rw (log_error_to_console_and_file, e) (written files e)
]

module _ {F : Type 0} (fs : Files F) (req : Request) where
  -- The line of the error handler, by the status.
  abbrev status_line : List ℕ → Bytes → Option ℕ → Bytes
  status_line digits time_str status =
      error_line digits time_str req status (error_details [] digits time_str req status)

  handle_error-kept :
      (res : Response) (out : Output F) (digits : List ℕ) (time_str : Bytes)
      → res.status ≡ some 500
      → is_empty res.body ≡ false
      → handle_error fs digits time_str req res out
        ≡ some (
          res,
          log_error_to_console_and_file fs
              (error_line digits time_str req (some 500) (bytes "Internal Server Error"))
              out,
        )
  unfolding handle_error
  handle_error-kept res out digits time_str status body =
      let second = log_error_to_console_and_file fs (status_line digits time_str res.status) out in
      beside-response fs second _ res
        (error_handler-kept (page fs second.files) digits time_str req res body)
      ∙ ap
          (λ (s : Option ℕ).
            some (res, log_error_to_console_and_file fs (status_line digits time_str s) out))
          status

  -- When a handler throws a std::exception, both handlers of main run to their end, whatever the
  -- files do: the client gets status 500 and the body that the exception handler made, which the
  -- error handler leaves, and exactly two lines are logged, one with the text of the exception and
  -- one for the status. Each has its time, its tracking id, the status, the method and the path; it
  -- is printed and appended to error.log, or printed with a warning when that cannot be opened.
  pub exception-Logged :
      (what : Option Bytes) (res : Response) (out : Output F) (digits digits' : List ℕ)
      (time_str time_str' : Bytes)
      → (res' : Response) × (out' : Output F) × (out'' : Output F) × (first : Bytes)
        × (second : Bytes) × (handle_exception fs digits time_str req what res out
            ≡ some (res', out'))
        × IsLine digits time_str req (message_of what) first
        × IsLogged fs first out out'
        × (handle_error fs digits' time_str' req res' out' ≡ some (res', out''))
        × IsLine digits' time_str' req (bytes "Internal Server Error") second
        × IsLogged fs second out' out''
        × IsAnswer (some 500) res'
  unfolding handle_exception
  exception-Logged what res out digits digits' time_str time_str' =
      let first = error_line digits time_str req (some 500) (message_of what) in
      let second = error_line digits' time_str' req (some 500) (bytes "Internal Server Error") in
      let out' = log_error_to_console_and_file fs first out in
      let (res', answered, _, (status, body)) =
        exception_handler-kept (page fs out'.files) digits time_str req what res [] [] [] in
      (
        res',
        out',
        log_error_to_console_and_file fs second out',
        first,
        second,
        beside-response fs out' _ res' answered,
        error_line-IsLine digits time_str req (message_of what),
        log-IsLogged fs first out,
        handle_error-kept res' out' digits' time_str' status body,
        error_line-IsLine digits' time_str' req (bytes "Internal Server Error"),
        log-IsLogged fs second out',
        (status, body),
      )
