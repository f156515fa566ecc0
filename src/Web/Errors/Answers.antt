-- ===== src/Web/Errors/Answers.antt =====
-- What the answers of the two handlers show.
use bartimaeus_app.Base.{
  ℕ, ◌<◌, ◌≡◌, refl, sym, ◌∙◌, Bool, true, false, List, [], ◌∷◌, Option, none, some, arith,
  if◌then◌else◌, is_empty, All,
}
use bartimaeus_app.Base.Bytes.{Bytes, bytes}
use bartimaeus_app.Hex.{hex_digit, hex_digits}
use bartimaeus_app.Helpers.Json.{escape_byte, escape_json}
use bartimaeus_app.Helpers.Html.{html_byte, html_escape}
use bartimaeus_app.Helpers.Placeholder.{
  replace_placeholder, substitute, replace_placeholder-substitute,
}
use bartimaeus_app.Helpers.Search.{starts_with}
use bartimaeus_app.Web.Http.{Request, Response, set_status}
use bartimaeus_app.Web.Errors.{
  send_page, logged, by_status, error_title, error_description, generate_error_tracking_id,
  error_json, fill_page, is_api_or_form, error_handler, exception_handler, exception_answer,
  error_answer,
}

-- A number as the generator of the tracking ids delivers it.
abbrev pub IsDigit : ℕ → Type 0
IsDigit d = d < 16

escape_byte-hex_digit : (d : ℕ) → IsDigit d → escape_byte (hex_digit d) ≡ hex_digit d ∷ []
unfolding escape_byte hex_digit
escape_byte-hex_digit d h = ground arith

html_byte-hex_digit : (d : ℕ) → IsDigit d → html_byte (hex_digit d) ≡ hex_digit d ∷ []
unfolding html_byte hex_digit
html_byte-hex_digit d h = ground arith

escape_json-hex_digits :
    (digits : List ℕ) → All IsDigit digits → escape_json (hex_digits digits) ≡ hex_digits digits
unfolding escape_json hex_digits
escape_json-hex_digits [] h = refl
escape_json-hex_digits (d ∷ digits) (h, hs) =
    rw (escape_byte-hex_digit d h, escape_json-hex_digits digits hs) refl

html_escape-hex_digits :
    (digits : List ℕ) → All IsDigit digits → html_escape (hex_digits digits) ≡ hex_digits digits
unfolding html_escape hex_digits
html_escape-hex_digits [] h = refl
html_escape-hex_digits (d ∷ digits) (h, hs) =
    rw (html_byte-hex_digit d h, html_escape-hex_digits digits hs) refl

-- A tracking id needs no escape, neither in a JSON string nor in a page.
pub generate_error_tracking_id-plain :
    (digits : List ℕ)
    → All IsDigit digits
    → (escape_json (generate_error_tracking_id digits) ≡ generate_error_tracking_id digits)
      × (html_escape (generate_error_tracking_id digits) ≡ generate_error_tracking_id digits)
unfolding generate_error_tracking_id bytes escape_json escape_byte html_escape html_byte
generate_error_tracking_id-plain digits h =
    (rw (escape_json-hex_digits digits h) refl, rw (html_escape-hex_digits digits h) refl)

substitute-is_empty :
    (q v c : ℕ) (qs vs s : Bytes) → is_empty (substitute (q ∷ qs) (v ∷ vs) 0 (c ∷ s)) ≡ false
unfolding substitute
substitute-is_empty q v c qs vs s = ground arith

-- Replacing a placeholder in a text ends with a text.
replace_placeholder-text :
    (html placeholder value : Bytes)
    → is_empty placeholder ≡ false
    → is_empty value ≡ false
    → is_empty html ≡ false
    → (page : Bytes) × (replace_placeholder html placeholder value ≡ some page)
      × (is_empty page ≡ false)
replace_placeholder-text (c ∷ s) (q ∷ qs) (v ∷ vs) hq hv hs = (
  substitute (q ∷ qs) (v ∷ vs) 0 (c ∷ s),
  replace_placeholder-substitute (c ∷ s) (q ∷ qs) (v ∷ vs) (λ e. cc),
  substitute-is_empty q v c qs vs s,
)
replace_placeholder-text _ _ _ hq hv hs = cc

fill_page-text :
    (title desc id html : Bytes)
    → is_empty title ≡ false
    → is_empty desc ≡ false
    → is_empty id ≡ false
    → is_empty html ≡ false
    → (page : Bytes) × (fill_page title desc id html ≡ some page) × (is_empty page ≡ false)
unfolding fill_page bytes
fill_page-text title desc id html ht hd hi h =
    let (titled, e, n) = replace_placeholder-text html (bytes "{{TITLE}}") title refl ht h in
    let (described, e', n') =
      replace_placeholder-text titled (bytes "{{DESCRIPTION}}") desc refl hd n in
    let (page, e'', n'') =
      replace_placeholder-text described (bytes "{{TRACKING_ID}}") id refl hi n' in
    (page, rw (fill_page, e, e') e'', n'')

abbrev pub response_of : Option (Bytes × Response) → Option Response
response_of none = none
response_of (some (line, res)) = some res

-- Both handlers, in the order in which the library calls them after an exception: each draws its
-- own tracking id and reads the page again.
abbrev pub after_exception :
    Bytes → List ℕ → Bytes → Request → Option (Bytes × Response) → Option (Bytes × Response)
after_exception html digits time_str req none = none
after_exception html digits time_str req (some (line, res)) =
    error_handler html digits time_str req res

by_status-text :
    (status : Option ℕ) (a b c d : Bytes)
    → is_empty a ≡ false
    → is_empty b ≡ false
    → is_empty c ≡ false
    → is_empty d ≡ false
    → is_empty (by_status status a b c d) ≡ false
by_status-text none a b c d ha hb hc hd = hd
by_status-text (some n) a b c d ha hb hc hd = ground arith

response_of-logged : (line : Bytes) (r : Option Response) → response_of (logged line r) ≡ r
response_of-logged line none = refl
response_of-logged line (some res) = refl

-- A response with this status and with a body.
abbrev pub IsAnswer : Option ℕ → Response → Type 0
IsAnswer status res = (res.status ≡ status) × (is_empty res.body ≡ false)

abbrev Answered : Option ℕ → Option Response → Type 0
Answered status r = (res : Response) × (r ≡ some res) × IsAnswer status res

if-Answered :
    (status : Option ℕ) (b : Bool) (x y : Option Response)
    → (b ≡ true → Answered status x)
    → (b ≡ false → Answered status y)
    → Answered status (if b then x else y)
if-Answered status true x y hx hy = hx refl
if-Answered status false x y hx hy = hy refl

send_page-Answered :
    (res : Response) (filled : Option Bytes)
    → (page : Bytes) × (filled ≡ some page) × (is_empty page ≡ false)
    → Answered res.status (send_page res filled)
send_page-Answered res none (page, e, n) = cc
send_page-Answered res (some filled) (page, e, n) = (_, refl, (refl, ground arith))

module _ (html : Bytes) (digits : List ℕ) (time_str : Bytes) (req : Request) where
  exception_answer-Answered :
      (res : Response) → Answered (some 500) (exception_answer html digits time_str req res)
  unfolding exception_answer error_json bytes generate_error_tracking_id
  exception_answer-Answered res =
      if-Answered _ (starts_with (bytes "/api") req.path) _ _ (λ api. (_, refl, (refl, refl)))
        (λ page.
          if-Answered _ (is_empty html) _ _ (λ missing. (_, refl, (refl, refl)))
            (λ given. send_page-Answered (set_status 500 res) _ (
              fill_page-text (bytes "Internal Server Error (500)")
                (bytes "An unexpected error occurred on the server.")
                (generate_error_tracking_id digits) html refl refl refl given)))

  error_answer-Answered :
      (res : Response) → Answered res.status (error_answer html digits time_str req res)
  unfolding error_answer error_json bytes generate_error_tracking_id error_title error_description
  error_answer-Answered res =
      if-Answered _ (is_empty res.body) _ _
        (λ empty.
          if-Answered _ (is_api_or_form req.path) _ _ (λ api. (_, refl, (refl, refl)))
            (λ page.
              if-Answered _ (is_empty html) _ _ (λ missing. (_, refl, (refl, refl)))
                (λ given. send_page-Answered res _ (
                  fill_page-text (error_title html digits time_str req res.status)
                    (error_description html digits time_str req res.status)
                    (generate_error_tracking_id digits) html
                    (by_status-text res.status _ _ _ _ refl refl refl refl)
                    (by_status-text res.status _ _ _ _ refl refl refl refl) refl given))))
        (λ filled. (res, refl, (refl, filled)))

  -- The error handler always answers: the status stays, and the response has a body.
  error_handler-Answered :
      (res : Response)
      → (res' : Response) × (response_of (error_handler html digits time_str req res) ≡ some res')
        × IsAnswer res.status res'
  unfolding error_handler
  error_handler-Answered res =
      let (res', e, answer) = error_answer-Answered res in
      (res', response_of-logged _ _ ∙ e, answer)

  -- The error handler leaves a response that has a body.
  pub error_handler-kept :
      (res : Response)
      → is_empty res.body ≡ false
      → response_of (error_handler html digits time_str req res) ≡ some res
  unfolding error_handler error_answer
  error_handler-kept res h = rw (error_handler, error_answer, h) refl

module _ (html : Bytes) (digits : List ℕ) (time_str : Bytes) (req : Request) where
  -- When a handler throws a std::exception, the exception handler answers with status 500 and with
  -- a body, whatever the message is and whether or not the page can be read; the error handler
  -- leaves that answer.
  pub exception_handler-kept :
      (what : Option Bytes) (res : Response) (html' : Bytes) (digits' : List ℕ) (time' : Bytes)
      → (res' : Response) × (response_of (exception_handler html digits time_str req what res)
          ≡ some res')
        × (response_of (
              after_exception html' digits' time' req
                (exception_handler html digits time_str req what res))
            ≡ some res')
        × IsAnswer (some 500) res'
  unfolding exception_handler
  exception_handler-kept what res html' digits' time' =
      let (res', e, (status, body)) = exception_answer-Answered html digits time_str req res in
      (
        res',
        rw (exception_handler, e) refl,
        rw (exception_handler, e) (error_handler-kept html' digits' time' req res' body),
        (status, body),
      )

  -- With the same page, the same random digits and the same response so far, the answer to a
  -- std::exception says nothing of it, and of the request only whether its path begins with /api: to
  -- two exceptions in two requests that agree there it is the same.
  exception_handler-private :
      (req' : Request) (what what' : Option Bytes) (res : Response)
      → starts_with (bytes "/api") req.path ≡ starts_with (bytes "/api") req'.path
      → response_of (exception_handler html digits time_str req what res)
        ≡ response_of (exception_handler html digits time_str req' what' res)
  unfolding exception_handler exception_answer
  exception_handler-private req' what what' res h =
      response_of-logged _ (exception_answer html digits time_str req res)
      ∙ (rw (exception_answer, h) refl
          ∙ sym (response_of-logged _ (exception_answer html digits time_str req' res)))
