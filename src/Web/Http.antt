-- ===== src/Web/Http.antt =====
-- What the application uses of cpp-httplib. A request is what the library's getters answer; a
-- response is what the handlers have set.
use bartimaeus_app.Base.{ℕ, Bool, List, [], ◌∷◌, ◌++◌, Option, some}
use bartimaeus_app.Base.Bytes.{Bytes, bytes}

pub record Request : Type 0 where
  pub method : Bytes
  pub path : Bytes
  pub has_header : Bytes → Bool
  -- empty for a header or a parameter that is not there
  pub get_header_value : Bytes → Bytes
  pub get_param_value : Bytes → Bytes

-- `status` is `none` until it is set (the library's -1).
pub record Response : Type 0 where
  pub status : Option ℕ
  pub headers : List (Bytes × Bytes)
  pub body : Bytes
  pub content_type : Bytes

abbrev pub set_status : ℕ → Response → Response
set_status n res = record res { status = some n }

abbrev pub set_content : Bytes → Bytes → Response → Response
set_content body content_type res = record res { body = body; content_type = content_type }

abbrev pub set_header : Bytes → Bytes → Response → Response
set_header name value res = record res { headers = (name, value) ∷ res.headers }

-- res.set_redirect(url), with the library's default status 302
abbrev pub set_redirect : Bytes → Response → Response
set_redirect url res = set_status 302 (set_header (bytes "Location") url res)

abbrev pub json : Bytes
json = bytes "application/json"

-- res.status = n; res.set_content(body, "application/json");
abbrev pub reply : ℕ → Bytes → Response → Response
reply n body res = set_content body json (set_status n res)

-- A comma when another entry follows.
abbrev comma_before : List Bytes → Bytes → Bytes
comma_before [] rest = []
comma_before (entry ∷ entries) rest = bytes "," ++ rest

-- The loops that print a vector as a JSON array, entry by entry.
unfoldable pub json_entries : List Bytes → Bytes
json_entries [] = []
json_entries (entry ∷ entries) = entry ++ comma_before entries (json_entries entries)

abbrev pub json_array : List Bytes → Bytes
json_array entries = bytes "[" ++ (json_entries entries ++ bytes "]")
