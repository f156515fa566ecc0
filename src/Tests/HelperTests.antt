-- ===== src/Tests/HelperTests.antt =====
-- The theorems on the text helpers, at short texts.
use bartimaeus_app.Base.{
  ◌≡◌, ◌≢◌, ◌↔◌, false, [], ◌∷◌, ◌++◌, map, none, some, arith, if◌then◌else◌, All,
}
use bartimaeus_app.Base.Bytes.{Bytes, bytes}
use bartimaeus_app.Base.Int.{negsuc, IsInt}
use bartimaeus_app.Helpers.Cookie.{
  trim, get_cookie_value, split_on, first_value, get_cookie_value-first_value,
}
use bartimaeus_app.Helpers.Placeholder.{
  replace_placeholder, substitute, replace_placeholder-substitute,
}
use bartimaeus_app.Helpers.Json.{escape_json, read_string, has_raw_control, read_string-escape_json}
use bartimaeus_app.Helpers.Html.{html_escape, IsInert, html_escape-IsInert}
use bartimaeus_app.Helpers.Number.{
  safe_stoi, to_string, Numeral, safe_stoi_iff, safe_stoi-to_string,
}

abbrev cookie_header : Bytes
cookie_header = bytes "theme=dark; auth_session=ab12;x=1"

abbrev cookie_key : Bytes
cookie_key = bytes "auth_session"

cookie_key-not_empty : cookie_key ≢ []
unfolding bytes
cookie_key-not_empty e = cc

get_cookie_value-first_value_example :
    get_cookie_value cookie_header cookie_key
    ≡ some (first_value (cookie_key ++ b'=' ∷ []) (map trim (split_on b';' cookie_header)))
get_cookie_value-first_value_example =
    get_cookie_value-first_value cookie_header cookie_key cookie_key-not_empty

abbrev template : Bytes
template = bytes "<h1>{{STATUS}}</h1><p>{{STATUS}}</p>"

abbrev status_mark : Bytes
status_mark = bytes "{{STATUS}}"

status_mark-not_empty : status_mark ≢ []
unfolding bytes
status_mark-not_empty e = cc

replace_placeholder-substitute_example :
    replace_placeholder template status_mark (bytes "404")
    ≡ some (substitute status_mark (bytes "404") 0 template)
replace_placeholder-substitute_example =
    replace_placeholder-substitute template status_mark (bytes "404") status_mark-not_empty

abbrev quoted : Bytes
quoted = bytes "say \"<b>\"\n"

read_string-escape_json_example :
    read_string false (escape_json quoted ++ 34 ∷ [])
    ≡ (if has_raw_control quoted then none else some (quoted, []))
read_string-escape_json_example = read_string-escape_json quoted []

html_escape-IsInert_example : All IsInert (html_escape quoted)
html_escape-IsInert_example = html_escape-IsInert quoted

safe_stoi_iff_example :
    (safe_stoi (bytes "-42") ≡ some (negsuc 41))
    ↔ (Numeral (bytes "-42") (negsuc 41) × IsInt (negsuc 41))
safe_stoi_iff_example = safe_stoi_iff (bytes "-42") (negsuc 41)

safe_stoi-to_string_example : safe_stoi (to_string (negsuc 41)) ≡ some (negsuc 41)
safe_stoi-to_string_example = safe_stoi-to_string (negsuc 41) (omega arith)
