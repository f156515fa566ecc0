-- ===== src/Helpers/Json.antt =====
-- escapeJson of src/helpers.hpp, against a reader of JSON strings.
use mathlib.Core.List.{append_assoc}
use bartimaeus_app.Base.{
  ℕ, ◌≡◌, refl, Bool, true, false, ◌||◌, [], ◌∷◌, ◌++◌, Option, none, some, arith, ltb, ◌==◌,
  if◌then◌else◌,
}
use bartimaeus_app.Base.Bytes.{Bytes}

unfoldable pub escape_byte : ℕ → Bytes
escape_byte c =
    if c == 34
    then 92 ∷ 34 ∷ []
    else if c == 92
    then 92 ∷ 92 ∷ []
    else if c == 8
    then 92 ∷ b'b' ∷ []
    else if c == 12
    then 92 ∷ b'f' ∷ []
    else if c == 10
    then 92 ∷ b'n' ∷ []
    else if c == 13
    then 92 ∷ b'r' ∷ []
    else if c == 9
    then 92 ∷ b't' ∷ []
    else c ∷ []

unfoldable pub escape_json : Bytes → Bytes
unfolding escape_byte
escape_json [] = []
escape_json (c ∷ s) = escape_byte c ++ escape_json s

-- The byte that a short escape of RFC 8259 stands for.
unescaped : ℕ → Option ℕ
unescaped d =
    if d == 34 || d == 92 || d == b'/'
    then some d
    else if d == b'b'
    then some 8
    else if d == b'f'
    then some 12
    else if d == b'n'
    then some 10
    else if d == b'r'
    then some 13
    else if d == b't'
    then some 9
    else none

abbrev cons_content : Option ℕ → Option (Bytes × Bytes) → Option (Bytes × Bytes)
cons_content none r = none
cons_content (some c) none = none
cons_content (some c) (some (content, rest)) = some (c ∷ content, rest)

-- Reads a JSON string from behind its opening quote: its content, and what follows the closing
-- quote. The flag says that a backslash was just read. A control byte that is not escaped is
-- refused, as RFC 8259 says.
pub read_string : Bool → Bytes → Option (Bytes × Bytes)
unfolding unescaped
read_string escaped [] = none
read_string true (d ∷ s) = cons_content (unescaped d) (read_string false s)
read_string false (c ∷ s) =
    let more = read_string true s in
    let plain = cons_content (some c) (read_string false s) in
    if c == 34 then some ([], s) else if c == 92 then more else if ltb c 32 then none else plain

-- The control bytes that escapeJson leaves alone.
pub is_raw_control : ℕ → Bool
is_raw_control c = if c == 8 || c == 9 || c == 10 || c == 12 || c == 13 then false else ltb c 32

pub has_raw_control : Bytes → Bool
unfolding is_raw_control
has_raw_control [] = false
has_raw_control (c ∷ s) = is_raw_control c || has_raw_control s

read_string-escape_byte :
    (c : ℕ) (t : Bytes)
    → read_string false (escape_byte c ++ t)
      ≡ (if is_raw_control c then none else cons_content (some c) (read_string false t))
unfolding read_string escape_byte is_raw_control
read_string-escape_byte c t = ground arith

-- A reader of JSON finds exactly the escaped text and stops at the quote that the program wrote,
-- whatever the text holds, unless it holds a control byte other than \b \t \n \f \r: then the
-- string is refused.
pub read_string-escape_json :
    (s rest : Bytes)
    → read_string false (escape_json s ++ 34 ∷ rest)
      ≡ (if has_raw_control s then none else some (s, rest))
unfolding escape_json has_raw_control
read_string-escape_json [] rest = unfold read_string in refl
read_string-escape_json (c ∷ s) rest =
    rw
      (
        append_assoc (escape_byte c) (escape_json s) (34 ∷ rest),
        read_string-escape_byte c (escape_json s ++ 34 ∷ rest),
        read_string-escape_json s rest,
      )
      (ground arith)
