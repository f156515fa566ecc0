-- ===== src/Helpers/Html.antt =====
-- htmlEscape of src/helpers.hpp.
use bartimaeus_app.Base.{
  ℕ, zero, suc, ◌≡◌, refl, ◌≢◌, ap, ◌∙◌, [], ◌∷◌, ◌++◌, arith, ◌==◌, if◌then◌else◌, All, All-append,
}
use bartimaeus_app.Base.Bytes.{Bytes}
use bartimaeus_app.Helpers.Search.{starts_with}

-- The entities are spelled as bytes.
abbrev amp : Bytes
amp = b'&' ∷ b'a' ∷ b'm' ∷ b'p' ∷ b';' ∷ []

abbrev quot : Bytes
quot = b'&' ∷ b'q' ∷ b'u' ∷ b'o' ∷ b't' ∷ b';' ∷ []

abbrev apos : Bytes
apos = b'&' ∷ b'#' ∷ b'x' ∷ b'2' ∷ b'7' ∷ b';' ∷ []

abbrev lt : Bytes
lt = b'&' ∷ b'l' ∷ b't' ∷ b';' ∷ []

abbrev gt : Bytes
gt = b'&' ∷ b'g' ∷ b't' ∷ b';' ∷ []

abbrev slash : Bytes
slash = b'&' ∷ b'#' ∷ b'x' ∷ b'2' ∷ b'F' ∷ b';' ∷ []

unfoldable pub html_byte : ℕ → Bytes
html_byte c =
    if c == b'&'
    then amp
    else if c == 34
    then quot
    else if c == 39
    then apos
    else if c == b'<'
    then lt
    else if c == b'>'
    then gt
    else if c == b'/'
    then slash
    else c ∷ []

unfoldable pub html_escape : Bytes → Bytes
unfolding html_byte
html_escape [] = []
html_escape (c ∷ s) = html_byte c ++ html_escape s

-- A byte that can neither open or close a tag nor end an attribute's value.
abbrev pub IsInert : ℕ → Type 0
IsInert c = (c ≢ 34) × (c ≢ 39) × (c ≢ b'<') × (c ≢ b'>') × (c ≢ b'/')

html_byte-IsInert : (c : ℕ) → All IsInert (html_byte c)
unfolding html_byte
html_byte-IsInert c = ground arith

-- No quote, apostrophe, angle bracket or slash is left in an escaped text.
pub html_escape-IsInert : (s : Bytes) → All IsInert (html_escape s)
unfolding html_escape
html_escape-IsInert [] = tt
html_escape-IsInert (c ∷ s) =
    All-append IsInert (html_byte c) (html_escape s) (html_byte-IsInert c) (html_escape-IsInert s)

-- The reader that turns the six entities back. The first argument counts the bytes of an entity
-- that are still to be skipped.
pub html_unescape : ℕ → Bytes → Bytes
html_unescape skip [] = []
html_unescape (suc skip) (c ∷ s) = html_unescape skip s
html_unescape zero (c ∷ s) =
    if starts_with amp (c ∷ s)
    then b'&' ∷ html_unescape 4 s
    else if starts_with quot (c ∷ s)
    then 34 ∷ html_unescape 5 s
    else if starts_with apos (c ∷ s)
    then 39 ∷ html_unescape 5 s
    else if starts_with lt (c ∷ s)
    then b'<' ∷ html_unescape 3 s
    else if starts_with gt (c ∷ s)
    then b'>' ∷ html_unescape 3 s
    else if starts_with slash (c ∷ s)
    then b'/' ∷ html_unescape 5 s
    else c ∷ html_unescape 0 s

html_unescape-html_byte :
    (c : ℕ) (t : Bytes) → html_unescape 0 (html_byte c ++ t) ≡ c ∷ html_unescape 0 t
unfolding html_unescape html_byte starts_with
html_unescape-html_byte c t = ground arith

-- A reader that resolves the six character references gets every escaped text back.
html_unescape-html_escape : (s : Bytes) → html_unescape 0 (html_escape s) ≡ s
unfolding html_escape
html_unescape-html_escape [] = unfold html_unescape in refl
html_unescape-html_escape (c ∷ s) =
    html_unescape-html_byte c (html_escape s) ∙ ap (◌∷◌ c) (html_unescape-html_escape s)
