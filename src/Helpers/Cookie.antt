-- ===== src/Helpers/Cookie.antt =====
-- getCookieValue of src/helpers.hpp.
use mathlib.Core.List.{reverse}
use bartimaeus_app.Base.{
  ℕ, zero, suc, ◌+◌, ◌-◌, ◌≤◌, ◌<◌, ◌≡◌, refl, ap, ◌∙◌, ◌≢◌, inl, inr, Bool, false, ◌&&◌, ◌||◌,
  List, [], ◌∷◌, ◌++◌, map, Option, none, some, arith, ltb, leb, ◌==◌, if◌then◌else◌, length, take,
  drop, is_empty, Bool-cases, Option-cases,
}
use bartimaeus_app.Base.Bytes.{Bytes}
use bartimaeus_app.Helpers.Search.{starts_with, index_of, find_char, substr, drop-drop}

-- std::isspace in the "C" locale: a blank, and \t \n \v \f \r.
unfoldable pub is_space : ℕ → Bool
is_space c = c == 32 || (leb 9 c && leb c 13)

-- remove_prefix(1) while the front is a space
unfoldable pub trim_front : Bytes → Bytes
unfolding is_space
trim_front [] = []
trim_front (c ∷ s) = if is_space c then trim_front s else c ∷ s

-- remove_suffix(1) while the back is a space
unfoldable pub trim : Bytes → Bytes
unfolding trim_front
trim s = reverse (trim_front (reverse (trim_front s)))

-- The loop over the segments, from `p` on. `none` means that the fuel ran out.
unfoldable pub cookie_loop : ℕ → Bytes → Bytes → ℕ → Option Bytes
unfolding trim starts_with find_char index_of substr
cookie_loop zero header target p = none
cookie_loop (suc fuel) header target p =
    let next = find_char b';' header p in
    let cut : Bytes = elim next [ none ↦ drop p header | some n ↦ substr header p (n - p) ] in
    let pair = trim cut in
    let rest : Option Bytes = elim next [
      | none ↦ some []
      | some n ↦ cookie_loop fuel header target (n + 1)
    ] in
    if ltb p (length header)
    then (if starts_with target pair then some (drop (length target) pair) else rest)
    else some []

unfoldable pub get_cookie_value : Bytes → Bytes → Option Bytes
unfolding cookie_loop
get_cookie_value cookie_header key =
    if is_empty cookie_header || is_empty key
    then some []
    else cookie_loop (length cookie_header + 1) cookie_header (key ++ b'=' ∷ []) 0

-- The description: cut the header at the semicolons, trim the parts, and take what follows the
-- first `key=`.
abbrev pub prepend : ℕ → List Bytes → List Bytes
prepend c [] = (c ∷ []) ∷ []
prepend c (part ∷ parts) = (c ∷ part) ∷ parts

pub split_on : ℕ → Bytes → List Bytes
split_on c [] = [] ∷ []
split_on c (x ∷ xs) = let parts = split_on c xs in if x == c then [] ∷ parts else prepend x parts

pub first_value : Bytes → List Bytes → Bytes
first_value target [] = []
first_value target (part ∷ parts) =
    if starts_with target part then drop (length target) part else first_value target parts

split_on-none : (c : ℕ) (s : Bytes) → index_of c s ≡ none → split_on c s ≡ s ∷ []
unfolding index_of split_on
split_on-none c [] h = refl
split_on-none c (x ∷ xs) h = ground (arith, split_on-none c xs)

split_on-some :
    (c : ℕ) (s : Bytes) (i : ℕ)
    → index_of c s ≡ some i
    → split_on c s ≡ take i s ∷ split_on c (drop (suc i) s)
unfolding index_of split_on
split_on-some c [] i h = cc
split_on-some c (x ∷ xs) zero h = ground arith
split_on-some c (x ∷ xs) (suc i) h = ground (arith, split_on-some c xs i)

drop_all : (n : ℕ) (s : Bytes) → length s ≤ n → drop n s ≡ []
drop_all zero [] h = refl
drop_all (suc n) [] h = refl
drop_all zero (x ∷ s) h = absurd (omega arith)
drop_all (suc n) (x ∷ s) h = drop_all n s (omega arith)

trim-nil : trim [] ≡ []
unfolding trim
trim-nil = refl

starts_with-nil : (target : Bytes) → target ≢ [] → starts_with target [] ≡ false
unfolding starts_with
starts_with-nil [] h = absurd (h refl)
starts_with-nil (c ∷ target) h = refl

first_value-nil :
    (target : Bytes) → target ≢ [] → first_value target (map trim (split_on b';' [])) ≡ []
unfolding first_value split_on
first_value-nil target h = rw (trim-nil, starts_with-nil target h)

module _ (header target : Bytes) (h : target ≢ []) where
  cookie_loop-first_value :
      (fuel p : ℕ)
      → length header - p < fuel
      → cookie_loop fuel header target p
        ≡ some (first_value target (map trim (split_on b';' (drop p header))))
  unfolding cookie_loop first_value
  cookie_loop-first_value zero p m = absurd (omega arith)
  cookie_loop-first_value (suc fuel) p m = elim (Bool-cases (ltb p (length header))) [
    | inr past ↦
        rw past (let e = drop_all p header (ground arith) in rw (e, first_value-nil target h))
    | inl within ↦ elim (Option-cases (index_of b';' (drop p header))) [
      | inl e ↦ rw (within, e, split_on-none b';' (drop p header) e) (ground arith)
      | inr (i, e) ↦
          let rest = cookie_loop-first_value fuel (p + i + 1) (ground arith) in
          let here : p + i - p ≡ i = omega arith in
          let there : drop (suc i) (drop p header) ≡ drop (p + i + 1) header =
            drop-drop (suc i) p header ∙ ap (λ (n : ℕ). drop n header) (omega arith) in
          rw (within, e, split_on-some b';' (drop p header) i e, here, there, rest) (ground arith)
    ]
  ]

-- For a key that is not empty the loop ends, and the value is that of the first part which starts
-- with the key and `=` when the header is cut at the semicolons and the parts are trimmed; it is
-- empty when there is no such part.
pub get_cookie_value-first_value :
    (cookie_header key : Bytes)
    → key ≢ []
    → get_cookie_value cookie_header key
      ≡ some (first_value (key ++ b'=' ∷ []) (map trim (split_on b';' cookie_header)))
unfolding get_cookie_value
get_cookie_value-first_value h [] k = absurd (k refl)
get_cookie_value-first_value [] (c ∷ key) k =
    rw (first_value-nil (c ∷ key ++ b'=' ∷ []) (λ e. cc)) refl
get_cookie_value-first_value (x ∷ h) (c ∷ key) k =
    cookie_loop-first_value (x ∷ h) (c ∷ key ++ b'=' ∷ []) (λ e. cc) (length (x ∷ h) + 1) 0
      (omega arith)
