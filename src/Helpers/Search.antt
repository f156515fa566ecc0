-- ===== src/Helpers/Search.antt =====
-- The searches of std::string and std::string_view that the helpers call.
use mathlib.Core.Option
use bartimaeus_app.Base.{
  ℕ, zero, suc, ◌+◌, ◌≡◌, refl, ap, Bool, true, false, ◌&&◌, [], ◌∷◌, ◌++◌, Option, none, some,
  arith, leb, ◌==◌, if◌then◌else◌, length, take, drop, is_empty,
}
use bartimaeus_app.Base.Bytes.{Bytes}

-- s.rfind(prefix, 0) == 0
unfoldable pub starts_with : Bytes → Bytes → Bool
starts_with [] s = true
starts_with (p ∷ ps) [] = false
starts_with (p ∷ ps) (c ∷ cs) = p == c && starts_with ps cs

-- The first place of a byte.
unfoldable pub index_of : ℕ → Bytes → Option ℕ
index_of c [] = none
index_of c (x ∷ xs) = if x == c then some 0 else Option.map suc (index_of c xs)

-- s.find(c, pos)
unfoldable pub find_char : ℕ → Bytes → ℕ → Option ℕ
find_char c s p = Option.map (λ i. p + i) (index_of c (drop p s))

-- The first place of a text.
unfoldable pub index_of_text : Bytes → Bytes → Option ℕ
unfolding starts_with
index_of_text pat [] = if is_empty pat then some 0 else none
index_of_text pat (x ∷ xs) =
    if starts_with pat (x ∷ xs) then some 0 else Option.map suc (index_of_text pat xs)

-- s.find(pat, pos)
unfoldable pub find_text : Bytes → Bytes → ℕ → Option ℕ
find_text pat s p =
    if leb p (length s) then Option.map (λ i. p + i) (index_of_text pat (drop p s)) else none

-- s.substr(pos, n)
unfoldable pub substr : Bytes → ℕ → ℕ → Bytes
substr s p n = take n (drop p s)

pub drop-drop : (m n : ℕ) (s : Bytes) → drop m (drop n s) ≡ drop (n + m) s
drop-drop m zero s = ap (λ (k : ℕ). drop k s) (omega arith)
drop-drop zero (suc n) [] = let e : suc n + 0 ≡ suc n = omega arith in rw e
drop-drop (suc m) (suc n) [] = let e : suc n + suc m ≡ suc (n + suc m) = omega arith in rw e
drop-drop m (suc n) (x ∷ xs) =
    let e : suc n + m ≡ suc (n + m) = omega arith in rw e (drop-drop m n xs)

starts_with-append : (p s : Bytes) → starts_with p (p ++ s) ≡ true
unfolding starts_with
starts_with-append [] s = refl
starts_with-append (x ∷ p) s = ground (arith, starts_with-append p s)

starts_with-eq : (p s : Bytes) → starts_with p s ≡ true → p ++ drop (length p) s ≡ s
unfolding starts_with
starts_with-eq [] s h = refl
starts_with-eq (p ∷ ps) [] h = cc
starts_with-eq (p ∷ ps) (c ∷ cs) h = ground (arith, starts_with-eq ps cs)
