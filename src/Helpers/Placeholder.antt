-- ===== src/Helpers/Placeholder.antt =====
-- replacePlaceholder of src/helpers.hpp.
use mathlib.Core.Option
use mathlib.Core.List.{append_assoc}
use bartimaeus_app.Base.{
  ℕ, zero, suc, ◌+◌, ◌-◌, ◌<◌, ◌≡◌, refl, ap, ◌≢◌, inl, inr, true, false, [], ◌∷◌, ◌++◌, Option,
  none, some, arith, leb, if◌then◌else◌, length, take, drop, length-append, length-drop,
  drop-append, Option-cases,
}
use bartimaeus_app.Base.Bytes.{Bytes}
use bartimaeus_app.Helpers.Search.{starts_with, index_of_text, find_text}

-- str.replace(pos, n, value)
unfoldable pub replace_at : Bytes → ℕ → ℕ → Bytes → Bytes
replace_at str p n value = take p str ++ (value ++ drop (p + n) str)

-- The loop, at the place that the last search found. `none` means that the fuel ran out.
unfoldable pub replace_loop : ℕ → Bytes → Bytes → Bytes → Option ℕ → Option Bytes
unfolding replace_at find_text
replace_loop zero placeholder value str p = none
replace_loop (suc fuel) placeholder value str none = some str
replace_loop (suc fuel) placeholder value str (some p) =
    let str' = replace_at str p (length placeholder) value in
    replace_loop fuel placeholder value str' (find_text placeholder str' (p + length value))

unfoldable pub replace_placeholder : Bytes → Bytes → Bytes → Option Bytes
unfolding replace_loop
replace_placeholder str placeholder value =
    replace_loop (length str + 2) placeholder value str (find_text placeholder str 0)

-- The description: one pass from left to right. The first argument counts the bytes of a
-- placeholder that are still to be skipped.
unfoldable pub substitute : Bytes → Bytes → ℕ → Bytes → Bytes
substitute placeholder value skip [] = []
substitute placeholder value (suc skip) (c ∷ s) = substitute placeholder value skip s
substitute placeholder value zero (c ∷ s) =
    let replaced = value ++ substitute placeholder value (length placeholder - 1) s in
    let kept = c ∷ substitute placeholder value 0 s in
    if starts_with placeholder (c ∷ s) then replaced else kept

module _ (q : ℕ) (qs value : Bytes) where
  substitute-drop :
      (n : ℕ) (s : Bytes) → substitute (q ∷ qs) value n s ≡ substitute (q ∷ qs) value 0 (drop n s)
  unfolding substitute
  substitute-drop zero s = refl
  substitute-drop (suc n) [] = refl
  substitute-drop (suc n) (c ∷ s) = substitute-drop n s

  substitute-none :
      (s : Bytes) → index_of_text (q ∷ qs) s ≡ none → substitute (q ∷ qs) value 0 s ≡ s
  unfolding substitute index_of_text
  substitute-none [] e = refl
  substitute-none (c ∷ s) e = ground (arith, substitute-none s)

  substitute-here :
      (c : ℕ) (s : Bytes)
      → starts_with (q ∷ qs) (c ∷ s) ≡ true
      → substitute (q ∷ qs) value 0 (c ∷ s)
        ≡ value ++ substitute (q ∷ qs) value 0 (drop (length qs) s)
  unfolding substitute
  substitute-here c s e =
      let less : suc (length qs) - 1 ≡ length qs = omega arith in
      rw (e, less, substitute-drop (length qs) s) refl

  -- At the first placeholder the pass copies what stands before it, and writes the value.
  substitute-some :
      (s : Bytes) (i : ℕ)
      → index_of_text (q ∷ qs) s ≡ some i
      → substitute (q ∷ qs) value 0 s
        ≡ take i s ++ (value ++ substitute (q ∷ qs) value 0 (drop (i + suc (length qs)) s))
  unfolding index_of_text
  substitute-some [] i e = cc
  substitute-some (c ∷ s) zero e =
      let plus : 0 + suc (length qs) ≡ suc (length qs) = omega arith in
      rw plus (substitute-here c s (ground arith))
  substitute-some (c ∷ s) (suc i) e =
      let plus : suc i + suc (length qs) ≡ suc (i + suc (length qs)) = omega arith in
      let later : index_of_text (q ∷ qs) s ≡ some i = ground arith in
      let miss : starts_with (q ∷ qs) (c ∷ s) ≡ false = ground arith in
      rw (plus, ← substitute-some s i later) (unfold substitute in rw miss refl)

  index_of_text-lt : (s : Bytes) (i : ℕ) → index_of_text (q ∷ qs) s ≡ some i → i < length s
  unfolding index_of_text
  index_of_text-lt [] i e = cc
  index_of_text-lt (c ∷ s) zero e = omega arith
  index_of_text-lt (c ∷ s) (suc i) e = ground (arith, index_of_text-lt s i)

  find_text-append :
      (done rest : Bytes)
      → find_text (q ∷ qs) (done ++ rest) (length done)
        ≡ Option.map (λ i. length done + i) (index_of_text (q ∷ qs) rest)
  unfolding find_text
  find_text-append done rest =
      let fits : leb (length done) (length (done ++ rest)) ≡ true =
        ground (arith, length-append done rest) in
      rw (fits, drop-append done rest)

  take-append_add :
      (done rest : Bytes) (i : ℕ) → take (length done + i) (done ++ rest) ≡ done ++ take i rest
  take-append_add [] rest i = let e : 0 + i ≡ i = omega arith in rw e
  take-append_add (c ∷ done) rest i =
      let e : suc (length done) + i ≡ suc (length done + i) = omega arith in
      rw e (ap (◌∷◌ c) (take-append_add done rest i))

  drop-append_add :
      (done rest : Bytes) (i : ℕ) → drop (length done + i) (done ++ rest) ≡ drop i rest
  drop-append_add [] rest i = let e : 0 + i ≡ i = omega arith in rw e
  drop-append_add (c ∷ done) rest i =
      let e : suc (length done) + i ≡ suc (length done + i) = omega arith in
      rw e (drop-append_add done rest i)

  -- One round moves the border between what is done and what is left.
  replace_at-append :
      (done rest : Bytes) (i : ℕ)
      → replace_at (done ++ rest) (length done + i) (suc (length qs)) value
        ≡ (done ++ (take i rest ++ value)) ++ drop (i + suc (length qs)) rest
  unfolding replace_at
  replace_at-append done rest i =
      let plus : length done + i + suc (length qs) ≡ length done + (i + suc (length qs)) =
        omega arith in
      rw (plus, take-append_add done rest i, drop-append_add done rest (i + suc (length qs)))
        (simp append_assoc)

  replace_loop_step :
      (fuel : ℕ) (str : Bytes) (p : ℕ)
      → replace_loop (suc fuel) (q ∷ qs) value str (some p)
        ≡ replace_loop fuel
            (q ∷ qs)
            value
            (replace_at str p (suc (length qs)) value)
            (find_text (q ∷ qs) (replace_at str p (suc (length qs)) value) (p + length value))
  unfolding replace_loop
  replace_loop_step fuel str p = refl

  length-take_lt : (i : ℕ) (s : Bytes) → i < length s → length (take i s) ≡ i
  length-take_lt zero s h = refl
  length-take_lt (suc i) [] h = absurd (omega arith)
  length-take_lt (suc i) (c ∷ s) h = ap suc (length-take_lt i s (omega arith))

  length-border :
      (done rest : Bytes) (i : ℕ)
      → i < length rest
      → length done + i + length value ≡ length (done ++ (take i rest ++ value))
  length-border done rest i h = omega (
    arith,
    length-append done (take i rest ++ value),
    length-append (take i rest) value,
    length-take_lt i rest h,
  )

  replace_loop-substitute :
      (fuel : ℕ) (done rest : Bytes)
      → length rest + 1 < fuel
      → replace_loop fuel
          (q ∷ qs)
          value
          (done ++ rest)
          (Option.map (λ i. length done + i) (index_of_text (q ∷ qs) rest))
        ≡ some (done ++ substitute (q ∷ qs) value 0 rest)
  replace_loop-substitute zero done rest m = absurd (omega arith)
  replace_loop-substitute (suc fuel) done rest m =
      elim (Option-cases (index_of_text (q ∷ qs) rest)) [
        | inl e ↦ rw (e, substitute-none rest e) (unfold replace_loop in refl)
        | inr (i, e) ↦
            let within = index_of_text-lt rest i e in
            let border : Bytes = done ++ (take i rest ++ value) in
            let left : Bytes = drop (i + suc (length qs)) rest in
            let ih =
              replace_loop-substitute fuel border left
                (omega (arith, length-drop (i + suc (length qs)) rest)) in
            rw
              (
                e,
                replace_loop_step fuel (done ++ rest) (length done + i),
                replace_at-append done rest i,
                length-border done rest i within,
                find_text-append border left,
                ih,
                substitute-some rest i e,
              )
              (simp append_assoc)
      ]

-- With a placeholder that is not empty the loop ends, and the result is that of one pass which
-- writes the value for each placeholder; what it has written is not searched again.
pub replace_placeholder-substitute :
    (str placeholder value : Bytes)
    → placeholder ≢ []
    → replace_placeholder str placeholder value ≡ some (substitute placeholder value 0 str)
replace_placeholder-substitute str [] value h = absurd (h refl)
replace_placeholder-substitute str (q ∷ qs) value h =
    unfold replace_placeholder in
    rw (find_text-append q qs value [] str)
      (replace_loop-substitute q qs value (length str + 2) [] str (omega arith))
