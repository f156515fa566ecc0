-- ===== src/Helpers/Trim.antt =====
-- What the trimming of a cookie's segment leaves.
use mathlib.Core.List.{reverse, reverse_aux, append_assoc}
use bartimaeus_app.Base.{
  append_nil, ℕ, ◌≡◌, refl, sym, ap, ◌∙◌, true, false, [], ◌∷◌, ◌++◌, All, All-append, Bool-cases,
  inl, inr,
}
use bartimaeus_app.Base.Bytes.{Bytes}
use bartimaeus_app.Helpers.Cookie.{is_space, trim_front, trim}

reverse_aux_lem : (s r : Bytes) → reverse_aux s r ≡ reverse s ++ r
reverse_aux_lem [] r = refl
reverse_aux_lem (c ∷ s) r =
    reverse_aux_lem s (c ∷ r)
    ∙ sym (append_assoc (reverse s) (c ∷ []) r)
    ∙ ap (λ (t : Bytes). t ++ r) (sym (reverse_aux_lem s (c ∷ [])))

reverse_cons : (c : ℕ) (s : Bytes) → reverse (c ∷ s) ≡ reverse s ++ c ∷ []
reverse_cons c s = reverse_aux_lem s (c ∷ [])

reverse-append : (s t : Bytes) → reverse (s ++ t) ≡ reverse t ++ reverse s
reverse-append [] t = sym (append_nil (reverse t))
reverse-append (c ∷ s) t =
    reverse_cons c (s ++ t)
    ∙ ap (λ (r : Bytes). r ++ c ∷ []) (reverse-append s t)
    ∙ append_assoc (reverse t) (reverse s) (c ∷ [])
    ∙ ap (λ (r : Bytes). reverse t ++ r) (sym (reverse_cons c s))

reverse-reverse : (s : Bytes) → reverse (reverse s) ≡ s
reverse-reverse [] = refl
reverse-reverse (c ∷ s) =
    ap (λ (r : Bytes). reverse r) (reverse_cons c s)
    ∙ reverse-append (reverse s) (c ∷ [])
    ∙ ap (◌∷◌ c) (reverse-reverse s)

abbrev pub IsSpace : ℕ → Type 0
IsSpace c = is_space c ≡ true

-- Empty, or with no space in front.
abbrev pub IsBare : Bytes → Type 0
IsBare [] = Unit
IsBare (c ∷ s) = is_space c ≡ false

All-reverse : (s : Bytes) → All IsSpace s → All IsSpace (reverse s)
All-reverse [] h = tt
All-reverse (c ∷ s) h =
    rw (reverse_cons c s) (All-append IsSpace (reverse s) (c ∷ []) (All-reverse s h.1) (h.0, tt))

trim_front_lem :
    (s : Bytes)
    → (before : Bytes) × (s ≡ before ++ trim_front s) × All IsSpace before × IsBare (trim_front s)
unfolding trim_front
trim_front_lem [] = ([], refl, tt, tt)
trim_front_lem (c ∷ s) = elim (Bool-cases (is_space c)) [
  | inl e ↦
      let (before, whole, spaces, bare) = trim_front_lem s in
      (c ∷ before, rw e (ap (◌∷◌ c) whole), (e, spaces), rw e bare)
  | inr e ↦ ([], rw e refl, tt, rw e e)
]

IsBare-append : (s t : Bytes) → IsBare (s ++ t) → IsBare s
IsBare-append [] t h = tt
IsBare-append (c ∷ s) t h = h

-- What was cut off, and what is left.
pub record IsTrimmed (s t : Bytes) : Type 0 where
  pub before : Bytes
  pub after : Bytes
  pub whole : s ≡ before ++ (t ++ after)
  pub before_spaces : All IsSpace before
  pub after_spaces : All IsSpace after
  pub front : IsBare t
  pub back : IsBare (reverse t)

-- Trimming takes spaces from both ends and nothing else, and leaves no space at either end.
trim-IsTrimmed : (s : Bytes) → IsTrimmed s (trim s)
unfolding trim
trim-IsTrimmed s =
    let f = trim_front s in
    let g = trim_front (reverse f) in
    let (before, whole, spaces, bare) = trim_front_lem s in
    let (after, rest, after_spaces, end) = trim_front_lem (reverse f) in
    let middle : f ≡ reverse g ++ reverse after =
      sym (reverse-reverse f) ∙ ap (λ (r : Bytes). reverse r) rest ∙ reverse-append after g in
    record {
      before = before;
      after = reverse after;
      whole = whole ∙ ap (λ (r : Bytes). before ++ r) middle;
      before_spaces = spaces;
      after_spaces = All-reverse after after_spaces;
      front = IsBare-append (reverse g) (reverse after) (rw middle at bare);
      back = rw (reverse-reverse g) end;
    }
