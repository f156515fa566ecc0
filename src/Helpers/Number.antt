-- ===== src/Helpers/Number.antt =====
-- safeStoi of src/helpers.hpp, and the std::to_string that prints the numbers it reads.
use bartimaeus_app.Base.{
  ℕ, zero, suc, ◌+◌, ◌-◌, ◌*◌, ◌/◌, ◌%◌, ◌^◌, ◌<◌, ◌≡◌, refl, ◌≢◌, ap, sym, ◌∙◌, Bool, true, ◌&&◌,
  ◌||◌, [], ◌∷◌, ◌++◌, Option, none, some, arith, ltb, lt→ltb, leb, ◌==◌, ◌↔◌, if◌then◌else◌,
  is_empty, all, inl, inr, Bool-cases,
}
use bartimaeus_app.Base.Bytes.{Bytes}
use bartimaeus_app.Base.Int.{ℤ, pos, negsuc, neg, IsInt}

-- std::isdigit
unfoldable pub is_digit : ℕ → Bool
is_digit c = leb 48 c && leb c 57

unfoldable pub digits_value : ℕ → Bytes → ℕ
digits_value acc [] = acc
digits_value acc (c ∷ s) = digits_value (acc * 10 + (c - 48)) s

abbrev in_int : ℤ → Option ℤ
in_int (pos n) = if ltb n (2 ^ 31) then some (pos n) else none
in_int (negsuc n) = if ltb n (2 ^ 31) then some (negsuc n) else none

-- std::stoi on a text of digits with at most one sign before them; `none` for the out_of_range that
-- it throws. The invalid_argument is for a text without digits.
unfoldable pub stoi : Bytes → Option ℤ
unfolding digits_value
stoi [] = none
stoi (c ∷ s) =
    if c == b'-'
    then in_int (neg (digits_value 0 s))
    else if c == b'+'
    then in_int (pos (digits_value 0 s))
    else in_int (pos (digits_value 0 (c ∷ s)))

-- The first place to be checked is behind a sign, and a sign alone is refused.
unfoldable pub safe_stoi : Bytes → Option ℤ
unfolding is_digit stoi
safe_stoi [] = none
safe_stoi (c ∷ s) =
    if c == b'-' || c == b'+'
    then (if is_empty s then none else if all is_digit s then stoi (c ∷ s) else none)
    else if all is_digit (c ∷ s)
    then stoi (c ∷ s)
    else none

-- The decimal digits of a number, with fuel for each of them.
decimal_digits : ℕ → ℕ → Bytes
decimal_digits zero n = []
decimal_digits (suc fuel) n =
    let front = decimal_digits fuel (n / 10) in
    if ltb n 10 then (48 + n) ∷ [] else front ++ (48 + n % 10) ∷ []

unfoldable pub decimal : ℕ → Bytes
unfolding decimal_digits
decimal n = decimal_digits (n + 1) n

-- std::to_string of an integer
unfoldable pub to_string : ℤ → Bytes
unfolding decimal
to_string (pos n) = decimal n
to_string (negsuc n) = b'-' ∷ decimal (n + 1)

digits_value-concat :
    (acc d : ℕ) (s : Bytes) → digits_value acc (s ++ d ∷ []) ≡ digits_value acc s * 10 + (d - 48)
unfolding digits_value
digits_value-concat acc d [] = refl
digits_value-concat acc d (c ∷ s) = digits_value-concat (acc * 10 + (c - 48)) d s

decimal_digits_value : (fuel n : ℕ) → n < fuel → digits_value 0 (decimal_digits fuel n) ≡ n
unfolding decimal_digits
decimal_digits_value zero n h = absurd (omega arith)
decimal_digits_value (suc fuel) n h = elim (Bool-cases (ltb n 10)) [
  | inl small ↦ rw small (unfold digits_value in omega arith)
  | inr big ↦
      rw
        (
          big,
          digits_value-concat 0 (48 + n % 10) (decimal_digits fuel (n / 10)),
          decimal_digits_value fuel (n / 10) (ground arith),
        )
        (omega arith)
]

digits_value-decimal : (n : ℕ) → digits_value 0 (decimal n) ≡ n
unfolding decimal
digits_value-decimal n = decimal_digits_value (n + 1) n (omega arith)

all-append :
    (s t : Bytes) → all is_digit s ≡ true → all is_digit t ≡ true → all is_digit (s ++ t) ≡ true
all-append [] t h k = k
all-append (c ∷ s) t h k = ground (arith, all-append s t)

is_digit_digit : (d : ℕ) → d < 10 → is_digit (48 + d) ≡ true
unfolding is_digit
is_digit_digit d h = ground arith

decimal_digits-all : (fuel n : ℕ) → all is_digit (decimal_digits fuel n) ≡ true
unfolding decimal_digits
decimal_digits-all zero n = refl
decimal_digits-all (suc fuel) n = elim (Bool-cases (ltb n 10)) [
  | inl small ↦ rw (small, is_digit_digit n (ground arith)) refl
  | inr big ↦ rw big (
      all-append (decimal_digits fuel (n / 10)) _ (decimal_digits-all fuel (n / 10))
        (rw (is_digit_digit (n % 10) (omega arith)) refl))
]

append-ne-nil : (s : Bytes) (d : ℕ) → s ++ d ∷ [] ≢ []
append-ne-nil [] d h = cc
append-ne-nil (c ∷ s) d h = cc

decimal_digits-ne-nil : (fuel n : ℕ) → decimal_digits (suc fuel) n ≢ []
unfolding decimal_digits
decimal_digits-ne-nil fuel n h = elim (Bool-cases (ltb n 10)) [
  | inl small ↦ ground arith
  | inr big ↦ append-ne-nil (decimal_digits fuel (n / 10)) (48 + n % 10) (ground arith)
]

decimal-ne-nil : (n : ℕ) → decimal n ≢ []
unfolding decimal
decimal-ne-nil n h =
    let one : n + 1 ≡ suc n = omega arith in decimal_digits-ne-nil n n (rw one at h)

-- A text that starts with a digit is read by its digits.
safe_stoi_digits :
    (s : Bytes) → s ≢ [] → all is_digit s ≡ true → safe_stoi s ≡ in_int (pos (digits_value 0 s))
unfolding safe_stoi
safe_stoi_digits [] h k = absurd (h refl)
safe_stoi_digits (c ∷ s) h k = ground arith

safe_stoi_minus :
    (s : Bytes)
    → s ≢ []
    → all is_digit s ≡ true
    → safe_stoi (b'-' ∷ s) ≡ in_int (neg (digits_value 0 s))
unfolding safe_stoi
safe_stoi_minus [] h k = absurd (h refl)
safe_stoi_minus (c ∷ s) h k = rw k refl

-- Every int is read back from its print.
pub safe_stoi-to_string : (z : ℤ) → IsInt z → safe_stoi (to_string z) ≡ some z
unfolding to_string
safe_stoi-to_string (pos n) h =
    rw
      (
        safe_stoi_digits (decimal n) (decimal-ne-nil n)
            (unfold decimal in decimal_digits-all (n + 1) n),
        digits_value-decimal n,
        lt→ltb n (2 ^ 31) h,
      )
      refl
safe_stoi-to_string (negsuc n) h =
    let one : n + 1 ≡ suc n = omega arith in
    rw
      (
        safe_stoi_minus (decimal (n + 1)) (decimal-ne-nil (n + 1))
            (unfold decimal in decimal_digits-all (n + 1 + 1) (n + 1)),
        digits_value-decimal (n + 1),
        one,
        lt→ltb n (2 ^ 31) h,
      )
      refl

-- The integer that a text writes in decimal: digits, with or without one sign.
pub data Numeral (s : Bytes) (z : ℤ) : Type 0 where
  plain : s ≢ [] → all is_digit s ≡ true → z ≡ pos (digits_value 0 s) → Numeral s z
  plus :
      (d : Bytes)
      → s ≡ b'+' ∷ d
      → d ≢ []
      → all is_digit d ≡ true
      → z ≡ pos (digits_value 0 d)
      → Numeral s z
  minus :
      (d : Bytes)
      → s ≡ b'-' ∷ d
      → d ≢ []
      → all is_digit d ≡ true
      → z ≡ neg (digits_value 0 d)
      → Numeral s z

in_int-IsInt : (y z : ℤ) → in_int y ≡ some z → (z ≡ y) × IsInt z
in_int-IsInt (pos n) z h = ground arith
in_int-IsInt (negsuc n) z h = ground arith

in_int_complete : (z : ℤ) → IsInt z → in_int z ≡ some z
in_int_complete (pos n) h = ground arith
in_int_complete (negsuc n) h = ground arith

safe_stoi_plus :
    (s : Bytes)
    → s ≢ []
    → all is_digit s ≡ true
    → safe_stoi (b'+' ∷ s) ≡ in_int (pos (digits_value 0 s))
unfolding safe_stoi
safe_stoi_plus [] h k = absurd (h refl)
safe_stoi_plus (c ∷ s) h k = rw k refl

safe_stoi_sound : (s : Bytes) (z : ℤ) → safe_stoi s ≡ some z → Numeral s z × IsInt z
unfolding safe_stoi
safe_stoi_sound [] z h = cc
safe_stoi_sound (c ∷ s) z h = elim (Bool-cases (c == b'-')) [
  | inl m ↦
      let read : in_int (neg (digits_value 0 s)) ≡ some z = ground arith in
      let (e, i) = in_int-IsInt (neg (digits_value 0 s)) z read in
      (minus s (ground arith) (λ q. ground arith) (ground arith) e, i)
  | inr n ↦ elim (Bool-cases (c == b'+')) [
    | inl p ↦
        let read : in_int (pos (digits_value 0 s)) ≡ some z = ground arith in
        let (e, i) = in_int-IsInt (pos (digits_value 0 s)) z read in
        (plus s (ground arith) (λ q. ground arith) (ground arith) e, i)
    | inr q ↦
        let read : in_int (pos (digits_value 0 (c ∷ s))) ≡ some z = ground arith in
        let (e, i) = in_int-IsInt (pos (digits_value 0 (c ∷ s))) z read in
        (plain (λ w. cc) (ground arith) e, i)
  ]
]

safe_stoi_complete : (s : Bytes) (z : ℤ) → Numeral s z → IsInt z → safe_stoi s ≡ some z
safe_stoi_complete s z (plain n d e) i =
    safe_stoi_digits s n d ∙ (ap in_int (sym e) ∙ in_int_complete z i)
safe_stoi_complete s z (plus t q n d e) i =
    rw q (safe_stoi_plus t n d) ∙ (ap in_int (sym e) ∙ in_int_complete z i)
safe_stoi_complete s z (minus t q n d e) i =
    rw q (safe_stoi_minus t n d) ∙ (ap in_int (sym e) ∙ in_int_complete z i)

-- safeStoi returns an int exactly for the texts that write one in decimal: one or more digits,
-- with at most one sign before them, and a value that fits 32 bits.
pub safe_stoi_iff : (s : Bytes) (z : ℤ) → (safe_stoi s ≡ some z) ↔ (Numeral s z × IsInt z)
safe_stoi_iff s z = (safe_stoi_sound s z, λ h. safe_stoi_complete s z h.0 h.1)
