-- ===== src/Router/Checksum.antt =====
-- calculate_checksum of ScreeningRouter/main.cpp, on the little-endian hosts that it is built for.
use bartimaeus_app.Hex.{IsByte}
use bartimaeus_app.Base.{
  ℕ, zero, suc, ◌+◌, ◌-◌, ◌*◌, ◌/◌, ◌%◌, ◌^◌, ◌≤◌, ◌<◌, ◌≡◌, sym, ◌∙◌, [], ◌∷◌, ◌++◌, Option, none,
  some, arith, ◌==◌, if◌then◌else◌, length, length-append, All, All-append,
}
use bartimaeus_app.Base.Bytes.{Bytes}

-- The loop over 16-bit words, and the odd byte; `sum` is a uint32_t.
unfoldable pub sum_words : ℕ → Bytes → ℕ
sum_words sum [] = sum
sum_words sum (a ∷ []) = (sum + a) % 2 ^ 32
sum_words sum (a ∷ b ∷ rest) = sum_words ((sum + (a + 256 * b)) % 2 ^ 32) rest

-- while (sum >> 16) sum = (sum & 0xFFFF) + (sum >> 16); `none` means that the fuel ran out.
unfoldable pub fold_carries : ℕ → ℕ → Option ℕ
fold_carries zero sum = none
fold_carries (suc fuel) sum =
    let rest = fold_carries fuel (sum % 2 ^ 16 + sum / 2 ^ 16) in
    if sum / 2 ^ 16 == 0 then some sum else rest

-- static_cast<uint16_t>(~sum) of the 32-bit sum
abbrev complement16 : ℕ → ℕ
complement16 sum = (2 ^ 32 - 1 - sum) % 2 ^ 16

abbrev or_zero : Option ℕ → ℕ
or_zero none = 0
or_zero (some n) = n

-- Three tests of the loop are enough for any 32-bit sum.
unfoldable pub calculate_checksum : Bytes → ℕ
unfolding sum_words fold_carries
calculate_checksum buf = complement16 (or_zero (fold_carries 3 (sum_words 0 buf)))

-- The sum of ones' complement arithmetic: residues of 65535, where 0 is 0 alone.
abbrev pub ones_sum : ℕ → ℕ
ones_sum n = if n == 0 then 0 else (n - 1) % 65535 + 1

-- The loop that folds the carries ends within three tests on every uint32_t, with the sum of ones'
-- complement arithmetic.
fold_carries-ones_sum : (sum : ℕ) → sum < 2 ^ 32 → fold_carries 3 sum ≡ some (ones_sum sum)
unfolding fold_carries
fold_carries-ones_sum sum h = ground arith

-- The words of the data, added up with no bound.
pub word_sum : Bytes → ℕ
word_sum [] = 0
word_sum (a ∷ []) = a
word_sum (a ∷ b ∷ rest) = a + 256 * b + word_sum rest

word_sum-le : (buf : Bytes) → All IsByte buf → word_sum buf ≤ 65536 * length buf
unfolding word_sum
word_sum-le [] h = omega arith
word_sum-le (a ∷ []) h = omega arith
word_sum-le (a ∷ b ∷ rest) h = omega (arith, word_sum-le rest h.1.1)

-- While it fits, the accumulator is the exact sum.
sum_words-word_sum :
    (buf : Bytes) (acc : ℕ) → acc + word_sum buf < 2 ^ 32 → sum_words acc buf ≡ acc + word_sum buf
unfolding sum_words word_sum
sum_words-word_sum [] acc h = omega arith
sum_words-word_sum (a ∷ []) acc h = omega arith
sum_words-word_sum (a ∷ b ∷ rest) acc h =
    let exact : (acc + (a + 256 * b)) % 2 ^ 32 ≡ acc + (a + 256 * b) = omega arith in
    rw exact (omega (arith, sum_words-word_sum rest (acc + (a + 256 * b)) (omega arith)))

pub checksum_closed :
    (buf : Bytes)
    → All IsByte buf
    → length buf ≤ 65535
    → calculate_checksum buf ≡ 65535 - ones_sum (word_sum buf)
unfolding calculate_checksum
checksum_closed buf h n =
    let fits : word_sum buf < 2 ^ 32 = omega (arith, word_sum-le buf h) in
    let exact : sum_words 0 buf ≡ word_sum buf =
      sum_words-word_sum buf 0 (omega arith) ∙ omega arith in
    rw (exact, fold_carries-ones_sum (word_sum buf) fits) (ground arith)

abbrev pub IsEven : Bytes → Type 0
IsEven s = length s % 2 ≡ 0

word_sum-field :
    (pre post : Bytes) (lo hi : ℕ)
    → IsEven pre
    → word_sum (pre ++ lo ∷ hi ∷ post) ≡ word_sum (pre ++ 0 ∷ 0 ∷ post) + (lo + 256 * hi)
unfolding word_sum
word_sum-field [] post lo hi e = omega arith
word_sum-field (a ∷ []) post lo hi e = absurd (omega arith)
word_sum-field (a ∷ b ∷ pre) post lo hi e =
    omega (arith, word_sum-field pre post lo hi (omega arith))

ones_sum_complement : (s : ℕ) → ones_sum (s + (65535 - ones_sum s)) ≡ 65535
ones_sum_complement s = ground arith

-- The checksum of up to 65535 bytes, computed with its field zeroed and then stored there, at an
-- even place, makes the receiver's check come out right: the checksum of the whole is 0.
pub checksum_verifies :
    (pre post : Bytes) (c : ℕ)
    → c ≡ calculate_checksum (pre ++ 0 ∷ 0 ∷ post)
    → IsEven pre
    → All IsByte pre
    → All IsByte post
    → length pre + length post ≤ 65533
    → calculate_checksum (pre ++ c % 256 ∷ c / 256 ∷ post) ≡ 0
checksum_verifies pre post c e even hp hq n =
    let short : length (pre ++ 0 ∷ 0 ∷ post) ≤ 65535 =
      omega (arith, length-append pre (0 ∷ 0 ∷ post)) in
    let s : ℕ = word_sum (pre ++ 0 ∷ 0 ∷ post) in
    let zeroed : c ≡ 65535 - ones_sum s =
      e
      ∙ checksum_closed (pre ++ 0 ∷ 0 ∷ post)
          (All-append IsByte pre (0 ∷ 0 ∷ post) hp (omega arith, (omega arith, hq))) short in
    let bytes_ok : All IsByte (pre ++ c % 256 ∷ c / 256 ∷ post) =
      All-append IsByte pre (c % 256 ∷ c / 256 ∷ post) hp (omega arith, (omega arith, hq)) in
    let whole : word_sum (pre ++ c % 256 ∷ c / 256 ∷ post) ≡ s + (65535 - ones_sum s) =
      omega (arith, word_sum-field pre post (c % 256) (c / 256) even) in
    rw
      (
        checksum_closed (pre ++ c % 256 ∷ c / 256 ∷ post) bytes_ok
            (omega (arith, length-append pre (c % 256 ∷ c / 256 ∷ post))),
        whole,
        ones_sum_complement s,
      )
      (omega arith)

-- So does 65535, which udp stores for a checksum of 0.
pub ones_verifies :
    (pre post : Bytes)
    → calculate_checksum (pre ++ 0 ∷ 0 ∷ post) ≡ 0
    → IsEven pre
    → All IsByte pre
    → All IsByte post
    → length pre + length post ≤ 65533
    → calculate_checksum (pre ++ 255 ∷ 255 ∷ post) ≡ 0
ones_verifies pre post e even hp hq n =
    let s : ℕ = word_sum (pre ++ 0 ∷ 0 ∷ post) in
    let zeroed : 0 ≡ 65535 - ones_sum s =
      sym e
      ∙ checksum_closed (pre ++ 0 ∷ 0 ∷ post)
          (All-append IsByte pre (0 ∷ 0 ∷ post) hp (omega arith, (omega arith, hq)))
          (omega (arith, length-append pre (0 ∷ 0 ∷ post))) in
    let whole : word_sum (pre ++ 255 ∷ 255 ∷ post) ≡ s + 65535 =
      word_sum-field pre post 255 255 even in
    rw
      (
        checksum_closed (pre ++ 255 ∷ 255 ∷ post)
            (All-append IsByte pre (255 ∷ 255 ∷ post) hp (omega arith, (omega arith, hq)))
            (omega (arith, length-append pre (255 ∷ 255 ∷ post))),
        whole,
      )
      (ground arith)
