-- ===== src/Router/Header.antt =====
-- How the checksum updates and the address stores leave the IP header.
use bartimaeus_app.Base.{
  ℕ, suc, ◌+◌, ◌-◌, ◌^◌, ◌/◌, ◌%◌, ◌≤◌, ◌<◌, ◌≡◌, refl, ap, ◌∙◌, ◌⊎◌, inl, inr, ◌∷◌, ◌++◌, arith,
}
use bartimaeus_app.Base.Bytes.{Bytes}
use bartimaeus_app.Router.Checksum.{calculate_checksum, checksum_verifies}
use bartimaeus_app.Router.Memory.{
  Memory, load16_be, load32, store8, store16, store32, bytes_from, store16-other, length-bytes_from,
  bytes_from-append, bytes_from-cong, bytes_from-IsByte,
}
use bartimaeus_app.Router.Transport.{header_length, update_ip_checksum}

abbrev pub AreBytes : Memory → Type 0
AreBytes m = (j : ℕ) → m j < 256

pub load32-lt : (m : Memory) (p : ℕ) → AreBytes m → load32 m p < 2 ^ 32
unfolding load32
load32-lt m p b = omega (arith, b p, b (p + 1), b (p + 2), b (p + 3))

pub load16_be-lt : (m : Memory) (p : ℕ) → AreBytes m → load16_be m p < 2 ^ 16
unfolding load16_be
load16_be-lt m p b = omega (arith, b p, b (p + 1))

store8-AreBytes : (m : Memory) (p v : ℕ) → AreBytes m → AreBytes (store8 m p v)
unfolding store8
store8-AreBytes m p v h j = ground (arith, h j)

pub store16-AreBytes : (m : Memory) (p v : ℕ) → AreBytes m → AreBytes (store16 m p v)
unfolding store16
store16-AreBytes m p v h =
    store8-AreBytes (store8 m p v) (p + 1) (v / 256) (store8-AreBytes m p v h)

pub update_ip_checksum-AreBytes : (m : Memory) → AreBytes m → AreBytes (update_ip_checksum m)
unfolding update_ip_checksum
update_ip_checksum-AreBytes m b = store16-AreBytes _ 10 _ (store16-AreBytes m 10 0 b)

pub store32-AreBytes : (m : Memory) (p v : ℕ) → AreBytes m → AreBytes (store32 m p v)
unfolding store32
store32-AreBytes m p v h =
    store8-AreBytes _ _ _ (store8-AreBytes _ _ _ (store8-AreBytes _ _ _ (store8-AreBytes m p v h)))

pub header_length-cong : (m m' : Memory) → m 0 ≡ m' 0 → header_length m ≡ header_length m'
unfolding header_length
header_length-cong m m' h = rw h

-- The bytes before and behind the checksum field.
pub update_ip_checksum-other :
    (m : Memory) (j : ℕ) → (j < 10) ⊎ (12 ≤ j) → update_ip_checksum m j ≡ m j
unfolding update_ip_checksum
update_ip_checksum-other m j h = store16-other (store16 m 10 0) 10 _ j h ∙ store16-other m 10 0 j h

pub header_length-update_ip_checksum :
    (m : Memory) → header_length (update_ip_checksum m) ≡ header_length m
header_length-update_ip_checksum m =
    header_length-cong (update_ip_checksum m) m (update_ip_checksum-other m 0 (inl (omega arith)))

header_split :
    (m : Memory) (n : ℕ)
    → bytes_from m 0 (12 + n) ≡ bytes_from m 0 10 ++ m 10 ∷ m 11 ∷ bytes_from m 12 n
header_split m n =
    let e : 12 + n ≡ 10 + suc (suc n) = omega arith in
    rw (e, bytes_from-append m 0 10 (suc (suc n))) (unfold bytes_from in refl)

module _ (z : Memory) (c n : ℕ) where
  header_stored :
      c < 65536
      → bytes_from (store16 z 10 c) 0 (12 + n)
        ≡ bytes_from z 0 10 ++ c % 256 ∷ c / 256 ∷ bytes_from z 12 n
  header_stored h =
      let front =
        bytes_from-cong (store16 z 10 c) z 0 10
          (λ j _ b. store16-other z 10 c j (inl (omega arith))) in
      let back =
        bytes_from-cong (store16 z 10 c) z 12 n
          (λ j a _. store16-other z 10 c j (inr (omega arith))) in
      let low : store16 z 10 c 10 ≡ c % 256 = unfold store16 in ground arith in
      let high : store16 z 10 c 11 ≡ c / 256 = unfold store16 in ground arith in
      rw (header_split (store16 z 10 c) n, front, back, low, high)

pub calculate_checksum-lt : (s : Bytes) → calculate_checksum s < 65536
unfolding calculate_checksum
calculate_checksum-lt s = omega arith

module _ (z : Memory) (n c : ℕ) where
  -- A checksum that was computed with the field zeroed is right when it is stored there.
  stored_verifies :
      AreBytes z
      → z 10 ≡ 0
      → z 11 ≡ 0
      → n ≤ 48
      → c ≡ calculate_checksum (bytes_from z 0 (12 + n))
      → calculate_checksum (bytes_from (store16 z 10 c) 0 (12 + n)) ≡ 0
  stored_verifies h low high short e =
      let small : c < 65536 = rw e (calculate_checksum-lt (bytes_from z 0 (12 + n))) in
      let zeroed : bytes_from z 0 (12 + n) ≡ bytes_from z 0 10 ++ 0 ∷ 0 ∷ bytes_from z 12 n =
        header_split z n ∙ rw (low, high) refl in
      rw (header_stored z c n small) (
        checksum_verifies (bytes_from z 0 10) (bytes_from z 12 n) c
          (e ∙ ap calculate_checksum zeroed) (omega (arith, length-bytes_from z 0 10))
          (bytes_from-IsByte z 0 10 h) (bytes_from-IsByte z 12 n h)
          (omega (arith, length-bytes_from z 0 10, length-bytes_from z 12 n)))

header_length-le : (m : Memory) → header_length m ≤ 60
unfolding header_length
header_length-le m = omega arith

-- After the update the receiver's check of the IP header comes out right.
pub update_ip_checksum_verifies :
    (m : Memory)
    → AreBytes m
    → 20 ≤ header_length m
    → calculate_checksum (bytes_from (update_ip_checksum m) 0 (header_length m)) ≡ 0
unfolding update_ip_checksum
update_ip_checksum_verifies m h long =
    let z = store16 m 10 0 in
    let same : header_length z ≡ header_length m =
      header_length-cong z m (store16-other m 10 0 0 (inl (omega arith))) in
    let split : header_length m ≡ 12 + (header_length m - 12) = omega arith in
    let zero_low : z 10 ≡ 0 = unfold store16 in ground arith in
    let zero_high : z 11 ≡ 0 = unfold store16 in ground arith in
    rw (same, split)
      (stored_verifies z (header_length m - 12)
        (calculate_checksum (bytes_from z 0 (12 + (header_length m - 12))))
        (store16-AreBytes m 10 0 h) zero_low zero_high (omega (arith, header_length-le m)) refl)
