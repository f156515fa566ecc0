-- ===== src/Router/Segment/Field.antt =====
-- A check field within data that a header's fields are summed with: TCP and UDP in
-- ScreeningRouter/main.cpp.
use mathlib.Core.List.{append_assoc}
use bartimaeus_app.Base.{
  ℕ, ◌+◌, ◌%◌, ◌/◌, ◌≤◌, ◌<◌, ◌≡◌, refl, sym, ap, ◌∙◌, ◌⊎◌, inl, inr, suc, ◌∷◌, ◌++◌, arith, length,
  length-append, All, All-append,
}
use bartimaeus_app.Base.Bytes.{Bytes}
use bartimaeus_app.Hex.{IsByte}
use bartimaeus_app.Router.Checksum.{calculate_checksum, checksum_verifies, ones_verifies, IsEven}
use bartimaeus_app.Router.Memory.{
  Memory, store16, bytes_from, store16-other, length-bytes_from, bytes_from-append, bytes_from-cong,
  bytes_from-IsByte,
}
use bartimaeus_app.Router.Header.{AreBytes, store16-AreBytes, calculate_checksum-lt}

module _ (m : Memory) (q k n : ℕ) where
  segment_split :
      bytes_from m q (k + 2 + n)
      ≡ bytes_from m q k ++ m (q + k) ∷ m (q + k + 1) ∷ bytes_from m (q + k + 2) n
  segment_split =
      let e : k + 2 + n ≡ k + suc (suc n) = omega arith in
      let behind : q + k + 1 + 1 ≡ q + k + 2 = omega arith in
      rw (e, bytes_from-append m q k (suc (suc n))) (unfold bytes_from in rw behind refl)

module _ (z : Memory) (q k n c : ℕ) where
  segment_stored :
      c < 65536
      → bytes_from (store16 z (q + k) c) q (k + 2 + n)
        ≡ bytes_from z q k ++ c % 256 ∷ c / 256 ∷ bytes_from z (q + k + 2) n
  segment_stored h =
      let front =
        bytes_from-cong (store16 z (q + k) c) z q k
          (λ j _ b. store16-other z (q + k) c j (inl (omega arith))) in
      let back =
        bytes_from-cong (store16 z (q + k) c) z (q + k + 2) n
          (λ j a _. store16-other z (q + k) c j (inr (omega arith))) in
      let low : store16 z (q + k) c (q + k) ≡ c % 256 = unfold store16 in ground arith in
      let high : store16 z (q + k) c (q + k + 1) ≡ c / 256 = unfold store16 in ground arith in
      rw (segment_split (store16 z (q + k) c) q k n, front, back, low, high)

-- What is stored is the checksum with the field zeroed, or 65535 for a checksum of 0.
abbrev pub IsStored : Bytes → Bytes → ℕ → Type 0
IsStored pre post c =
    (c ≡ calculate_checksum (pre ++ 0 ∷ 0 ∷ post))
    ⊎ ((calculate_checksum (pre ++ 0 ∷ 0 ∷ post) ≡ 0) × (c ≡ 65535))

stored_verifies :
    (pre post : Bytes) (c : ℕ)
    → IsStored pre post c
    → IsEven pre
    → All IsByte pre
    → All IsByte post
    → length pre + length post ≤ 65533
    → calculate_checksum (pre ++ c % 256 ∷ c / 256 ∷ post) ≡ 0
stored_verifies pre post c (inl e) even hp hq n = checksum_verifies pre post c e even hp hq n
stored_verifies pre post c (inr (zero, e)) even hp hq n =
    rw e (ones_verifies pre post zero even hp hq n)

IsStored-lt : (pre post : Bytes) (c : ℕ) → IsStored pre post c → c < 65536
IsStored-lt pre post c (inl e) = rw e (calculate_checksum-lt (pre ++ 0 ∷ 0 ∷ post))
IsStored-lt pre post c (inr (_, e)) = omega arith

module _ (m : Memory) (pseudo : Bytes) (q k n c : ℕ) where
  -- The buffer with the check field zeroed, and the data of the checksum without the field.
  abbrev pub zeroed : Memory
  zeroed = store16 m (q + k) 0

  abbrev pub pre : Bytes
  pre = pseudo ++ bytes_from zeroed q k

  abbrev pub post : Bytes
  post = bytes_from zeroed (q + k + 2) n

  pub summed :
      calculate_checksum (pseudo ++ bytes_from zeroed q (k + 2 + n))
      ≡ calculate_checksum (pre ++ 0 ∷ 0 ∷ post)
  summed =
      let low : zeroed (q + k) ≡ 0 = unfold store16 in ground arith in
      let high : zeroed (q + k + 1) ≡ 0 = unfold store16 in ground arith in
      rw (segment_split zeroed q k n, low, high)
        (ap calculate_checksum (sym (append_assoc pseudo (bytes_from zeroed q k) (0 ∷ 0 ∷ post))))

  pub segment_verifies :
      AreBytes m
      → All IsByte pseudo
      → IsEven pseudo
      → k % 2 ≡ 0
      → length pseudo + (k + 2 + n) ≤ 65535
      → IsStored pre post c
      → calculate_checksum (pseudo ++ bytes_from (store16 zeroed (q + k) c) q (k + 2 + n)) ≡ 0
  segment_verifies b hp even even_k short e =
      let z_bytes = store16-AreBytes m (q + k) 0 b in
      let size : length pre ≡ length pseudo + k =
        length-append pseudo (bytes_from zeroed q k)
        ∙ ap (◌+◌ (length pseudo)) (length-bytes_from zeroed q k) in
      rw
        (
          segment_stored zeroed q k n c (IsStored-lt pre post c e),
          ← append_assoc pseudo (bytes_from zeroed q k) (c % 256 ∷ c / 256 ∷ post),
        )
        (stored_verifies pre post c e (omega (arith, size))
          (All-append IsByte pseudo (bytes_from zeroed q k) hp
            (bytes_from-IsByte zeroed q k z_bytes))
          (bytes_from-IsByte zeroed (q + k + 2) n z_bytes)
          (omega (arith, size, length-bytes_from zeroed (q + k + 2) n)))
