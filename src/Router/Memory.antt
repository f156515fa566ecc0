-- ===== src/Router/Memory.antt =====
-- The packet buffer: `char buffer[2048]` as the byte at each offset, and loads and stores of the
-- fields of a header in it. The host is little-endian, the network order is big-endian.
use bartimaeus_app.Base.{
  ℕ, zero, suc, ◌+◌, ◌*◌, ◌/◌, ◌%◌, ◌^◌, ◌≤◌, ◌<◌, ◌≡◌, refl, ap, ◌⊎◌, [], ◌∷◌, ◌++◌, arith, ◌==◌,
  if◌then◌else◌, length, All,
}
use bartimaeus_app.Base.Bytes.{Bytes}

abbrev pub Memory : Type 0
Memory = ℕ → ℕ

abbrev pub buffer_size : ℕ
buffer_size = 2048

unfoldable pub store8 : Memory → ℕ → ℕ → Memory
store8 m p v = λ j. if j == p then v % 256 else m j

-- A uint16_t in the order of the host.
unfoldable pub store16 : Memory → ℕ → ℕ → Memory
unfolding store8
store16 m p v = store8 (store8 m p v) (p + 1) (v / 256)

-- An in_addr_t as the number that the host reads.
unfoldable pub load32 : Memory → ℕ → ℕ
load32 m p = m p + 256 * m (p + 1) + 65536 * m (p + 2) + 16777216 * m (p + 3)

unfoldable pub store32 : Memory → ℕ → ℕ → Memory
unfolding store8
store32 m p v =
    store8 (store8 (store8 (store8 m p v) (p + 1) (v / 256)) (p + 2) (v / 65536)) (p + 3)
      (v / 16777216)

-- ntohs of the field
unfoldable pub load16_be : Memory → ℕ → ℕ
load16_be m p = 256 * m p + m (p + 1)

unfoldable pub bytes_from : Memory → ℕ → ℕ → Bytes
bytes_from m p zero = []
bytes_from m p (suc n) = m p ∷ bytes_from m (p + 1) n

-- recvfrom or memcpy into the memory from its start: what lies behind the bytes stays.
unfoldable pub overwrite : Memory → ℕ → Bytes → Memory
overwrite m p [] = m
overwrite m p (c ∷ s) = λ j. if j == p then c else overwrite m (p + 1) s j

-- inet_pton of a.b.c.d, as the host reads it
abbrev pub ip : ℕ → ℕ → ℕ → ℕ → ℕ
ip a b c d = a + 256 * b + 65536 * c + 16777216 * d

module _ (m : Memory) where
  pub load32-store32 : (p v : ℕ) → v < 2 ^ 32 → load32 (store32 m p v) p ≡ v
  unfolding load32 store32
  load32-store32 p v h = ground arith

  pub store32-other : (p v j : ℕ) → (j < p) ⊎ (p + 4 ≤ j) → store32 m p v j ≡ m j
  unfolding store32
  store32-other p v j h = ground arith

  pub store16-other : (p v j : ℕ) → (j < p) ⊎ (p + 2 ≤ j) → store16 m p v j ≡ m j
  unfolding store16
  store16-other p v j h = ground arith

  pub length-bytes_from : (p n : ℕ) → length (bytes_from m p n) ≡ n
  unfolding bytes_from
  length-bytes_from p zero = refl
  length-bytes_from p (suc n) = ap suc (length-bytes_from (p + 1) n)

  pub bytes_from-append :
      (p k n : ℕ) → bytes_from m p (k + n) ≡ bytes_from m p k ++ bytes_from m (p + k) n
  unfolding bytes_from
  bytes_from-append p zero n =
      let e : 0 + n ≡ n = omega arith in let f : p + 0 ≡ p = omega arith in rw (e, f)
  bytes_from-append p (suc k) n =
      let e : suc k + n ≡ suc (k + n) = omega arith in
      let f : p + suc k ≡ p + 1 + k = omega arith in
      rw (e, f) (ap (◌∷◌ (m p)) (bytes_from-append (p + 1) k n))

-- The bytes of a range that two memories agree on.
pub bytes_from-cong :
    (m m' : Memory) (p n : ℕ)
    → ((j : ℕ) → p ≤ j → j < p + n → m j ≡ m' j)
    → bytes_from m p n ≡ bytes_from m' p n
unfolding bytes_from
bytes_from-cong m m' p zero h = refl
bytes_from-cong m m' p (suc n) h =
    rw (h p (omega arith) (omega arith))
      (ap (◌∷◌ (m' p)) (bytes_from-cong m m' (p + 1) n (λ j a b. h j (omega arith) (omega arith))))

pub bytes_from-IsByte :
    (m : Memory) (p n : ℕ) → ((j : ℕ) → m j < 256) → All (λ b. b < 256) (bytes_from m p n)
unfolding bytes_from
bytes_from-IsByte m p zero h = tt
bytes_from-IsByte m p (suc n) h = (h p, bytes_from-IsByte m (p + 1) n h)
