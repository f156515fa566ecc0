-- ===== src/Router/Updates.antt =====
-- Which bytes the transport checksum changes, and when it is not computed at all.
use bartimaeus_app.Base.{
  ℕ, ◌+◌, ◌<◌, ◌≡◌, refl, ◌∙◌, ◌≢◌, ◌⊎◌, inl, inr, Bool, none, some, arith, ◌==◌, if◌then◌else◌,
  Bool-cases,
}
use bartimaeus_app.Router.Acl.{ipproto_tcp, ipproto_udp}
use bartimaeus_app.Router.Memory.{Memory, store16, load16_be, load32, store16-other}
use bartimaeus_app.Router.Transport.{
  header_length, copy_fits, tcp_segment_length, calculate_tcp_checksum, calculate_udp_checksum,
  tcp_checksum, udp_checksum, update_transport_checksum,
}

module _ (m : Memory) where
  abbrev pub tcp_fits : Bool
  tcp_fits = copy_fits (header_length m) (tcp_segment_length m)

  abbrev pub udp_fits : Bool
  udp_fits = copy_fits (header_length m) (load16_be m (header_length m + 4))

  -- Which update is made, and that none is made when the packet does not fit the arrays.
  pub update_cases :
      ((m 9 ≡ ipproto_tcp)
        × (update_transport_checksum m ≡ (
            if tcp_fits
            then some (
                store16
                  (store16 m (header_length m + 16) 0)
                  (header_length m + 16)
                  (tcp_checksum m (header_length m)))
            else none)))
      ⊎ ((m 9 ≡ ipproto_udp)
          × (update_transport_checksum m ≡ (
              if udp_fits
              then some (
                  store16
                    (store16 m (header_length m + 6) 0)
                    (header_length m + 6)
                    (udp_checksum m (header_length m)))
              else none)))
      ⊎ ((m 9 ≢ ipproto_tcp) × (m 9 ≢ ipproto_udp) × (update_transport_checksum m ≡ some m))
  update_cases = elim (Bool-cases (m 9 == ipproto_tcp)) [
    | inl t ↦ inl (
      ground arith,
      unfold update_transport_checksum calculate_tcp_checksum in rw t (ground arith),
    )
    | inr n ↦ elim (Bool-cases (m 9 == ipproto_udp)) [
      | inl u ↦ inr (
          inl (
            ground arith,
            unfold update_transport_checksum calculate_udp_checksum in rw (n, u) (ground arith),
          ))
      | inr w ↦
          inr (inr (ground arith, ground arith, unfold update_transport_checksum in rw (n, w) refl))
    ]
  ]

  twice-other : (p c j : ℕ) → j < p → store16 (store16 m p 0) p c j ≡ m j
  twice-other p c j h = store16-other (store16 m p 0) p c j (inl h) ∙ store16-other m p 0 j (inl h)

  -- The transport checksum is written behind the ports: the bytes before it stay.
  pub update_transport_checksum-other :
      (m' : Memory) (j : ℕ)
      → update_transport_checksum m ≡ some m'
      → j < header_length m + 6
      → m' j ≡ m j
  update_transport_checksum-other m' j e h = elim update_cases [
    | inl (_, u) ↦
        ground (arith, twice-other (header_length m + 16) (tcp_checksum m (header_length m)) j)
    | inr (inl (_, u)) ↦
        ground (arith, twice-other (header_length m + 6) (udp_checksum m (header_length m)) j)
    | inr (inr (_, _, u)) ↦ ground arith
  ]

pub load32-cong :
    (m m' : Memory) (p : ℕ)
    → m p ≡ m' p
    → m (p + 1) ≡ m' (p + 1)
    → m (p + 2) ≡ m' (p + 2)
    → m (p + 3) ≡ m' (p + 3)
    → load32 m p ≡ load32 m' p
unfolding load32
load32-cong m m' p a b c d = rw (a, b, c, d)

pub load16_be-cong :
    (m m' : Memory) (p : ℕ) → m p ≡ m' p → m (p + 1) ≡ m' (p + 1) → load16_be m p ≡ load16_be m' p
unfolding load16_be
load16_be-cong m m' p a b = rw (a, b)
