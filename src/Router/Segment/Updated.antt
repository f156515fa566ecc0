-- ===== src/Router/Segment/Updated.antt =====
-- The update of the transport checksum in ScreeningRouter/main.cpp, for TCP and UDP.
use bartimaeus_app.Base.{
  ℕ, ◌+◌, ◌≤◌, ◌<◌, ◌≡◌, refl, sym, ◌∙◌, ◌⊎◌, inl, inr, Bool, true, false, ◌++◌, some, none, arith,
  ◌==◌, if◌then◌else◌, Bool-cases,
}
use bartimaeus_app.Base.Bytes.{Bytes}
use bartimaeus_app.Router.Acl.{ipproto_tcp, ipproto_udp}
use bartimaeus_app.Router.Checksum.{calculate_checksum}
use bartimaeus_app.Router.Memory.{
  Memory, load16_be, store16, bytes_from, store16-other, bytes_from-cong, buffer_size,
}
use bartimaeus_app.Router.Transport.{
  header_length, pseudo_header, tcp_checksum, udp_checksum, update_transport_checksum,
}
use bartimaeus_app.Router.Header.{header_length-cong}
use bartimaeus_app.Router.Pipeline.{has_ports}
use bartimaeus_app.Router.Segment.{check_offset, segment_length, IsUntouched}
use bartimaeus_app.Router.Updates.{tcp_fits, udp_fits, update_cases}

-- The data of the checksum for a protocol, with the field at `offset` zeroed.
abbrev pub checked_data : Memory → ℕ → ℕ → ℕ → Bytes
checked_data m protocol offset len =
    pseudo_header m protocol len
    ++ bytes_from (store16 m (header_length m + offset) 0) (header_length m) len

-- How the transport checksum is stored.
pub record IsStoredAt (protocol offset len : ℕ) (m m' : Memory) : Type 0 where
  pub checksum : ℕ
  pub stored :
      m' ≡ store16 (store16 m (header_length m + offset) 0) (header_length m + offset) checksum
  pub fits : 12 + len ≤ buffer_size
  pub right :
      (checksum ≡ calculate_checksum (checked_data m protocol offset len))
      ⊎ ((calculate_checksum (checked_data m protocol offset len) ≡ 0) × (checksum ≡ 65535))

abbrev pub IsUpdated : Memory → Memory → Type 0
IsUpdated m m' = IsStoredAt (m 9) (check_offset m) (segment_length m) m m'

udp_checksum_cases :
    (m : Memory) (udp s : ℕ)
    → s
      ≡ calculate_checksum (
          pseudo_header m ipproto_udp (load16_be m (udp + 4))
          ++ bytes_from (store16 m (udp + 6) 0) udp (load16_be m (udp + 4)))
    → (udp_checksum m udp ≡ s) ⊎ ((s ≡ 0) × (udp_checksum m udp ≡ 65535))
unfolding udp_checksum
udp_checksum_cases m udp s e = elim (Bool-cases (s == 0)) [
  | inl zero ↦ inr (ground arith, rw (← e, zero) refl)
  | inr other ↦ inl (rw (← e, other) refl)
]

if-some : (b : Bool) (x y : Memory) → (if b then some x else none) ≡ some y → (b ≡ true) × (y ≡ x)
if-some true x y e = let same : x ≡ y = cc in (refl, sym same)
if-some false x y e = cc

tcp-IsUpdated :
    (m m' : Memory)
    → m 9 ≡ ipproto_tcp
    → (if tcp_fits m
        then some (
            store16
              (store16 m (header_length m + 16) 0)
              (header_length m + 16)
              (tcp_checksum m (header_length m)))
        else none)
      ≡ some m'
    → IsUpdated m m'
tcp-IsUpdated m m' tcp e =
    let (fits, same) = if-some (tcp_fits m) _ m' e in
    rw tcp (record {
      checksum = tcp_checksum m (header_length m);
      stored = same;
      fits = ground arith;
      right = inl (unfold tcp_checksum in refl);
    })

udp-IsUpdated :
    (m m' : Memory)
    → m 9 ≡ ipproto_udp
    → (if udp_fits m
        then some (
            store16
              (store16 m (header_length m + 6) 0)
              (header_length m + 6)
              (udp_checksum m (header_length m)))
        else none)
      ≡ some m'
    → IsUpdated m m'
udp-IsUpdated m m' udp e =
    let (fits, same) = if-some (udp_fits m) _ m' e in
    rw udp (record {
      checksum = udp_checksum m (header_length m);
      stored = same;
      fits = ground arith;
      right = udp_checksum_cases m (header_length m) _ refl;
    })

pub update-IsUpdated :
    (m m' : Memory) → has_ports m ≡ true → update_transport_checksum m ≡ some m' → IsUpdated m m'
update-IsUpdated m m' ports e = elim (update_cases m) [
  | inl (tcp, u) ↦ tcp-IsUpdated m m' tcp (sym u ∙ e)
  | inr (inl (udp, u)) ↦ udp-IsUpdated m m' udp (sym u ∙ e)
  | inr (inr (no_tcp, no_udp, u)) ↦ absurd (ground arith)
]

-- The bytes outside the check field stay.
pub updated-other :
    (m m' : Memory) (j : ℕ)
    → IsUpdated m m'
    → (j < header_length m + check_offset m) ⊎ (header_length m + check_offset m + 2 ≤ j)
    → m' j ≡ m j
updated-other m m' j u h =
    let p = header_length m + check_offset m in
    rw u.stored (store16-other (store16 m p 0) p u.checksum j h ∙ store16-other m p 0 j h)

pub check_offset-cong : (m m' : Memory) → m' 9 ≡ m 9 → check_offset m' ≡ check_offset m
check_offset-cong m m' e = rw e refl

pub check_offset_cases : (m : Memory) → (check_offset m ≡ 16) ⊎ (check_offset m ≡ 6)
check_offset_cases m = ground arith

-- The update, behind a step that changes nothing but bytes 10 to 19.
pub update-IsUntouched :
    (m t m' : Memory)
    → ((j : ℕ) → (j < 10) ⊎ (20 ≤ j) → t j ≡ m j)
    → 20 ≤ header_length m
    → has_ports t ≡ true
    → update_transport_checksum t ≡ some m'
    → IsUntouched m m'
update-IsUntouched m t m' other long ports e =
    let u = update-IsUpdated t m' ports e in
    let header = header_length-cong t m (other 0 (inl (omega arith))) in
    let place = check_offset-cong m t (other 9 (inl (omega arith))) in
    let offset = check_offset_cases m in
    record {
      front =
          bytes_from-cong m' m 0 10
            (λ j _ h. updated-other t m' j u (inl (omega arith)) ∙ other j (inl (omega arith)));
      ports =
          bytes_from-cong m' m 20 _
            (λ j l h. updated-other t m' j u (inl (omega arith)) ∙ other j (inr l));
      rest = λ k.
          bytes_from-cong m' m _ k
            (λ j l h. updated-other t m' j u (inr (omega arith)) ∙ other j (inr (omega arith)));
    }
