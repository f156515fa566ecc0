-- ===== src/Router/Segment.antt =====
-- What the update of the transport checksum in ScreeningRouter/main.cpp leaves in the buffer: the
-- bytes that it does not touch, and a checksum that the receiver finds right.
pub mod Field
pub mod Updated
pub mod Right
use mathlib.Core.List.{append_assoc}
use bartimaeus_app.Base.{
  ℕ, ◌+◌, ◌-◌, ◌%◌, ◌/◌, ◌^◌, ◌≤◌, ◌<◌, ◌≡◌, refl, sym, ap, ◌∙◌, ◌⊎◌, inl, inr, Bool, true, false,
  suc, ◌∷◌, ◌++◌, some, none, arith, ◌==◌, ltb, if◌then◌else◌, length, length-append, All,
  All-append, [], Bool-cases,
}
use bartimaeus_app.Base.Bytes.{Bytes}
use bartimaeus_app.Hex.{IsByte}
use bartimaeus_app.Router.Acl.{ipproto_tcp, ipproto_udp}
use bartimaeus_app.Router.Checksum.{calculate_checksum, checksum_verifies, ones_verifies, IsEven}
use bartimaeus_app.Router.Memory.{
  Memory, load16_be, store16, bytes_from, store16-other, length-bytes_from, bytes_from-append,
  bytes_from-cong, bytes_from-IsByte, buffer_size,
}
use bartimaeus_app.Router.Transport.{
  header_length, pseudo_header, tcp_segment_length, tcp_checksum, udp_checksum,
  update_transport_checksum,
}
use bartimaeus_app.Router.Header.{
  header_length-cong, AreBytes, store16-AreBytes, calculate_checksum-lt,
}
use bartimaeus_app.Router.Pipeline.{has_ports}
use bartimaeus_app.Router.Updates.{load16_be-cong, tcp_fits, udp_fits, update_cases}

-- The place of the check field in the segment, and the length that the packet gives it.
abbrev pub check_offset : Memory → ℕ
check_offset m = if m 9 == ipproto_tcp then 16 else 6

abbrev pub segment_length : Memory → ℕ
segment_length m =
    if m 9 == ipproto_tcp then tcp_segment_length m else load16_be m (header_length m + 4)

-- Everything but the IP checksum, the addresses and the transport checksum is as it was.
pub record IsUntouched (m m' : Memory) : Type 0 where
  pub front : bytes_from m' 0 10 ≡ bytes_from m 0 10
  pub ports :
      bytes_from m' 20 (header_length m + check_offset m - 20)
      ≡ bytes_from m 20 (header_length m + check_offset m - 20)
  pub rest :
      (k : ℕ)
      → bytes_from m' (header_length m + check_offset m + 2) k
        ≡ bytes_from m (header_length m + check_offset m + 2) k

-- The check of a segment of a given length, behind a header.
abbrev pub IsRightAt : Memory → ℕ → ℕ → ℕ → Bytes → Type 0
IsRightAt m offset header len pseudo =
    (len < offset + 2) ⊎ (calculate_checksum (pseudo ++ bytes_from m header len) ≡ 0)

-- The receiver's check of the segment comes out right, unless its length leaves out the check field.
abbrev pub IsRight : Memory → Type 0
IsRight m =
    IsRightAt m (check_offset m) (header_length m) (segment_length m)
      (pseudo_header m (m 9) (segment_length m))
