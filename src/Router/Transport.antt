-- ===== src/Router/Transport.antt =====
-- The checksums of a packet in the buffer: calculate_tcp_checksum and calculate_udp_checksum of
-- ScreeningRouter/main.cpp, and the recalculation of the IP checksum in the two pipelines. `none`
-- is an access outside `buffer` or `pseudo_packet`, which are 2048 bytes each: undefined behaviour.
use bartimaeus_app.Base.{
  ℕ, ◌+◌, ◌-◌, ◌*◌, ◌/◌, ◌%◌, Bool, ◌&&◌, [], ◌∷◌, ◌++◌, Option, none, some, leb, ◌==◌,
  if◌then◌else◌,
}
use bartimaeus_app.Base.Bytes.{Bytes}
use bartimaeus_app.Router.Acl.{ipproto_tcp, ipproto_udp}
use bartimaeus_app.Router.Checksum.{calculate_checksum}
use bartimaeus_app.Router.Memory.{Memory, buffer_size, store16, load16_be, bytes_from}

-- ip_header->ihl * 4, from the low half of the first byte
unfoldable pub header_length : Memory → ℕ
header_length m = m 0 % 16 * 4

-- The pseudo_header of 12 bytes, its length field in network order.
unfoldable pub pseudo_header : Memory → ℕ → ℕ → Bytes
unfolding bytes_from
pseudo_header m protocol len = bytes_from m 12 8 ++ 0 ∷ protocol ∷ len / 256 ∷ len % 256 ∷ []

-- memcpy(pseudo_packet + sizeof(psh), segment, len) within both arrays
abbrev pub copy_fits : ℕ → ℕ → Bool
copy_fits segment len = leb (12 + len) buffer_size && leb (segment + len) buffer_size

-- ntohs(tot_len) - ip_header_len, as a uint16_t
abbrev pub tcp_segment_length : Memory → ℕ
tcp_segment_length m = (load16_be m 2 + 65536 - header_length m) % 65536

-- The checksum of pseudo_packet, with the check field zeroed in the buffer.
unfoldable pub tcp_checksum : Memory → ℕ → ℕ
tcp_checksum m tcp =
    let len = tcp_segment_length m in
    calculate_checksum
      (pseudo_header m ipproto_tcp len ++ bytes_from (store16 m (tcp + 16) 0) tcp len)

-- The checksum comes back beside the buffer with the zeroed field.
unfoldable pub calculate_tcp_checksum : Memory → ℕ → Option (ℕ × Memory)
unfolding tcp_checksum pseudo_header
calculate_tcp_checksum m tcp =
    if copy_fits tcp (tcp_segment_length m)
    then some (tcp_checksum m tcp, store16 m (tcp + 16) 0)
    else none

-- A result of 0 is sent as 0xFFFF.
unfoldable pub udp_checksum : Memory → ℕ → ℕ
udp_checksum m udp =
    let len = load16_be m (udp + 4) in
    let checksum =
      calculate_checksum
        (pseudo_header m ipproto_udp len ++ bytes_from (store16 m (udp + 6) 0) udp len) in
    if checksum == 0 then 65535 else checksum

unfoldable pub calculate_udp_checksum : Memory → ℕ → Option (ℕ × Memory)
unfolding udp_checksum pseudo_header
calculate_udp_checksum m udp =
    if copy_fits udp (load16_be m (udp + 4))
    then some (udp_checksum m udp, store16 m (udp + 6) 0)
    else none

-- ip_header->check = 0; ip_header->check = calculate_checksum(ip_header, ip_header->ihl * 4);
unfoldable pub update_ip_checksum : Memory → Memory
update_ip_checksum m =
    let zeroed = store16 m 10 0 in
    store16 zeroed 10 (calculate_checksum (bytes_from zeroed 0 (header_length zeroed)))

-- tcp_header->check = calculate_tcp_checksum(ip_header, tcp_header);
store_tcp_checksum : ℕ → Option (ℕ × Memory) → Option Memory
store_tcp_checksum tcp none = none
store_tcp_checksum tcp (some (checksum, m)) = some (store16 m (tcp + 16) checksum)

store_udp_checksum : ℕ → Option (ℕ × Memory) → Option Memory
store_udp_checksum udp none = none
store_udp_checksum udp (some (checksum, m)) = some (store16 m (udp + 6) checksum)

-- The recalculation for the packet's transport protocol; there is none for the others.
unfoldable pub update_transport_checksum : Memory → Option Memory
unfolding store_tcp_checksum store_udp_checksum
update_transport_checksum m =
    let segment = header_length m in
    if m 9 == ipproto_tcp
    then store_tcp_checksum segment (calculate_tcp_checksum m segment)
    else if m 9 == ipproto_udp
    then store_udp_checksum segment (calculate_udp_checksum m segment)
    else some m
