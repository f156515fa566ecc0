-- ===== src/Router/Pipeline.antt =====
-- The two pipelines of main's event loop in ScreeningRouter/main.cpp.
use bartimaeus_app.Base.{
  ℕ, ◌+◌, Bool, true, ◌||◌, List, [], ◌∷◌, ◌++◌, Option, none, some, ltb, ◌==◌, if◌then◌else◌,
  length, take, ℕ_discrete,
}
use bartimaeus_app.Base.Bytes.{Bytes}
use bartimaeus_app.Base.Map.{Map, find, insert}
use bartimaeus_app.Router.Acl.{
  allow, deny, FiveTuple, evaluate_acl, acl_rules, ipproto_tcp, ipproto_udp,
}
use bartimaeus_app.Router.Memory.{
  Memory, buffer_size, load16_be, load32, store32, bytes_from, overwrite, ip,
}
use bartimaeus_app.Router.Transport.{header_length, update_ip_checksum, update_transport_checksum}

pub record NatSession : Type 0 where
  pub client_ip : ℕ
  pub client_port : ℕ

-- What main keeps from one packet to the next.
pub record Router : Type 0 where
  pub external_interface_index : ℕ
  pub dmz_ifindex : ℕ
  pub buffer : Memory
  pub session_table : Map ℕ NatSession
  pub proxy_mac : Bytes
  pub has_proxy_mac : Bool
  pub gateway_mac : Bytes
  pub has_gateway_mac : Bool

-- What recvfrom on a packet socket delivers, with the sockaddr_ll that it fills.
pub record Frame : Type 0 where
  pub payload : Bytes
  pub is_outgoing : Bool
  pub sll_addr : Bytes

-- A call of sendto.
pub record Sent : Type 0 where
  pub sll_ifindex : ℕ
  pub sll_addr : Bytes
  pub content : Bytes

-- `dropped` is a `continue` of the loop.
pub data Outcome : Type 0 where
  fault : Outcome
  dropped : Router → Outcome
  forwarded : Router → Sent → Outcome

abbrev pub router_external_ip : ℕ
router_external_ip = ip 10 10 0 2

abbrev pub router_dmz_ip : ℕ
router_dmz_ip = ip 10 20 0 2

abbrev pub proxy_ip : ℕ
proxy_ip = ip 10 20 0 3

abbrev pub min_header : ℕ
min_header = 20

-- recvfrom cuts what does not fit the buffer.
abbrev pub received : Frame → Bytes
received f = take buffer_size f.payload

abbrev pub receive : Router → Frame → Router
receive r f = record r { buffer = overwrite r.buffer 0 (received f) }

abbrev pub learn_gateway : Router → Frame → Router
learn_gateway r f =
    if r.has_gateway_mac then r else record r { gateway_mac = f.sll_addr; has_gateway_mac = true }

abbrev pub learn_proxy : Router → Frame → Router
learn_proxy r f =
    if r.has_proxy_mac then r else record r { proxy_mac = f.sll_addr; has_proxy_mac = true }

abbrev pub has_ports : Memory → Bool
has_ports m = m 9 == ipproto_tcp || m 9 == ipproto_udp

-- Steps 4 and 5: the ports are 0 for the protocols that have none.
unfoldable pub five_tuple : Memory → FiveTuple
five_tuple m = record {
  protocol = m 9;
  src_ip = load32 m 12;
  dst_ip = load32 m 16;
  src_port = if has_ports m then load16_be m (header_length m) else 0;
  dst_port = if has_ports m then load16_be m (header_length m + 2) else 0;
}

-- Step 6: the destination becomes the proxy, and the source the router.
unfoldable pub translate_inbound : Memory → Memory
translate_inbound m = store32 (store32 m 16 proxy_ip) 12 router_dmz_ip

-- Step 8: a TCP or UDP source port stands for the client.
unfoldable pub register_session : Memory → ℕ → Map ℕ NatSession → Map ℕ NatSession
register_session m original_client_ip table =
    let client_port = load16_be m (header_length m) in
    if has_ports m
    then insert ℕ_discrete client_port
        (record { client_ip = original_client_ip; client_port = client_port }) table
    else table

abbrev pub flood : Bytes
flood = 255 ∷ 255 ∷ 255 ∷ 255 ∷ 255 ∷ 255 ∷ []

-- Step 9
abbrev pub send_to_dmz : Router → ℕ → Sent
send_to_dmz r data_size = record {
  sll_ifindex = r.dmz_ifindex;
  sll_addr = if r.has_proxy_mac then r.proxy_mac else flood;
  content = bytes_from r.buffer 0 data_size;
}

finish_inbound : Router → Map ℕ NatSession → ℕ → Option Memory → Outcome
finish_inbound r table data_size none = fault
finish_inbound r table data_size (some m) =
    let r' = record r { buffer = m; session_table = table } in
    forwarded r' (send_to_dmz r' data_size)

-- Steps 6 to 9, for a packet that the rules let through.
unfoldable pub forward_inbound : Router → ℕ → Outcome
unfolding finish_inbound
forward_inbound r data_size =
    let original_client_ip = load32 r.buffer 12 in
    let m = update_ip_checksum (translate_inbound r.buffer) in
    finish_inbound r (register_session m original_client_ip r.session_table) data_size
      (update_transport_checksum m)

-- Steps 3-1 to 5
unfoldable pub screen_inbound : Router → ℕ → Outcome
screen_inbound r data_size =
    if load32 r.buffer 12 == router_external_ip
    then dropped r
    else elim (evaluate_acl acl_rules (five_tuple r.buffer)).action [
      | deny ↦ dropped r
      | allow ↦ forward_inbound r data_size
    ]

-- [fds[0]]; `none` for a recvfrom that fails.
unfoldable pub inbound : Router → Option Frame → Outcome
inbound r none = dropped r
inbound r (some f) =
    if ltb (length (received f)) min_header
    then dropped (receive r f)
    else if f.is_outgoing
    then dropped (receive r f)
    else screen_inbound (learn_gateway (receive r f) f) (length (received f))

-- Steps 6 to 9 of the way back. The gateway's address is sent to whether it was learned or not.
send_to_gateway : Router → ℕ → Option Memory → Outcome
send_to_gateway r data_size none = fault
send_to_gateway r data_size (some m) =
    forwarded (record r { buffer = m })
      (record {
        sll_ifindex = r.external_interface_index;
        sll_addr = r.gateway_mac;
        content = bytes_from m 0 data_size;
      })

unfoldable pub finish_outbound : Router → ℕ → Outcome
unfolding send_to_gateway
finish_outbound r data_size =
    send_to_gateway r data_size (update_transport_checksum (update_ip_checksum r.buffer))

-- Step 6-1: the destination port of the reply is looked up.
unfoldable pub restore_client : Router → ℕ → Outcome
restore_client r data_size =
    let reply_port = load16_be r.buffer (header_length r.buffer + 2) in
    if has_ports r.buffer
    then elim (find ℕ_discrete reply_port r.session_table) [
      | none ↦ dropped r
      | some it ↦ finish_outbound (record r { buffer = store32 r.buffer 16 it.client_ip }) data_size
    ]
    else finish_outbound r data_size

unfoldable pub screen_outbound : Router → ℕ → Outcome
screen_outbound r data_size =
    if load32 r.buffer 12 == proxy_ip
    then restore_client (record r { buffer = store32 r.buffer 12 router_external_ip }) data_size
    else dropped r

-- [fds[1]]
unfoldable pub outbound : Router → Option Frame → Outcome
outbound r none = dropped r
outbound r (some f) =
    if ltb (length (received f)) min_header
    then dropped (receive r f)
    else if f.is_outgoing
    then dropped (receive r f)
    else screen_outbound (learn_proxy (receive r f) f) (length (received f))

-- One round of the loop: what each socket has ready, `none` for not ready. A packet dropped on the
-- way in ends the round, so the DMZ socket waits for the next one.
pub data Round : Type 0 where
  stopped : Round
  continued : Router → List Sent → Round

abbrev pub after_outbound : List Sent → Outcome → Round
after_outbound sent fault = stopped
after_outbound sent (dropped r) = continued r sent
after_outbound sent (forwarded r s) = continued r (sent ++ s ∷ [])

abbrev pub dmz_part : Router → List Sent → Option (Option Frame) → Round
dmz_part r sent none = continued r sent
dmz_part r sent (some f) = after_outbound sent (outbound r f)

abbrev pub after_inbound : Option (Option Frame) → Outcome → Round
after_inbound dmz fault = stopped
after_inbound dmz (dropped r) = continued r []
after_inbound dmz (forwarded r s) = dmz_part r (s ∷ []) dmz

unfoldable pub round : Router → Option (Option Frame) → Option (Option Frame) → Round
round r none dmz = dmz_part r [] dmz
round r (some f) dmz = after_inbound dmz (inbound r f)
