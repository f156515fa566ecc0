-- ===== src/Tests/RouterTests.antt =====
-- The router's theorems, at a packet of a client and its reply.
use bartimaeus_app.Base.{
  ℕ, ◌+◌, ◌≤◌, ◌≡◌, refl, ◌↔◌, true, false, [], ◌∷◌, some, arith, length, all, ltb, ℕ_discrete,
}
use bartimaeus_app.Base.Bytes.{Bytes}
use bartimaeus_app.Base.Map.{find, insert}
use bartimaeus_app.Router.Acl.{evaluate_acl, acl_rules, ipproto_tcp}
use bartimaeus_app.Router.Memory.{
  Memory, store16, store32, overwrite, load32, load16_be, ip, bytes_from,
}
use bartimaeus_app.Router.Transport.{
  header_length, update_ip_checksum, update_transport_checksum, calculate_tcp_checksum,
}
use bartimaeus_app.Router.Header.{AreBytes}
use bartimaeus_app.Router.Pipeline.{
  screen_inbound, has_ports, received, learn_gateway, restore_client, finish_outbound,
  translate_inbound, register_session, five_tuple, NatSession, Router, Frame, Sent, Outcome, fault,
  dropped, forwarded, forward_inbound, inbound, screen_outbound, receive, router_external_ip,
}
use bartimaeus_app.Router.Inbound.{IsTranslated, forward_inbound-IsTranslated, inbound_state}
use bartimaeus_app.Router.Pipeline.{send_to_dmz, min_header}
use bartimaeus_app.Router.Filter.{IsAdmitted, inbound-forwarded}
use bartimaeus_app.Router.Faults.{IsOversized, forward_inbound_fault_iff}
use bartimaeus_app.Router.RoundTrip.{reply_reaches_client}
use bartimaeus_app.Router.Reply.{IsReply, reply_port, screen_outbound-IsReply}

-- A SYN from 203.0.113.7:40000 to port 8080 of the router.
abbrev pub syn : Bytes
syn =
    69 ∷ 0 ∷ 0 ∷ 40 ∷ 0 ∷ 1 ∷ 0 ∷ 0 ∷ 64 ∷ 6 ∷ 0 ∷ 0 ∷ 203 ∷ 0 ∷ 113 ∷ 7 ∷ 10 ∷ 10 ∷ 0 ∷ 2 ∷ 156
    ∷ 64 ∷ 31 ∷ 144 ∷ 0 ∷ 0 ∷ 0 ∷ 1 ∷ 0 ∷ 0 ∷ 0 ∷ 0 ∷ 80 ∷ 2 ∷ 255 ∷ 255 ∷ 0 ∷ 0 ∷ 0 ∷ 0 ∷ []

abbrev pub router : Memory → Router
router m = record {
  external_interface_index = 2;
  dmz_ifindex = 3;
  buffer = m;
  session_table = [];
  proxy_mac = [];
  has_proxy_mac = false;
  gateway_mac = 2 ∷ 0 ∷ 0 ∷ 0 ∷ 0 ∷ 1 ∷ [];
  has_gateway_mac = true;
}

abbrev pub zeros : Memory
zeros = λ j. 0

abbrev pub router_after : Outcome → Router
router_after fault = router zeros
router_after (dropped r) = r
router_after (forwarded r s) = r

abbrev pub packet_of : Outcome → Sent
packet_of fault = record { sll_ifindex = 0; sll_addr = []; content = [] }
packet_of (dropped r) = record { sll_ifindex = 0; sll_addr = []; content = [] }
packet_of (forwarded r s) = s

pub zeros-AreBytes : AreBytes zeros
zeros-AreBytes j = omega arith

overwrite-AreBytes :
    (m : Memory) (p : ℕ) (s : Bytes)
    → AreBytes m
    → all (λ c. ltb c 256) s ≡ true
    → AreBytes (overwrite m p s)
unfolding overwrite
overwrite-AreBytes m p [] b h j = b j
overwrite-AreBytes m p (c ∷ s) b h j =
    ground (arith, overwrite-AreBytes m (p + 1) s b (ground arith) j)

abbrev holding : Bytes → Memory
holding s = overwrite zeros 0 s

syn-AreBytes : AreBytes (holding syn)
syn-AreBytes = overwrite-AreBytes zeros 0 syn zeros-AreBytes refl

abbrev arrived : Router
arrived = router (holding syn)

abbrev went_in : Outcome
went_in = forward_inbound arrived 40

went_in-forwarded : went_in ≡ forwarded (router_after went_in) (packet_of went_in)
unfolding forward_inbound update_transport_checksum update_ip_checksum store16 translate_inbound
    store32 overwrite calculate_tcp_checksum load16_be header_length
went_in-forwarded = refl

syn-long : 20 ≤ header_length (holding syn)
unfolding header_length overwrite
syn-long = omega arith

syn-tcp : holding syn 9 ≡ ipproto_tcp
unfolding overwrite
syn-tcp = refl

forward_inbound-IsTranslated_example :
    IsTranslated arrived (router_after went_in) 40 (packet_of went_in)
forward_inbound-IsTranslated_example =
    forward_inbound-IsTranslated arrived (router_after went_in) 40 (packet_of went_in) syn-AreBytes
      syn-long syn-tcp went_in-forwarded

-- The reply of the proxy, as it comes in at the DMZ side.
abbrev pub syn_ack : Bytes
syn_ack =
    69 ∷ 0 ∷ 0 ∷ 40 ∷ 0 ∷ 1 ∷ 0 ∷ 0 ∷ 64 ∷ 6 ∷ 0 ∷ 0 ∷ 10 ∷ 20 ∷ 0 ∷ 3 ∷ 10 ∷ 20 ∷ 0 ∷ 2 ∷ 31 ∷ 144
    ∷ 156 ∷ 64 ∷ 0 ∷ 0 ∷ 0 ∷ 9 ∷ 0 ∷ 0 ∷ 0 ∷ 2 ∷ 80 ∷ 18 ∷ 255 ∷ 255 ∷ 0 ∷ 0 ∷ 0 ∷ 0 ∷ []

abbrev answered : Router
answered = record (router_after went_in) { buffer = holding syn_ack }

abbrev went_out : Outcome
went_out = screen_outbound answered 40

went_out-forwarded : went_out ≡ forwarded (router_after went_out) (packet_of went_out)
unfolding screen_outbound forward_inbound find load32 overwrite restore_client store32
    update_transport_checksum update_ip_checksum store16 translate_inbound calculate_tcp_checksum
    load16_be header_length register_session insert ℕ_discrete finish_outbound
went_out-forwarded = refl

syn_ack-AreBytes : AreBytes (holding syn_ack)
syn_ack-AreBytes = overwrite-AreBytes zeros 0 syn_ack zeros-AreBytes refl

syn_ack-long : 20 ≤ header_length (holding syn_ack)
unfolding header_length overwrite
syn_ack-long = omega arith

syn_ack-tcp : holding syn_ack 9 ≡ ipproto_tcp
unfolding overwrite
syn_ack-tcp = refl

syn_ack-has_ports : has_ports (holding syn_ack) ≡ true
unfolding overwrite
syn_ack-has_ports = refl

abbrev client : NatSession
client = record { client_ip = ip 203 0 113 7; client_port = 40000 }

answered-find : find ℕ_discrete (reply_port answered.buffer) answered.session_table ≡ some client
unfolding find forward_inbound update_transport_checksum update_ip_checksum store16
    translate_inbound store32 overwrite calculate_tcp_checksum load16_be header_length
    register_session insert ℕ_discrete load32
answered-find = refl

answered-port : reply_port answered.buffer ≡ load16_be arrived.buffer (header_length arrived.buffer)
unfolding load16_be header_length overwrite
answered-port = refl

screen_outbound-IsReply_example :
    IsReply answered (router_after went_out) client 40 (packet_of went_out)
screen_outbound-IsReply_example =
    screen_outbound-IsReply answered (router_after went_out) client 40 (packet_of went_out)
      syn_ack-AreBytes syn_ack-long syn_ack-has_ports answered-find (omega arith) went_out-forwarded

reply_reaches_client_example :
    ((packet_of went_out).content ≡ bytes_from (router_after went_out).buffer 0 40)
    × (load32 (router_after went_out).buffer 16 ≡ load32 arrived.buffer 12)
    × (load32 (router_after went_out).buffer 12 ≡ router_external_ip)
reply_reaches_client_example =
    reply_reaches_client arrived (router_after went_in) answered (router_after went_out) 40 40
      (packet_of went_in) (packet_of went_out) syn-AreBytes syn-long syn-tcp went_in-forwarded
      syn_ack-AreBytes syn_ack-long syn_ack-tcp refl answered-port went_out-forwarded

-- The frame that brings the SYN.
abbrev pub frame : Bytes → Frame
frame s = record { payload = s; is_outgoing = false; sll_addr = 2 ∷ 0 ∷ 0 ∷ 0 ∷ 0 ∷ 1 ∷ [] }

abbrev let_in : Outcome
let_in = inbound (router zeros) (some (frame syn))

let_in-forwarded : let_in ≡ forwarded (router_after let_in) (packet_of let_in)
unfolding inbound screen_inbound load32 overwrite evaluate_acl acl_rules five_tuple load16_be
    header_length forward_inbound update_transport_checksum update_ip_checksum store16
    translate_inbound store32 calculate_tcp_checksum
let_in-forwarded = refl

inbound-forwarded_example :
    (f : Frame) × (some (frame syn) ≡ some f)
    × (min_header ≤ length (received f))
    × (f.is_outgoing ≡ false)
    × IsAdmitted (receive (router zeros) f).buffer
    × (forward_inbound (learn_gateway (receive (router zeros) f) f) (length (received f))
        ≡ forwarded (router_after let_in) (packet_of let_in))
inbound-forwarded_example =
    inbound-forwarded (router zeros) (router_after let_in) (some (frame syn)) (packet_of let_in)
      let_in-forwarded

forward_inbound_fault_iff_example :
    ((forward_inbound arrived 40 ≡ fault) ↔ IsOversized arrived.buffer)
    × ((¬ IsOversized arrived.buffer)
        → (m : Memory) × (forward_inbound arrived 40
            ≡ forwarded (inbound_state arrived m) (send_to_dmz (inbound_state arrived m) 40)))
forward_inbound_fault_iff_example =
    forward_inbound_fault_iff arrived 40 syn-AreBytes syn-long syn-tcp
