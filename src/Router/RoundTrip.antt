-- ===== src/Router/RoundTrip.antt =====
-- A packet on its way in, and the reply to it on its way out.
use bartimaeus_app.Base.{ℕ, ◌≤◌, ◌≡◌, true, some, arith, ℕ_discrete}
use bartimaeus_app.Base.Map.{find}
use bartimaeus_app.Router.Acl.{ipproto_tcp}
use bartimaeus_app.Router.Memory.{load16_be, load32, bytes_from}
use bartimaeus_app.Router.Transport.{header_length}
use bartimaeus_app.Router.Header.{AreBytes, load32-lt}
use bartimaeus_app.Router.Pipeline.{
  NatSession, Router, Sent, forwarded, router_external_ip, forward_inbound, screen_outbound,
}
use bartimaeus_app.Router.Pipeline.{has_ports}
use bartimaeus_app.Router.Inbound.{forward_inbound-IsTranslated}
use bartimaeus_app.Router.Reply.{reply_port, screen_outbound-IsReply}

-- Translation there and back: when a TCP packet was sent inwards, and later a TCP packet of the
-- proxy to the port that the first one came from is sent outwards with the session table
-- unchanged, then what is sent is the buffer as the router leaves it, whose destination is the
-- address that the first one came from, and whose source is the router's outer address. Both buffers hold bytes and have header lengths of 20 or more.
pub reply_reaches_client :
    (r r1 r2 r3 : Router) (n k : ℕ) (s t : Sent)
    → AreBytes r.buffer
    → 20 ≤ header_length r.buffer
    → r.buffer 9 ≡ ipproto_tcp
    → forward_inbound r n ≡ forwarded r1 s
    → AreBytes r2.buffer
    → 20 ≤ header_length r2.buffer
    → r2.buffer 9 ≡ ipproto_tcp
    → r2.session_table ≡ r1.session_table
    → reply_port r2.buffer ≡ load16_be r.buffer (header_length r.buffer)
    → screen_outbound r2 k ≡ forwarded r3 t
    → (t.content ≡ bytes_from r3.buffer 0 k)
      × (load32 r3.buffer 16 ≡ load32 r.buffer 12)
      × (load32 r3.buffer 12 ≡ router_external_ip)
reply_reaches_client r r1 r2 r3 n k s t b long tcp h b2 long2 tcp2 table port out =
    let sent = forward_inbound-IsTranslated r r1 n s b long tcp h in
    let client : NatSession = record {
      client_ip = load32 r.buffer 12;
      client_port = load16_be r.buffer (header_length r.buffer);
    } in
    let known : find ℕ_discrete (reply_port r2.buffer) r2.session_table ≡ some client =
      rw (port, table) sent.session in
    let ports : has_ports r2.buffer ≡ true = ground arith in
    let reply =
      screen_outbound-IsReply r2 r3 client k t b2 long2 ports known (load32-lt r.buffer 12 b) out in
    (reply.content, reply.destination, reply.source)
