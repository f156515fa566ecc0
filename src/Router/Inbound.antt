-- ===== src/Router/Inbound.antt =====
-- The translation of a packet on its way in: what is sent, and which session it makes.
use bartimaeus_app.Base.{
  ℕ, ◌+◌, ◌≤◌, ◌<◌, ◌≡◌, refl, sym, ◌∙◌, ◌⊎◌, inl, inr, true, none, some, arith, ℕ_discrete,
  Option-cases,
}
use bartimaeus_app.Base.Map.{Map, find, find-insert}
use bartimaeus_app.Router.Acl.{ipproto_tcp}
use bartimaeus_app.Router.Checksum.{calculate_checksum}
use bartimaeus_app.Router.Memory.{
  Memory, load16_be, load32, store32, bytes_from, store32-other, load32-store32, bytes_from-cong,
}
use bartimaeus_app.Router.Transport.{header_length, update_ip_checksum, update_transport_checksum}
use bartimaeus_app.Router.Header.{
  AreBytes, store32-AreBytes, header_length-cong, update_ip_checksum-other,
  header_length-update_ip_checksum, update_ip_checksum_verifies, update_ip_checksum-AreBytes,
}
use bartimaeus_app.Router.Pipeline.{
  NatSession, Router, Sent, fault, forwarded, router_dmz_ip, proxy_ip, translate_inbound,
  send_to_dmz, register_session, forward_inbound,
}
use bartimaeus_app.Router.Pipeline.{has_ports}
use bartimaeus_app.Router.Segment.{IsUntouched, IsRight}
use bartimaeus_app.Router.Segment.Updated.{update-IsUntouched}
use bartimaeus_app.Router.Segment.Right.{update-IsRight}
use bartimaeus_app.Router.Updates.{update_transport_checksum-other, load32-cong, load16_be-cong}

-- The buffer between the address translation and the transport checksum.
abbrev pub translated : Memory → Memory
translated m = update_ip_checksum (translate_inbound m)

pub translated-other : (m : Memory) (j : ℕ) → (j < 10) ⊎ (20 ≤ j) → translated m j ≡ m j
unfolding translate_inbound
translated-other m j (inl h) =
    update_ip_checksum-other _ j (inl h)
    ∙ store32-other (store32 m 16 proxy_ip) 12 router_dmz_ip j (inl (omega arith))
    ∙ store32-other m 16 proxy_ip j (inl (omega arith))
translated-other m j (inr h) =
    update_ip_checksum-other _ j (inr (omega arith))
    ∙ store32-other (store32 m 16 proxy_ip) 12 router_dmz_ip j (inr (omega arith))
    ∙ store32-other m 16 proxy_ip j (inr (omega arith))

pub header_length-translated : (m : Memory) → header_length (translated m) ≡ header_length m
header_length-translated m =
    header_length-cong (translated m) m (translated-other m 0 (inl (omega arith)))

translate_inbound-AreBytes : (m : Memory) → AreBytes m → AreBytes (translate_inbound m)
unfolding translate_inbound
translate_inbound-AreBytes m b =
    store32-AreBytes _ 12 router_dmz_ip (store32-AreBytes m 16 proxy_ip b)

pub translated-AreBytes : (m : Memory) → AreBytes m → AreBytes (translated m)
translated-AreBytes m b = update_ip_checksum-AreBytes _ (translate_inbound-AreBytes m b)

-- The translated addresses.
translated-addresses :
    (m : Memory)
    → (load32 (translated m) 12 ≡ router_dmz_ip) × (load32 (translated m) 16 ≡ proxy_ip)
unfolding translate_inbound
translated-addresses m =
    let n = store32 (store32 m 16 proxy_ip) 12 router_dmz_ip in
    let up = λ (j : ℕ) (h : 12 ≤ j). update_ip_checksum-other n j (inr h) in
    let side =
      λ (j : ℕ) (h : 16 ≤ j). store32-other (store32 m 16 proxy_ip) 12 router_dmz_ip j (inr h) in
    (
      load32-cong (update_ip_checksum n) n 12 (up 12 (omega arith)) (up 13 (omega arith))
            (up 14 (omega arith)) (up 15 (omega arith))
          ∙ load32-store32 (store32 m 16 proxy_ip) 12 router_dmz_ip (omega arith),
      load32-cong (update_ip_checksum n) (store32 m 16 proxy_ip) 16
            (up 16 (omega arith) ∙ side 16 (omega arith))
            (up 17 (omega arith) ∙ side 17 (omega arith))
            (up 18 (omega arith) ∙ side 18 (omega arith))
            (up 19 (omega arith) ∙ side 19 (omega arith))
          ∙ load32-store32 m 16 proxy_ip (omega arith),
    )

-- What the inbound pipeline sends for a packet with a whole IP header.
pub record IsTranslated (r r' : Router) (n : ℕ) (s : Sent) : Type 0 where
  -- the router's address and the proxy's
  pub source : load32 r'.buffer 12 ≡ router_dmz_ip
  pub destination : load32 r'.buffer 16 ≡ proxy_ip
  -- a right IP header, and the packet as it stands in the buffer
  pub verifies : calculate_checksum (bytes_from r'.buffer 0 (header_length r.buffer)) ≡ 0
  pub content : s.content ≡ bytes_from r'.buffer 0 n
  pub interface : s.sll_ifindex ≡ r.dmz_ifindex
  -- all else is as it came, with a right checksum of the segment
  pub untouched : IsUntouched r.buffer r'.buffer
  pub right : IsRight r'.buffer
  -- the session of the client's port
  pub session :
      find ℕ_discrete (load16_be r.buffer (header_length r.buffer)) r'.session_table
      ≡ some (record {
        client_ip = load32 r.buffer 12;
        client_port = load16_be r.buffer (header_length r.buffer);
      })

-- The router after a packet is sent inwards.
abbrev pub inbound_state : Router → Memory → Router
inbound_state r m = record r {
  buffer = m;
  session_table = register_session (translated r.buffer) (load32 r.buffer 12) r.session_table;
}

pub forward_inbound-some :
    (r : Router) (n : ℕ) (m : Memory)
    → update_transport_checksum (translated r.buffer) ≡ some m
    → forward_inbound r n ≡ forwarded (inbound_state r m) (send_to_dmz (inbound_state r m) n)
unfolding forward_inbound
forward_inbound-some r n m e = rw e refl

pub forward_inbound-none :
    (r : Router) (n : ℕ)
    → update_transport_checksum (translated r.buffer) ≡ none
    → forward_inbound r n ≡ fault
unfolding forward_inbound
forward_inbound-none r n e = rw e refl

register_session-find :
    (m : Memory) (client : ℕ) (table : Map ℕ NatSession)
    → m 9 ≡ ipproto_tcp
    → find ℕ_discrete (load16_be m (header_length m)) (register_session m client table)
      ≡ some (record { client_ip = client; client_port = load16_be m (header_length m) })
unfolding register_session
register_session-find m client table tcp =
    let port = load16_be m (header_length m) in
    ground (
      arith,
      find-insert ℕ_discrete port port (record { client_ip = client; client_port = port }) table,
    )

module _ (r : Router) (m' : Memory) (n : ℕ)
    (e : update_transport_checksum (translated r.buffer) ≡ some m')
    (long : 20 ≤ header_length r.buffer) where
  kept : (j : ℕ) → j < header_length r.buffer + 6 → m' j ≡ translated r.buffer j
  kept j h =
      update_transport_checksum-other (translated r.buffer) m' j e
        (rw (header_length-translated r.buffer) h)

  kept_source : load32 m' 12 ≡ router_dmz_ip
  kept_source =
      load32-cong m' (translated r.buffer) 12 (kept 12 (omega arith)) (kept 13 (omega arith))
        (kept 14 (omega arith)) (kept 15 (omega arith))
      ∙ (translated-addresses r.buffer).0

  kept_destination : load32 m' 16 ≡ proxy_ip
  kept_destination =
      load32-cong m' (translated r.buffer) 16 (kept 16 (omega arith)) (kept 17 (omega arith))
        (kept 18 (omega arith)) (kept 19 (omega arith))
      ∙ (translated-addresses r.buffer).1

  kept_ports : r.buffer 9 ≡ ipproto_tcp → has_ports (translated r.buffer) ≡ true
  kept_ports tcp =
      let same : translated r.buffer 9 ≡ ipproto_tcp =
        translated-other r.buffer 9 (inl (omega arith)) ∙ tcp in
      ground arith

  kept-IsUntouched : r.buffer 9 ≡ ipproto_tcp → IsUntouched r.buffer m'
  kept-IsUntouched tcp =
      update-IsUntouched r.buffer (translated r.buffer) m' (translated-other r.buffer) long
        (kept_ports tcp) e

  kept-IsRight : r.buffer 9 ≡ ipproto_tcp → AreBytes r.buffer → IsRight m'
  kept-IsRight tcp b =
      update-IsRight (translated r.buffer) m' (translated-AreBytes r.buffer b)
        (rw (header_length-translated r.buffer) long) (kept_ports tcp) e

  kept_verifies :
      AreBytes r.buffer → calculate_checksum (bytes_from m' 0 (header_length r.buffer)) ≡ 0
  kept_verifies b =
      let t = translate_inbound r.buffer in
      let same : header_length t ≡ header_length r.buffer =
        sym (header_length-update_ip_checksum t) ∙ header_length-translated r.buffer in
      let bytes_ok = translate_inbound-AreBytes r.buffer b in
      rw
        (
          bytes_from-cong m' (translated r.buffer) 0 (header_length r.buffer)
              (λ j _ h. kept j (omega arith)),
          ← same,
        )
        (update_ip_checksum_verifies t bytes_ok (rw same long))

  kept_session :
      r.buffer 9 ≡ ipproto_tcp
      → find ℕ_discrete
          (load16_be r.buffer (header_length r.buffer))
          (inbound_state r m').session_table
        ≡ some (record {
          client_ip = load32 r.buffer 12;
          client_port = load16_be r.buffer (header_length r.buffer);
        })
  kept_session tcp =
      let t = translated r.buffer in
      let port : load16_be t (header_length t) ≡ load16_be r.buffer (header_length r.buffer) =
        rw (header_length-translated r.buffer) (
          load16_be-cong t r.buffer (header_length r.buffer)
            (translated-other r.buffer _ (inr (omega arith)))
            (translated-other r.buffer _ (inr (omega arith)))) in
      rw port at (
        register_session-find t (load32 r.buffer 12) r.session_table
          (translated-other r.buffer 9 (inl (omega arith)) ∙ tcp))

-- When the router sends a TCP packet inwards, from a buffer of bytes with a header length of 20 or
-- more, then the sent packet is the buffer's content with the router's source address, the proxy's
-- destination address and a header whose checksum is 0; the rest of the IP header, the ports and all
-- else of the packet are as they came, but for the check field of the TCP header, with which the sum
-- over pseudo header and segment comes out right, unless the total length leaves out that field. It
-- leaves by the DMZ interface, and the session table has the packet's source and source port under
-- that port.
pub forward_inbound-IsTranslated :
    (r r' : Router) (n : ℕ) (s : Sent)
    → AreBytes r.buffer
    → 20 ≤ header_length r.buffer
    → r.buffer 9 ≡ ipproto_tcp
    → forward_inbound r n ≡ forwarded r' s
    → IsTranslated r r' n s
forward_inbound-IsTranslated r r' n s b long tcp h =
    elim (Option-cases (update_transport_checksum (translated r.buffer))) [
      | inl e ↦ cc (forward_inbound-none r n e)
      | inr (m', e) ↦
          let out = sym (forward_inbound-some r n m' e) ∙ h in
          let state : inbound_state r m' ≡ r' = cc in
          let packet : send_to_dmz (inbound_state r m') n ≡ s = cc in
          rw (← state, ← packet)
            (record {
              source = kept_source r m' n e long;
              destination = kept_destination r m' n e long;
              verifies = kept_verifies r m' n e long b;
              content = refl;
              interface = refl;
              untouched = kept-IsUntouched r m' n e long tcp;
              right = kept-IsRight r m' n e long tcp b;
              session = kept_session r m' n e long tcp;
            })
    ]
