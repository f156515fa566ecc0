-- ===== src/Router/Reply.antt =====
-- The way back: which replies are sent, and to whom.
use bartimaeus_app.Base.{
  ℕ, ◌+◌, ◌^◌, ◌≤◌, ◌<◌, ◌≡◌, refl, sym, ◌∙◌, ◌⊎◌, inl, inr, true, none, some, arith, ◌==◌,
  ℕ_discrete, Option-cases,
}
use bartimaeus_app.Base.Map.{find}
use bartimaeus_app.Router.Checksum.{calculate_checksum}
use bartimaeus_app.Router.Memory.{
  Memory, load16_be, load32, store32, bytes_from, store32-other, load32-store32, bytes_from-cong,
}
use bartimaeus_app.Router.Transport.{header_length, update_ip_checksum, update_transport_checksum}
use bartimaeus_app.Router.Header.{
  AreBytes, store32-AreBytes, header_length-cong, update_ip_checksum-other,
  header_length-update_ip_checksum, update_ip_checksum_verifies, update_ip_checksum-AreBytes,
}
use bartimaeus_app.Router.Pipeline.{
  NatSession, Router, Sent, fault, forwarded, router_external_ip, proxy_ip, finish_outbound,
  restore_client, screen_outbound,
}
use bartimaeus_app.Router.Segment.{IsUntouched, IsRight}
use bartimaeus_app.Router.Segment.Updated.{update-IsUntouched}
use bartimaeus_app.Router.Segment.Right.{update-IsRight}
use bartimaeus_app.Router.Updates.{update_transport_checksum-other, load32-cong, load16_be-cong}
use bartimaeus_app.Router.Pipeline.{has_ports}

abbrev pub reply_port : Memory → ℕ
reply_port m = load16_be m (header_length m + 2)

-- The buffer with both addresses of the reply restored.
abbrev restored : Memory → ℕ → Memory
restored m client_ip = store32 (store32 m 12 router_external_ip) 16 client_ip

restored-other : (m : Memory) (client_ip j : ℕ) → (j < 12) ⊎ (20 ≤ j) → restored m client_ip j ≡ m j
restored-other m client_ip j (inl h) =
    store32-other (store32 m 12 router_external_ip) 16 client_ip j (inl (omega arith))
    ∙ store32-other m 12 router_external_ip j (inl h)
restored-other m client_ip j (inr h) =
    store32-other (store32 m 12 router_external_ip) 16 client_ip j (inr h)
    ∙ store32-other m 12 router_external_ip j (inr (omega arith))

has_ports-cong : (m m' : Memory) → m 9 ≡ m' 9 → has_ports m ≡ has_ports m'
has_ports-cong m m' h = rw h

stored_source-other :
    (m : Memory) (j : ℕ) → (j < 12) ⊎ (16 ≤ j) → store32 m 12 router_external_ip j ≡ m j
stored_source-other m j h = store32-other m 12 router_external_ip j h

header_length-source :
    (m : Memory) → header_length (store32 m 12 router_external_ip) ≡ header_length m
header_length-source m =
    header_length-cong (store32 m 12 router_external_ip) m
      (stored_source-other m 0 (inl (omega arith)))

reply_port-source :
    (m : Memory)
    → 20 ≤ header_length m
    → reply_port (store32 m 12 router_external_ip) ≡ reply_port m
reply_port-source m long = rw (header_length-source m) (
    load16_be-cong (store32 m 12 router_external_ip) m (header_length m + 2)
      (stored_source-other m _ (inr (omega arith))) (stored_source-other m _ (inr (omega arith))))

-- A TCP or UDP packet with a header length of 20 or more is sent outwards only if it comes from
-- the proxy and its destination port is that of a registered session.
pub screen_outbound-registered :
    (r r' : Router) (n : ℕ) (s : Sent)
    → 20 ≤ header_length r.buffer
    → has_ports r.buffer ≡ true
    → screen_outbound r n ≡ forwarded r' s
    → (load32 r.buffer 12 ≡ proxy_ip)
      × (it : NatSession) × (find ℕ_discrete (reply_port r.buffer) r.session_table ≡ some it)
unfolding screen_outbound restore_client
screen_outbound-registered r r' n s long ports h =
    let same = reply_port-source r.buffer long in
    let kept : has_ports (store32 r.buffer 12 router_external_ip) ≡ true =
      has_ports-cong (store32 r.buffer 12 router_external_ip) r.buffer
        (stored_source-other r.buffer 9 (inl (omega arith)))
      ∙ ports in
    elim (Option-cases (find ℕ_discrete (reply_port r.buffer) r.session_table)) [
      | inl e ↦ ground arith
      | inr (it, e) ↦ (ground arith, it, e)
    ]

-- What is sent outwards for a session.
pub record IsReply (r r' : Router) (it : NatSession) (n : ℕ) (s : Sent) : Type 0 where
  pub source : load32 r'.buffer 12 ≡ router_external_ip
  pub destination : load32 r'.buffer 16 ≡ it.client_ip
  pub verifies : calculate_checksum (bytes_from r'.buffer 0 (header_length r.buffer)) ≡ 0
  pub content : s.content ≡ bytes_from r'.buffer 0 n
  pub interface : s.sll_ifindex ≡ r.external_interface_index
  pub receiver : s.sll_addr ≡ r.gateway_mac
  -- all else is as it came, with a right checksum of the segment
  pub untouched : IsUntouched r.buffer r'.buffer
  pub right : IsRight r'.buffer

abbrev sent_outwards : Router → Memory → ℕ → Sent
sent_outwards r m n = record {
  sll_ifindex = r.external_interface_index;
  sll_addr = r.gateway_mac;
  content = bytes_from m 0 n;
}

screen_outbound-some :
    (r : Router) (n : ℕ) (it : NatSession) (m : Memory)
    → 20 ≤ header_length r.buffer
    → has_ports r.buffer ≡ true
    → load32 r.buffer 12 ≡ proxy_ip
    → find ℕ_discrete (reply_port r.buffer) r.session_table ≡ some it
    → update_transport_checksum (update_ip_checksum (restored r.buffer it.client_ip)) ≡ some m
    → screen_outbound r n ≡ forwarded (record r { buffer = m }) (sent_outwards r m n)
unfolding screen_outbound restore_client finish_outbound
screen_outbound-some r n it m long ports proxy e u =
    let same = reply_port-source r.buffer long in
    let kept : has_ports (store32 r.buffer 12 router_external_ip) ≡ true =
      has_ports-cong (store32 r.buffer 12 router_external_ip) r.buffer
        (stored_source-other r.buffer 9 (inl (omega arith)))
      ∙ ports in
    let from_proxy : (load32 r.buffer 12 == proxy_ip) ≡ true = ground arith in
    rw (from_proxy, kept, same, e, u) refl

screen_outbound-none :
    (r : Router) (n : ℕ) (it : NatSession)
    → 20 ≤ header_length r.buffer
    → has_ports r.buffer ≡ true
    → load32 r.buffer 12 ≡ proxy_ip
    → find ℕ_discrete (reply_port r.buffer) r.session_table ≡ some it
    → update_transport_checksum (update_ip_checksum (restored r.buffer it.client_ip)) ≡ none
    → screen_outbound r n ≡ fault
unfolding screen_outbound restore_client finish_outbound
screen_outbound-none r n it long ports proxy e u =
    let same = reply_port-source r.buffer long in
    let kept : has_ports (store32 r.buffer 12 router_external_ip) ≡ true =
      has_ports-cong (store32 r.buffer 12 router_external_ip) r.buffer
        (stored_source-other r.buffer 9 (inl (omega arith)))
      ∙ ports in
    let from_proxy : (load32 r.buffer 12 == proxy_ip) ≡ true = ground arith in
    rw (from_proxy, kept, same, e, u) refl

module _ (m : Memory) (client : ℕ) where
  header_length-restored : header_length (restored m client) ≡ header_length m
  header_length-restored =
      header_length-cong (restored m client) m (restored-other m client 0 (inl (omega arith)))

  restored-addresses :
      client < 2 ^ 32
      → (load32 (update_ip_checksum (restored m client)) 12 ≡ router_external_ip)
        × (load32 (update_ip_checksum (restored m client)) 16 ≡ client)
  restored-addresses h =
      let w = store32 m 12 router_external_ip in
      let u = λ (j : ℕ) (g : 12 ≤ j). update_ip_checksum-other (restored m client) j (inr g) in
      let low = λ (j : ℕ) (g : j < 16). store32-other w 16 client j (inl g) in
      (
        load32-cong (update_ip_checksum (restored m client)) w 12
              (u 12 (omega arith) ∙ low 12 (omega arith))
              (u 13 (omega arith) ∙ low 13 (omega arith))
              (u 14 (omega arith) ∙ low 14 (omega arith))
              (u 15 (omega arith) ∙ low 15 (omega arith))
            ∙ load32-store32 m 12 router_external_ip (omega arith),
        load32-cong (update_ip_checksum (restored m client)) (restored m client) 16
              (u 16 (omega arith)) (u 17 (omega arith)) (u 18 (omega arith)) (u 19 (omega arith))
            ∙ load32-store32 w 16 client h,
      )

module _ (r : Router) (it : NatSession) (m : Memory)
    (u : update_transport_checksum (update_ip_checksum (restored r.buffer it.client_ip)) ≡ some m)
    (long : 20 ≤ header_length r.buffer) where
  reply_kept :
      (j : ℕ)
      → j < header_length r.buffer + 6
      → m j ≡ update_ip_checksum (restored r.buffer it.client_ip) j
  reply_kept j h =
      update_transport_checksum-other (update_ip_checksum (restored r.buffer it.client_ip)) m j u (
        rw
          (
            header_length-update_ip_checksum (restored r.buffer it.client_ip),
            header_length-restored r.buffer it.client_ip,
          )
          h)

  reply_other :
      (j : ℕ)
      → (j < 10) ⊎ (20 ≤ j)
      → update_ip_checksum (restored r.buffer it.client_ip) j ≡ r.buffer j
  reply_other j (inl h) =
      update_ip_checksum-other _ j (inl h)
      ∙ restored-other r.buffer it.client_ip j (inl (omega arith))
  reply_other j (inr h) =
      update_ip_checksum-other _ j (inr (omega arith))
      ∙ restored-other r.buffer it.client_ip j (inr h)

  reply_ports :
      has_ports r.buffer ≡ true
      → has_ports (update_ip_checksum (restored r.buffer it.client_ip)) ≡ true
  reply_ports ports =
      has_ports-cong (update_ip_checksum (restored r.buffer it.client_ip)) r.buffer
        (reply_other 9 (inl (omega arith)))
      ∙ ports

  reply-IsUntouched : has_ports r.buffer ≡ true → IsUntouched r.buffer m
  reply-IsUntouched ports =
      update-IsUntouched r.buffer (update_ip_checksum (restored r.buffer it.client_ip)) m
        reply_other long (reply_ports ports) u

  restored-AreBytes : AreBytes r.buffer → AreBytes (restored r.buffer it.client_ip)
  restored-AreBytes b =
      store32-AreBytes _ 16 it.client_ip (store32-AreBytes r.buffer 12 router_external_ip b)

  reply-IsRight : has_ports r.buffer ≡ true → AreBytes r.buffer → IsRight m
  reply-IsRight ports b =
      let t = restored r.buffer it.client_ip in
      update-IsRight (update_ip_checksum t) m (update_ip_checksum-AreBytes t (restored-AreBytes b))
        (rw (header_length-update_ip_checksum t, header_length-restored r.buffer it.client_ip) long)
        (reply_ports ports) u

  reply_verifies :
      AreBytes r.buffer → calculate_checksum (bytes_from m 0 (header_length r.buffer)) ≡ 0
  reply_verifies b =
      let t = restored r.buffer it.client_ip in
      let same = header_length-restored r.buffer it.client_ip in
      let bytes_ok = restored-AreBytes b in
      rw
        (
          bytes_from-cong m (update_ip_checksum t) 0 (header_length r.buffer)
              (λ j _ h. reply_kept j (omega arith)),
          ← same,
        )
        (update_ip_checksum_verifies t bytes_ok (rw same long))

  reply_addresses :
      it.client_ip < 2 ^ 32 → (load32 m 12 ≡ router_external_ip) × (load32 m 16 ≡ it.client_ip)
  reply_addresses h =
      let t = update_ip_checksum (restored r.buffer it.client_ip) in
      let (source, destination) = restored-addresses r.buffer it.client_ip h in
      (
        load32-cong m t 12 (reply_kept 12 (omega arith)) (reply_kept 13 (omega arith))
              (reply_kept 14 (omega arith)) (reply_kept 15 (omega arith))
            ∙ source,
        load32-cong m t 16 (reply_kept 16 (omega arith)) (reply_kept 17 (omega arith))
              (reply_kept 18 (omega arith)) (reply_kept 19 (omega arith))
            ∙ destination,
      )

-- When a TCP or UDP packet whose destination port has a session is sent outwards, from a buffer of
-- bytes with a header length of 20 or more, then it is the buffer's content with the router's
-- outer source address, the session's client as its destination and a header whose checksum is 0;
-- the rest of the IP header, the ports and all else of the packet are as they came, but for the
-- check field of the TCP or UDP header, with which the sum over pseudo header and segment comes out
-- right, unless the segment's length leaves out that field. It goes to the gateway by the outer
-- interface.
pub screen_outbound-IsReply :
    (r r' : Router) (it : NatSession) (n : ℕ) (s : Sent)
    → AreBytes r.buffer
    → 20 ≤ header_length r.buffer
    → has_ports r.buffer ≡ true
    → find ℕ_discrete (reply_port r.buffer) r.session_table ≡ some it
    → it.client_ip < 2 ^ 32
    → screen_outbound r n ≡ forwarded r' s
    → IsReply r r' it n s
screen_outbound-IsReply r r' it n s b long ports e small h =
    let proxy = (screen_outbound-registered r r' n s long ports h).0 in
    elim (Option-cases
      (update_transport_checksum (update_ip_checksum (restored r.buffer it.client_ip)))) [
        | inl u ↦ cc (screen_outbound-none r n it long ports proxy e u)
        | inr (m, u) ↦
            let out = sym (screen_outbound-some r n it m long ports proxy e u) ∙ h in
            let state : record r { buffer = m } ≡ r' = cc in
            let packet : sent_outwards r m n ≡ s = cc in
            let (source, destination) = reply_addresses r it m u long small in
            rw (← state, ← packet)
              (record {
                source = source;
                destination = destination;
                verifies = reply_verifies r it m u long b;
                content = refl;
                interface = refl;
                receiver = refl;
                untouched = reply-IsUntouched r it m u long ports;
                right = reply-IsRight r it m u long ports b;
              })
      ]
