-- ===== src/Router/History/Replies.antt =====
-- The router after any history: its table, and to whom replies go.
use bartimaeus_app.Base.{
  ◌≤◌, ◌≡◌, sym, ◌≢◌, true, List, [], ◌∷◌, Option, none, some, arith, All, length, ℕ_discrete,
  Option-cases, inl, inr,
}
use bartimaeus_app.Base.Map.{find-HoldsOf}
use bartimaeus_app.Router.Memory.{load32, bytes_from}
use bartimaeus_app.Router.Transport.{header_length}
use bartimaeus_app.Router.Header.{AreBytes}
use bartimaeus_app.Router.Pipeline.{
  NatSession, Router, Frame, Sent, Outcome, forwarded, received, receive, learn_proxy, has_ports,
  router_external_ip, screen_outbound, outbound,
}
use bartimaeus_app.Router.Reply.{reply_port, screen_outbound-registered, screen_outbound-IsReply}
use bartimaeus_app.Router.History.{
  Event, external, dmz, handle, after, run, Admits, admitted, afterwards,
}
use bartimaeus_app.Router.History.Buffers.{IsFrame}
use bartimaeus_app.Router.History.Sound.{
  Owned, IsSound, receive-IsSound, Keeps, faulted, skipped, sent, inbound-Keeps, outbound-Keeps,
}

abbrev pub frame_of : Event → Option Frame
frame_of (external frame) = frame
frame_of (dmz frame) = frame

-- Every frame of the history is bytes.
abbrev pub AreFrames : List Event → Type 0
AreFrames = All (λ event. IsFrame (frame_of event))

module _ (P : NatSession → Type 0) where
  pub handle-Keeps :
      (r : Router) (event : Event) (events : List Event)
      → IsFrame (frame_of event)
      → ((it : NatSession) → Admits r (event ∷ events) it → P it)
      → IsSound P r
      → Keeps P (handle r event)
  unfolding handle
  handle-Keeps r (external none) events b p h = inbound-Keeps P r none tt tt h
  handle-Keeps r (external (some f)) events b p h =
      inbound-Keeps P r (some f) b (λ whole fresh a. p _ (admitted whole fresh a)) h
  handle-Keeps r (dmz frame) events b p h = outbound-Keeps P r frame b h

  pub Keeps-after : (o : Outcome) (r : Router) → Keeps P o → after o ≡ some r → IsSound P r
  Keeps-after o r faulted e = cc
  Keeps-after o r (skipped r' h) e = let same : r' ≡ r = cc in rw (← same) h
  Keeps-after o r (sent r' s h) e = let same : r' ≡ r = cc in rw (← same) h

  pub run-IsSound :
      (r r' : Router) (events : List Event)
      → AreFrames events
      → ((it : NatSession) → Admits r events it → P it)
      → IsSound P r
      → run r events ≡ some r'
      → IsSound P r'
  unfolding run
  run-IsSound r r' [] b p h e = let same : r ≡ r' = cc in rw (← same) h
  run-IsSound r r' (event ∷ events) b p h e = elim (Option-cases (after (handle r event))) [
    | inl stop ↦ let clash = rw (stop, run) at e in cc
    | inr (r1, next) ↦
        run-IsSound r1 r' events b.1 (λ it a. p it (afterwards next a))
          (Keeps-after (handle r event) r1 (handle-Keeps r event events b.0 p h) next)
          (rw (next, run) at e)
  ]

-- After any history of frames, from an empty table and a buffer of bytes, as long as no packet has
-- made the router leave its arrays: the buffer holds bytes, the table has one session for each
-- port, and a session stands under its client's port, fits its types, and is of a client whose
-- packet the filter let through on the outer socket in this history.
pub run-IsTraced :
    (r r' : Router) (events : List Event)
    → AreBytes r.buffer
    → r.session_table ≡ []
    → AreFrames events
    → run r events ≡ some r'
    → IsSound (Admits r events) r'
run-IsTraced r r' events b empty frames e =
    run-IsSound (Admits r events) r r' events frames (λ it a. a)
      (record { buffer = b; functional = rw empty tt; owned = rw empty tt }) e

outbound-screened :
    (r r' : Router) (f : Frame) (s : Sent)
    → outbound r (some f) ≡ forwarded r' s
    → screen_outbound (learn_proxy (receive r f) f) (length (received f)) ≡ forwarded r' s
unfolding outbound
outbound-screened r r' f s h = ground arith

learn_proxy-kept :
    (r : Router) (f : Frame)
    → ((learn_proxy r f).buffer ≡ r.buffer) × ((learn_proxy r f).session_table ≡ r.session_table)
learn_proxy-kept r f = ground arith

Admits-other :
    (r : Router) (events : List Event) (it : NatSession)
    → Admits r events it
    → it.client_ip ≢ router_external_ip
Admits-other r events it (admitted whole fresh a) = a.source
Admits-other r events it (afterwards next a) = Admits-other _ _ it a

-- After any such history, when a TCP or UDP packet of 20 or more bytes of IP header is sent outwards,
-- then the history has a packet on the outer socket that the filter let through, whose source
-- port is the packet's destination port; what is sent is the buffer as the router leaves it, as many
-- bytes as were received, with that packet's source address, which is not the router's own, as its
-- destination, and with the router's outer address as its source.
pub reply-admitted :
    (r r' r'' : Router) (events : List Event) (f : Frame) (s : Sent)
    → AreBytes r.buffer
    → r.session_table ≡ []
    → AreFrames events
    → IsFrame (some f)
    → run r events ≡ some r'
    → has_ports (receive r' f).buffer ≡ true
    → 20 ≤ header_length (receive r' f).buffer
    → outbound r' (some f) ≡ forwarded r'' s
    → (client : NatSession) × Admits r events client
      × (client.client_port ≡ reply_port (receive r' f).buffer)
      × (s.content ≡ bytes_from r''.buffer 0 (length (received f)))
      × (load32 r''.buffer 16 ≡ client.client_ip)
      × (client.client_ip ≢ router_external_ip)
      × (load32 r''.buffer 12 ≡ router_external_ip)
reply-admitted r r' r'' events f s b empty frames bf e ports long out =
    let sound = run-IsTraced r r' events b empty frames e in
    let got = receive-IsSound (Admits r events) r' f bf sound in
    let (same, table) = learn_proxy-kept (receive r' f) f in
    let screened = outbound-screened r' r'' f s out in
    let l = learn_proxy (receive r' f) f in
    let ports' : has_ports l.buffer ≡ true = rw same ports in
    let long' : 20 ≤ header_length l.buffer = rw same long in
    let (_, client, found) =
      screen_outbound-registered l r'' (length (received f)) s long' ports' screened in
    let (port, _, small, known) =
      find-HoldsOf ℕ_discrete (Owned (Admits r events)) (reply_port l.buffer) client
        r'.session_table sound.owned (rw table at found) in
    let reply =
      screen_outbound-IsReply l r'' client (length (received f)) s (rw same got.buffer) long' ports'
        found small screened in
    (
      client,
      known,
      rw same at (sym port),
      reply.content,
      reply.destination,
      Admits-other r events client known,
      reply.source,
    )
