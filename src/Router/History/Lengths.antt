-- ===== src/Router/History/Lengths.antt =====
-- How long the packets are that the router sends.
use bartimaeus_app.Base.{
  ℕ, ◌+◌, ◌≤◌, ◌<◌, ◌≡◌, refl, sym, ◌∙◌, ap, Option, none, some, Option-cases, inl, inr, arith,
  length, take, All, ℕ_discrete, zero, suc, List, [], ◌∷◌,
}
use bartimaeus_app.Base.Bytes.{Bytes}
use bartimaeus_app.Base.Map.{find}
use bartimaeus_app.Router.Memory.{
  buffer_size, bytes_from, store32, load16_be, length-bytes_from, bytes_from-IsByte,
}
use bartimaeus_app.Router.Transport.{header_length, update_ip_checksum, update_transport_checksum}
use bartimaeus_app.Router.Pipeline.{
  Router, Frame, Sent, forwarded, received, receive, learn_proxy, forward_inbound, finish_outbound,
  restore_client, screen_outbound, outbound, router_external_ip,
}
use bartimaeus_app.Router.Filter.{inbound-forwarded}
use bartimaeus_app.Router.Inbound.{
  translated, inbound_state, forward_inbound-some, forward_inbound-none,
}
use bartimaeus_app.Router.History.{Event, external, dmz, handle, after, run}
use bartimaeus_app.Router.History.Replies.{
  frame_of, AreFrames, handle-Keeps, Keeps-after, run-IsSound,
}
use bartimaeus_app.Router.Header.{AreBytes}
use bartimaeus_app.Router.History.Buffers.{IsFrame}
use bartimaeus_app.Router.History.Sound.{IsSound}

-- The packet is what stands at the start of the buffer.
abbrev IsFront : ℕ → Router → Sent → Type 0
IsFront n r s = s.content ≡ bytes_from r.buffer 0 n

forward_inbound-IsFront :
    (r r' : Router) (n : ℕ) (s : Sent) → forward_inbound r n ≡ forwarded r' s → IsFront n r' s
forward_inbound-IsFront r r' n s h =
    elim (Option-cases (update_transport_checksum (translated r.buffer))) [
      | inl e ↦ cc (forward_inbound-none r n e)
      | inr (m, e) ↦
          let out = sym (forward_inbound-some r n m e) ∙ h in
          let state : inbound_state r m ≡ r' = cc in
          let packet : bytes_from m 0 n ≡ s.content = cc in rw (← state, ← packet) refl
    ]

finish_outbound-IsFront :
    (r r' : Router) (n : ℕ) (s : Sent) → finish_outbound r n ≡ forwarded r' s → IsFront n r' s
unfolding finish_outbound
finish_outbound-IsFront r r' n s h =
    elim (Option-cases (update_transport_checksum (update_ip_checksum r.buffer))) [
      | inl e ↦ let clash = rw (finish_outbound, e) at h in cc
      | inr (m, e) ↦
          let out = rw (finish_outbound, e) at h in
          let state : record r { buffer = m } ≡ r' = cc in
          let packet : bytes_from m 0 n ≡ s.content = cc in rw (← state, ← packet) refl
    ]

restore_client-IsFront :
    (r r' : Router) (n : ℕ) (s : Sent) → restore_client r n ≡ forwarded r' s → IsFront n r' s
unfolding restore_client
restore_client-IsFront r r' n s h =
    elim (Option-cases
      (find ℕ_discrete (load16_be r.buffer (header_length r.buffer + 2)) r.session_table)) [
        | inl e ↦ ground (arith, finish_outbound-IsFront r r' n s)
        | inr (it, e) ↦ ground (
          arith,
          finish_outbound-IsFront r r' n s,
          finish_outbound-IsFront (record r { buffer = store32 r.buffer 16 it.client_ip }) r' n s,
        )
      ]

screen_outbound-IsFront :
    (r r' : Router) (n : ℕ) (s : Sent) → screen_outbound r n ≡ forwarded r' s → IsFront n r' s
unfolding screen_outbound
screen_outbound-IsFront r r' n s h = ground (
  arith,
  restore_client-IsFront (record r { buffer = store32 r.buffer 12 router_external_ip }) r' n s,
)

outbound-screened_frame :
    (r r' : Router) (frame : Option Frame) (s : Sent)
    → outbound r frame ≡ forwarded r' s
    → (f : Frame) × (frame ≡ some f)
      × (screen_outbound (learn_proxy (receive r f) f) (length (received f)) ≡ forwarded r' s)
unfolding outbound
outbound-screened_frame r r' none s h = cc
outbound-screened_frame r r' (some f) s h = (f, refl, ground arith)

handle-IsFront :
    (r r' : Router) (event : Event) (s : Sent)
    → handle r event ≡ forwarded r' s
    → (f : Frame) × (frame_of event ≡ some f) × IsFront (length (received f)) r' s
unfolding handle
handle-IsFront r r' (external frame) s h =
    let (f, got, _, _, _, e) = inbound-forwarded r r' frame s h in
    (f, got, forward_inbound-IsFront _ r' _ s e)
handle-IsFront r r' (dmz frame) s h =
    let (f, got, e) = outbound-screened_frame r r' frame s h in
    (f, got, screen_outbound-IsFront _ r' _ s e)

handle-buffer :
    (r r' : Router) (event : Event) (s : Sent)
    → IsFrame (frame_of event)
    → IsSound (λ it. Unit) r
    → handle r event ≡ forwarded r' s
    → AreBytes r'.buffer
handle-buffer r r' event s b h e =
    (Keeps-after (λ it. Unit) (handle r event) r'
      (handle-Keeps (λ it. Unit) r event [] b (λ it a. tt) h) (ap after e)).buffer

length-take : (n : ℕ) (s : Bytes) → length (take n s) ≤ n
length-take zero s = omega arith
length-take (suc n) [] = omega arith
length-take (suc n) (c ∷ s) = omega (arith, length-take n s)

IsFront-IsByte :
    (n : ℕ) (r : Router) (s : Sent)
    → IsFront n r s
    → AreBytes r.buffer
    → All (λ b. b < 256) s.content
IsFront-IsByte n r s front b = rw front (bytes_from-IsByte r.buffer 0 n b)

-- After any history of frames of bytes, from an empty table and a buffer of bytes, a packet that is
-- sent on either side is exactly as long as what was received of the frame it was made from, at
-- most 2048, and each of its bytes is one.
pub handle-bounded :
    (r r' r'' : Router) (events : List Event) (event : Event) (s : Sent)
    → AreBytes r.buffer
    → r.session_table ≡ []
    → AreFrames (event ∷ events)
    → run r events ≡ some r'
    → handle r' event ≡ forwarded r'' s
    → (f : Frame) × (frame_of event ≡ some f)
      × (length s.content ≡ length (received f))
      × (length s.content ≤ buffer_size)
      × All (λ b. b < 256) s.content
handle-bounded r r' r'' events event s b empty frames e h =
    let weak =
      run-IsSound (λ it. Unit) r r' events frames.1 (λ it a. tt)
        (record { buffer = b; functional = rw empty tt; owned = rw empty tt }) e in
    let kept = handle-buffer r' r'' event s frames.0 weak h in
    let (f, got, front) = handle-IsFront r' r'' event s h in
    let size : length s.content ≡ length (received f) =
      ap (λ (c : Bytes). length c) front ∙ length-bytes_from r''.buffer 0 (length (received f)) in
    (
      f,
      got,
      size,
      omega (arith, size, length-take buffer_size f.payload),
      IsFront-IsByte (length (received f)) r'' s front kept,
    )
