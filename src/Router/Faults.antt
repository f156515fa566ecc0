-- ===== src/Router/Faults.antt =====
-- When the copy of a segment for its checksum leaves the arrays.
use bartimaeus_app.Base.{ℕ, ◌+◌, ◌≤◌, ◌<◌, ◌≡◌, refl, ◌∙◌, ◌⊎◌, inl, inr, none, some, arith}
use bartimaeus_app.Router.Acl.{ipproto_tcp}
use bartimaeus_app.Router.Memory.{Memory, load16_be}
use bartimaeus_app.Router.Transport.{header_length, update_transport_checksum}
use bartimaeus_app.Router.Header.{AreBytes}
use bartimaeus_app.Router.Pipeline.{Router, fault, forwarded, send_to_dmz, forward_inbound}
use bartimaeus_app.Router.Updates.{load16_be-cong}
use bartimaeus_app.Base.{true, false, if◌then◌else◌, length, Bool-cases, inr, ◌⊎◌, ◌↔◌}
use bartimaeus_app.Router.Memory.{buffer_size, store16}
use bartimaeus_app.Router.Pipeline.{fault}
use bartimaeus_app.Router.Transport.{tcp_checksum}
use bartimaeus_app.Router.Updates.{tcp_fits, update_cases}
use bartimaeus_app.Router.Inbound.{
  translated, translated-other, header_length-translated, inbound_state, forward_inbound-some,
  forward_inbound-none,
}
use bartimaeus_app.Router.Filter.{IsAdmitted, inbound-admitted, learn_gateway-buffer}
use bartimaeus_app.Router.Pipeline.{Frame, received, receive, learn_gateway, min_header, inbound}

abbrev pub total_length : Memory → ℕ
total_length m = load16_be m 2

abbrev pub IsOversized : Memory → Type 0
IsOversized m = (buffer_size < total_length m) ⊎ (total_length m < header_length m)

header_length-le : (m : Memory) → header_length m ≤ 60
unfolding header_length
header_length-le m = omega arith

total_length-lt : (m : Memory) → AreBytes m → total_length m < 65536
unfolding load16_be
total_length-lt m b = omega (arith, b 2, b 3)

tcp_fits_cases :
    (m : Memory)
    → AreBytes m
    → 20 ≤ header_length m
    → ((tcp_fits m ≡ true) × (¬ IsOversized m)) ⊎ ((tcp_fits m ≡ false) × IsOversized m)
tcp_fits_cases m b long =
    let le = header_length-le m in
    let lt = total_length-lt m b in
    elim (Bool-cases (tcp_fits m)) [
      | inl f ↦ inl (f, λ o. ground arith)
      | inr f ↦ inr (f, ground arith)
    ]

tcp_update :
    (m : Memory)
    → m 9 ≡ ipproto_tcp
    → update_transport_checksum m ≡ (
        if tcp_fits m
        then some (
            store16
              (store16 m (header_length m + 16) 0)
              (header_length m + 16)
              (tcp_checksum m (header_length m)))
        else none)
tcp_update m tcp = elim (update_cases m) [
  | inl (_, u) ↦ u
  | inr (inl (udp, u)) ↦ absurd (omega arith)
  | inr (inr (other, _, u)) ↦ absurd (other tcp)
]

module _ (m : Memory) (tcp : m 9 ≡ ipproto_tcp) where
  translated-protocol : translated m 9 ≡ ipproto_tcp
  translated-protocol = translated-other m 9 (inl (omega arith)) ∙ tcp

  total_length-translated : total_length (translated m) ≡ total_length m
  total_length-translated =
      load16_be-cong (translated m) m 2 (translated-other m 2 (inl (omega arith)))
        (translated-other m 3 (inl (omega arith)))

  tcp_fits-translated : tcp_fits (translated m) ≡ tcp_fits m
  tcp_fits-translated = rw (header_length-translated m, total_length-translated) refl

-- For a TCP packet, in a buffer of bytes and with a header length of 20 or more, the translation
-- runs out of its arrays exactly when the total length that the packet claims is more than 2048 or
-- less than its header length, however many bytes were received; in all other cases the packet is
-- sent.
pub forward_inbound_fault_iff :
    (r : Router) (n : ℕ)
    → AreBytes r.buffer
    → 20 ≤ header_length r.buffer
    → r.buffer 9 ≡ ipproto_tcp
    → ((forward_inbound r n ≡ fault) ↔ IsOversized r.buffer)
      × ((¬ IsOversized r.buffer)
          → (m : Memory) × (forward_inbound r n
              ≡ forwarded (inbound_state r m) (send_to_dmz (inbound_state r m) n)))
forward_inbound_fault_iff r n b long tcp =
    let m = translated r.buffer in
    let u = tcp_update m (translated-protocol r.buffer tcp) in
    let same = tcp_fits-translated r.buffer tcp in
    elim (tcp_fits_cases r.buffer b long) [
      | inl (fits, ok) ↦
          let updated : Memory =
            store16 (store16 m (header_length m + 16) 0) (header_length m + 16)
              (tcp_checksum m (header_length m)) in
          let sent = forward_inbound-some r n updated (u ∙ rw (same, fits) refl) in
          ((λ h. cc, λ o. absurd (ok o)), λ _. (updated, sent))
      | inr (over, bad) ↦
          let failed = forward_inbound-none r n (u ∙ rw (same, over) refl) in
          ((λ _. bad, λ _. failed), λ ok. absurd (ok bad))
    ]

-- One frame from outside is enough for a fault: a packet of bytes, 20 or more of them received,
-- that the filter admits, with a header length of 20 or more and a total length of more than 2048
-- or less than its header length, makes the router leave its arrays.
pub inbound_fault :
    (r : Router) (f : Frame)
    → AreBytes (receive r f).buffer
    → min_header ≤ length (received f)
    → f.is_outgoing ≡ false
    → IsAdmitted (receive r f).buffer
    → 20 ≤ header_length (receive r f).buffer
    → IsOversized (receive r f).buffer
    → inbound r (some f) ≡ fault
inbound_fault r f b size fresh a long over =
    let r' = learn_gateway (receive r f) f in
    let same = learn_gateway-buffer (receive r f) f in
    inbound-admitted r f size fresh a
    ∙ (forward_inbound_fault_iff r' (length (received f)) (rw same b) (rw same long)
          (rw same a.protocol)).0.1
        (rw same over)
