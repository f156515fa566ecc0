-- ===== src/Router/Filter.antt =====
-- What the inbound pipeline lets through.
use bartimaeus_app.Base.{
  ℕ, ◌+◌, ◌≤◌, ◌≡◌, refl, ◌≢◌, false, Option, none, some, arith, length, ltb, le→not_ltb, ◌==◌,
}
use bartimaeus_app.Router.Acl.{allow, evaluate_acl, acl_rules, acl_rules_allow, ipproto_tcp}
use bartimaeus_app.Router.Memory.{Memory, load16_be, load32}
use bartimaeus_app.Router.Transport.{header_length}
use bartimaeus_app.Router.Pipeline.{
  Router, Frame, Sent, forwarded, received, receive, learn_gateway, five_tuple, router_external_ip,
  min_header, forward_inbound, screen_inbound, inbound,
}

-- A packet that may go on: TCP to port 8080, not from the router's own address.
pub record IsAdmitted (m : Memory) : Type 0 where
  pub protocol : m 9 ≡ ipproto_tcp
  pub dst_port : load16_be m (header_length m + 2) ≡ 8080
  pub source : load32 m 12 ≢ router_external_ip

pub five_tuple-allowed :
    (m : Memory)
    → (evaluate_acl acl_rules (five_tuple m)).action ≡ allow
    → (m 9 ≡ ipproto_tcp) × (load16_be m (header_length m + 2) ≡ 8080)
five_tuple-allowed m h =
    let (p, d) = (acl_rules_allow (five_tuple m)).0 h in unfold five_tuple in (p, ground arith)

pub learn_gateway-buffer : (r : Router) (f : Frame) → (learn_gateway r f).buffer ≡ r.buffer
learn_gateway-buffer r f = ground arith

screen_inbound-forwarded :
    (r r' : Router) (n : ℕ) (s : Sent)
    → screen_inbound r n ≡ forwarded r' s
    → IsAdmitted r.buffer × (forward_inbound r n ≡ forwarded r' s)
unfolding screen_inbound
screen_inbound-forwarded r r' n s h =
    let passes : (evaluate_acl acl_rules (five_tuple r.buffer)).action ≡ allow = ground arith in
    let (p, d) = five_tuple-allowed r.buffer passes in
    (record { protocol = p; dst_port = d; source = ground arith }, ground arith)

five_tuple-allowed_back :
    (m : Memory)
    → m 9 ≡ ipproto_tcp
    → load16_be m (header_length m + 2) ≡ 8080
    → (evaluate_acl acl_rules (five_tuple m)).action ≡ allow
five_tuple-allowed_back m p d =
    (acl_rules_allow (five_tuple m)).1 (unfold five_tuple in (p, ground arith))

screen_inbound-admitted :
    (r : Router) (n : ℕ) → IsAdmitted r.buffer → screen_inbound r n ≡ forward_inbound r n
unfolding screen_inbound
screen_inbound-admitted r n a =
    let passes = five_tuple-allowed_back r.buffer a.protocol a.dst_port in
    let other : (load32 r.buffer 12 == router_external_ip) ≡ false = ground arith in
    rw (other, passes) refl

-- An admitted packet that came in whole goes on to the translation.
pub inbound-admitted :
    (r : Router) (f : Frame)
    → min_header ≤ length (received f)
    → f.is_outgoing ≡ false
    → IsAdmitted (receive r f).buffer
    → inbound r (some f) ≡ forward_inbound (learn_gateway (receive r f) f) (length (received f))
unfolding inbound
inbound-admitted r f size fresh a =
    let whole : ltb (length (received f)) min_header ≡ false =
      le→not_ltb min_header (length (received f)) size in
    rw (whole, fresh)
      (screen_inbound-admitted (learn_gateway (receive r f) f) (length (received f))
        (rw (learn_gateway-buffer (receive r f) f) a))

-- When the inbound pipeline sends something, recvfrom had delivered a frame of 20 bytes or more
-- that the router had not sent itself, its packet is TCP to port 8080 and not from the router's
-- outer address, and what is sent is what the translation makes of it.
pub inbound-forwarded :
    (r r' : Router) (frame : Option Frame) (s : Sent)
    → inbound r frame ≡ forwarded r' s
    → (f : Frame) × (frame ≡ some f)
      × (min_header ≤ length (received f))
      × (f.is_outgoing ≡ false)
      × IsAdmitted (receive r f).buffer
      × (forward_inbound (learn_gateway (receive r f) f) (length (received f)) ≡ forwarded r' s)
unfolding inbound
inbound-forwarded r r' none s h = cc
inbound-forwarded r r' (some f) s h =
    let inner : screen_inbound (learn_gateway (receive r f) f) (length (received f))
        ≡ forwarded r' s =
      ground arith in
    let (a, e) =
      screen_inbound-forwarded (learn_gateway (receive r f) f) r' (length (received f)) s inner in
    (f, refl, ground arith, ground arith, rw (← learn_gateway-buffer (receive r f) f) a, e)
