-- ===== src/Router/History.antt =====
-- The event loop of ScreeningRouter/main.cpp over any sequence of frames: each step is what the loop
-- does with one socket that is ready. A round of the loop is one step or two.
pub mod Buffers
pub mod Sound
pub mod Replies
pub mod Rounds
pub mod Lengths
use bartimaeus_app.Base.{ℕ, ◌+◌, ◌≤◌, ◌≡◌, false, List, [], ◌∷◌, ◌++◌, Option, none, some, length}
use bartimaeus_app.Router.Memory.{Memory, load16_be, load32}
use bartimaeus_app.Router.Transport.{header_length}
use bartimaeus_app.Router.Pipeline.{
  NatSession, Router, Frame, Outcome, fault, dropped, forwarded, received, receive, min_header,
  inbound, outbound, Round, stopped, continued, round,
}
use bartimaeus_app.Router.Filter.{IsAdmitted}
use bartimaeus_app.Router.Inbound.{translated}

-- What recvfrom delivers on one of the sockets.
pub data Event : Type 0 where
  external dmz : Option Frame → Event

unfoldable pub handle : Router → Event → Outcome
handle r (external frame) = inbound r frame
handle r (dmz frame) = outbound r frame

-- The router goes on, unless it has left its arrays.
abbrev pub after : Outcome → Option Router
after fault = none
after (dropped r) = some r
after (forwarded r s) = some r

unfoldable pub run : Router → List Event → Option Router
unfolding handle
run r [] = some r
run r (event ∷ events) = elim (after (handle r event)) [ none ↦ none | some r' ↦ run r' events ]

-- The client of a packet that is in the buffer: its source address, and the port that is there after
-- the translation, which changes no byte of the ports when the header is 20 bytes or longer.
abbrev pub client_of : Memory → NatSession
client_of m = record {
  client_ip = load32 m 12;
  client_port = load16_be (translated m) (header_length (translated m));
}

-- The history has the client's packet in it, on the outer socket, and the filter lets it through.
pub data Admits : Router → List Event → NatSession → Type 0 where
  admitted :
      {r : Router} {f : Frame} {events : List Event}
      → min_header ≤ length (received f)
      → f.is_outgoing ≡ false
      → IsAdmitted (receive r f).buffer
      → Admits r (external (some f) ∷ events) (client_of (receive r f).buffer)
  afterwards :
      {r r' : Router} {event : Event} {events : List Event} {it : NatSession}
      → after (handle r event) ≡ some r'
      → Admits r' events it
      → Admits r (event ∷ events) it
