-- ===== src/Router/History/Rounds.antt =====
-- The rounds of the loop, each with two sockets, as histories of single steps.
use bartimaeus_app.Base.{
  ◌≡◌, refl, ◌∙◌, List, [], ◌∷◌, ◌++◌, Option, none, some, All, All-append, Option-cases, inl, inr,
}
use bartimaeus_app.Router.Pipeline.{
  Router, Frame, Sent, Outcome, fault, dropped, forwarded, inbound, outbound, Round, stopped,
  continued, round, after_outbound, dmz_part, after_inbound,
}
use bartimaeus_app.Router.History.{Event, external, dmz, handle, after, run, Admits}
use bartimaeus_app.Router.History.Buffers.{IsFrame}
use bartimaeus_app.Router.Header.{AreBytes}
use bartimaeus_app.Router.History.Sound.{IsSound}
use bartimaeus_app.Router.History.Replies.{AreFrames, run-IsTraced}

-- What the two sockets have ready in one round.
abbrev pub Ready : Type 0
Ready = Option (Option Frame) × Option (Option Frame)

abbrev pub after_round : Round → Option Router
after_round stopped = none
after_round (continued r sent) = some r

unfoldable pub rounds : Router → List Ready → Option Router
rounds r [] = some r
rounds r ((external_ready, dmz_ready) ∷ inputs) =
    elim (after_round (round r external_ready dmz_ready)) [
      | none ↦ none
      | some r' ↦ rounds r' inputs
    ]

abbrev pub IsReady : Option (Option Frame) → Type 0
IsReady none = Unit
IsReady (some frame) = IsFrame frame

abbrev pub AreReady : List Ready → Type 0
AreReady = All (λ (input : Ready). IsReady input.0 × IsReady input.1)

run-append :
    (r r1 : Router) (events more : List Event)
    → run r events ≡ some r1
    → run r (events ++ more) ≡ run r1 more
unfolding run
run-append r r1 [] more e = let same : r ≡ r1 = cc in rw same refl
run-append r r1 (event ∷ events) more e = elim (Option-cases (after (handle r event))) [
  | inl stop ↦ let clash = rw (stop, run) at e in cc
  | inr (r2, next) ↦ rw (next, run) (run-append r2 r1 events more (rw (next, run) at e))
]

-- The frames that a round reads, in their order. A packet that is dropped on the way in leaves the
-- other socket's frame for a later round.
abbrev dmz_events : Option (Option Frame) → List Event
dmz_events none = []
dmz_events (some frame) = dmz frame ∷ []

abbrev events_after : Option (Option Frame) → Outcome → List Event
events_after dmz_ready (forwarded r s) = dmz_events dmz_ready
events_after dmz_ready _ = []

abbrev round_events : Router → Option (Option Frame) → Option (Option Frame) → List Event
round_events r none dmz_ready = dmz_events dmz_ready
round_events r (some frame) dmz_ready = external frame ∷ events_after dmz_ready (inbound r frame)

-- The frames that the rounds read.
unfoldable pub events_of : Router → List Ready → List Event
events_of r [] = []
events_of r ((external_ready, dmz_ready) ∷ inputs) =
    elim (after_round (round r external_ready dmz_ready)) [
      | none ↦ round_events r external_ready dmz_ready
      | some r' ↦ round_events r external_ready dmz_ready ++ events_of r' inputs
    ]

-- The events lead from one state to the other.
abbrev Leads : Router → Router → List Event → Type 0
Leads r r' events = AreFrames events × (run r events ≡ some r')

run-one :
    (r r' : Router) (event : Event)
    → after (handle r event) ≡ some r'
    → run r (event ∷ []) ≡ some r'
unfolding run
run-one r r' event e = rw (e, run) refl

Leads-one :
    (r r' : Router) (event : Event)
    → AreFrames (event ∷ [])
    → after (handle r event) ≡ some r'
    → Leads r r' (event ∷ [])
Leads-one r r' event b e = (b, run-one r r' event e)

Leads-trans :
    (r r1 r2 : Router) (first second : List Event)
    → Leads r r1 first
    → Leads r1 r2 second
    → Leads r r2 (first ++ second)
Leads-trans r r1 r2 first second (b, e) (c, g) =
    (All-append _ first second b c, run-append r r1 first second e ∙ g)

run-none : (r r' : Router) → some r ≡ some r' → run r [] ≡ some r'
unfolding run
run-none r r' e = e

after_outbound-after :
    (r' : Router) (sent : List Sent) (o : Outcome)
    → after_round (after_outbound sent o) ≡ some r'
    → after o ≡ some r'
after_outbound-after r' sent fault e = e
after_outbound-after r' sent (dropped r) e = e
after_outbound-after r' sent (forwarded r s) e = e

dmz_part-Leads :
    (r r' : Router) (sent : List Sent) (dmz_ready : Option (Option Frame))
    → IsReady dmz_ready
    → after_round (dmz_part r sent dmz_ready) ≡ some r'
    → Leads r r' (dmz_events dmz_ready)
unfolding handle
dmz_part-Leads r r' sent none b e = (tt, run-none r r' e)
dmz_part-Leads r r' sent (some frame) b e =
    Leads-one r r' (dmz frame) (b, tt) (after_outbound-after r' sent (outbound r frame) e)

-- The first step was made, and the second unless the first one dropped its packet.
after_inbound-Leads :
    (r r' : Router) (frame : Option Frame) (dmz_ready : Option (Option Frame)) (o : Outcome)
    → IsFrame frame
    → IsReady dmz_ready
    → handle r (external frame) ≡ o
    → after_round (after_inbound dmz_ready o) ≡ some r'
    → Leads r r' (external frame ∷ events_after dmz_ready o)
after_inbound-Leads r r' frame dmz_ready fault b c h e = cc
after_inbound-Leads r r' frame dmz_ready (dropped r1) b c h e =
    Leads-one r r' (external frame) (b, tt) (rw h e)
after_inbound-Leads r r' frame dmz_ready (forwarded r1 s) b c h e =
    Leads-trans r r1 r' (external frame ∷ []) (dmz_events dmz_ready)
      (Leads-one r r1 (external frame) (b, tt) (rw h refl))
      (dmz_part-Leads r1 r' (s ∷ []) dmz_ready c e)

round-Leads :
    (r r' : Router) (external_ready dmz_ready : Option (Option Frame))
    → IsReady external_ready
    → IsReady dmz_ready
    → after_round (round r external_ready dmz_ready) ≡ some r'
    → Leads r r' (round_events r external_ready dmz_ready)
unfolding round handle
round-Leads r r' none dmz_ready b c e = dmz_part-Leads r r' [] dmz_ready c e
round-Leads r r' (some frame) dmz_ready b c e =
    after_inbound-Leads r r' frame dmz_ready (inbound r frame) b c refl e

-- Whatever state any number of rounds on frames of bytes leads to, the frames that they read lead to
-- it one by one.
rounds-Leads :
    (r r' : Router) (inputs : List Ready)
    → AreReady inputs
    → rounds r inputs ≡ some r'
    → Leads r r' (events_of r inputs)
unfolding rounds events_of
rounds-Leads r r' [] b e = (tt, run-none r r' e)
rounds-Leads r r' ((external_ready, dmz_ready) ∷ inputs) b e =
    elim (Option-cases (after_round (round r external_ready dmz_ready))) [
      | inl stop ↦ let clash = rw (stop, rounds) at e in cc
      | inr (r1, next) ↦
          rw (next, events_of)
            (Leads-trans r r1 r' (round_events r external_ready dmz_ready) (events_of r1 inputs)
              (round-Leads r r1 external_ready dmz_ready b.0.0 b.0.1 next)
              (rounds-Leads r1 r' inputs b.1 (rw (next, rounds) at e)))
    ]

-- After any number of rounds of the loop on frames of bytes, from an empty table and a buffer of
-- bytes, as long as no packet has made the router leave its arrays, the frames that the rounds read
-- lead to the same state one by one, and: the buffer holds bytes, the table has each port once, and
-- every session stands under its client's port, fits its types, and is of a client whose packet is
-- one of those frames, read from the outer socket, and was let through by the filter.
pub rounds-IsTraced :
    (r r' : Router) (inputs : List Ready)
    → AreBytes r.buffer
    → r.session_table ≡ []
    → AreReady inputs
    → rounds r inputs ≡ some r'
    → (run r (events_of r inputs) ≡ some r') × IsSound (Admits r (events_of r inputs)) r'
rounds-IsTraced r r' inputs b empty ready e =
    let (frames, led) = rounds-Leads r r' inputs ready e in
    (led, run-IsTraced r r' (events_of r inputs) b empty frames led)
