-- ===== src/Tests/TraceTests.antt =====
-- The theorems on the router's loop, at a client's packet and the proxy's reply.
use bartimaeus_app.Base.{
  ◌≤◌, ◌<◌, ◌≡◌, refl, ◌≢◌, true, List, [], ◌∷◌, Option, none, some, arith, all, ltb, All, length,
  ℕ_discrete,
}
use bartimaeus_app.Base.Bytes.{Bytes}
use bartimaeus_app.Base.Map.{find, insert}
use bartimaeus_app.Router.Acl.{evaluate_acl, acl_rules}
use bartimaeus_app.Router.Memory.{
  buffer_size, store16, store32, overwrite, load32, load16_be, bytes_from,
}
use bartimaeus_app.Router.Transport.{
  header_length, update_ip_checksum, update_transport_checksum, calculate_tcp_checksum,
}
use bartimaeus_app.Router.Pipeline.{
  NatSession, Router, Frame, Outcome, received, forwarded, receive, has_ports, inbound, outbound,
  screen_inbound, five_tuple, forward_inbound, translate_inbound, register_session, screen_outbound,
  restore_client, finish_outbound, round, router_external_ip,
}
use bartimaeus_app.Router.Reply.{reply_port}
use bartimaeus_app.Router.History.{Event, external, dmz, handle, run, Admits}
use bartimaeus_app.Router.History.Sound.{IsSound}
use bartimaeus_app.Router.History.Replies.{frame_of, reply-admitted}
use bartimaeus_app.Router.History.Lengths.{handle-bounded}
use bartimaeus_app.Router.History.Rounds.{Ready, AreReady, rounds, events_of, rounds-IsTraced}
use bartimaeus_app.Tests.RouterTests.{
  syn, syn_ack, router, zeros, frame, router_after, packet_of, zeros-AreBytes,
}

all-IsByte : (s : Bytes) → all (λ c. ltb c 256) s ≡ true → All (λ b. b < 256) s
all-IsByte [] h = tt
all-IsByte (c ∷ s) h = (ground arith, all-IsByte s (ground arith))

abbrev state_of : Option Router → Router
state_of none = router zeros
state_of (some r) = r

-- A round in which the packet comes in, and one without any.
abbrev two_rounds : List Ready
two_rounds = (some (some (frame syn)), none) ∷ (none, none) ∷ []

two_rounds-AreReady : AreReady two_rounds
two_rounds-AreReady = ((all-IsByte syn refl, tt), ((tt, tt), tt))

two_rounds-lead :
    rounds (router zeros) two_rounds ≡ some (state_of (rounds (router zeros) two_rounds))
unfolding rounds round inbound screen_inbound load32 overwrite evaluate_acl acl_rules five_tuple
    load16_be header_length forward_inbound update_transport_checksum update_ip_checksum store16
    translate_inbound store32 calculate_tcp_checksum
two_rounds-lead = refl

rounds-IsTraced_example :
    (run (router zeros) (events_of (router zeros) two_rounds)
      ≡ some (state_of (rounds (router zeros) two_rounds)))
    × IsSound
        (Admits (router zeros) (events_of (router zeros) two_rounds))
        (state_of (rounds (router zeros) two_rounds))
rounds-IsTraced_example =
    rounds-IsTraced (router zeros) (state_of (rounds (router zeros) two_rounds)) two_rounds
      zeros-AreBytes refl two_rounds-AreReady two_rounds-lead

abbrev came_in : List Event
came_in = external (some (frame syn)) ∷ []

abbrev waiting : Router
waiting = state_of (run (router zeros) came_in)

came_in-lead : run (router zeros) came_in ≡ some waiting
unfolding run handle inbound screen_inbound load32 overwrite evaluate_acl acl_rules five_tuple
    load16_be header_length forward_inbound update_transport_checksum update_ip_checksum store16
    translate_inbound store32 calculate_tcp_checksum
came_in-lead = refl

abbrev went_out : Outcome
went_out = outbound waiting (some (frame syn_ack))

went_out-forwarded : went_out ≡ forwarded (router_after went_out) (packet_of went_out)
unfolding run handle inbound screen_inbound load32 overwrite evaluate_acl acl_rules five_tuple
    load16_be header_length forward_inbound update_transport_checksum update_ip_checksum store16
    translate_inbound store32 calculate_tcp_checksum outbound screen_outbound restore_client find
    register_session insert ℕ_discrete finish_outbound
went_out-forwarded = refl

went_out-handled :
    handle waiting (dmz (some (frame syn_ack)))
    ≡ forwarded (router_after went_out) (packet_of went_out)
unfolding handle
went_out-handled = went_out-forwarded

reply-has_ports : has_ports (receive waiting (frame syn_ack)).buffer ≡ true
unfolding overwrite
reply-has_ports = refl

reply-long : 20 ≤ header_length (receive waiting (frame syn_ack)).buffer
unfolding header_length overwrite
reply-long = omega arith

reply-admitted_example :
    (client : NatSession) × Admits (router zeros) came_in client
    × (client.client_port ≡ reply_port (receive waiting (frame syn_ack)).buffer)
    × ((packet_of went_out).content
        ≡ bytes_from (router_after went_out).buffer 0 (length (received (frame syn_ack))))
    × (load32 (router_after went_out).buffer 16 ≡ client.client_ip)
    × (client.client_ip ≢ router_external_ip)
    × (load32 (router_after went_out).buffer 12 ≡ router_external_ip)
reply-admitted_example =
    reply-admitted (router zeros) waiting (router_after went_out) came_in (frame syn_ack)
      (packet_of went_out) zeros-AreBytes refl (all-IsByte syn refl, tt) (all-IsByte syn_ack refl)
      came_in-lead reply-has_ports reply-long went_out-forwarded

handle-bounded_example :
    (f : Frame) × (frame_of (dmz (some (frame syn_ack))) ≡ some f)
    × (length (packet_of went_out).content ≡ length (received f))
    × (length (packet_of went_out).content ≤ buffer_size)
    × All (λ b. b < 256) (packet_of went_out).content
handle-bounded_example =
    handle-bounded (router zeros) waiting (router_after went_out) came_in
      (dmz (some (frame syn_ack))) (packet_of went_out) zeros-AreBytes refl
      (all-IsByte syn_ack refl, (all-IsByte syn refl, tt)) came_in-lead went_out-handled
