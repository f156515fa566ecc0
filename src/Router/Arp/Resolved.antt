-- ===== src/Router/Arp/Resolved.antt =====
-- Which replies resolve_arp_mac accepts, and what it leaves open.
use bartimaeus_app.Base.{
  ◌⊎◌, inl, inr, ℕ, zero, suc, ◌≤◌, ◌≡◌, refl, Bool, true, false, [], ◌∷◌, Option, none, some,
  arith, length, take, drop, length-append,
}
use bartimaeus_app.Base.Bytes.{Bytes}
use bartimaeus_app.Router.Kernel.{Kernel, Net, packet_arp, open_socket, call}
use bartimaeus_app.Router.Arp.{
  request, broadcast, ether_arp, sender_of, sender_of_received, received, awaited, attempt,
  next_attempt, attempts, resolve_bound, resolve_on, resolve_arp_mac, target,
}

-- An ARP reply of the host with this IP address, with its MAC address.
pub record IsReplyOf (ip mac reply : Bytes) : Type 0 where
  pub whole : 28 ≤ length reply
  pub is_reply : take 2 (drop 6 reply) ≡ 0 ∷ 2 ∷ []
  pub from_ip : take 4 (drop 14 reply) ≡ ip
  pub from_mac : mac ≡ take 6 (drop 8 reply)

sender_of-IsReplyOf :
    (ip mac reply : Bytes) → sender_of ip reply ≡ some mac → IsReplyOf ip mac reply
unfolding sender_of
sender_of-IsReplyOf ip mac reply e = ground arith

module _ {S : Type 0} (os : Kernel S) where
  module _ (sock interface_index : ℕ) (packet ip mac : Bytes) where
    -- In the state `s` the packet was sent to all, something came within a second, and it was such a
    -- reply.
    abbrev pub IsHeard : S → Type 0
    IsHeard s =
        let (sent, s1) = os.sendto sock packet interface_index broadcast s in
        let (ready, s2) = os.poll sock 1000 s1 in
        (sent ≡ true)
        × (ready ≡ true)
        × ((reply : Bytes) × ((os.recvfrom sock 28 s2).0 ≡ some reply) × IsReplyOf ip mac reply)

    -- So in one of the next `n` attempts, after others that gave nothing.
    abbrev pub HeardWithin : ℕ → Net S → Type 0
    HeardWithin zero net = ⊥
    HeardWithin (suc n) net =
        IsHeard net.kernel
        ⊎ (((attempt os sock interface_index packet ip net).0 ≡ none)
            × HeardWithin n (attempt os sock interface_index packet ip net).1)

    reply-IsReplyOf :
        (received_reply : Option Bytes)
        → sender_of_received ip received_reply ≡ some mac
        → (reply : Bytes) × (received_reply ≡ some reply) × IsReplyOf ip mac reply
    unfolding sender_of_received
    reply-IsReplyOf none e = cc
    reply-IsReplyOf (some reply) e = (reply, refl, sender_of-IsReplyOf ip mac reply e)

    received-some :
        (ready : Bool) (net : Net S)
        → (received os sock interface_index packet ip ready net).0 ≡ some mac
        → (ready ≡ true)
          × ((reply : Bytes) × ((os.recvfrom sock 28 net.kernel).0 ≡ some reply)
              × IsReplyOf ip mac reply)
    unfolding received
    received-some false net e = cc
    received-some true net e = (refl, reply-IsReplyOf _ e)

    awaited-some :
        (sent : Bool) (net : Net S)
        → (awaited os sock interface_index packet ip sent net).0 ≡ some mac
        → (sent ≡ true)
          × ((os.poll sock 1000 net.kernel).0 ≡ true)
          × ((reply : Bytes) × ((os.recvfrom sock 28 (os.poll sock 1000 net.kernel).1).0
                ≡ some reply)
              × IsReplyOf ip mac reply)
    unfolding awaited
    awaited-some false net e = cc
    awaited-some true net e = let (ready, heard) = received-some _ _ e in (refl, ready, heard)

    attempt-IsHeard :
        (net : Net S)
        → (attempt os sock interface_index packet ip net).0 ≡ some mac
        → IsHeard net.kernel
    unfolding attempt
    attempt-IsHeard net e = awaited-some _ _ e

    next_attempt-some :
        (loop : Net S → Option Bytes × Net S) (found : Option Bytes) (net : Net S)
        → (next_attempt os sock interface_index packet ip loop found net).0 ≡ some mac
        → (found ≡ some mac) ⊎ ((found ≡ none) × ((loop net).0 ≡ some mac))
    unfolding next_attempt
    next_attempt-some loop none net e = inr (refl, e)
    next_attempt-some loop (some m) net e = inl e

    attempts-HeardWithin :
        (n : ℕ) (net : Net S)
        → (attempts os sock interface_index packet ip n net).0 ≡ some mac
        → HeardWithin n net
    unfolding attempts
    attempts-HeardWithin zero net e = cc
    attempts-HeardWithin (suc n) net e =
        elim (next_attempt-some (attempts os sock interface_index packet ip n) _ _ e) [
          | inl now ↦ inl (attempt-IsHeard net now)
          | inr (nothing, later) ↦ inr (nothing, attempts-HeardWithin n _ later)
        ]

  module _ (interface_index : ℕ) (source_mac source_ip_string target_ip_string mac : Bytes) where
    abbrev question : Bytes
    question = request os interface_index source_mac source_ip_string target_ip_string

    abbrev target_ip : Bytes
    target_ip = target os interface_index source_mac source_ip_string target_ip_string

    -- From the state `net` on, a socket was opened and bound, and one of three attempts on it heard
    -- the reply.
    abbrev pub IsAnswered : Net S → Type 0
    IsAnswered net =
        let (sock, opened_net) = open_socket os packet_arp net in
        (got : ℕ) × (sock ≡ some got)
        × ((os.bind got packet_arp interface_index opened_net.kernel).0 ≡ true)
        × HeardWithin got interface_index question target_ip mac 3
            (call os (os.bind got packet_arp interface_index) opened_net).1

    resolve_bound-some :
        (sock : ℕ) (bound : Bool) (net : Net S)
        → (resolve_bound os interface_index source_mac source_ip_string target_ip_string sock bound
            net).0
          ≡ some mac
        → (bound ≡ true) × HeardWithin sock interface_index question target_ip mac 3 net
    unfolding resolve_bound
    resolve_bound-some sock false net e = cc
    resolve_bound-some sock true net e =
        (refl, attempts-HeardWithin sock interface_index question target_ip mac 3 net e)

    resolve_on-some :
        (sock : Option ℕ) (net : Net S)
        → (resolve_on os interface_index source_mac source_ip_string target_ip_string sock net).0
          ≡ some mac
        → (got : ℕ) × (sock ≡ some got)
          × ((os.bind got packet_arp interface_index net.kernel).0 ≡ true)
          × HeardWithin got interface_index question target_ip mac 3
              (call os (os.bind got packet_arp interface_index) net).1
    unfolding resolve_on
    resolve_on-some none net e = cc
    resolve_on-some (some sock) net e =
        let (bound, heard) = resolve_bound-some sock _ _ e in (sock, refl, bound, heard)

    -- When resolve_arp_mac answers a MAC address, then it opened and bound a socket, and in one of
    -- its first three attempts, the ones before it without a result, its request was sent to all and
    -- within a second an ARP reply of full length came from the target's IP address, with that MAC
    -- address as the sender's.
    pub resolve_arp_mac-IsAnswered :
        (net : Net S)
        → (resolve_arp_mac os interface_index source_mac source_ip_string target_ip_string net).0
          ≡ some mac
        → IsAnswered net
    unfolding resolve_arp_mac
    resolve_arp_mac-IsAnswered net e = resolve_on-some _ _ e

-- An ARP packet of a host, behind which the buffer may go on, is accepted with the host's MAC
-- address when it is a reply from the target, and not when it is a request.
sender_of-ether_arp :
    (sha spa tha tpa : Bytes)
    → length sha ≡ 6
    → length spa ≡ 4
    → length tha ≡ 6
    → length tpa ≡ 4
    → (sender_of spa (ether_arp 2 sha spa tha tpa) ≡ some sha)
      × (sender_of spa (ether_arp 1 sha spa tha tpa) ≡ none)
unfolding sender_of ether_arp
sender_of-ether_arp (a ∷ b ∷ c ∷ d ∷ e ∷ f ∷ []) (g ∷ h ∷ i ∷ j ∷ []) tha tpa l6 l4 m6 m4 =
    ground (arith, length-append tha tpa)
sender_of-ether_arp _ _ tha tpa l6 l4 m6 m4 = ground arith
