-- ===== src/Router/StartUp/Sockets.antt =====
-- What the start of the router leaves open, and what it needs.
use bartimaeus_app.Base.{
  ℕ, ◌≡◌, refl, ap, ◌≢◌, ◌∙◌, Bool, true, false, List, ◌∷◌, Option, none, some, arith, ◌==◌, ◌||◌,
  Bool-cases, inl, inr,
}
use bartimaeus_app.Base.Bytes.{Bytes}
use bartimaeus_app.Router.Kernel.{Kernel, Net, packet_ip, open_socket, close_socket, forget, opened}
use bartimaeus_app.Router.Memory.{Memory}
use bartimaeus_app.Router.Arp.Balance.{
  forget-here, get_interface_mac-Balanced, resolve_arp_mac-Balanced,
}
use bartimaeus_app.Router.StartUp.{
  Interfaces, Started, find_interfaces, probe_proxy, initial_router, give_up, bound_dmz,
  bound_external, bind_sockets, find_dmz_mac, find_macs, with_dmz, with_external, start_up,
}

forget-both : (a b : ℕ) (socks : List ℕ) → forget b (forget a (b ∷ a ∷ socks)) ≡ socks
forget-both a b socks = ground arith

-- The two sockets are open and the two interfaces known, or nothing more is open than before.
abbrev pub Starts : {S : Type 0} → List ℕ → Option Started × Net S → Type 0
Starts base (none, net) = net.open_sockets ≡ base
Starts base (some started, net) =
    (net.open_sockets ≡ started.dmz_socket ∷ started.external_socket ∷ base)
    × (started.router.external_interface_index ≢ 0)
    × (started.router.dmz_ifindex ≢ 0)

module _ {S : Type 0} (os : Kernel S) (buffer : Memory) where
  module _ (external_socket dmz_socket : ℕ) (found : Interfaces) (base : List ℕ) where
    abbrev Both : Net S → Type 0
    Both net = net.open_sockets ≡ dmz_socket ∷ external_socket ∷ base

    give_up-Starts :
        (net : Net S) → Both net → Starts base (give_up os buffer external_socket dmz_socket net)
    unfolding give_up close_socket
    give_up-Starts net h = rw h (forget-both external_socket dmz_socket base)

    module _ (has_external : found.external_interface_index ≢ 0)
        (has_dmz : found.dmz_ifindex ≢ 0) where
      probe_proxy-Starts :
          (external_mac dmz_mac : Bytes) (net : Net S)
          → Both net
          → Starts base
              (probe_proxy os buffer external_socket dmz_socket found external_mac dmz_mac net)
      unfolding probe_proxy initial_router
      probe_proxy-Starts external_mac dmz_mac net h =
          (resolve_arp_mac-Balanced os _ _ _ _ net ∙ h, has_external, has_dmz)

      bound_dmz-Starts :
          (external_mac dmz_mac : Bytes) (bound : Bool) (net : Net S)
          → Both net
          → Starts base
              (bound_dmz os buffer external_socket dmz_socket found external_mac dmz_mac bound net)
      unfolding bound_dmz
      bound_dmz-Starts external_mac dmz_mac false net h = give_up-Starts net h
      bound_dmz-Starts external_mac dmz_mac true net h =
          probe_proxy-Starts external_mac dmz_mac net h

      bound_external-Starts :
          (external_mac dmz_mac : Bytes) (bound : Bool) (net : Net S)
          → Both net
          → Starts base (
              bound_external os buffer external_socket dmz_socket found external_mac dmz_mac bound
                net)
      unfolding bound_external
      bound_external-Starts external_mac dmz_mac false net h = give_up-Starts net h
      bound_external-Starts external_mac dmz_mac true net h =
          bound_dmz-Starts external_mac dmz_mac _ _ h

      bind_sockets-Starts :
          (external_mac : Bytes) (dmz_mac : Option Bytes) (net : Net S)
          → Both net
          → Starts base
              (bind_sockets os buffer external_socket dmz_socket found external_mac dmz_mac net)
      unfolding bind_sockets
      bind_sockets-Starts external_mac none net h = give_up-Starts net h
      bind_sockets-Starts external_mac (some dmz_mac) net h =
          bound_external-Starts external_mac dmz_mac _ _ h

      find_dmz_mac-Starts :
          (external_mac : Option Bytes) (net : Net S)
          → Both net
          → Starts base (find_dmz_mac os buffer external_socket dmz_socket found external_mac net)
      unfolding find_dmz_mac
      find_dmz_mac-Starts none net h = give_up-Starts net h
      find_dmz_mac-Starts (some external_mac) net h =
          bind_sockets-Starts external_mac _ _ (get_interface_mac-Balanced os _ net ∙ h)

    find_macs-Starts :
        (net : Net S)
        → Both net
        → Starts base (find_macs os buffer external_socket dmz_socket found net)
    unfolding find_macs
    find_macs-Starts net h =
        elim (Bool-cases (found.external_interface_index == 0 || found.dmz_ifindex == 0)) [
          | inl e ↦ rw (find_macs, e) (give_up-Starts net h)
          | inr e ↦
              rw (find_macs, e)
                (find_dmz_mac-Starts (ground arith) (ground arith) _ _
                  (get_interface_mac-Balanced os _ net ∙ h))
        ]

  with_dmz-Starts :
      (external_socket : ℕ) (dmz_socket : Option ℕ) (net : Net S) (base : List ℕ)
      → net.open_sockets ≡ opened dmz_socket (external_socket ∷ base)
      → Starts base (with_dmz os buffer external_socket dmz_socket net)
  unfolding with_dmz find_interfaces close_socket
  with_dmz-Starts external_socket none net base h = rw h (forget-here external_socket base)
  with_dmz-Starts external_socket (some dmz_socket) net base h =
      find_macs-Starts external_socket dmz_socket (find_interfaces os net).0 base _ h

  with_external-Starts :
      (external_socket : Option ℕ) (net : Net S) (base : List ℕ)
      → net.open_sockets ≡ opened external_socket base
      → Starts base (with_external os buffer external_socket net)
  unfolding with_external open_socket
  with_external-Starts none net base h = h
  with_external-Starts (some external_socket) net base h =
      with_dmz-Starts external_socket (open_socket os packet_ip net).0
        (open_socket os packet_ip net).1 base (ap (opened (open_socket os packet_ip net).0) h)

  -- Whatever the kernel answers, the start of the router ends with its two packet sockets open
  -- beside those that were, and both interfaces known, or it fails with no socket left open.
  pub start_up-Starts : (net : Net S) → Starts net.open_sockets (start_up os buffer net)
  unfolding start_up open_socket
  start_up-Starts net =
      with_external-Starts (open_socket os packet_ip net).0 (open_socket os packet_ip net).1
        net.open_sockets refl
