-- ===== src/Router/Arp/Balance.antt =====
-- The functions of ARP and of the MAC addresses close the sockets that they open.
use bartimaeus_app.Base.{
  ℕ, zero, suc, ◌≡◌, refl, ◌∙◌, Bool, true, false, List, ◌∷◌, Option, none, some, arith,
}
use bartimaeus_app.Base.Bytes.{Bytes}
use bartimaeus_app.Router.Kernel.{Kernel, Net, open_socket, close_socket, forget, opened}
use bartimaeus_app.Router.Arp.{
  mac_on, get_interface_mac, received, awaited, attempt, next_attempt, attempts, resolve_bound,
  resolve_on, resolve_arp_mac,
}

pub forget-here : (sock : ℕ) (socks : List ℕ) → forget sock (sock ∷ socks) ≡ socks
forget-here sock socks = ground arith

-- The sockets that are open stay so, and no other is.
abbrev pub Balanced : {S A : Type 0} → (Net S → A × Net S) → Type 0
Balanced {S} m = (net : Net S) → (m net).1.open_sockets ≡ net.open_sockets

module _ {S : Type 0} (os : Kernel S) where
  close_socket-opened :
      (sock : ℕ) (net : Net S) (base : List ℕ)
      → net.open_sockets ≡ sock ∷ base
      → (close_socket os sock net).open_sockets ≡ base
  unfolding close_socket
  close_socket-opened sock net base h = rw h (forget-here sock base)

  mac_on-opened :
      (interface_name : Bytes) (sock : Option ℕ) (net : Net S) (base : List ℕ)
      → net.open_sockets ≡ opened sock base
      → (mac_on os interface_name sock net).1.open_sockets ≡ base
  unfolding mac_on
  mac_on-opened interface_name none net base h = h
  mac_on-opened interface_name (some sock) net base h = close_socket-opened sock _ base h

  pub get_interface_mac-Balanced :
      (interface_name : Bytes) → Balanced (get_interface_mac os interface_name)
  unfolding get_interface_mac open_socket
  get_interface_mac-Balanced interface_name net =
      mac_on-opened interface_name _ _ net.open_sockets refl

  module _ (sock interface_index : ℕ) (packet ip : Bytes) where
    received-Balanced : (ready : Bool) → Balanced (received os sock interface_index packet ip ready)
    unfolding received
    received-Balanced false net = refl
    received-Balanced true net = refl

    awaited-Balanced : (sent : Bool) → Balanced (awaited os sock interface_index packet ip sent)
    unfolding awaited
    awaited-Balanced false net = refl
    awaited-Balanced true net = received-Balanced _ _

    next_attempt-Balanced :
        (loop : Net S → Option Bytes × Net S) (found : Option Bytes)
        → Balanced loop
        → Balanced (next_attempt os sock interface_index packet ip loop found)
    unfolding next_attempt
    next_attempt-Balanced loop none h net = h net
    next_attempt-Balanced loop (some mac) h net = refl

    attempts-Balanced : (n : ℕ) → Balanced (attempts os sock interface_index packet ip n)
    unfolding attempts attempt
    attempts-Balanced zero net = refl
    attempts-Balanced (suc n) net =
        next_attempt-Balanced (attempts os sock interface_index packet ip n) _ (attempts-Balanced n)
          _
        ∙ awaited-Balanced _ _

  module _ (interface_index : ℕ) (source_mac source_ip_string target_ip_string : Bytes) where
    resolve_bound-opened :
        (sock : ℕ) (bound : Bool) (net : Net S) (base : List ℕ)
        → net.open_sockets ≡ sock ∷ base
        → (resolve_bound os interface_index source_mac source_ip_string target_ip_string sock bound
            net).1.open_sockets
          ≡ base
    unfolding resolve_bound
    resolve_bound-opened sock false net base h = close_socket-opened sock _ base h
    resolve_bound-opened sock true net base h =
        close_socket-opened sock _ base (attempts-Balanced sock interface_index _ _ 3 net ∙ h)

    resolve_on-opened :
        (sock : Option ℕ) (net : Net S) (base : List ℕ)
        → net.open_sockets ≡ opened sock base
        → (resolve_on os interface_index source_mac source_ip_string target_ip_string sock
            net).1.open_sockets
          ≡ base
    unfolding resolve_on
    resolve_on-opened none net base h = h
    resolve_on-opened (some sock) net base h = resolve_bound-opened sock _ _ base h

    pub resolve_arp_mac-Balanced :
        Balanced (resolve_arp_mac os interface_index source_mac source_ip_string target_ip_string)
    unfolding resolve_arp_mac open_socket
    resolve_arp_mac-Balanced net = resolve_on-opened _ _ net.open_sockets refl
