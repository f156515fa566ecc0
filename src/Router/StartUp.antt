-- ===== src/Router/StartUp.antt =====
-- main of ScreeningRouter/main.cpp before its loop: the two sockets, the two interfaces, their MAC
-- addresses and the proxy's. `none` is the exit with status 1.
pub mod Sockets
pub mod Fallback
use bartimaeus_app.Base.{
  ℕ, Bool, true, false, List, [], ◌∷◌, Option, none, some, ◌==◌, ◌||◌, if◌then◌else◌,
}
use bartimaeus_app.Base.Bytes.{Bytes, bytes, is_eq}
use bartimaeus_app.Router.Kernel.{
  InterfaceAddress, Kernel, Net, packet_ip, open_socket, close_socket, call,
}
use bartimaeus_app.Router.Arp.{no_mac, get_interface_mac, resolve_arp_mac}
use bartimaeus_app.Router.Memory.{Memory}
use bartimaeus_app.Router.Pipeline.{Router}

-- The two interfaces as far as they are found; index 0 stands for none.
pub record Interfaces : Type 0 where
  pub external_interface_index : ℕ
  pub external_interface_name : Bytes
  pub dmz_ifindex : ℕ
  pub dmz_interface_name : Bytes

abbrev unknown : Interfaces
unknown = record {
  external_interface_index = 0;
  external_interface_name = bytes "unknown";
  dmz_ifindex = 0;
  dmz_interface_name = bytes "unknown";
}

-- What the loop works with.
pub record Started : Type 0 where
  pub external_socket : ℕ
  pub dmz_socket : ℕ
  pub router_external_mac_address : Bytes
  pub router_dmz_mac_address : Bytes
  pub router : Router

abbrev mac_or_zero : Option Bytes → Bytes
mac_or_zero none = no_mac
mac_or_zero (some mac) = mac

abbrev is_some : Option Bytes → Bool
is_some none = false
is_some (some mac) = true

module _ {S : Type 0} (os : Kernel S) where
  note_interface : S → Interfaces → InterfaceAddress → Interfaces
  note_interface s found it = elim it.address [
    | none ↦ found
    | some address ↦
        if is_eq (os.inet_ntop address) (bytes "10.10.0.2")
        then record found {
          external_interface_index = os.if_nametoindex it.name s;
          external_interface_name = it.name;
        }
        else if is_eq (os.inet_ntop address) (bytes "10.20.0.2")
        then record found {
          dmz_ifindex = os.if_nametoindex it.name s;
          dmz_interface_name = it.name;
        }
        else found
  ]

  note_interfaces : S → Interfaces → List InterfaceAddress → Interfaces
  unfolding note_interface
  note_interfaces s found [] = found
  note_interfaces s found (it ∷ ifaddr) = note_interfaces s (note_interface s found it) ifaddr

  discovered : S → Option (List InterfaceAddress) → Interfaces
  unfolding note_interfaces
  discovered s none = unknown
  discovered s (some ifaddr) = note_interfaces s unknown ifaddr

  fallback_external : S → Interfaces → Interfaces
  fallback_external s found =
      if found.external_interface_index == 0
      then record found {
        external_interface_index = os.if_nametoindex (bytes "eth1") s;
        external_interface_name = bytes "eth1(fallback)";
      }
      else found

  fallback_dmz : S → Interfaces → Interfaces
  fallback_dmz s found =
      if found.dmz_ifindex == 0
      then record found {
        dmz_ifindex = os.if_nametoindex (bytes "eth0") s;
        dmz_interface_name = bytes "eth0(fallback)";
      }
      else found

  -- Step 3: by the IP addresses, then by the usual names.
  unfoldable pub find_interfaces : Net S → Interfaces × Net S
  unfolding discovered fallback_external fallback_dmz
  find_interfaces net =
      let (ifaddr, net') = call os os.getifaddrs net in
      let s = net'.kernel in (fallback_dmz s (fallback_external s (discovered s ifaddr)), net')

  module _ (buffer : Memory) where
    -- The state before the first packet; the buffer is not set.
    initial_router : Interfaces → Option Bytes → Router
    initial_router found proxy_mac = record {
      external_interface_index = found.external_interface_index;
      dmz_ifindex = found.dmz_ifindex;
      buffer = buffer;
      session_table = [];
      proxy_mac = mac_or_zero proxy_mac;
      has_proxy_mac = is_some proxy_mac;
      gateway_mac = no_mac;
      has_gateway_mac = false;
    }

    -- Closes both sockets and exits.
    give_up : ℕ → ℕ → Net S → Option Started × Net S
    give_up external_socket dmz_socket net =
        (none, close_socket os dmz_socket (close_socket os external_socket net))

    module _ (external_socket dmz_socket : ℕ) (found : Interfaces) where
      -- Step 7, with the ARP probe for the proxy
      probe_proxy : Bytes → Bytes → Net S → Option Started × Net S
      unfolding initial_router
      probe_proxy external_mac dmz_mac net =
          let (proxy_mac, net') =
            resolve_arp_mac os found.dmz_ifindex dmz_mac (bytes "10.20.0.2") (bytes "10.20.0.3")
              net in
          (
            some (record {
              external_socket = external_socket;
              dmz_socket = dmz_socket;
              router_external_mac_address = external_mac;
              router_dmz_mac_address = dmz_mac;
              router = initial_router found proxy_mac;
            }),
            net',
          )

      bound_dmz : Bytes → Bytes → Bool → Net S → Option Started × Net S
      unfolding probe_proxy give_up
      bound_dmz external_mac dmz_mac false net = give_up external_socket dmz_socket net
      bound_dmz external_mac dmz_mac true net = probe_proxy external_mac dmz_mac net

      bound_external : Bytes → Bytes → Bool → Net S → Option Started × Net S
      unfolding bound_dmz give_up
      bound_external external_mac dmz_mac false net = give_up external_socket dmz_socket net
      bound_external external_mac dmz_mac true net =
          let (bound, net') = call os (os.bind dmz_socket packet_ip found.dmz_ifindex) net in
          bound_dmz external_mac dmz_mac bound net'

      -- Step 4
      bind_sockets : Bytes → Option Bytes → Net S → Option Started × Net S
      unfolding bound_external give_up
      bind_sockets external_mac none net = give_up external_socket dmz_socket net
      bind_sockets external_mac (some dmz_mac) net =
          let (bound, net') =
            call os (os.bind external_socket packet_ip found.external_interface_index) net in
          bound_external external_mac dmz_mac bound net'

      -- Step 3-1; the second query only when the first has an answer
      find_dmz_mac : Option Bytes → Net S → Option Started × Net S
      unfolding bind_sockets give_up
      find_dmz_mac none net = give_up external_socket dmz_socket net
      find_dmz_mac (some external_mac) net =
          let (dmz_mac, net') = get_interface_mac os found.dmz_interface_name net in
          bind_sockets external_mac dmz_mac net'

      find_macs : Net S → Option Started × Net S
      unfolding find_dmz_mac give_up
      find_macs net =
          let (external_mac, net') = get_interface_mac os found.external_interface_name net in
          if found.external_interface_index == 0 || found.dmz_ifindex == 0
          then give_up external_socket dmz_socket net
          else find_dmz_mac external_mac net'

    with_dmz : ℕ → Option ℕ → Net S → Option Started × Net S
    unfolding find_macs find_interfaces
    with_dmz external_socket none net = (none, close_socket os external_socket net)
    with_dmz external_socket (some dmz_socket) net =
        let (found, net') = find_interfaces net in find_macs external_socket dmz_socket found net'

    with_external : Option ℕ → Net S → Option Started × Net S
    unfolding with_dmz
    with_external none net = (none, net)
    with_external (some external_socket) net =
        let (dmz_socket, net') = open_socket os packet_ip net in
        with_dmz external_socket dmz_socket net'

    unfoldable pub start_up : Net S → Option Started × Net S
    unfolding with_external
    start_up net =
        let (external_socket, net') = open_socket os packet_ip net in
        with_external external_socket net'
