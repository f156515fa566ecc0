-- ===== src/Router/Arp.antt =====
-- resolve_arp_mac and get_interface_mac of ScreeningRouter/main.cpp.
pub mod Resolved
pub mod Balance
use bartimaeus_app.Base.{
  ℕ, zero, suc, Bool, true, false, ◌&&◌, List, [], ◌∷◌, ◌++◌, Option, none, some, leb, length, take,
  drop, if◌then◌else◌,
}
use bartimaeus_app.Base.Bytes.{Bytes, is_eq}
use bartimaeus_app.Router.Kernel.{
  Kernel, Net, inet_dgram, packet_arp, open_socket, close_socket, call,
}

-- A struct ether_arp for Ethernet and IPv4, in the order of the network.
unfoldable pub ether_arp : ℕ → Bytes → Bytes → Bytes → Bytes → Bytes
ether_arp op sha spa tha tpa =
    (0 ∷ 1 ∷ 8 ∷ 0 ∷ 6 ∷ 4 ∷ 0 ∷ op ∷ []) ++ (sha ++ (spa ++ (tha ++ tpa)))

abbrev pub no_ip : Bytes
no_ip = 0 ∷ 0 ∷ 0 ∷ 0 ∷ []

abbrev pub no_mac : Bytes
no_mac = 0 ∷ 0 ∷ 0 ∷ 0 ∷ 0 ∷ 0 ∷ []

abbrev pub broadcast : Bytes
broadcast = 255 ∷ 255 ∷ 255 ∷ 255 ∷ 255 ∷ 255 ∷ []

-- inet_pton into a zeroed address
abbrev pub address_or_zero : Option Bytes → Bytes
address_or_zero none = no_ip
address_or_zero (some address) = address

-- Step 6: the reply's sender, when it is an ARP reply from the target.
unfoldable pub sender_of : Bytes → Bytes → Option Bytes
sender_of target_ip reply =
    if leb 28 (length reply) && is_eq (take 2 (drop 6 reply)) (0 ∷ 2 ∷ [])
    then (if is_eq (take 4 (drop 14 reply)) target_ip then some (take 6 (drop 8 reply)) else none)
    else none

unfoldable pub sender_of_received : Bytes → Option Bytes → Option Bytes
unfolding sender_of
sender_of_received target_ip none = none
sender_of_received target_ip (some reply) = sender_of target_ip reply

module _ {S : Type 0} (os : Kernel S) where
  unfoldable pub mac_on : Bytes → Option ℕ → Net S → Option Bytes × Net S
  mac_on interface_name none net = (none, net)
  mac_on interface_name (some sock) net =
      let (mac, net') = call os (os.hardware_address sock (take 15 interface_name)) net in
      (mac, close_socket os sock net')

  -- `none` for false
  unfoldable pub get_interface_mac : Bytes → Net S → Option Bytes × Net S
  unfolding mac_on
  get_interface_mac interface_name net =
      let (sock, net') = open_socket os inet_dgram net in mac_on interface_name sock net'

  module _ (sock interface_index : ℕ) (request target_ip : Bytes) where
    received : Bool → Net S → Option Bytes × Net S
    received false net = (none, net)
    received true net =
        let (reply, net') = call os (os.recvfrom sock 28) net in
        (sender_of_received target_ip reply, net')

    awaited : Bool → Net S → Option Bytes × Net S
    unfolding received
    awaited false net = (none, net)
    awaited true net = let (ready, net') = call os (os.poll sock 1000) net in received ready net'

    -- A round of the loop; `none` when it goes on with the next.
    unfoldable pub attempt : Net S → Option Bytes × Net S
    unfolding awaited
    attempt net =
        let (sent, net') = call os (os.sendto sock request interface_index broadcast) net in
        awaited sent net'

    next_attempt : (Net S → Option Bytes × Net S) → Option Bytes → Net S → Option Bytes × Net S
    next_attempt loop (some mac) net = (some mac, net)
    next_attempt loop none net = loop net

    unfoldable pub attempts : ℕ → Net S → Option Bytes × Net S
    unfolding next_attempt
    attempts zero net = (none, net)
    attempts (suc n) net = let (mac, net') = attempt net in next_attempt (attempts n) mac net'

  module _ (interface_index : ℕ) (source_mac source_ip_string target_ip_string : Bytes) where
    abbrev pub target : Bytes
    target = address_or_zero (os.inet_pton target_ip_string)

    abbrev pub request : Bytes
    request = ether_arp 1 source_mac (address_or_zero (os.inet_pton source_ip_string)) no_mac target

    resolve_bound : ℕ → Bool → Net S → Option Bytes × Net S
    unfolding attempts
    resolve_bound sock false net = (none, close_socket os sock net)
    resolve_bound sock true net =
        let (mac, net') = attempts sock interface_index request target 3 net in
        (mac, close_socket os sock net')

    resolve_on : Option ℕ → Net S → Option Bytes × Net S
    unfolding resolve_bound
    resolve_on none net = (none, net)
    resolve_on (some sock) net =
        let (bound, net') = call os (os.bind sock packet_arp interface_index) net in
        resolve_bound sock bound net'

    -- `none` for false
    unfoldable pub resolve_arp_mac : Net S → Option Bytes × Net S
    unfolding resolve_on
    resolve_arp_mac net = let (sock, net') = open_socket os packet_arp net in resolve_on sock net'
