-- ===== src/Tests/StartTests.antt =====
-- The theorems on the start of the router, on two hosts: one where the interfaces carry the expected
-- addresses, and one where they do not and the usual names are there.
use bartimaeus_app.Base.{
  ℕ, ◌≡◌, refl, sym, ◌∙◌, ◌≢◌, true, false, List, [], ◌∷◌, Option, none, some, All, if◌then◌else◌,
  ◌+◌, ℕ_discrete,
}
use bartimaeus_app.Base.Bytes.{Bytes, bytes, is_eq, is_eq_iff, bytes_discrete}
use bartimaeus_app.Router.Kernel.{InterfaceAddress, Kernel, Net, open_socket}
use bartimaeus_app.Router.Arp.{
  ether_arp, resolve_arp_mac, attempts, attempt, sender_of, sender_of_received,
}
use bartimaeus_app.Router.Arp.Resolved.{IsAnswered, resolve_arp_mac-IsAnswered}
use bartimaeus_app.Router.StartUp.{start_up}
use bartimaeus_app.Router.StartUp.Sockets.{Starts, start_up-Starts}
use bartimaeus_app.Router.StartUp.Fallback.{IsElsewhere, fallback_name, start_up-fallback}
use bartimaeus_app.Router.Memory.{Memory}

abbrev router_mac : Bytes
router_mac = 1 ∷ 1 ∷ 1 ∷ 1 ∷ 1 ∷ 1 ∷ []

abbrev proxy_mac : Bytes
proxy_mac = 2 ∷ 2 ∷ 2 ∷ 2 ∷ 2 ∷ 2 ∷ []

abbrev ip_of : Bytes → Option Bytes
ip_of text =
    if is_eq text (bytes "10.20.0.3")
    then some (10 ∷ 20 ∷ 0 ∷ 3 ∷ [])
    else some (10 ∷ 20 ∷ 0 ∷ 2 ∷ [])

abbrev text_of : Bytes → Bytes
text_of address =
    if is_eq address (10 ∷ 10 ∷ 0 ∷ 2 ∷ []) then bytes "10.10.0.2" else bytes "10.20.0.2"

abbrev interface : Bytes → Bytes → InterfaceAddress
interface name address = record { name = name; address = some address }

-- The state is the number of sockets opened so far. The proxy answers at once.
abbrev host : Kernel ℕ
host = record {
  socket = λ kind s. (some s, s + 1);
  close = λ sock s. s;
  bind = λ sock kind i s. (true, s);
  hardware_address = λ sock name s. (some router_mac, s);
  sendto = λ sock packet i mac s. (true, s);
  poll = λ sock ms s. (true, s);
  recvfrom = λ sock n s.
      (some (ether_arp 2 proxy_mac (10 ∷ 20 ∷ 0 ∷ 3 ∷ []) router_mac (10 ∷ 20 ∷ 0 ∷ 2 ∷ [])), s);
  getifaddrs = λ s. (
    some (
        interface (bytes "eth0") (10 ∷ 20 ∷ 0 ∷ 2 ∷ [])
        ∷ interface (bytes "eth1") (10 ∷ 10 ∷ 0 ∷ 2 ∷ [])
        ∷ []),
    s,
  );
  if_nametoindex = λ name s. 2;
  inet_pton = ip_of;
  inet_ntop = text_of;
}

abbrev net : Net ℕ
net = record { kernel = 3; open_sockets = 2 ∷ 1 ∷ 0 ∷ [] }

abbrev buffer : Memory
buffer p = 0

start_up-Starts_example : Starts net.open_sockets (start_up host buffer net)
start_up-Starts_example = start_up-Starts host buffer net

resolved :
    (resolve_arp_mac host 2 router_mac (bytes "10.20.0.2") (bytes "10.20.0.3") net).0
    ≡ some proxy_mac
unfolding resolve_arp_mac attempts attempt sender_of_received sender_of ether_arp bytes
    bytes_discrete ℕ_discrete open_socket
resolved = refl

resolve_arp_mac-IsAnswered_example :
    IsAnswered host 2 router_mac (bytes "10.20.0.2") (bytes "10.20.0.3") proxy_mac net
resolve_arp_mac-IsAnswered_example =
    resolve_arp_mac-IsAnswered host 2 router_mac (bytes "10.20.0.2") (bytes "10.20.0.3") proxy_mac
      net resolved

-- Other addresses, and eth0 and eth1 with their usual names.
abbrev moved : Kernel ℕ
moved = record host {
  hardware_address = λ sock name s. (if is_eq name fallback_name then none else some router_mac, s);
  getifaddrs = λ s. (some (interface (bytes "eth1") (10 ∷ 99 ∷ 0 ∷ 2 ∷ []) ∷ []), s);
  inet_ntop = λ address. bytes "10.99.0.2";
}

not_known : (n : ℕ) (s : ℕ) → (moved.hardware_address n fallback_name s).0 ≡ none
unfolding bytes bytes_discrete ℕ_discrete
not_known n s = refl

true_is_false : true ≢ false
true_is_false e = cc

not_same : is_eq (bytes "10.99.0.2") (bytes "10.10.0.2") ≡ false
unfolding bytes bytes_discrete ℕ_discrete
not_same = refl

other_text : bytes "10.99.0.2" ≢ bytes "10.10.0.2"
other_text e =
    let same = (is_eq_iff (bytes "10.99.0.2") (bytes "10.10.0.2")).1 e in
    absurd (true_is_false (sym same ∙ not_same))

moved-IsElsewhere :
    (s : ℕ) (ifaddr : List InterfaceAddress)
    → (moved.getifaddrs s).0 ≡ some ifaddr
    → All (IsElsewhere moved) ifaddr
moved-IsElsewhere s ifaddr e =
    let same : interface (bytes "eth1") (10 ∷ 99 ∷ 0 ∷ 2 ∷ []) ∷ [] ≡ ifaddr = cc in
    rw (← same) (λ address given. other_text, tt)

start_up-fallback_example : (start_up moved buffer net).0 ≡ none
start_up-fallback_example = start_up-fallback moved buffer not_known moved-IsElsewhere net
