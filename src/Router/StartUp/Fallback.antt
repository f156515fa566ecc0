-- ===== src/Router/StartUp/Fallback.antt =====
-- The fallback of the interface discovery.
use bartimaeus_app.Base.{
  ℕ, ◌≡◌, refl, ◌≢◌, Bool, true, false, List, [], ◌∷◌, Option, none, some, arith, ◌==◌, ◌||◌,
  if◌then◌else◌, take, All, Option-cases, Bool-cases, inl, inr,
}
use bartimaeus_app.Base.Bytes.{Bytes, bytes, is_eq, is_eq_iff}
use bartimaeus_app.Router.Kernel.{InterfaceAddress, Kernel, Net, packet_ip, open_socket}
use bartimaeus_app.Router.Memory.{Memory}
use bartimaeus_app.Router.Arp.{mac_on, get_interface_mac}
use bartimaeus_app.Router.StartUp.{
  Interfaces, unknown, note_interface, note_interfaces, discovered, fallback_external, fallback_dmz,
  find_interfaces, give_up, find_dmz_mac, find_macs, with_dmz, with_external, start_up,
}

abbrev pub fallback_name : Bytes
fallback_name = bytes "eth1(fallback)"

if-elsewhere :
    (found : Interfaces) (is_dmz : Bool) (n : ℕ) (name : Bytes)
    → found.external_interface_index ≡ 0
    → (if is_dmz
        then record found { dmz_ifindex = n; dmz_interface_name = name }
        else found).external_interface_index
      ≡ 0
if-elsewhere found true n name h = h
if-elsewhere found false n name h = h

module _ {S : Type 0} (os : Kernel S) where
  -- The entry does not carry the router's external IP address.
  abbrev pub IsElsewhere : InterfaceAddress → Type 0
  IsElsewhere it =
      (address : Bytes) → it.address ≡ some address → os.inet_ntop address ≢ bytes "10.10.0.2"

  note_interface-elsewhere :
      (s : S) (found : Interfaces) (it : InterfaceAddress)
      → IsElsewhere it
      → found.external_interface_index ≡ 0
      → (note_interface os s found it).external_interface_index ≡ 0
  unfolding note_interface
  note_interface-elsewhere s found it e h = elim (Option-cases it.address) [
    | inl missing ↦ rw (note_interface, missing) h
    | inr (address, given) ↦ elim (Bool-cases (is_eq (os.inet_ntop address) (bytes "10.10.0.2"))) [
      | inl same ↦
          absurd (e address given ((is_eq_iff (os.inet_ntop address) (bytes "10.10.0.2")).0 same))
      | inr other ↦
          rw (note_interface, given, other)
            (if-elsewhere found (is_eq (os.inet_ntop address) (bytes "10.20.0.2")) _ _ h)
    ]
  ]

  note_interfaces-elsewhere :
      (s : S) (ifaddr : List InterfaceAddress) (found : Interfaces)
      → All IsElsewhere ifaddr
      → found.external_interface_index ≡ 0
      → (note_interfaces os s found ifaddr).external_interface_index ≡ 0
  unfolding note_interfaces
  note_interfaces-elsewhere s [] found a h = h
  note_interfaces-elsewhere s (it ∷ ifaddr) found (e, a) h =
      note_interfaces-elsewhere s ifaddr (note_interface os s found it) a
        (note_interface-elsewhere s found it e h)

  discovered-elsewhere :
      (s : S) (entries : Option (List InterfaceAddress))
      → ((ifaddr : List InterfaceAddress) → entries ≡ some ifaddr → All IsElsewhere ifaddr)
      → (discovered os s entries).external_interface_index ≡ 0
  unfolding discovered
  discovered-elsewhere s none h = refl
  discovered-elsewhere s (some ifaddr) h =
      note_interfaces-elsewhere s ifaddr unknown (h ifaddr refl) refl

  fallback_external-name :
      (s : S) (found : Interfaces)
      → found.external_interface_index ≡ 0
      → (fallback_dmz os s (fallback_external os s found)).external_interface_name ≡ fallback_name
  unfolding fallback_dmz fallback_external
  fallback_external-name s found h = ground arith

  mac_on-unknown :
      (name : Bytes) (sock : Option ℕ) (net : Net S)
      → ((n : ℕ) (s : S) → (os.hardware_address n (take 15 name) s).0 ≡ none)
      → (mac_on os name sock net).0 ≡ none
  unfolding mac_on
  mac_on-unknown name none net h = refl
  mac_on-unknown name (some sock) net h = h sock net.kernel

  module _ (buffer : Memory) where
    find_dmz_mac-none :
        (external_socket dmz_socket : ℕ) (found : Interfaces) (mac : Option Bytes) (net : Net S)
        → mac ≡ none
        → (find_dmz_mac os buffer external_socket dmz_socket found mac net).0 ≡ none
    unfolding find_dmz_mac give_up
    find_dmz_mac-none external_socket dmz_socket found none net h = refl
    find_dmz_mac-none external_socket dmz_socket found (some mac) net h = cc

    find_macs-fallback :
        (external_socket dmz_socket : ℕ) (found : Interfaces) (net : Net S)
        → ((n : ℕ) (s : S) → (os.hardware_address n fallback_name s).0 ≡ none)
        → found.external_interface_name ≡ fallback_name
        → (find_macs os buffer external_socket dmz_socket found net).0 ≡ none
    unfolding find_macs give_up get_interface_mac bytes
    find_macs-fallback external_socket dmz_socket found net h e =
        elim (Bool-cases (found.external_interface_index == 0 || found.dmz_ifindex == 0)) [
          | inl missing ↦ rw (find_macs, missing) refl
          | inr known ↦
              rw (find_macs, known)
                (find_dmz_mac-none external_socket dmz_socket found _ _
                  (mac_on-unknown found.external_interface_name _ _ (rw e h)))
        ]

    with_dmz-fallback :
        ((n : ℕ) (s : S) → (os.hardware_address n fallback_name s).0 ≡ none)
        → ((s : S) (ifaddr : List InterfaceAddress)
            → (os.getifaddrs s).0 ≡ some ifaddr
            → All IsElsewhere ifaddr)
        → (external_socket : ℕ) (dmz_socket : Option ℕ) (net : Net S)
        → (with_dmz os buffer external_socket dmz_socket net).0 ≡ none
    unfolding with_dmz find_interfaces
    with_dmz-fallback h elsewhere external_socket none net = refl
    with_dmz-fallback h elsewhere external_socket (some dmz_socket) net =
        find_macs-fallback external_socket dmz_socket (find_interfaces os net).0 _ h (
          fallback_external-name _ _
            (discovered-elsewhere _ (os.getifaddrs net.kernel).0 (elsewhere net.kernel)))

    with_external-fallback :
        ((n : ℕ) (s : S) → (os.hardware_address n fallback_name s).0 ≡ none)
        → ((s : S) (ifaddr : List InterfaceAddress)
            → (os.getifaddrs s).0 ≡ some ifaddr
            → All IsElsewhere ifaddr)
        → (external_socket : Option ℕ) (net : Net S)
        → (with_external os buffer external_socket net).0 ≡ none
    unfolding with_external
    with_external-fallback h elsewhere none net = refl
    with_external-fallback h elsewhere (some external_socket) net =
        with_dmz-fallback h elsewhere external_socket _ _

    -- When no interface carries the router's external IP address, and the kernel knows no interface
    -- of the name eth1(fallback), the start of the router fails, whether there is an eth1 or not.
    pub start_up-fallback :
        ((n : ℕ) (s : S) → (os.hardware_address n fallback_name s).0 ≡ none)
        → ((s : S) (ifaddr : List InterfaceAddress)
            → (os.getifaddrs s).0 ≡ some ifaddr
            → All IsElsewhere ifaddr)
        → (net : Net S) → (start_up os buffer net).0 ≡ none
    unfolding start_up
    start_up-fallback h elsewhere net =
        with_external-fallback h elsewhere (open_socket os packet_ip net).0
          (open_socket os packet_ip net).1
