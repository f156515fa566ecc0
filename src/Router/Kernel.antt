-- ===== src/Router/Kernel.antt =====
-- What the start-up of ScreeningRouter/main.cpp asks of the kernel and of libc. Both are a parameter:
-- a state of any type, and a function for each call. The list of the sockets that are open is kept
-- beside it.
use bartimaeus_app.Base.{ℕ, Bool, List, [], ◌∷◌, ◌==◌, Option, none, some, if◌then◌else◌}
use bartimaeus_app.Base.Bytes.{Bytes}

-- The arguments of the three calls of socket.
pub data SocketKind : Type 0 where
  inet_dgram packet_ip packet_arp : SocketKind

-- An entry of getifaddrs; `address` is `none` for one that is null or not of AF_INET.
pub record InterfaceAddress : Type 0 where
  pub name : Bytes
  pub address : Option Bytes

-- `none` and `false` stand for a result below 0, and `poll` also for 0.
pub record Kernel (S : Type 0) : Type 0 where
  pub socket : SocketKind → S → Option ℕ × S
  pub close : ℕ → S → S
  -- the socket, the protocol and the interface
  pub bind : ℕ → SocketKind → ℕ → S → Bool × S
  -- ioctl with SIOCGIFHWADDR
  pub hardware_address : ℕ → Bytes → S → Option Bytes × S
  -- the socket, the packet, the interface and the hardware address
  pub sendto : ℕ → Bytes → ℕ → Bytes → S → Bool × S
  -- the socket and the time in milliseconds
  pub poll : ℕ → ℕ → S → Bool × S
  pub recvfrom : ℕ → ℕ → S → Option Bytes × S
  pub getifaddrs : S → Option (List InterfaceAddress) × S
  -- 0 for a name that there is not
  pub if_nametoindex : Bytes → S → ℕ
  -- the four bytes of an address, and the text of one
  pub inet_pton : Bytes → Option Bytes
  pub inet_ntop : Bytes → Bytes

pub record Net (S : Type 0) : Type 0 where
  pub kernel : S
  pub open_sockets : List ℕ

abbrev pub forget : ℕ → List ℕ → List ℕ
forget sock [] = []
forget sock (other ∷ socks) = if other == sock then socks else other ∷ forget sock socks

abbrev pub opened : Option ℕ → List ℕ → List ℕ
opened none socks = socks
opened (some sock) socks = sock ∷ socks

module _ {S : Type 0} (os : Kernel S) where
  unfoldable pub open_socket : SocketKind → Net S → Option ℕ × Net S
  open_socket kind net =
      let (sock, s) = os.socket kind net.kernel in
      (sock, record { kernel = s; open_sockets = opened sock net.open_sockets })

  unfoldable pub close_socket : ℕ → Net S → Net S
  close_socket sock net = record {
    kernel = os.close sock net.kernel;
    open_sockets = forget sock net.open_sockets;
  }

  -- A call that opens and closes nothing.
  abbrev pub call : {A : Type 0} → (S → A × S) → Net S → A × Net S
  call f net = let (a, s) = f net.kernel in (a, record net { kernel = s })
