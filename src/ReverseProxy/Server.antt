-- ===== src/ReverseProxy/Server.antt =====
-- main of ReverseProxy/main.cpp, as it is compiled for Linux: the listening socket and the loop that
-- accepts clients.
use bartimaeus_app.Base.{ℕ, zero, suc, ◌+◌, Bool, true, false, List, [], ◌∷◌, Option, none, some}
use bartimaeus_app.Base.Bytes.{Bytes, bytes}

-- The answers of getenv, socket, bind, listen and of each call of accept.
pub record Host : Type 0 where
  pub backend_host : Option Bytes
  pub server_sock : Option ℕ
  pub bound : Bool
  pub listening : Bool
  pub accept : ℕ → Option ℕ

-- A thread that runs handle_client with these arguments.
pub record Worker : Type 0 where
  pub client_sock : ℕ
  pub backend_ip : Bytes
  pub backend_port : ℕ

-- The status that main returns, the threads that it started, in order, and the sockets that it
-- closed.
pub record Served : Type 0 where
  pub status : ℕ
  pub workers : List Worker
  pub closed : List ℕ

abbrev pub backend_port : ℕ
backend_port = 9090

unfoldable pub backend_ip : Option Bytes → Bytes
backend_ip none = bytes "127.0.0.1"
backend_ip (some env_backend) = env_backend

abbrev started : Worker → Option (List Worker) → Option (List Worker)
started worker none = none
started worker (some workers) = some (worker ∷ workers)

-- The loop, on fuel; `n` counts the calls of accept.
unfoldable pub accept_loop : ℕ → Host → ℕ → Option (List Worker)
unfolding backend_ip
accept_loop zero host n = none
accept_loop (suc fuel) host n =
    let rest = accept_loop fuel host (n + 1) in
    elim (host.accept n) [
      | none ↦ some []
      | some client_sock ↦
          started
            (record {
              client_sock = client_sock;
              backend_ip = backend_ip host.backend_host;
              backend_port = backend_port;
            })
            rest
    ]

abbrev pub closing : ℕ → Option (List Worker) → Option Served
closing server_sock none = none
closing server_sock (some workers) =
    some (record { status = 0; workers = workers; closed = server_sock ∷ [] })

abbrev pub failed : List ℕ → Option Served
failed closed = some (record { status = 1; workers = []; closed = closed })

unfoldable pub serve_on : ℕ → Host → Bool → Bool → ℕ → Option Served
unfolding accept_loop
serve_on fuel host false listening server_sock = failed (server_sock ∷ [])
serve_on fuel host true false server_sock = failed (server_sock ∷ [])
serve_on fuel host true true server_sock = closing server_sock (accept_loop fuel host 0)

-- `none` means that the fuel ran out: the proxy serves until a call of accept fails.
unfoldable pub serve_clients : ℕ → Host → Option Served
unfolding serve_on
serve_clients fuel host = elim host.server_sock [
  | none ↦ failed []
  | some server_sock ↦ serve_on fuel host host.bound host.listening server_sock
]
