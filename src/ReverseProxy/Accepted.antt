-- ===== src/ReverseProxy/Accepted.antt =====
-- Which clients the proxy serves, and until when.
use bartimaeus_app.Base.{
  ℕ, suc, ◌+◌, ◌≡◌, refl, ap, ◌∙◌, Bool, true, List, [], ◌∷◌, map, Option, none, some, arith,
  length,
}
use bartimaeus_app.ReverseProxy.Server.{
  Host, Worker, backend_ip, backend_port, accept_loop, closing, failed, serve_on, serve_clients,
}

-- From the n-th call on, accept delivers these sockets and then fails.
abbrev pub Accepts : Host → ℕ → List ℕ → Type 0
Accepts host n [] = host.accept n ≡ none
Accepts host n (sock ∷ socks) = (host.accept n ≡ some sock) × Accepts host (n + 1) socks

-- The thread for a client.
abbrev pub worker_for : Host → ℕ → Worker
worker_for host sock = record {
  client_sock = sock;
  backend_ip = backend_ip host.backend_host;
  backend_port = backend_port;
}

accept_loop-Accepts :
    (host : Host) (socks : List ℕ) (n : ℕ)
    → Accepts host n socks
    → accept_loop (length socks + 1) host n ≡ some (map (worker_for host) socks)
unfolding accept_loop
accept_loop-Accepts host [] n h = rw (accept_loop, h) refl
accept_loop-Accepts host (sock ∷ socks) n (h, hs) =
    let more : length (sock ∷ socks) + 1 ≡ suc (length socks + 1) = omega arith in
    rw (more, accept_loop, h, accept_loop-Accepts host socks (n + 1) hs) refl

serve_on-true :
    (fuel : ℕ) (host : Host) (bound listening : Bool) (server_sock : ℕ)
    → bound ≡ true
    → listening ≡ true
    → serve_on fuel host bound listening server_sock ≡ closing server_sock (accept_loop fuel host 0)
unfolding serve_on
serve_on-true fuel host true true server_sock hb hl = refl
serve_on-true fuel host _ _ server_sock hb hl = cc

serve_clients-some :
    (fuel : ℕ) (host : Host) (server_sock : ℕ)
    → host.server_sock ≡ some server_sock
    → serve_clients fuel host ≡ serve_on fuel host host.bound host.listening server_sock
unfolding serve_clients
serve_clients-some fuel host server_sock h =
    ap
      (λ (sock : Option ℕ). elim sock [
        | none ↦ failed []
        | some s ↦ serve_on fuel host host.bound host.listening s
      ])
      h

-- When the listening socket is there, every client that is accepted gets its own thread, with the
-- backend's address, in the order in which they come; at the first call of accept that fails the
-- proxy closes the listening socket, once, and main returns 0.
pub serve_clients-Accepts :
    (host : Host) (server_sock : ℕ) (socks : List ℕ)
    → host.server_sock ≡ some server_sock
    → host.bound ≡ true
    → host.listening ≡ true
    → Accepts host 0 socks
    → serve_clients (length socks + 1) host
      ≡ some
          (record { status = 0; workers = map (worker_for host) socks; closed = server_sock ∷ [] })
unfolding serve_clients
serve_clients-Accepts host server_sock socks hs hb hl h =
    serve_clients-some (length socks + 1) host server_sock hs
    ∙ (serve_on-true (length socks + 1) host host.bound host.listening server_sock hb hl
        ∙ ap (closing server_sock) (accept_loop-Accepts host socks 0 h))
