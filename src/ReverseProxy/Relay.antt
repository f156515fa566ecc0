-- ===== src/ReverseProxy/Relay.antt =====
-- What the relay delivers.
use bartimaeus_app.Base.{
  append_nil, ℕ, ◌+◌, ◌≡◌, refl, sym, ◌∙◌, ◌≢◌, Bool, true, false, ◌&&◌, List, [], ◌∷◌, ◌++◌, arith,
  ◌==◌, if◌then◌else◌, is_empty-of_ne, length, take, All, ap,
}
use mathlib.Core.List.{append_assoc}
use bartimaeus_app.Base.Bytes.{Bytes}
use bartimaeus_app.ReverseProxy.{
  Transfer, forward_stream, Socket, client, backend, Effect, close, free_addresses, handle_client,
}

pub joined : List Transfer → Bytes
joined [] = []
joined (t ∷ ts) = t.received ++ joined ts

-- recv delivered something, and send took all of it.
abbrev pub IsWhole : Transfer → Type 0
IsWhole t = (t.received ≢ []) × (t.sent ≡ length t.received)

take_all : (s : Bytes) → take (length s) s ≡ s
take_all [] = refl
take_all (c ∷ s) = ap (◌∷◌ c) (take_all s)

length-not_zero : (s : Bytes) → s ≢ [] → (length s == 0) ≡ false
length-not_zero [] h = absurd (h refl)
length-not_zero (c ∷ s) h = ground arith

-- As long as recv delivers something and send takes all of it, what was handed to the other side
-- is everything that was received, in order, and the loop goes on with the next transfers.
forward_stream-joined :
    (ts rest : List Transfer) (delivered : Bytes)
    → All IsWhole ts
    → forward_stream (ts ++ rest) delivered ≡ forward_stream rest (delivered ++ joined ts)
unfolding forward_stream joined
forward_stream-joined [] rest delivered h = ap (forward_stream rest) (sym (append_nil delivered))
forward_stream-joined (t ∷ ts) rest delivered h =
    let whole : take t.sent t.received ≡ t.received = rw h.0.1 (take_all t.received) in
    let some_sent : (t.sent == 0) ≡ false = rw h.0.1 (length-not_zero t.received h.0.0) in
    rw (is_empty-of_ne t.received h.0.0, some_sent, whole)
      (forward_stream-joined ts rest (delivered ++ t.received) h.1
        ∙ ap (forward_stream rest) (append_assoc delivered t.received (joined ts)))

pub count : Socket → List Effect → ℕ
count s [] = 0
count client (close client ∷ es) = count client es + 1
count backend (close backend ∷ es) = count backend es + 1
count s (_ ∷ es) = count s es

pub frees : List Effect → ℕ
frees [] = 0
frees (free_addresses ∷ es) = frees es + 1
frees (_ ∷ es) = frees es

pub one_if : Bool → ℕ
one_if b = if b then 1 else 0

-- Whichever of the calls fail, the client's socket is closed once, the backend's socket once if it
-- was made, and the list of addresses is freed once if it was had.
handle_client-closes :
    (has_socket resolved connected : Bool)
    → (count client (handle_client has_socket resolved connected) ≡ 1)
      × (count backend (handle_client has_socket resolved connected) ≡ one_if has_socket)
      × (frees (handle_client has_socket resolved connected) ≡ one_if (has_socket && resolved))
unfolding handle_client count frees one_if
handle_client-closes true true true = (refl, refl, refl)
handle_client-closes true true false = (refl, refl, refl)
handle_client-closes true false connected = (refl, refl, refl)
handle_client-closes false resolved connected = (refl, refl, refl)
