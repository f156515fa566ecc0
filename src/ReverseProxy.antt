-- ===== src/ReverseProxy.antt =====
-- ReverseProxy/main.cpp: the relay of one direction of a connection, and the sockets of a client.
pub mod Relay
pub mod Server
pub mod Accepted
use bartimaeus_app.Base.{
  ℕ, Bool, List, [], ◌∷◌, ◌++◌, Option, none, some, if◌then◌else◌, is_empty, take, ◌==◌,
}
use bartimaeus_app.Base.Bytes.{Bytes}

-- One round of forward_stream: what recv delivers, empty for an end or an error, and how many bytes
-- send takes, 0 for an error.
pub record Transfer : Type 0 where
  pub received : Bytes
  pub sent : ℕ

-- The loop waits for recv, or has left and shut the other side down for writing; with what was
-- handed to the other side so far.
pub data Progress : Type 0 where
  waiting shut : Bytes → Progress

unfoldable pub forward_stream : List Transfer → Bytes → Progress
forward_stream [] delivered = waiting delivered
forward_stream (t ∷ ts) delivered =
    let rest = forward_stream ts (delivered ++ take t.sent t.received) in
    if is_empty t.received then shut delivered else if t.sent == 0 then shut delivered else rest

pub data Socket : Type 0 where
  client backend : Socket

-- What handle_client does with the sockets and the list of addresses.
pub data Effect : Type 0 where
  close : Socket → Effect
  free_addresses relay : Effect

-- The answers of socket, getaddrinfo (with a list) and connect. `relay` stands for both threads
-- with forward_stream, from their start to their join.
unfoldable pub handle_client : Bool → Bool → Bool → List Effect
handle_client has_socket resolved connected =
    if has_socket
    then (if resolved
        then (if connected
            then free_addresses ∷ relay ∷ close client ∷ close backend ∷ []
            else free_addresses ∷ close client ∷ close backend ∷ [])
        else close client ∷ close backend ∷ [])
    else close client ∷ []
