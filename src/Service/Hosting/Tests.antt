-- ===== src/Service/Hosting/Tests.antt =====
-- A service with its connections at concrete inputs.
use eurus.Prelude.{String, [], ◌∷◌, none, some, false, ◌≡◌, refl, ℕ, string_eq}
use eurus.Gateway.{going_away}
use eurus.Connection.{pos, handle_close, new_connection, mailbox_capacity}
use eurus.Service.{
  Service, ensure_connection, close_connection, on_closed, close_all_connections,
  prune_stale_resources, new_service, default_closed_socket_ttl, connection_mailbox_size,
}
use eurus.Service.Hosting.{
  Host, ensure, shut, write_at, close_hosted, shut_peers, stop_hosted, hosted, Reach, here, next,
  ensured, wrote, closed,
}
use eurus.Service.Hosting.Owners.{owner, IsHeld}
use eurus.Service.Hosting.Held.{Reach-IsHeld}

program : Unit {0}
unfolding ensure shut write_at close_hosted shut_peers stop_hosted ensure_connection
    close_connection on_closed close_all_connections prune_stale_resources handle_close
    new_connection mailbox_capacity new_service
program = tt

abbrev empty : Service String ℕ ℕ
empty = record {
  gateway_names = [];
  name = "chat";
  id = "a1";
  route_descriptors = none;
  provided = none;
  closed_socket_ttl = default_closed_socket_ttl;
  connections = [];
  closed_sockets = [];
  next_handle = 0;
  calls = [];
}

made : new_service "chat" "a1" (some none) ≡ some empty
unfolding program
made = refl

abbrev start : Host String ℕ ℕ
start = hosted (pos connection_mailbox_size) empty

-- The first connection of "k1" fails to write, and the socket gets another; "k2" is closed.
abbrev busy : Host String ℕ ℕ
busy =
    close_hosted 10 "k2" going_away "Client disconnected"
      (ensure "g2" "k2" 0 (ensure "g1" "k1" 0 (write_at 0 false (ensure "g1" "k1" 0 start).0)).0).0

history : Reach start busy
history =
    next
      (next (next (next (next here (ensured "g1" "k1" 0)) (wrote 0 false)) (ensured "g1" "k1" 0))
        (ensured "g2" "k2" 0))
      (closed 10 "k2" going_away "Client disconnected")

only_the_second :
    (owner busy 0 ≡ none)
    × (owner busy 1 ≡ some ("k1", "g1"))
    × (owner busy 2 ≡ none)
    × (busy.service.connections ≡ ("k1", record { handle = 1; gateway_id = "g1" }) ∷ [])
unfolding program
only_the_second = (refl, refl, refl, refl)

Reach-IsHeld_example : IsHeld busy
Reach-IsHeld_example = Reach-IsHeld (pos connection_mailbox_size) empty refl history
