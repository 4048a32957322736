-- ===== src/Reconcile/Tests.antt =====
-- A service with two gateways, one of which cannot be reached.
use eurus.Prelude.{
  ℕ, String, List, [], ◌∷◌, none, some, ◌≡◌, refl, ◌==◌, string_eq, if◌then◌else◌, lookup,
}
use eurus.Gateway.{new_gateway}
use eurus.Service.{Service}
use eurus.Service.Loops.{Event, canceled, ticked, heartbeat_loop}
use eurus.Reconcile.{Network, known_only}
use eurus.Reconcile.Rounds.{asking, heartbeat_loop_reconciles}

program : Unit {0}
unfolding new_gateway
program = tt

abbrev network : Network String ℕ ℕ
network g =
    if g == "g1"
    then some (record (new_gateway "edge" "g1" 4) { sockets = ("k1", 1) ∷ [] })
    else none

abbrev service : Service String ℕ ℕ
service = record {
  gateway_names = [];
  name = "chat";
  id = "a1";
  route_descriptors = none;
  provided = none;
  closed_socket_ttl = 20;
  connections =
      ("k1", record { handle = 0; gateway_id = "g1" })
      ∷ ("k2", record { handle = 1; gateway_id = "g2" })
      ∷ ("k3", record { handle = 2; gateway_id = "g1" })
      ∷ [];
  closed_sockets = [];
  next_handle = 3;
  calls = [];
}

-- The gateway of the first socket knows it, and that of the third does not know the third.
remaining :
    (known_only network "k1" (lookup "k1" service.connections)
      ≡ some (record { handle = 0; gateway_id = "g1" }))
    × (known_only network "k3" (lookup "k3" service.connections) ≡ none)
unfolding program
remaining = (refl, refl)

-- At the second tick the gateway has lost the first socket as well.
abbrev emptied : Network String ℕ ℕ
emptied g = if g == "g1" then some (new_gateway "edge" "g1" 4) else none

abbrev events : List (Event (ℕ × Network String ℕ ℕ))
events = ticked (30, network) ∷ ticked (35, emptied) ∷ canceled ∷ []

heartbeat_loop_reconciles_example :
    (lookup "k1" (heartbeat_loop (asking events) service).0.connections ≡ none)
    × (lookup "k1" (heartbeat_loop (asking events) service).0.closed_sockets ≡ some 35)
unfolding program
heartbeat_loop_reconciles_example =
    heartbeat_loop_reconciles "k1" events service (refl, (refl, (refl, tt)))
