-- ===== src/Service/Tests.antt =====
-- Runs of a service with two gateways, and the theorems at them. Messages and connection data are
-- numbers.
use eurus.Prelude.{ℕ, ◌-◌, ◌≤◌, String, [], none, some, ◌≡◌, refl, arith, string_eq}
use eurus.Gateway.{going_away}
use eurus.Service.{
  Service, ensure_connection, handle_service_message, close_connection, on_closed,
  prune_stale_resources, close_all_connections, heartbeat_connections,
}
use eurus.Service.Closed.{
  IsApart, Reach, here, next, messaged, closed, pruned, stopped, Reach-IsApart,
}
use eurus.Service.Rejected.{closed_socket_rejected}
use eurus.Descriptor.{Heap}
use eurus.Indexer.{State, new, set_service_descriptor, fresh_service_descriptors}
use eurus.Indexer.Histories.{start, Reach-IsValid as history-IsValid, here as no_calls}
use eurus.Service.{do_announce, handle_gateway_announce}

program : Unit {0}
unfolding ensure_connection handle_service_message close_connection on_closed prune_stale_resources
    close_all_connections heartbeat_connections do_announce handle_gateway_announce start new
    set_service_descriptor fresh_service_descriptors
program = tt

abbrev empty : Service String ℕ ℕ
empty = record {
  gateway_names = [];
  name = "chat";
  id = "a1";
  route_descriptors = none;
  provided = none;
  closed_socket_ttl = 20;
  connections = [];
  closed_sockets = [];
  next_handle = 0;
  calls = [];
}

empty-IsApart : IsApart empty
empty-IsApart = record { connected = tt; recorded = tt; apart = λ k t e. refl }

abbrev two : Service String ℕ ℕ
two = handle_service_message "g2" "k2" 0 6 (handle_service_message "g1" "k1" 0 5 empty)

abbrev busy : Service String ℕ ℕ
busy = prune_stale_resources 25 (close_connection 10 "k1" going_away "Client disconnected" two)

two-IsApart : IsApart two
two-IsApart =
    Reach-IsApart (next (next here (messaged "g1" "k1" 0 5)) (messaged "g2" "k2" 0 6)) empty-IsApart

history : Reach empty busy
history =
    next
      (next (next (next here (messaged "g1" "k1" 0 5)) (messaged "g2" "k2" 0 6))
        (closed 10 "k1" going_away "Client disconnected"))
      (pruned 25)

Reach-IsApart_example : IsApart busy
Reach-IsApart_example = Reach-IsApart history empty-IsApart

-- A round of pruning after the limit.
abbrev forgotten : Service String ℕ ℕ
forgotten = prune_stale_resources 40 (close_connection 10 "k1" going_away "Client disconnected" two)

-- A round of pruning within the limit, and a stop.
afterwards :
    Reach
      (close_connection 10 "k1" going_away "Client disconnected" two)
      (close_all_connections busy)
afterwards = next (next here (pruned 25)) stopped

closed_socket_rejected_example :
    (ensure_connection "g1" "k1" 0 (close_all_connections busy)
      ≡ (close_all_connections busy, none))
    × (handle_service_message "g1" "k1" 0 7 (close_all_connections busy)
        ≡ close_all_connections busy)
    × (21 ≤ 40 - 10
        → (ensure_connection "g1" "k1" 0 forgotten).1
          ≡ some (record { handle = 2; gateway_id = "g1" }))
unfolding program afterwards
closed_socket_rejected_example =
    closed_socket_rejected 10 40 "g1" "k1" going_away "Client disconnected" 0 7 two two-IsApart
      afterwards ((tt, omega arith), tt)

abbrev memory : Heap String
memory p = record {
  name = "chat";
  id = "a1";
  gateway_names = [];
  route_descriptors = [];
  last_seen_at = none;
  socket_ids = [];
}

abbrev unknown : State String
unknown = start memory

abbrev known : State String
known = set_service_descriptor 10 0 unknown
