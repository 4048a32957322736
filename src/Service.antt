-- ===== src/Service.antt =====
-- service.go: the connections of a service instance. A connection is its handle and the gateway that
-- it belongs to (connection.go is modelled in Connection). Calls that leave the service, or go to a
-- connection, are recorded in `calls`, oldest first. The clock's reading is an argument.
mod Tests
pub mod Closed
pub mod Rejected
pub mod Heartbeat
pub mod Announce
pub mod Hosting
pub mod Loops
use eurus.Prelude.{
  ℕ, ◌+◌, ◌-◌, String, List, [], ◌∷◌, ◌++◌, Option, none, some, Bool, true, false, ◌||◌, ◌==◌,
  string_eq, ltb, if◌then◌else◌, contains, is_empty, Map, lookup, insert, delete,
}
use eurus.Descriptor.{RouteDescriptor, ServiceDescriptor, GatewayDescriptor, Ref, Heap}
use eurus.Gateway.{Status, going_away}

pub record Peer : Type 0 where
  pub handle : ℕ
  pub gateway_id : String

pub data Call (P I M : Type 0) : Type 0 where
  handle_connection : I → ℕ → Call P I M
  handle_message : ℕ → M → Call P I M
  handle_close : ℕ → Status → String → Call P I M
  closed_socket : String → Status → String → Call P I M
  announce_service : ServiceDescriptor P → Call P I M

-- `route_descriptors` is none where the field is nil; `provided` is what the handler offers, if it is
-- a route descriptor provider.
pub record Service (P I M : Type 0) : Type 0 where
  pub gateway_names : List String
  pub name : String
  pub id : String
  pub route_descriptors : Option (List (RouteDescriptor P))
  pub provided : Option (List (RouteDescriptor P))
  pub closed_socket_ttl : ℕ
  pub connections : Map String Peer
  pub closed_sockets : Map String ℕ
  pub next_handle : ℕ
  pub calls : List (Call P I M)

-- What NewService takes from the package's variables: 30 seconds, and 64 messages.
abbrev pub default_closed_socket_ttl : ℕ
default_closed_socket_ttl = 30000000000

abbrev pub connection_mailbox_size : ℕ
connection_mailbox_size = 64

-- NewService, which panics without a handler. `handler` says whether there is one and, if that is a
-- route descriptor provider, what it provides.
unfoldable pub new_service :
    {P I M : Type 0}
    → String
    → String
    → Option (Option (List (RouteDescriptor P)))
    → Option (Service P I M)
new_service name id none = none
new_service name id (some provided) = some (record {
  gateway_names = [];
  name = name;
  id = id;
  route_descriptors = none;
  provided = provided;
  closed_socket_ttl = default_closed_socket_ttl;
  connections = [];
  closed_sockets = [];
  next_handle = 0;
  calls = [];
})

abbrev pub lists_id : {P : Type 0} → Heap P → String → List Ref → Bool
lists_id h id [] = false
lists_id h id (p ∷ ps) = if (h p).id == id then true else lists_id h id ps

module _ {P I M : Type 0} where
  abbrev pub emit : Call P I M → Service P I M → Service P I M
  emit c s = record s { calls = s.calls ++ c ∷ [] }

  unfoldable pub do_announce : Service P I M → Service P I M
  do_announce s =
      emit
        (announce_service (record {
          name = s.name;
          id = s.id;
          gateway_names = s.gateway_names;
          route_descriptors = elim s.route_descriptors [
            | some rs ↦ rs
            | none ↦ elim s.provided [ some rs ↦ rs | none ↦ [] ]
          ];
          last_seen_at = none;
          socket_ids = [];
        }))
        s

  unfoldable pub handle_gateway_announce :
      Heap P → GatewayDescriptor → Service P I M → Service P I M
  handle_gateway_announce h d s =
      if is_empty s.gateway_names || contains d.name s.gateway_names
      then if lists_id h s.id d.service_descriptors then s else do_announce s
      else s

  abbrev pub add_connection : String → String → I → Service P I M → Service P I M
  add_connection gateway_id socket_id info s = record s {
    connections =
        insert socket_id (record { handle = s.next_handle; gateway_id = gateway_id }) s.connections;
    next_handle = s.next_handle + 1;
    calls = s.calls ++ handle_connection info s.next_handle ∷ [];
  }

  -- The connection of the socket, or none for a socket that was closed lately.
  unfoldable pub ensure_connection :
      String → String → I → Service P I M → Service P I M × Option Peer
  ensure_connection gateway_id socket_id info s = elim (lookup socket_id s.closed_sockets) [
    | some _ ↦ (s, none)
    | none ↦ elim (lookup socket_id s.connections) [
      | some connection ↦ (s, some connection)
      | none ↦ (
        add_connection gateway_id socket_id info s,
        some (record { handle = s.next_handle; gateway_id = gateway_id }),
      )
    ]
  ]

  unfoldable pub handle_service_message : String → String → I → M → Service P I M → Service P I M
  unfolding ensure_connection
  handle_service_message gateway_id socket_id info msg s =
      let (s', connection) = ensure_connection gateway_id socket_id info s in
      elim connection [ none ↦ s' | some c ↦ emit (handle_message c.handle msg) s' ]

  -- The callback that HandleClose runs deletes the socket again, which is gone already.
  unfoldable pub close_connection : ℕ → String → Status → String → Service P I M → Service P I M
  close_connection now socket_id status reason s =
      let s' = record s {
        connections = delete socket_id s.connections;
        closed_sockets = insert socket_id now s.closed_sockets;
      } in
      elim (lookup socket_id s.connections) [
        | none ↦ s'
        | some c ↦ emit (handle_close c.handle status reason) s'
      ]

  -- The callback that a connection runs when it closes by itself.
  unfoldable pub on_closed : String → Service P I M → Service P I M
  on_closed socket_id s = record s { connections = delete socket_id s.connections }

  abbrev pub close_peers : Map String Peer → Service P I M → Service P I M
  close_peers [] s = s
  close_peers ((socket_id, c) ∷ m) s =
      close_peers m (emit (handle_close c.handle going_away "Service is stopping") s)

  unfoldable pub close_all_connections : Service P I M → Service P I M
  close_all_connections s = close_peers s.connections (record s { connections = [] })

-- The loop of pruneStaleResources: the records older than `ttl` go.
abbrev pub prune_closed : ℕ → ℕ → Map String ℕ → Map String ℕ
prune_closed ttl now [] = []
prune_closed ttl now ((socket_id, closed_at) ∷ m) =
    let rest = prune_closed ttl now m in
    if ltb ttl (now - closed_at) then rest else (socket_id, closed_at) ∷ rest

-- socketIDsByGateway[gatewayID] = append(socketIDsByGateway[gatewayID], socketID)
abbrev pub list_at : String → Map String (List String) → List String
list_at k m = elim (lookup k m) [ none ↦ [] | some l ↦ l ]

abbrev pub by_gateway : Map String Peer → Map String (List String) → Map String (List String)
by_gateway [] m = m
by_gateway ((socket_id, c) ∷ rest) m =
    by_gateway rest (insert c.gateway_id (list_at c.gateway_id m ++ socket_id ∷ []) m)

-- `respond` is HeartbeatSockets: the dead sockets, or none if the gateway is unreachable, in which
-- case all its sockets count as dead.
abbrev pub dead_of :
    (String → List String → Option (List String)) → String → List String → List String
dead_of respond gateway_id ids = elim (respond gateway_id ids) [ none ↦ ids | some dead ↦ dead ]

module _ {P I M : Type 0} where
  unfoldable pub prune_stale_resources : ℕ → Service P I M → Service P I M
  prune_stale_resources now s = record s {
    closed_sockets = prune_closed s.closed_socket_ttl now s.closed_sockets;
  }

  -- Close each dead socket and tell the gateways.
  abbrev pub close_dead : ℕ → List String → Service P I M → Service P I M
  close_dead now [] s = s
  close_dead now (socket_id ∷ ids) s = close_dead now ids (
      emit (closed_socket socket_id going_away "No heartbeat response")
        (close_connection now socket_id going_away "No heartbeat response" s))

  abbrev pub heartbeat_gateways :
      (String → List String → Option (List String))
      → ℕ
      → Map String (List String)
      → Service P I M
      → Service P I M
  heartbeat_gateways respond now [] s = s
  heartbeat_gateways respond now ((gateway_id, ids) ∷ m) s =
      heartbeat_gateways respond now m (close_dead now (dead_of respond gateway_id ids) s)

  unfoldable pub heartbeat_connections :
      (String → List String → Option (List String)) → ℕ → Service P I M → Service P I M
  heartbeat_connections respond now s =
      heartbeat_gateways respond now (by_gateway s.connections []) s
