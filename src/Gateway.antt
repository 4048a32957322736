-- ===== src/Gateway.antt =====
-- gateway.go: the sockets of a gateway and what its handlers do. A handler takes the gateway before
-- it and returns the gateway after it; each runs by itself, with no other between its steps.
-- The router's context, sockets and messages belong to Velaros: a socket is a handle, `I` and `M`
-- are the types of connection data and of messages, and what the transport or a socket answers is
-- an argument. Calls that leave the gateway are recorded in `calls`, oldest first.
mod Tests
pub mod Close
pub mod Settled
pub mod Handle
pub mod Handlers
pub mod Threads
pub mod Counts
pub mod Interleavings
pub mod Alone
use eurus.Prelude.{
  ℕ, zero, suc, ◌*◌, String, List, [], ◌∷◌, ◌++◌, Option, none, some, Bool, true, false, ◌||◌, ◌==◌,
  string_eq, if◌then◌else◌, contains, is_empty, Map, lookup, insert, delete,
}
use eurus.Descriptor.{ServiceDescriptor, GatewayDescriptor, Ref, Heap}
use eurus.Indexer.{
  State, new, close, set_service_descriptor, unset_service, service_descriptors,
  fresh_service_descriptors, prune_stale_services, resolve_service,
}
use eurus.Indexer.Sockets.{Error, map_socket, unmap_socket}

-- The close codes in use; `code` stands for any other that a peer may send.
pub data Status : Type 0 where
  going_away internal_error policy_violation : Status
  code : ℕ → Status

-- What MessageService returns: nil, ErrSlowConsumer, or another error.
pub data Outcome : Type 0 where
  delivered slow_consumer failed : Outcome

pub record Context (I M : Type 0) : Type 0 where
  pub path : String
  pub socket_id : String
  pub socket : ℕ
  pub info : I
  pub message : M

pub data Call (I M : Type 0) : Type 0 where
  socket_close : ℕ → Status → String → Call I M
  socket_send : ℕ → M → Call I M
  closed_socket : String → Status → String → Call I M
  message_service : String → String → String → I → M → Outcome → Call I M
  announce_gateway : GatewayDescriptor → Call I M
  next_handler : Call I M

-- `gsi` is the atomic pointer, nil before the first Connect.
pub record Gateway (P I M : Type 0) : Type 0 where
  pub name : String
  pub id : String
  pub announce_interval : ℕ
  pub gsi : Option (State P)
  pub sockets : Map String ℕ
  pub calls : List (Call I M)

-- if gsi := g.gsi.Load(); gsi != nil { gsi.UnmapSocket(socketID) }
abbrev pub unmap : {P : Type 0} → String → Option (State P) → Option (State P)
unmap socket_id none = none
unmap socket_id (some s) = some (unmap_socket socket_id s)

abbrev pub announcing_to : {P : Type 0} → String → ServiceDescriptor P → Bool
announcing_to name d = is_empty d.gateway_names || contains name d.gateway_names

abbrev pub is_error : Option Error → Bool
is_error none = false
is_error (some e) = true

module _ {P I M : Type 0} where
  abbrev pub emit : Call I M → Gateway P I M → Gateway P I M
  emit c g = record g { calls = g.calls ++ c ∷ [] }

  unfoldable pub new_gateway : String → String → ℕ → Gateway P I M
  new_gateway name id interval = record {
    name = name;
    id = id;
    announce_interval = interval;
    gsi = none;
    sockets = [];
    calls = [];
  }

  unfoldable pub close_socket : String → Status → String → Gateway P I M → Gateway P I M
  close_socket socket_id status reason g = elim (lookup socket_id g.sockets) [
    | none ↦ g
    | some socket ↦ record g {
      sockets = delete socket_id g.sockets;
      calls =
          g.calls
          ++ (socket_close socket status reason ∷ closed_socket socket_id status reason ∷ []);
      gsi = unmap socket_id g.gsi;
    }
  ]

  -- `gsi` is the indexer of the running Connect call.
  unfoldable pub handle_socket_closure : String → Status → String → Gateway P I M → Gateway P I M
  handle_socket_closure socket_id status reason g = elim (lookup socket_id g.sockets) [
    | none ↦ g
    | some socket ↦ record g {
      sockets = delete socket_id g.sockets;
      calls = g.calls ++ socket_close socket status reason ∷ [];
      gsi = unmap socket_id g.gsi;
    }
  ]

  unfoldable pub handle_socket_heartbeats : Gateway P I M → List String → List String
  handle_socket_heartbeats g [] = []
  handle_socket_heartbeats g (socket_id ∷ ids) =
      let rest = handle_socket_heartbeats g ids in
      elim (lookup socket_id g.sockets) [ none ↦ socket_id ∷ rest | some _ ↦ rest ]

  unfoldable pub handle_service_announcement : ℕ → Ref → Gateway P I M → State P → Gateway P I M
  handle_service_announcement now p g gsi =
      if announcing_to g.name (gsi.heap p)
      then record g { gsi = some (set_service_descriptor now p gsi) }
      else g

  -- `sent` is false if SendWithContext returned an error.
  unfoldable pub handle_gateway_message : Bool → String → M → Gateway P I M → Gateway P I M
  handle_gateway_message sent socket_id msg g = elim (lookup socket_id g.sockets) [
    | none ↦ g
    | some socket ↦
        let g' = emit (socket_send socket msg) g in
        if sent then g' else close_socket socket_id internal_error "Failed to send message" g'
  ]

  module _ (matches : P → String → Bool) where
    unfoldable pub can_serve_path : String → Gateway P I M → Bool
    can_serve_path path g = elim g.gsi [
      | none ↦ false
      | some gsi ↦ (resolve_service matches path gsi).1
    ]

  -- What Handle does once MapSocket has answered; `again` is the next round of its loop.
  abbrev pub after_map :
      Outcome
      → Context I M
      → String
      → Bool
      → (State P → Gateway P I M → Option (Gateway P I M))
      → State P
      → Gateway P I M
      → Option (Gateway P I M)
  after_map outcome ctx service_id is_new again gsi g =
      let g' =
        emit (message_service service_id g.id ctx.socket_id ctx.info ctx.message outcome) g in
      elim outcome [
        | delivered ↦ some g'
        | slow_consumer ↦ some (close_socket ctx.socket_id policy_violation "Slow consumer" g')
        | failed ↦
            let gsi' = unset_service service_id gsi in
            let g'' = record g' { gsi = some gsi' } in
            elim is_new [
              | true ↦ again gsi' g''
              | false ↦ some (close_socket ctx.socket_id going_away "Service unreachable" g'')
            ]
      ]

  -- The loop of Handle, on fuel: `none` means that the fuel ran out. `respond` is what the transport
  -- returns at each round for the instance that is tried.
  unfoldable pub deliver :
      (ℕ → String → Outcome)
      → ℕ
      → ℕ
      → String
      → Context I M
      → State P
      → Gateway P I M
      → Option (Gateway P I M)
  deliver respond zero round name ctx gsi g = none
  deliver respond (suc fuel) round name ctx gsi g =
      let (gsi', service_id, is_new, err) = map_socket name ctx.socket_id gsi in
      let g' = record g { gsi = some gsi' } in
      let tried =
        after_map (respond round service_id) ctx service_id is_new
          (deliver respond fuel (suc round) name ctx) gsi' g' in
      if is_error err || service_id == ""
      then some (close_socket ctx.socket_id going_away "Service unreachable" g')
      else tried

  module _ (matches : P → String → Bool) (respond : ℕ → String → Outcome) where
    unfoldable pub handle : ℕ → Context I M → Gateway P I M → Option (Gateway P I M)
    handle fuel ctx g = elim g.gsi [
      | none ↦ some (emit next_handler g)
      | some gsi ↦
          let (name, ok) = resolve_service matches ctx.path gsi in
          elim ok [
            | false ↦ some (emit next_handler g)
            | true ↦
                deliver respond fuel 0 name ctx gsi
                  (record g { sockets = insert ctx.socket_id ctx.socket g.sockets })
          ]
    ]

  unfoldable pub handle_close : String → Gateway P I M → Gateway P I M
  handle_close socket_id = close_socket socket_id going_away "Client disconnected"

  unfoldable pub close_each : List String → Status → String → Gateway P I M → Gateway P I M
  close_each [] status reason g = g
  close_each (socket_id ∷ ids) status reason g =
      close_each ids status reason (close_socket socket_id status reason g)

  -- One tick of pruneLoop.
  unfoldable pub prune_tick : ℕ → State P → Gateway P I M → Gateway P I M
  prune_tick now gsi g =
      let (gsi', _, affected) = prune_stale_services (5 * g.announce_interval) now gsi in
      close_each affected going_away "Service unreachable" (record g { gsi = some gsi' })

  -- One tick of announceLoop.
  unfoldable pub announce_tick : ℕ → State P → Gateway P I M → Gateway P I M
  announce_tick now gsi g =
      emit
        (announce_gateway (record {
          name = g.name;
          service_descriptors = fresh_service_descriptors (3 * g.announce_interval) now gsi;
        }))
        g

  abbrev pub close_handles : Map String ℕ → Status → String → Gateway P I M → Gateway P I M
  close_handles [] status reason g = g
  close_handles ((socket_id, socket) ∷ m) status reason g =
      close_handles m status reason (record g {
        calls = g.calls ++ socket_close socket status reason ∷ [];
        gsi = unmap socket_id g.gsi;
      })

  unfoldable pub close_all_sockets : Status → String → Gateway P I M → Gateway P I M
  close_all_sockets status reason g =
      close_handles g.sockets status reason (record g { sockets = [] })
