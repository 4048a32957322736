-- ===== src/Service/Loops.antt =====
-- pruneLoop and heartbeatLoop of service.go: what the select statement chooses is a list of events.
use eurus.Prelude.{
  ℕ, ◌-◌, String, List, [], ◌∷◌, Option, none, some, Bool, true, false, ◌≡◌, arith, string_eq, ltb,
  if◌then◌else◌, Map, lookup, Distinct, Distinct-delete,
}
use eurus.Gateway.{going_away}
use eurus.Service.{
  Service, prune_stale_resources, close_dead, dead_of, by_gateway, heartbeat_gateways,
  heartbeat_connections,
}
use eurus.Service.Closed.{close_connection_frame, lookup-prune_closed, Distinct-prune_closed}

-- The context is done, or the ticker sends.
pub data Event (A : Type 0) : Type 0 where
  canceled : Event A
  ticked : A → Event A

-- The loop, with its body, and whether it has returned.
abbrev pub loop : {A S : Type 0} → (A → S → S) → List (Event A) → S → S × Bool
loop body [] s = (s, false)
loop body (canceled ∷ events) s = (s, true)
loop body (ticked a ∷ events) s = loop body events (body a s)

module _ {P I M : Type 0} where
  -- An event has the time of the tick.
  unfoldable pub prune_loop : List (Event ℕ) → Service P I M → Service P I M × Bool
  unfolding prune_stale_resources
  prune_loop events s = loop prune_stale_resources events s

  -- An event has the time of the tick, and what HeartbeatSockets answers.
  unfoldable pub heartbeat_loop :
      List (Event (ℕ × (String → List String → Option (List String))))
      → Service P I M
      → Service P I M × Bool
  unfolding heartbeat_connections
  heartbeat_loop events s = loop (λ e t. heartbeat_connections e.1 e.0 t) events s

-- Some tick before the end of the loop is later than the limit.
abbrev pub is_late : ℕ → ℕ → List (Event ℕ) → Bool
is_late ttl t [] = false
is_late ttl t (canceled ∷ events) = false
is_late ttl t (ticked now ∷ events) =
    let rest = is_late ttl t events in if ltb ttl (now - t) then true else rest

module _ {P I M : Type 0} where
  -- The record of a closed socket lasts until the first tick that is later than its time and the
  -- limit.
  pub prune_loop_keeps :
      (k : String) (events : List (Event ℕ)) (s : Service P I M)
      → Distinct s.closed_sockets
      → lookup k (prune_loop events s).0.closed_sockets ≡ elim (lookup k s.closed_sockets) [
        | none ↦ none
        | some t ↦ if is_late s.closed_socket_ttl t events then none else some t
      ]
  unfolding prune_loop prune_stale_resources
  prune_loop_keeps k [] s d = ground arith
  prune_loop_keeps k (canceled ∷ events) s d = ground arith
  prune_loop_keeps k (ticked now ∷ events) s d = ground (
    arith,
    lookup-prune_closed s.closed_socket_ttl now k s.closed_sockets d,
    prune_loop_keeps k events (prune_stale_resources now s)
        (Distinct-prune_closed s.closed_socket_ttl now s.closed_sockets d),
  )

  Distinct-close_dead :
      (now : ℕ) (ids : List String) (s : Service P I M)
      → Distinct s.connections
      → Distinct (close_dead now ids s).connections
  Distinct-close_dead now [] s d = d
  Distinct-close_dead now (id ∷ ids) s d = Distinct-close_dead now ids _ (
      rw (close_connection_frame now id going_away "No heartbeat response" s).0
        (Distinct-delete id s.connections d))

  Distinct-heartbeat_gateways :
      (respond : String → List String → Option (List String)) (now : ℕ)
      (m : Map String (List String)) (s : Service P I M)
      → Distinct s.connections
      → Distinct (heartbeat_gateways respond now m s).connections
  Distinct-heartbeat_gateways respond now [] s d = d
  Distinct-heartbeat_gateways respond now ((g, ids) ∷ m) s d =
      Distinct-heartbeat_gateways respond now m _
        (Distinct-close_dead now (dead_of respond g ids) s d)

  pub Distinct-heartbeat_connections :
      (respond : String → List String → Option (List String)) (now : ℕ) (s : Service P I M)
      → Distinct s.connections
      → Distinct (heartbeat_connections respond now s).connections
  unfolding heartbeat_connections
  Distinct-heartbeat_connections respond now s d =
      Distinct-heartbeat_gateways respond now (by_gateway s.connections []) s d
