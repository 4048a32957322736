-- ===== src/Reconcile.antt =====
-- The heartbeats of a service against its gateways: heartbeatConnections of service.go, HeartbeatSockets
-- of transport/natstransport/socket-heartbeat.go and handleSocketHeartbeats of gateway.go together.
pub mod Rounds
mod Tests
use eurus.Prelude.{
  ℕ, String, List, [], ◌∷◌, Option, none, some, Bool, true, false, ◌≡◌, refl, arith, ◌==◌, ◌&&◌,
  ◌∙◌, sym, ap, string_eq, if◌then◌else◌, Map, lookup, Distinct, Option-cases, inl, inr, contains,
}
use eurus.Gateway.{Gateway, handle_socket_heartbeats}
use eurus.Gateway.Handlers.{handle_socket_heartbeats_lem}
use eurus.Service.{Service, Peer, heartbeat_connections, by_gateway, list_at, dead_of}
use eurus.Service.Heartbeat.{heartbeat_connections_lem, heartbeat_connections-absent}
use eurus.Nats.Heartbeats.{
  Answer, answered, unreachable, heartbeat_sockets, heartbeat_sockets_batches,
}

-- The gateways by id; one that cannot be reached is missing.
abbrev pub Network : Type 0 → Type 0 → Type 0 → Type 0
Network P I M = String → Option (Gateway P I M)

-- What heartbeatConnections makes of the result of HeartbeatSockets.
abbrev pub dead_reported : Option Answer → Option (List String)
dead_reported (some (answered dead)) = some dead
dead_reported (some unreachable) = none
dead_reported none = none

module _ {P I M : Type 0} (network : Network P I M) where
  -- HeartbeatSockets over NATS, in batches that the gateway answers one by one.
  abbrev pub ask : String → List String → Option (List String)
  ask gateway_id ids = elim (network gateway_id) [
    | none ↦ none
    | some g ↦
        dead_reported (heartbeat_sockets (λ batch. some (handle_socket_heartbeats g batch)) ids)
  ]

  -- The gateway is there and has the socket registered.
  abbrev pub knows : String → String → Bool
  knows gateway_id k = elim (network gateway_id) [
    | none ↦ false
    | some g ↦ elim (lookup k g.sockets) [ none ↦ false | some _ ↦ true ]
  ]

  ask_reached :
      (gateway_id : String) (g : Gateway P I M) (ids : List String)
      → network gateway_id ≡ some g
      → ask gateway_id ids ≡ some (handle_socket_heartbeats g ids)
  ask_reached gateway_id g ids there = ground (arith, there, heartbeat_sockets_batches g ids)

  -- A gateway names only sockets that it was asked about.
  ask_honest :
      (gateway_id k : String) (ids dead : List String)
      → ask gateway_id ids ≡ some dead
      → contains k dead ≡ true
      → contains k ids ≡ true
  ask_honest gateway_id k ids dead e c = elim (Option-cases (network gateway_id)) [
    | inl missing ↦ ground (arith, missing)
    | inr (g, there) ↦
        ground (arith, ask_reached gateway_id g ids there, handle_socket_heartbeats_lem g ids k)
  ]

  dead_unless_known :
      (gateway_id k : String) (ids : List String)
      → contains k ids ≡ true
      → contains k (dead_of ask gateway_id ids) ≡ (if knows gateway_id k then false else true)
  dead_unless_known gateway_id k ids asked = elim (Option-cases (network gateway_id)) [
    | inl missing ↦ ground (arith, missing)
    | inr (g, there) ↦
        ground
          (arith, there, ask_reached gateway_id g ids there, handle_socket_heartbeats_lem g ids k)
  ]

  -- The connection of a socket that its gateway knows.
  abbrev pub known_only : String → Option Peer → Option Peer
  known_only k none = none
  known_only k (some c) = if knows c.gateway_id k then some c else none

  module _ (now : ℕ) (s : Service P I M) (d : Distinct s.connections) where
    -- One round of heartbeats, if the service has each connection once: a connection stays exactly if its
    -- gateway knows the socket, and otherwise is recorded as closed now.
    pub heartbeats_reconcile :
        (k : String)
        → let t = heartbeat_connections ask now s in
          (lookup k t.connections ≡ known_only k (lookup k s.connections))
          × (lookup k t.closed_sockets ≡ elim (lookup k s.connections) [
            | none ↦ lookup k s.closed_sockets
            | some c ↦ if knows c.gateway_id k then lookup k s.closed_sockets else some now
          ])
    heartbeats_reconcile k = elim (Option-cases (lookup k s.connections)) [
      | inl absent ↦
          let (a, b) =
            heartbeat_connections-absent ask now s k d absent
              (λ g x ids dead. ask_honest g x ids dead) in
          (ground (arith, absent, a), ground (arith, absent, b))
      | inr (c, present) ↦
          let (asked, kept, recorded) =
            heartbeat_connections_lem ask now s k c d present
              (λ g x ids dead. ask_honest g x ids dead) in
          let verdict =
            dead_unless_known c.gateway_id k (list_at c.gateway_id (by_gateway s.connections []))
              asked in
          (ground (arith, present, kept, verdict), ground (arith, present, recorded, verdict))
    ]
