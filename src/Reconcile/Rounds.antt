-- ===== src/Reconcile/Rounds.antt =====
-- heartbeatLoop of service.go against gateways that may change between its ticks.
use eurus.Prelude.{
  ℕ, String, List, [], ◌∷◌, Option, none, some, ◌≡◌, arith, string_eq, if◌then◌else◌, lookup,
  Distinct, Option-cases, Bool-cases, inl, inr,
}
use eurus.Service.{Service, heartbeat_connections}
use eurus.Service.Loops.{Event, canceled, ticked, heartbeat_loop, Distinct-heartbeat_connections}
use eurus.Reconcile.{Network, ask, knows, heartbeats_reconcile}

module _ {P I M : Type 0} where
  -- The gateways answer each tick as they stand then.
  abbrev pub asking :
      List (Event (ℕ × Network P I M))
      → List (Event (ℕ × (String → List String → Option (List String))))
  asking [] = []
  asking (canceled ∷ events) = canceled ∷ asking events
  asking (ticked (now, network) ∷ events) = ticked (now, ask network) ∷ asking events

  -- The time of the first tick at which the gateway does not know the socket.
  abbrev pub first_missed : String → String → List (Event (ℕ × Network P I M)) → Option ℕ
  first_missed gateway_id k [] = none
  first_missed gateway_id k (canceled ∷ events) = none
  first_missed gateway_id k (ticked (now, network) ∷ events) =
      let rest = first_missed gateway_id k events in
      if knows network gateway_id k then rest else some now

  -- If the service has each connection once and the gateways answer each tick of the heartbeat
  -- loop as they stand then, in batches, then after the ticks before the loop ends the connection
  -- of a socket is there exactly if it was and at each tick its gateway could be reached and had
  -- the socket registered; a connection that goes is recorded as closed at the first tick at which
  -- that was not so, and no other record changes.
  pub heartbeat_loop_reconciles :
      (k : String) (events : List (Event (ℕ × Network P I M))) (s : Service P I M)
      → Distinct s.connections
      → let t = (heartbeat_loop (asking events) s).0 in
        (lookup k t.connections ≡ elim (lookup k s.connections) [
          | none ↦ none
          | some c ↦ elim (first_missed c.gateway_id k events) [ none ↦ some c | some _ ↦ none ]
        ])
        × (lookup k t.closed_sockets ≡ elim (lookup k s.connections) [
          | none ↦ lookup k s.closed_sockets
          | some c ↦ elim (first_missed c.gateway_id k events) [
            | none ↦ lookup k s.closed_sockets
            | some now ↦ some now
          ]
        ])
  unfolding heartbeat_loop
  heartbeat_loop_reconciles k [] s d = (ground arith, ground arith)
  heartbeat_loop_reconciles k (canceled ∷ events) s d = (ground arith, ground arith)
  heartbeat_loop_reconciles k (ticked (now, network) ∷ events) s d =
      let u = heartbeat_connections (ask network) now s in
      let (kept, recorded) = heartbeats_reconcile network now s d k in
      let (rest, rest_recorded) =
        heartbeat_loop_reconciles k events u
          (Distinct-heartbeat_connections (ask network) now s d) in
      elim (Option-cases (lookup k s.connections)) [
        | inl absent ↦ (
          ground (arith, absent, kept, rest),
          ground (arith, absent, kept, recorded, rest_recorded),
        )
        | inr (c, present) ↦ elim (Bool-cases (knows network c.gateway_id k)) [
          | inl known ↦ (
            ground (arith, present, known, kept, rest),
            ground (arith, present, known, kept, recorded, rest_recorded),
          )
          | inr missed ↦ (
            ground (arith, present, missed, kept, rest),
            ground (arith, present, missed, kept, recorded, rest_recorded),
          )
        ]
      ]
