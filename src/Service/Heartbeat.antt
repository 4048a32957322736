-- ===== src/Service/Heartbeat.antt =====
-- heartbeatConnections of service.go: one request for each gateway, and what it closes.
use eurus.Prelude.{
  ℕ, String, List, [], ◌∷◌, ◌++◌, Option, none, some, Bool, true, false, ◌≡◌, refl, arith, ◌==◌,
  ◌∙◌, sym, string_eq, if◌then◌else◌, Map, lookup, insert, Distinct, lookup-insert, lookup-delete,
  Distinct-insert, Option-cases, inl, inr, Bool-cases, contains, contains-append, ◌||◌,
}
use text.Mathlib.TextEquality.{eq_iff}
use eurus.Gateway.{going_away}
use eurus.Service.{
  Service, Peer, close_connection, close_dead, dead_of, by_gateway, list_at, heartbeat_gateways,
  heartbeat_connections,
}
use eurus.Service.Closed.{close_connection_frame}

-- The socket's connection belongs to the gateway.
abbrev pub belongs : String → String → Map String Peer → Bool
belongs k gateway_id m = elim (lookup k m) [ none ↦ false | some c ↦ c.gateway_id == gateway_id ]

contains-by_gateway_from :
    (k g : String) (conns : Map String Peer) (m : Map String (List String))
    → Distinct conns
    → contains k (list_at g (by_gateway conns m)) ≡ (contains k (list_at g m) || belongs k g conns)
contains-by_gateway_from k g [] m d = ground arith
contains-by_gateway_from k g ((j, c) ∷ conns) m d =
    contains-by_gateway_from k g conns (insert c.gateway_id (list_at c.gateway_id m ++ j ∷ []) m)
      d.1
    ∙ ground (
      arith,
      lookup-insert c.gateway_id g (list_at c.gateway_id m ++ j ∷ []) m,
      contains-append k (list_at g m) (j ∷ []),
      eq_iff c.gateway_id g,
      eq_iff j k,
      d.0,
    )

Distinct-by_gateway :
    (conns : Map String Peer) (m : Map String (List String))
    → Distinct m
    → Distinct (by_gateway conns m)
Distinct-by_gateway [] m d = d
Distinct-by_gateway ((j, c) ∷ conns) m d =
    Distinct-by_gateway conns _ (Distinct-insert c.gateway_id _ m d)

-- The sockets asked of a gateway are those of the connections that belong to it.
pub contains-by_gateway :
    (k g : String) (conns : Map String Peer)
    → Distinct conns
    → contains k (list_at g (by_gateway conns [])) ≡ belongs k g conns
contains-by_gateway k g conns d = contains-by_gateway_from k g conns [] d

module _ (respond : String → List String → Option (List String)) where
  -- Some gateway answers that the socket is dead, or cannot be reached.
  abbrev dead_in : String → Map String (List String) → Bool
  dead_in k [] = false
  dead_in k ((g, ids) ∷ m) = if contains k (dead_of respond g ids) then true else dead_in k m

  dead_in_sound :
      (k : String) (m : Map String (List String))
      → Distinct m
      → dead_in k m ≡ true
      → (g : String) × (ids : List String) × (lookup g m ≡ some ids)
        × (contains k (dead_of respond g ids) ≡ true)
  dead_in_sound k [] d e = cc
  dead_in_sound k ((g, ids) ∷ m) d e = elim (Bool-cases (contains k (dead_of respond g ids))) [
    | inl hit ↦ (g, ids, ground (arith, eq_iff g g), hit)
    | inr miss ↦
        let (g', ids', found, hit) = dead_in_sound k m d.1 (ground arith) in
        (g', ids', ground (arith, eq_iff g g'), hit)
  ]

  dead_in_complete :
      (k g : String) (ids : List String) (m : Map String (List String))
      → lookup g m ≡ some ids
      → contains k (dead_of respond g ids) ≡ true
      → dead_in k m ≡ true
  dead_in_complete k g ids [] e c = cc
  dead_in_complete k g ids ((j, l) ∷ m) e c = ground (arith, eq_iff j g, dead_in_complete k g ids m)

  module _ {P I M : Type 0} (now : ℕ) where
    close_dead_frame :
        (ids : List String) (s : Service P I M) (k : String)
        → (lookup k (close_dead now ids s).connections
            ≡ (if contains k ids then none else lookup k s.connections))
          × (lookup k (close_dead now ids s).closed_sockets
              ≡ (if contains k ids then some now else lookup k s.closed_sockets))
    close_dead_frame [] s k = (refl, refl)
    close_dead_frame (j ∷ ids) s k =
        let t = close_connection now j going_away "No heartbeat response" s in
        let rest = close_dead_frame ids (record t { calls = t.calls ++ _ ∷ [] }) k in
        let frame = close_connection_frame now j going_away "No heartbeat response" s in
        (
          rest.0 ∙ ground (arith, frame.0, eq_iff j k, lookup-delete j k s.connections),
          rest.1 ∙ ground (arith, frame.1, eq_iff j k, lookup-insert j k now s.closed_sockets),
        )

    heartbeat_gateways_frame :
        (m : Map String (List String)) (s : Service P I M) (k : String)
        → (lookup k (heartbeat_gateways respond now m s).connections
            ≡ (if dead_in k m then none else lookup k s.connections))
          × (lookup k (heartbeat_gateways respond now m s).closed_sockets
              ≡ (if dead_in k m then some now else lookup k s.closed_sockets))
    heartbeat_gateways_frame [] s k = (refl, refl)
    heartbeat_gateways_frame ((g, ids) ∷ m) s k =
        let rest = heartbeat_gateways_frame m (close_dead now (dead_of respond g ids) s) k in
        let frame = close_dead_frame (dead_of respond g ids) s k in
        (rest.0 ∙ ground (arith, frame.0), rest.1 ∙ ground (arith, frame.1))

    -- If gateways report only sockets that they were asked about: each connection is asked about
    -- at its gateway; if the gateway does not answer or reports the socket dead, the connection is
    -- removed and the socket recorded as closed now; otherwise both stay as they are.
    pub heartbeat_connections_lem :
        (s : Service P I M) (k : String) (c : Peer)
        → Distinct s.connections
        → lookup k s.connections ≡ some c
        → ((g x : String) (ids dead : List String)
            → respond g ids ≡ some dead
            → contains x dead ≡ true
            → contains x ids ≡ true)
        → let asked = list_at c.gateway_id (by_gateway s.connections []) in
          let is_dead = contains k (dead_of respond c.gateway_id asked) in
          (contains k asked ≡ true)
          × (lookup k (heartbeat_connections respond now s).connections
              ≡ (if is_dead then none else some c))
          × (lookup k (heartbeat_connections respond now s).closed_sockets
              ≡ (if is_dead then some now else lookup k s.closed_sockets))
    unfolding heartbeat_connections
    heartbeat_connections_lem s k c d e honest =
        let frame = heartbeat_gateways_frame table s k in
        (
          is_asked,
          (frame.0 ∙ ground (arith, is_dead_in, e)),
          (frame.1 ∙ ground (arith, is_dead_in)),
        )
      where
        table : Map String (List String)
        table = by_gateway s.connections []

        is_asked : contains k (list_at c.gateway_id table) ≡ true
        is_asked =
            contains-by_gateway k c.gateway_id s.connections d
            ∙ ground (arith, e, eq_iff c.gateway_id c.gateway_id)

        of_asked :
            (g : String) (ids : List String)
            → contains k (dead_of respond g ids) ≡ true
            → contains k ids ≡ true
        of_asked g ids hit = elim (Option-cases (respond g ids)) [
          | inl none_answered ↦ ground (arith, none_answered, hit)
          | inr (dead, answered) ↦ honest g k ids dead answered (ground (arith, answered, hit))
        ]

        hit_elsewhere :
            (g : String) (ids : List String)
            → lookup g table ≡ some ids
            → contains k (dead_of respond g ids) ≡ true
            → contains k (dead_of respond c.gateway_id (list_at c.gateway_id table)) ≡ true
        hit_elsewhere g ids found hit = ground (
          arith,
          found,
          hit,
          e,
          of_asked g ids hit,
          contains-by_gateway k g s.connections d,
          eq_iff c.gateway_id g,
        )

        is_dead_in :
            dead_in k table ≡ contains k (dead_of respond c.gateway_id (list_at c.gateway_id table))
        is_dead_in = elim (Bool-cases (dead_in k table)) [
          | inl dead ↦
              let (g, ids, found, hit) =
                dead_in_sound k table (Distinct-by_gateway s.connections [] tt) dead in
              dead ∙ sym (hit_elsewhere g ids found hit)
          | inr alive ↦ elim (Option-cases (lookup c.gateway_id table)) [
            | inl absent ↦ ground (arith, absent, is_asked)
            | inr (ids, found) ↦ elim (Bool-cases (contains k (dead_of respond c.gateway_id ids))) [
              | inl hit ↦ ground (arith, alive, dead_in_complete k c.gateway_id ids table found hit)
              | inr miss ↦ ground (arith, alive, found, miss)
            ]
          ]
        ]

    -- A socket without a connection is not touched.
    pub heartbeat_connections-absent :
        (s : Service P I M) (k : String)
        → Distinct s.connections
        → lookup k s.connections ≡ none
        → ((g x : String) (ids dead : List String)
            → respond g ids ≡ some dead
            → contains x dead ≡ true
            → contains x ids ≡ true)
        → (lookup k (heartbeat_connections respond now s).connections ≡ none)
          × (lookup k (heartbeat_connections respond now s).closed_sockets
              ≡ lookup k s.closed_sockets)
    unfolding heartbeat_connections
    heartbeat_connections-absent s k d absent honest =
        let frame = heartbeat_gateways_frame table s k in
        (frame.0 ∙ ground (arith, absent), frame.1 ∙ ground (arith, not_dead))
      where
        table : Map String (List String)
        table = by_gateway s.connections []

        never_asked :
            (g : String) (ids : List String) → lookup g table ≡ some ids → contains k ids ≡ false
        never_asked g ids found =
            ground (arith, found, absent, contains-by_gateway k g s.connections d)

        not_dead : dead_in k table ≡ false
        not_dead = elim (Bool-cases (dead_in k table)) [
          | inr alive ↦ alive
          | inl dead ↦
              let (g, ids, found, hit) =
                dead_in_sound k table (Distinct-by_gateway s.connections [] tt) dead in
              elim (Option-cases (respond g ids)) [
                | inl none_answered ↦ ground (arith, none_answered, hit, never_asked g ids found)
                | inr (l, answered) ↦
                    ground
                      (arith, answered, hit, never_asked g ids found, honest g k ids l answered)
              ]
        ]
