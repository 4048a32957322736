-- ===== src/Service/Closed.antt =====
-- The connections of service.go and its record of sockets that were closed lately.
use eurus.Prelude.{
  ℕ, ◌-◌, String, [], ◌∷◌, none, some, ◌≡◌, refl, arith, string_eq, ltb, if◌then◌else◌, Map, lookup,
  insert, delete, Distinct, lookup-insert, lookup-delete, Distinct-insert, Distinct-delete,
  Option-cases, inl, inr,
}
use text.Mathlib.TextEquality.{eq_iff}
use eurus.Gateway.{Status}
use eurus.Service.{
  Service, Peer, ensure_connection, close_connection, close_all_connections, close_peers, on_closed,
  prune_closed, prune_stale_resources, handle_service_message,
}

lookup-prune_closed_absent :
    (ttl now : ℕ) (k : String) (m : Map String ℕ)
    → lookup k m ≡ none
    → lookup k (prune_closed ttl now m) ≡ none
lookup-prune_closed_absent ttl now k [] e = refl
lookup-prune_closed_absent ttl now k ((j, t) ∷ m) e =
    ground (arith, lookup-prune_closed_absent ttl now k m)

-- A record goes exactly when it is older than the limit.
pub lookup-prune_closed :
    (ttl now : ℕ) (k : String) (m : Map String ℕ)
    → Distinct m
    → lookup k (prune_closed ttl now m)
      ≡ elim (lookup k m) [ none ↦ none | some t ↦ if ltb ttl (now - t) then none else some t ]
lookup-prune_closed ttl now k [] d = refl
lookup-prune_closed ttl now k ((j, t) ∷ m) d =
    ground (
      arith,
      eq_iff j k,
      lookup-prune_closed_absent ttl now k m,
      lookup-prune_closed ttl now k m d.1,
    )

pub Distinct-prune_closed :
    (ttl now : ℕ) (m : Map String ℕ) → Distinct m → Distinct (prune_closed ttl now m)
Distinct-prune_closed ttl now [] d = tt
Distinct-prune_closed ttl now ((j, t) ∷ m) d =
    ground (arith, lookup-prune_closed_absent ttl now j m d.0, Distinct-prune_closed ttl now m d.1)

module _ {P I M : Type 0} where
  -- A socket is connected or recorded as closed, never both.
  pub record IsApart (s : Service P I M) : Type 0 where
    pub connected : Distinct s.connections
    pub recorded : Distinct s.closed_sockets
    pub apart :
        (k : String) (t : ℕ) → lookup k s.closed_sockets ≡ some t → lookup k s.connections ≡ none

  pub data Step (s : Service P I M) : Service P I M → Type 0 where
    messaged :
        (gateway_id socket_id : String) (info : I) (msg : M)
        → Step s (handle_service_message gateway_id socket_id info msg s)
    closed :
        (now : ℕ) (socket_id : String) (status : Status) (reason : String)
        → Step s (close_connection now socket_id status reason s)
    failed : (socket_id : String) → Step s (on_closed socket_id s)
    pruned : (now : ℕ) → Step s (prune_stale_resources now s)
    stopped : Step s (close_all_connections s)

  pub data Reach (s : Service P I M) : Service P I M → Type 0 where
    here : Reach s s
    next : {t u : Service P I M} → Reach s t → Step t u → Reach s u

  pub close_peers_frame :
      (m : Map String Peer) (s : Service P I M)
      → ((close_peers m s).connections ≡ s.connections)
        × ((close_peers m s).closed_sockets ≡ s.closed_sockets)
  close_peers_frame [] s = (refl, refl)
  close_peers_frame ((k, c) ∷ m) s = close_peers_frame m _

  pub connections-close_all_connections :
      (s : Service P I M) → (close_all_connections s).connections ≡ []
  unfolding close_all_connections
  connections-close_all_connections s =
      (close_peers_frame s.connections (record s { connections = [] })).0

  ensure_connection-IsApart :
      (gateway_id socket_id : String) (info : I) (s : Service P I M)
      → IsApart s
      → IsApart (ensure_connection gateway_id socket_id info s).0
  unfolding ensure_connection
  ensure_connection-IsApart gateway_id socket_id info s i = record {
    connected = ground (
      arith,
      i.connected,
      Distinct-insert socket_id (record { handle = s.next_handle; gateway_id = gateway_id })
          s.connections i.connected,
    );
    recorded = ground (arith, i.recorded);
    apart = λ k t e. ground (
      arith,
      i.apart k t,
      eq_iff socket_id k,
      lookup-insert socket_id k (record { handle = s.next_handle; gateway_id = gateway_id })
          s.connections,
    );
  }

  handle_service_message_frame :
      (gateway_id socket_id : String) (info : I) (msg : M) (s : Service P I M)
      → let t = (ensure_connection gateway_id socket_id info s).0 in
        ((handle_service_message gateway_id socket_id info msg s).connections ≡ t.connections)
        × ((handle_service_message gateway_id socket_id info msg s).closed_sockets
            ≡ t.closed_sockets)
  unfolding handle_service_message
  handle_service_message_frame gateway_id socket_id info msg s = (ground arith, ground arith)

  pub close_connection_frame :
      (now : ℕ) (socket_id : String) (status : Status) (reason : String) (s : Service P I M)
      → ((close_connection now socket_id status reason s).connections
          ≡ delete socket_id s.connections)
        × ((close_connection now socket_id status reason s).closed_sockets
            ≡ insert socket_id now s.closed_sockets)
  unfolding close_connection
  close_connection_frame now socket_id status reason s =
      elim (Option-cases (lookup socket_id s.connections)) [
        | inl e ↦ (ground (arith, e), ground (arith, e))
        | inr (c, e) ↦ (ground (arith, e), ground (arith, e))
      ]

  Step-IsApart : {s t : Service P I M} → Step s t → IsApart s → IsApart t
  unfolding on_closed prune_stale_resources close_all_connections
  Step-IsApart {s} (messaged gateway_id socket_id info msg) i =
      let (connections, closed_sockets) =
        handle_service_message_frame gateway_id socket_id info msg s in
      let v = ensure_connection-IsApart gateway_id socket_id info s i in
      record {
        connected = rw connections v.connected;
        recorded = rw closed_sockets v.recorded;
        apart = λ k t e. rw connections (v.apart k t (rw closed_sockets at e));
      }
  Step-IsApart {s} (closed now socket_id status reason) i =
      let (connections, closed_sockets) = close_connection_frame now socket_id status reason s in
      record {
        connected = rw connections (Distinct-delete socket_id s.connections i.connected);
        recorded = rw closed_sockets (Distinct-insert socket_id now s.closed_sockets i.recorded);
        apart = λ k t e. rw connections (
            ground (
              arith,
              closed_sockets,
              e,
              i.apart k t,
              eq_iff socket_id k,
              lookup-delete socket_id k s.connections,
              lookup-insert socket_id k now s.closed_sockets,
            ));
      }
  Step-IsApart {s} (failed socket_id) i = record {
    connected = Distinct-delete socket_id s.connections i.connected;
    recorded = i.recorded;
    apart = λ k t e. ground (arith, i.apart k t e, lookup-delete socket_id k s.connections);
  }
  Step-IsApart {s} (pruned now) i = record {
    connected = i.connected;
    recorded = Distinct-prune_closed s.closed_socket_ttl now s.closed_sockets i.recorded;
    apart = λ k t e. elim (Option-cases (lookup k s.closed_sockets)) [
      | inl absent ↦
          cc (e, lookup-prune_closed_absent s.closed_socket_ttl now k s.closed_sockets absent)
      | inr (t', f) ↦ i.apart k t' f
    ];
  }
  Step-IsApart {s} stopped i =
      let (connections, closed_sockets) =
        close_peers_frame s.connections (record s { connections = [] }) in
      record {
        connected = rw connections tt;
        recorded = rw closed_sockets i.recorded;
        apart = λ k t e. rw connections refl;
      }

  -- From a service whose tables hold each socket once and share none, after any sequence of
  -- messages, closings, failed connections, prunings and stops, a socket that the service
  -- remembers as closed has no connection.
  pub Reach-IsApart : {s t : Service P I M} → Reach s t → IsApart s → IsApart t
  Reach-IsApart here i = i
  Reach-IsApart (next r st) i = Step-IsApart st (Reach-IsApart r i)

  -- The second message of a socket goes to the connection that the first one made.
  pub ensure_connection_again :
      (gateway_id other socket_id : String) (info info' : I) (s : Service P I M) (c : Peer)
      → (ensure_connection gateway_id socket_id info s).1 ≡ some c
      → let t = (ensure_connection gateway_id socket_id info s).0 in
        ensure_connection other socket_id info' t ≡ (t, some c)
  unfolding ensure_connection
  ensure_connection_again gateway_id other socket_id info info' s c e = ground (
    arith,
    e,
    eq_iff socket_id socket_id,
    lookup-insert socket_id socket_id (record { handle = s.next_handle; gateway_id = gateway_id })
        s.connections,
  )
