-- ===== src/Service/Rejected.antt =====
-- A message for a socket that the service has closed: ensureConnection of service.go and its record
-- of closed sockets, which its pruning empties.
use eurus.Prelude.{
  ◌==◌, ℕ, ◌+◌, ◌-◌, ◌≤◌, String, [], ◌∷◌, Map, none, some, ◌≡◌, refl, arith, string_eq,
  if◌then◌else◌, lookup, insert, lookup-insert, lookup-delete, Distinct-insert,
}
use text.Mathlib.TextEquality.{eq_iff}
use eurus.Gateway.{Status}
use eurus.Service.{
  Service, Peer, ensure_connection, close_connection, close_all_connections, on_closed,
  prune_stale_resources, close_peers, handle_service_message,
}
use eurus.Service.Closed.{
  Step, Reach, here, next, messaged, closed, failed, pruned, stopped, IsApart, Reach-IsApart,
  close_connection_frame, close_peers_frame, lookup-prune_closed,
}

module _ {P I M : Type 0} (now : ℕ) where
  -- A call that comes before the record of a closing at `now` is too old.
  abbrev pub IsEarlyStep : (ttl : ℕ) {s t : Service P I M} → Step s t → Type 0
  IsEarlyStep ttl (messaged gateway_id k info msg) = Unit
  IsEarlyStep ttl (closed later k status reason) = now ≤ later
  IsEarlyStep ttl (failed k) = Unit
  IsEarlyStep ttl (pruned later) = later - now ≤ ttl
  IsEarlyStep ttl stopped = Unit

  abbrev pub IsEarly : (ttl : ℕ) {s t : Service P I M} → Reach s t → Type 0
  IsEarly ttl here = Unit
  IsEarly ttl (next r st) = IsEarly ttl r × IsEarlyStep ttl st

module _ {P I M : Type 0} (now : ℕ) (socket_id : String) where
  -- The record of the socket is not older than `now`, and the limit is `ttl`.
  record IsRecorded (ttl : ℕ) (s : Service P I M) : Type 0 where
    ttl_eq : s.closed_socket_ttl ≡ ttl
    time : ℕ
    found : lookup socket_id s.closed_sockets ≡ some time
    not_before : now ≤ time

  ttl_messaged :
      (gateway_id k : String) (info : I) (msg : M) (s : Service P I M)
      → (handle_service_message gateway_id k info msg s).closed_socket_ttl ≡ s.closed_socket_ttl
  unfolding handle_service_message ensure_connection
  ttl_messaged gateway_id k info msg s = ground arith

  records_messaged :
      (gateway_id k : String) (info : I) (msg : M) (s : Service P I M)
      → (handle_service_message gateway_id k info msg s).closed_sockets ≡ s.closed_sockets
  unfolding handle_service_message ensure_connection
  records_messaged gateway_id k info msg s = ground arith

  ttl_closed :
      (later : ℕ) (k : String) (status : Status) (reason : String) (s : Service P I M)
      → (close_connection later k status reason s).closed_socket_ttl ≡ s.closed_socket_ttl
  unfolding close_connection
  ttl_closed later k status reason s = ground arith

  ttl-close_peers :
      (m : Map String Peer) (s : Service P I M)
      → (close_peers m s).closed_socket_ttl ≡ s.closed_socket_ttl
  ttl-close_peers [] s = refl
  ttl-close_peers ((k, c) ∷ m) s = ttl-close_peers m _

  Step-IsRecorded :
      (ttl : ℕ) {s t : Service P I M} (st : Step s t)
      → IsEarlyStep now ttl st
      → IsApart s
      → IsRecorded ttl s
      → IsRecorded ttl t
  unfolding on_closed prune_stale_resources close_all_connections
  Step-IsRecorded ttl {s} (messaged gateway_id k info msg) early i rec = record {
    ttl_eq = rw (ttl_messaged gateway_id k info msg s) rec.ttl_eq;
    time = rec.time;
    found = rw (records_messaged gateway_id k info msg s) rec.found;
    not_before = rec.not_before;
  }
  Step-IsRecorded ttl {s} (closed later k status reason) early i rec = record {
    ttl_eq = rw (ttl_closed later k status reason s) rec.ttl_eq;
    time = if k == socket_id then later else rec.time;
    found = ground (
      arith,
      (close_connection_frame later k status reason s).1,
      lookup-insert k socket_id later s.closed_sockets,
      eq_iff k socket_id,
      rec.found,
    );
    not_before = ground (arith, early, rec.not_before);
  }
  Step-IsRecorded ttl {s} (failed k) early i rec = record {
    ttl_eq = rec.ttl_eq;
    time = rec.time;
    found = rec.found;
    not_before = rec.not_before;
  }
  Step-IsRecorded ttl {s} (pruned later) early i rec = record {
    ttl_eq = rec.ttl_eq;
    time = rec.time;
    found = ground (
      arith,
      early,
      rec.ttl_eq,
      rec.found,
      rec.not_before,
      lookup-prune_closed s.closed_socket_ttl later socket_id s.closed_sockets i.recorded,
    );
    not_before = rec.not_before;
  }
  Step-IsRecorded ttl {s} stopped early i rec = record {
    ttl_eq = rw (ttl-close_peers s.connections (record s { connections = [] })) rec.ttl_eq;
    time = rec.time;
    found = rw ((close_peers_frame s.connections (record s { connections = [] })).1) rec.found;
    not_before = rec.not_before;
  }

  Reach-IsRecorded :
      (ttl : ℕ) {s t : Service P I M} (r : Reach s t)
      → IsEarly now ttl r
      → IsApart s
      → IsRecorded ttl s
      → IsRecorded ttl t
  Reach-IsRecorded ttl here early i rec = rec
  Reach-IsRecorded ttl (next r st) early i rec =
      Step-IsRecorded ttl st early.1 (Reach-IsApart r i) (Reach-IsRecorded ttl r early.0 i rec)

module _ {P I M : Type 0} (now later : ℕ) (gateway_id socket_id : String) (status : Status)
    (reason : String) (info : I) (msg : M) (s : Service P I M) (i : IsApart s) where
  abbrev pub after_closing : Service P I M
  after_closing = close_connection now socket_id status reason s

  abbrev pub pruned_later : Service P I M
  pruned_later = prune_stale_resources later after_closing

  after_closing-IsRecorded : IsRecorded now socket_id s.closed_socket_ttl after_closing
  after_closing-IsRecorded = record {
    ttl_eq = ttl_closed now socket_id now socket_id status reason s;
    time = now;
    found = ground (
      arith,
      (close_connection_frame now socket_id status reason s).1,
      lookup-insert socket_id socket_id now s.closed_sockets,
      eq_iff socket_id socket_id,
    );
    not_before = omega arith;
  }

  record_later :
      s.closed_socket_ttl + 1 ≤ later - now → lookup socket_id pruned_later.closed_sockets ≡ none
  unfolding prune_stale_resources
  record_later late = ground (
    arith,
    late,
    ttl_closed now socket_id now socket_id status reason s,
    (close_connection_frame now socket_id status reason s).1,
    lookup-insert socket_id socket_id now s.closed_sockets,
    eq_iff socket_id socket_id,
    lookup-prune_closed s.closed_socket_ttl later socket_id (insert socket_id now s.closed_sockets)
        (Distinct-insert socket_id now s.closed_sockets i.recorded),
  )

  no_connection_later : lookup socket_id pruned_later.connections ≡ none
  unfolding prune_stale_resources
  no_connection_later = ground (
    arith,
    (close_connection_frame now socket_id status reason s).0,
    lookup-delete socket_id socket_id s.connections,
    eq_iff socket_id socket_id,
  )

  -- If no socket is connected and recorded as closed at once, then when a socket was closed at a
  -- time, and after it come any messages, failed connections, stops, closings at that time or
  -- later, and prunings no later than it by more than the limit, a message for the socket opens no
  -- connection and changes nothing; but right after a pruning that is later than the closing by
  -- more than the limit, a connection is made anew.
  pub closed_socket_rejected :
      {u : Service P I M} (r : Reach after_closing u)
      → IsEarly now s.closed_socket_ttl r
      → (ensure_connection gateway_id socket_id info u ≡ (u, none))
        × (handle_service_message gateway_id socket_id info msg u ≡ u)
        × (s.closed_socket_ttl + 1 ≤ later - now
            → (ensure_connection gateway_id socket_id info pruned_later).1
              ≡ some (record { handle = pruned_later.next_handle; gateway_id = gateway_id }))
  unfolding ensure_connection handle_service_message
  closed_socket_rejected {u} r early =
      let rec =
        Reach-IsRecorded now socket_id s.closed_socket_ttl r early
          (Reach-IsApart (next here (closed now socket_id status reason)) i)
          after_closing-IsRecorded in
      (
        ground (arith, rec.found),
        ground (arith, rec.found),
        λ late. ground (arith, record_later late, no_connection_later),
      )
