-- ===== src/Gateway/Interleavings.antt =====
-- What holds however the goroutines of a gateway take turns.
use eurus.Prelude.{
  ℕ, ◌+◌, ◌≤◌, String, List, [], ◌∷◌, ◌++◌, Option, none, some, true, ◌≡◌, arith, ap, string_eq,
  inl, inr, Option-cases, Map, lookup, lookup-insert, lookup-delete,
}
use text.Mathlib.TextEquality.{eq_iff}
use eurus.Indexer.{State}
use eurus.Indexer.Valid.{IsValid}
use eurus.Indexer.Unset.{unset_service-IsValid}
use eurus.Indexer.Balance.{map_socket-IsValid}
use eurus.Indexer.Unmap.{unmap_socket-IsValid}
use eurus.Indexer.Histories.{Step-IsValid}
use eurus.Gateway.{
  Gateway, Status, Outcome, Context, socket_close, closed_socket, message_service, unmap,
}
use eurus.Gateway.Counts.{
  occurrences, registered_now, broadcasts, is_shutting, pending, broadcasts-append, pending-append,
  occurrences-append,
}
use eurus.Gateway.Threads.{
  Thread, registering, mapping, sending, unsetting, closing, shutting, unmapping, finished, hearing,
  hanging_up, sweeping, swept, run_hearing, run_swept, run_mapping, run_closing, unset_at,
  run_thread, System, is_start, registers, advance, Step, started, ran, changed, Reach, here, next,
}

-- The indexer, if there is one, has consistent tables.
abbrev pub AreValid : {P : Type 0} → Option (State P) → Type 0
AreValid none = Unit
AreValid (some gsi) = IsValid gsi

module _ {P : Type 0} where
  unset_at-AreValid : (id : String) (o : Option (State P)) → AreValid o → AreValid (unset_at id o)
  unfolding unset_at
  unset_at-AreValid id none v = tt
  unset_at-AreValid id (some gsi) v = unset_service-IsValid id gsi v

  unmap-AreValid : (k : String) (o : Option (State P)) → AreValid o → AreValid (unmap k o)
  unmap-AreValid k none v = tt
  unmap-AreValid k (some gsi) v = unmap_socket-IsValid k gsi v

start-not_shutting :
    {I M : Type 0} (k : String) (t : Thread I M) → is_start t ≡ true → is_shutting k t ≡ 0
start-not_shutting k t e = ground arith

module _ {P I M : Type 0} where
  run_mapping-AreValid :
      (name : String) (ctx : Context I M) (o : Option (State P)) (g : Gateway P I M)
      → AreValid o
      → AreValid g.gsi
      → AreValid (run_mapping name ctx o g).1.gsi
  unfolding run_mapping
  run_mapping-AreValid name ctx none g v w = w
  run_mapping-AreValid name ctx (some gsi) g v w = map_socket-IsValid name ctx.socket_id gsi v

  run_closing-AreValid :
      (k : String) (status : Status) (reason : String) (o : Option ℕ) (g : Gateway P I M)
      → AreValid g.gsi
      → AreValid (run_closing k status reason o g).1.gsi
  run_closing-AreValid k status reason none g v = v
  run_closing-AreValid k status reason (some socket) g v = v

  run_hearing-AreValid :
      (k : String) (status : Status) (reason : String) (o : Option ℕ) (g : Gateway P I M)
      → AreValid g.gsi
      → AreValid (run_hearing k status reason o g).1.gsi
  run_hearing-AreValid k status reason none g v = v
  run_hearing-AreValid k status reason (some socket) g v = v

  run_swept-AreValid :
      (m : Map String ℕ) (status : Status) (reason : String) (g : Gateway P I M)
      → AreValid g.gsi
      → AreValid (run_swept m status reason g).1.gsi
  run_swept-AreValid [] status reason g v = v
  run_swept-AreValid ((k, socket) ∷ m) status reason g v = unmap-AreValid k g.gsi v

  run_thread-AreValid :
      (outcome : Outcome) (t : Thread I M) (g : Gateway P I M)
      → AreValid g.gsi
      → AreValid (run_thread outcome t g).1.gsi
  unfolding run_thread run_mapping unset_at
  run_thread-AreValid outcome (registering name ctx) g v = v
  run_thread-AreValid outcome (mapping name ctx) g v = run_mapping-AreValid name ctx g.gsi g v v
  run_thread-AreValid outcome (sending name ctx id is_new) g v = v
  run_thread-AreValid outcome (unsetting name ctx id is_new) g v = unset_at-AreValid id g.gsi v
  run_thread-AreValid outcome (closing k status reason) g v =
      run_closing-AreValid k status reason (lookup k g.sockets) g v
  run_thread-AreValid outcome (shutting k socket status reason) g v = v
  run_thread-AreValid outcome (unmapping k) g v = unmap-AreValid k g.gsi v
  run_thread-AreValid outcome (hearing k status reason) g v =
      run_hearing-AreValid k status reason (lookup k g.sockets) g v
  run_thread-AreValid outcome (hanging_up k socket status reason) g v = v
  run_thread-AreValid outcome (sweeping status reason) g v = v
  run_thread-AreValid outcome (swept m status reason) g v = run_swept-AreValid m status reason g v
  run_thread-AreValid outcome finished g v = v

  module _ (k : String) where
    -- The closings of a socket that there were, that are to come, and that there may be.
    abbrev pub closings : Thread I M → Gateway P I M → ℕ
    closings t g = broadcasts k g.calls + is_shutting k t + registered_now k g.sockets

    run_closing-closings :
        (j : String) (status : Status) (reason : String) (g : Gateway P I M)
        → let (t, h) = run_closing j status reason (lookup j g.sockets) g in
          closings t h ≤ closings (closing j status reason) g
    run_closing-closings j status reason g = elim (Option-cases (lookup j g.sockets)) [
      | inl absent ↦ rw absent (omega arith)
      | inr (socket, present) ↦
          rw present (ground (arith, present, lookup-delete j k g.sockets, eq_iff j k))
    ]

    run_hearing-closings :
        (j : String) (status : Status) (reason : String) (g : Gateway P I M)
        → let (t, h) = run_hearing j status reason (lookup j g.sockets) g in
          closings t h ≤ closings (hearing j status reason) g
    run_hearing-closings j status reason g = elim (Option-cases (lookup j g.sockets)) [
      | inl absent ↦ rw absent (omega arith)
      | inr (socket, present) ↦ rw present (ground (arith, lookup-delete j k g.sockets, eq_iff j k))
    ]

    run_swept-closings :
        (m : Map String ℕ) (status : Status) (reason : String) (g : Gateway P I M)
        → let (t, h) = run_swept m status reason g in
          closings t h ≤ closings (swept m status reason) g
    run_swept-closings [] status reason g = omega arith
    run_swept-closings ((j, socket) ∷ m) status reason g =
        omega (arith, broadcasts-append k g.calls (socket_close socket status reason ∷ []))

    run_mapping-closings :
        (name : String) (ctx : Context I M) (o : Option (State P)) (g : Gateway P I M)
        → closings (run_mapping name ctx o g).0 (run_mapping name ctx o g).1
          ≤ closings (mapping name ctx) g
    unfolding run_mapping
    run_mapping-closings name ctx none g = omega arith
    run_mapping-closings name ctx (some gsi) g = ground arith

    run_thread-closings :
        (outcome : Outcome) (t : Thread I M) (g : Gateway P I M)
        → closings (run_thread outcome t g).0 (run_thread outcome t g).1
          ≤ closings t g + occurrences k (registers t)
    unfolding run_thread run_mapping unset_at
    run_thread-closings outcome (registering name ctx) g =
        ground (arith, lookup-insert ctx.socket_id k ctx.socket g.sockets, eq_iff ctx.socket_id k)
    run_thread-closings outcome (mapping name ctx) g =
        omega (arith, run_mapping-closings name ctx g.gsi g)
    run_thread-closings outcome (sending name ctx id is_new) g = ground (
      arith,
      broadcasts-append k g.calls
          (message_service id g.id ctx.socket_id ctx.info ctx.message outcome ∷ []),
    )
    run_thread-closings outcome (unsetting name ctx id is_new) g = ground arith
    run_thread-closings outcome (closing j status reason) g =
        omega (arith, run_closing-closings j status reason g)
    run_thread-closings outcome (shutting j socket status reason) g = omega (
      arith,
      broadcasts-append k g.calls
          (socket_close socket status reason ∷ closed_socket j status reason ∷ []),
    )
    run_thread-closings outcome (unmapping j) g = omega arith
    run_thread-closings outcome (hearing j status reason) g =
        omega (arith, run_hearing-closings j status reason g)
    run_thread-closings outcome (hanging_up j socket status reason) g =
        omega (arith, broadcasts-append k g.calls (socket_close socket status reason ∷ []))
    run_thread-closings outcome (sweeping status reason) g = omega arith
    run_thread-closings outcome (swept m status reason) g =
        omega (arith, run_swept-closings m status reason g)
    run_thread-closings outcome finished g = omega arith

  -- What holds of a gateway with goroutines, at any moment.
  pub record IsAccounted (s : System P I M) : Type 0 where
    -- The tables of the indexer are consistent.
    pub valid : AreValid s.gateway.gsi
    -- The closings of a socket that were broadcast, those that are under way, and the registration
    -- that is left are no more than its registrations.
    pub closed :
        (k : String)
        → broadcasts k s.gateway.calls + pending k s.threads + registered_now k s.gateway.sockets
          ≤ occurrences k s.registered

  advance-IsAccounted :
      (outcome : Outcome) (before : List (Thread I M)) (t : Thread I M) (after : List (Thread I M))
      (s : System P I M)
      → s.threads ≡ before ++ t ∷ after
      → IsAccounted s
      → IsAccounted (advance outcome before t after s)
  unfolding advance
  advance-IsAccounted outcome before t after s e i = record {
    valid = run_thread-AreValid outcome t s.gateway i.valid;
    closed = λ k. omega (
      arith,
      i.closed k,
      ap (pending k) e,
      pending-append k before (t ∷ after),
      pending-append k before ((run_thread outcome t s.gateway).0 ∷ after),
      run_thread-closings k outcome t s.gateway,
      occurrences-append k s.registered (registers t),
    );
  }

  Step-IsAccounted : {s t : System P I M} → Step s t → IsAccounted s → IsAccounted t
  Step-IsAccounted {s} (started t e) i = record {
    valid = i.valid;
    closed = λ k. omega (arith, i.closed k, start-not_shutting k t e);
  }
  Step-IsAccounted {s} (ran outcome before t after e) i =
      advance-IsAccounted outcome before t after s e i
  Step-IsAccounted {s} (changed gsi gsi' e st) i = record {
    valid = Step-IsValid st (rw e at i.valid);
    closed = i.closed;
  }

  -- A gateway that has just been connected.
  abbrev pub quiet : Gateway P I M → System P I M
  quiet g = record { gateway = g; threads = []; registered = [] }

  quiet-IsAccounted :
      (g : Gateway P I M) → AreValid g.gsi → g.sockets ≡ [] → g.calls ≡ [] → IsAccounted (quiet g)
  quiet-IsAccounted g v no_sockets no_calls = record {
    valid = v;
    closed = λ k. ground (arith, no_sockets, no_calls);
  }

  -- If a gateway starts with a valid indexer, no sockets and no calls, then however goroutines of
  -- Handle, closeSocket, handleSocketClosure and closeAllSockets take turns, with calls of the
  -- indexer from elsewhere between them, the indexer stays valid, and for each socket the closings
  -- that were broadcast, those under way and the registration that is left are together no more
  -- than its registrations.
  pub Reach-IsAccounted :
      (g : Gateway P I M) {t : System P I M}
      → AreValid g.gsi
      → g.sockets ≡ []
      → g.calls ≡ []
      → Reach (quiet g) t
      → IsAccounted t
  Reach-IsAccounted g v no_sockets no_calls here = quiet-IsAccounted g v no_sockets no_calls
  Reach-IsAccounted g v no_sockets no_calls (next r st) =
      Step-IsAccounted st (Reach-IsAccounted g v no_sockets no_calls r)
