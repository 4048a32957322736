-- ===== src/Nats/Dispatch/Order.antt =====
-- The dispatcher over time: one worker for each active socket, bounded queues, and works that are
-- done one at a time in the order in which they came.
use eurus.Prelude.{
  ℕ, ◌≤◌, String, List, [], ◌∷◌, ◌++◌, Option, none, some, Bool, true, false, ◌≡◌, ◌==◌, string_eq,
  leb, if◌then◌else◌, length, length-append, lookup, Distinct, lookup-insert, lookup-delete,
  Distinct-insert, Distinct-delete, refl, arith, append-nil, append_assoc,
}
use text.Mathlib.TextEquality.{eq_iff}
use eurus.Nats.Dispatch.{
  Dispatcher, new_dispatcher, queue_at, dispatch, take_work, run_turn, run_done, Step, Reach,
  dispatched, turned, done, here, next,
}

abbrev pub is_active : {A : Type 0} → Option A → Bool
is_active none = false
is_active (some a) = true

module _ {W : Type 0} where
  -- The works of one socket.
  abbrev pub of_socket : String → List (String × W) → List W
  of_socket k [] = []
  of_socket k ((j, w) ∷ l) = let rest = of_socket k l in if j == k then w ∷ rest else rest

  pub of_socket-append :
      (k : String) (l m : List (String × W)) → of_socket k (l ++ m) ≡ of_socket k l ++ of_socket k m
  of_socket-append k [] m = refl
  of_socket-append k ((j, w) ∷ l) m = ground (arith, of_socket-append k l m)

  pub of_socket-snoc :
      (k j : String) (w : W) (l : List (String × W))
      → of_socket k (l ++ (j, w) ∷ []) ≡ (if j == k then of_socket k l ++ w ∷ [] else of_socket k l)
  of_socket-snoc k j w l =
      ground (arith, of_socket-append k l ((j, w) ∷ []), append-nil (of_socket k l))

  -- The work that the worker of the socket is busy with.
  abbrev pub current : Option (Option W) → List W
  current none = []
  current (some none) = []
  current (some (some w)) = w ∷ []

  pub record IsOrdered (d : Dispatcher W) : Type 0 where
    pub queues : Distinct d.queues
    pub workers : Distinct d.workers
    pub active : (k : String) → is_active (lookup k d.queues) ≡ is_active (lookup k d.workers)
    pub bounded : (k : String) → length (queue_at k d.queues) ≤ d.queue_size
    pub in_order :
        (k : String) → of_socket k d.accepted ≡ of_socket k d.started ++ queue_at k d.queues
    pub one_at_a_time :
        (k : String)
        → of_socket k d.started ≡ of_socket k d.finished ++ current (lookup k d.workers)

  module _ (size : ℕ) where
    new_dispatcher-IsOrdered : IsOrdered (new_dispatcher size)
    unfolding new_dispatcher
    new_dispatcher-IsOrdered = record {
      queues = tt;
      workers = tt;
      active = λ k. refl;
      bounded = λ k. omega arith;
      in_order = λ k. refl;
      one_at_a_time = λ k. refl;
    }

  dispatch-IsOrdered :
      (j : String) (w : W) (d : Dispatcher W) → IsOrdered d → IsOrdered (dispatch j w d).0
  unfolding dispatch
  dispatch-IsOrdered j w d i = record {
    queues =
        ground
          (arith, i.queues, Distinct-insert j (queue_at j d.queues ++ w ∷ []) d.queues i.queues);
    workers = ground (arith, i.workers, i.active j);
    active = λ k.
        ground (
          arith,
          i.active k,
          eq_iff j k,
          lookup-insert j k (queue_at j d.queues ++ w ∷ []) d.queues,
        );
    bounded = λ k. ground (
      arith,
      i.bounded k,
      eq_iff j k,
      lookup-insert j k (queue_at j d.queues ++ w ∷ []) d.queues,
      length-append (queue_at j d.queues) (w ∷ []),
    );
    in_order = λ k. ground (
      arith,
      i.in_order k,
      eq_iff j k,
      lookup-insert j k (queue_at j d.queues ++ w ∷ []) d.queues,
      of_socket-snoc k j w d.accepted,
      append_assoc (of_socket k d.started) (queue_at k d.queues) (w ∷ []),
    );
    one_at_a_time = λ k. ground (arith, i.one_at_a_time k, i.active k, eq_iff j k);
  }

  take_work-IsOrdered :
      (j : String) (queue : List W) (d : Dispatcher W)
      → IsOrdered d
      → queue_at j d.queues ≡ queue
      → lookup j d.workers ≡ some none
      → IsOrdered (take_work j queue d)
  take_work-IsOrdered j [] d i e at_head = record {
    queues = Distinct-delete j d.queues i.queues;
    workers = Distinct-delete j d.workers i.workers;
    active =
        λ k. ground (arith, i.active k, lookup-delete j k d.queues, lookup-delete j k d.workers);
    bounded = λ k. ground (arith, i.bounded k, lookup-delete j k d.queues);
    in_order = λ k. ground (arith, i.in_order k, eq_iff j k, e, lookup-delete j k d.queues);
    one_at_a_time =
        λ k. ground (arith, i.one_at_a_time k, eq_iff j k, at_head, lookup-delete j k d.workers);
  }
  take_work-IsOrdered j (w ∷ queue) d i e at_head = record {
    queues = Distinct-insert j queue d.queues i.queues;
    workers = Distinct-insert j (some w) d.workers i.workers;
    active = λ k.
        ground (
          arith,
          i.active k,
          lookup-insert j k queue d.queues,
          lookup-insert j k (some w) d.workers,
        );
    bounded = λ k. ground (arith, i.bounded k, i.bounded j, e, lookup-insert j k queue d.queues);
    in_order = λ k. ground (
      arith,
      i.in_order k,
      eq_iff j k,
      e,
      lookup-insert j k queue d.queues,
      of_socket-snoc k j w d.started,
      append_assoc (of_socket k d.started) (w ∷ []) queue,
    );
    one_at_a_time = λ k. ground (
      arith,
      i.one_at_a_time k,
      eq_iff j k,
      at_head,
      append-nil (of_socket k d.finished),
      lookup-insert j k (some w) d.workers,
      of_socket-snoc k j w d.started,
    );
  }

  run_done-IsOrdered :
      (j : String) (w : W) (d : Dispatcher W)
      → IsOrdered d
      → lookup j d.workers ≡ some (some w)
      → IsOrdered (run_done j w d)
  unfolding run_done
  run_done-IsOrdered j w d i busy = record {
    queues = i.queues;
    workers = Distinct-insert j none d.workers i.workers;
    active = λ k. ground (arith, i.active k, eq_iff j k, busy, lookup-insert j k none d.workers);
    bounded = i.bounded;
    in_order = i.in_order;
    one_at_a_time = λ k. ground (
      arith,
      i.one_at_a_time k,
      eq_iff j k,
      busy,
      lookup-insert j k none d.workers,
      of_socket-snoc k j w d.finished,
      append-nil (of_socket k d.finished ++ w ∷ []),
    );
  }

  Step-IsOrdered : {d u : Dispatcher W} → Step d u → IsOrdered d → IsOrdered u
  unfolding run_turn
  Step-IsOrdered {d} (dispatched j w) i = dispatch-IsOrdered j w d i
  Step-IsOrdered {d} (turned j at_head) i =
      take_work-IsOrdered j (queue_at j d.queues) d i refl at_head
  Step-IsOrdered {d} (done j w busy) i = run_done-IsOrdered j w d i busy

  -- Whatever the interleaving of dispatches and workers, a socket has a worker exactly when it has
  -- a queue, and one at most; no queue is longer than the limit; and the works of a socket are
  -- started in the order in which they were accepted, none lost, each only when the one before is
  -- done.
  pub Reach-IsOrdered : (size : ℕ) {d : Dispatcher W} → Reach (new_dispatcher size) d → IsOrdered d
  Reach-IsOrdered size here = new_dispatcher-IsOrdered size
  Reach-IsOrdered size (next r st) = Step-IsOrdered st (Reach-IsOrdered size r)

  -- When no worker is left, which is what wait blocks for, every accepted work is done, in order.
  pub wait_lem :
      (size : ℕ) {d : Dispatcher W}
      → Reach (new_dispatcher size) d
      → d.workers ≡ []
      → (k : String) → of_socket k d.accepted ≡ of_socket k d.finished
  wait_lem size {d} r idle k =
      let i = Reach-IsOrdered size r in
      ground (
        arith,
        idle,
        i.active k,
        i.in_order k,
        i.one_at_a_time k,
        append-nil (of_socket k d.started),
        append-nil (of_socket k d.finished),
      )

  -- A dispatch is refused exactly when the queue of the socket is full, and then it only reports
  -- the overflow; otherwise the work is the last one accepted for the socket.
  pub dispatch_refuses :
      (j : String) (w : W) (d : Dispatcher W)
      → let full = leb d.queue_size (length (queue_at j d.queues)) in
        (((dispatch j w d).1 ≡ true)
          → of_socket j (dispatch j w d).0.accepted ≡ of_socket j d.accepted ++ w ∷ [])
        × ((dispatch j w d).1 ≡ (if full then false else true))
        × (((dispatch j w d).1 ≡ false)
            → (dispatch j w d).0 ≡ record d { overflowed = d.overflowed ++ j ∷ [] })
  unfolding dispatch
  dispatch_refuses j w d = (
    (λ e. ground (arith, of_socket-snoc j j w d.accepted, eq_iff j j)),
    ground arith,
    (λ e. ground arith),
  )
