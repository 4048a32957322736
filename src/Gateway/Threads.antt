-- ===== src/Gateway/Threads.antt =====
-- Handle, closeSocket, handleSocketClosure and closeAllSockets of gateway.go as goroutines: what each does between two of its locks is one
-- step, and the steps of several take turns. The gateway is connected; a call that finds no indexer
-- does nothing.
use eurus.Prelude.{
  ℕ, String, List, [], ◌∷◌, ◌++◌, Option, none, some, Bool, true, false, ◌≡◌, ◌||◌, ◌==◌, string_eq,
  if◌then◌else◌, Map, lookup, insert, delete,
}
use eurus.Indexer.{State, unset_service}
use eurus.Indexer.Sockets.{map_socket}
use eurus.Indexer.Histories as Indexer
use eurus.Gateway.{
  Gateway, Status, going_away, policy_violation, Outcome, delivered, slow_consumer, failed, Context,
  socket_close, closed_socket, message_service, unmap, is_error, emit,
}

-- Where a goroutine stands: `registering` to `unsetting` are Handle, once the path is resolved to a
-- service; `closing` to `unmapping` are closeSocket, which Handle may end in; `hearing` and `hanging_up`
-- are handleSocketClosure, which ends in `unmapping` as well; `sweeping` and `swept` are closeAllSockets.
pub data Thread (I M : Type 0) : Type 0 where
  registering mapping : String → Context I M → Thread I M
  sending unsetting : String → Context I M → String → Bool → Thread I M
  closing : String → Status → String → Thread I M
  shutting : String → ℕ → Status → String → Thread I M
  unmapping : String → Thread I M
  hearing : String → Status → String → Thread I M
  hanging_up : String → ℕ → Status → String → Thread I M
  sweeping : Status → String → Thread I M
  swept : Map String ℕ → Status → String → Thread I M
  finished : Thread I M

abbrev pub after_send : {I M : Type 0} → Outcome → String → Context I M → String → Bool → Thread I M
after_send delivered name ctx service_id is_new = finished
after_send slow_consumer name ctx service_id is_new =
    closing ctx.socket_id policy_violation "Slow consumer"
after_send failed name ctx service_id is_new = unsetting name ctx service_id is_new

unfoldable pub unset_at : {P : Type 0} → String → Option (State P) → Option (State P)
unfolding unset_service
unset_at service_id none = none
unset_at service_id (some gsi) = some (unset_service service_id gsi)

abbrev pub is_start : {I M : Type 0} → Thread I M → Bool
is_start (registering name ctx) = true
is_start (closing socket_id status reason) = true
is_start (hearing socket_id status reason) = true
is_start (sweeping status reason) = true
is_start t = false

abbrev pub registers : {I M : Type 0} → Thread I M → List String
registers (registering name ctx) = ctx.socket_id ∷ []
registers t = []

module _ {P I M : Type 0} where
  unfoldable pub run_mapping :
      String → Context I M → Option (State P) → Gateway P I M → Thread I M × Gateway P I M
  unfolding map_socket
  run_mapping name ctx none g = (finished, g)
  run_mapping name ctx (some gsi) g =
      let (gsi', service_id, is_new, err) = map_socket name ctx.socket_id gsi in
      (
        if is_error err || service_id == ""
            then closing ctx.socket_id going_away "Service unreachable"
            else sending name ctx service_id is_new,
        record g { gsi = some gsi' },
      )

  abbrev pub run_closing :
      String → Status → String → Option ℕ → Gateway P I M → Thread I M × Gateway P I M
  run_closing socket_id status reason none g = (finished, g)
  run_closing socket_id status reason (some socket) g =
      (shutting socket_id socket status reason, record g { sockets = delete socket_id g.sockets })

  abbrev pub run_hearing :
      String → Status → String → Option ℕ → Gateway P I M → Thread I M × Gateway P I M
  run_hearing socket_id status reason none g = (finished, g)
  run_hearing socket_id status reason (some socket) g =
      (hanging_up socket_id socket status reason, record g { sockets = delete socket_id g.sockets })

  -- The next socket of closeAllSockets is closed and unmapped.
  abbrev pub run_swept : Map String ℕ → Status → String → Gateway P I M → Thread I M × Gateway P I M
  run_swept [] status reason g = (finished, g)
  run_swept ((socket_id, socket) ∷ m) status reason g = (
    swept m status reason,
    record g {
      calls = g.calls ++ socket_close socket status reason ∷ [];
      gsi = unmap socket_id g.gsi;
    },
  )

  -- One step of a goroutine; `outcome` is what MessageService returns, if it is called.
  unfoldable pub run_thread : Outcome → Thread I M → Gateway P I M → Thread I M × Gateway P I M
  unfolding run_mapping unset_at
  run_thread outcome (registering name ctx) g =
      (mapping name ctx, record g { sockets = insert ctx.socket_id ctx.socket g.sockets })
  run_thread outcome (mapping name ctx) g = run_mapping name ctx g.gsi g
  run_thread outcome (sending name ctx service_id is_new) g = (
    after_send outcome name ctx service_id is_new,
    emit (message_service service_id g.id ctx.socket_id ctx.info ctx.message outcome) g,
  )
  run_thread outcome (unsetting name ctx service_id is_new) g = (
    if is_new then mapping name ctx else closing ctx.socket_id going_away "Service unreachable",
    record g { gsi = unset_at service_id g.gsi },
  )
  run_thread outcome (closing socket_id status reason) g =
      run_closing socket_id status reason (lookup socket_id g.sockets) g
  run_thread outcome (shutting socket_id socket status reason) g = (
    unmapping socket_id,
    record g {
      calls =
          g.calls
          ++ (socket_close socket status reason ∷ closed_socket socket_id status reason ∷ []);
    },
  )
  run_thread outcome (unmapping socket_id) g = (finished, record g { gsi = unmap socket_id g.gsi })
  run_thread outcome (hearing socket_id status reason) g =
      run_hearing socket_id status reason (lookup socket_id g.sockets) g
  run_thread outcome (hanging_up socket_id socket status reason) g =
      (unmapping socket_id, emit (socket_close socket status reason) g)
  run_thread outcome (sweeping status reason) g =
      (swept g.sockets status reason, record g { sockets = [] })
  run_thread outcome (swept m status reason) g = run_swept m status reason g
  run_thread outcome finished g = (finished, g)

-- `registered` are the sockets in the order in which they were registered.
pub record System (P I M : Type 0) : Type 0 where
  pub gateway : Gateway P I M
  pub threads : List (Thread I M)
  pub registered : List String

module _ {P I M : Type 0} where
  unfoldable pub advance :
      Outcome → List (Thread I M) → Thread I M → List (Thread I M) → System P I M → System P I M
  unfolding run_thread
  advance outcome before t after s =
      let (t', g) = run_thread outcome t s.gateway in
      record {
        gateway = g;
        threads = before ++ t' ∷ after;
        registered = s.registered ++ registers t;
      }

  -- A goroutine starts, one of them goes on, or the indexer changes by a call from elsewhere.
  pub data Step (s : System P I M) : System P I M → Type 0 where
    started : (t : Thread I M) → is_start t ≡ true → Step s (record s { threads = t ∷ s.threads })
    ran :
        (outcome : Outcome) (before : List (Thread I M)) (t : Thread I M)
        (after : List (Thread I M))
        → s.threads ≡ before ++ t ∷ after
        → Step s (advance outcome before t after s)
    changed :
        (gsi gsi' : State P)
        → s.gateway.gsi ≡ some gsi
        → Indexer.Step gsi gsi'
        → Step s (record s { gateway = record s.gateway { gsi = some gsi' } })

  pub data Reach (s : System P I M) : System P I M → Type 0 where
    here : Reach s s
    next : {t u : System P I M} → Reach s t → Step t u → Reach s u

  -- A goroutine that runs to its end with no other between its steps.
  pub data Alone : Thread I M → Gateway P I M → Gateway P I M → Type 0 where
    ended : {g : Gateway P I M} → Alone finished g g
    went :
        {t : Thread I M} {g h : Gateway P I M} (outcome : Outcome)
        → Alone (run_thread outcome t g).0 (run_thread outcome t g).1 h
        → Alone t g h
