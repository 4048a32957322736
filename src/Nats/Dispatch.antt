-- ===== src/Nats/Dispatch.antt =====
-- transport/natstransport/dispatch.go: the queues of the sockets and their workers. `W` is the type
-- of work. A worker is a goroutine of `run`: at the head of its loop, or busy with a work.
pub mod Order
mod Tests
use eurus.Prelude.{
  ℕ, ◌≤◌, String, List, [], ◌∷◌, ◌++◌, Option, none, some, Bool, true, false, ◌≡◌, ◌==◌, string_eq,
  leb, if◌then◌else◌, length, Map, lookup, insert, delete,
}

-- `accepted`, `started` and `finished` are the works that were enqueued, begun and done, and
-- `overflowed` the calls of onOverflow, oldest first.
pub record Dispatcher (W : Type 0) : Type 0 where
  pub queue_size : ℕ
  pub queues : Map String (List W)
  pub workers : Map String (Option W)
  pub accepted : List (String × W)
  pub started : List (String × W)
  pub finished : List (String × W)
  pub overflowed : List String

module _ {W : Type 0} where
  -- d.queues[socketID], nil if there is none
  abbrev pub queue_at : String → Map String (List W) → List W
  queue_at socket_id queues = elim (lookup socket_id queues) [ none ↦ [] | some works ↦ works ]

  unfoldable pub new_dispatcher : ℕ → Dispatcher W
  new_dispatcher size = record {
    queue_size = size;
    queues = [];
    workers = [];
    accepted = [];
    started = [];
    finished = [];
    overflowed = [];
  }

  -- go d.run(socketID), if the socket is not active
  abbrev pub spawn : Option (List W) → String → Map String (Option W) → Map String (Option W)
  spawn none socket_id workers = (socket_id, none) ∷ workers
  spawn (some works) socket_id workers = workers

  unfoldable pub dispatch : String → W → Dispatcher W → Dispatcher W × Bool
  dispatch socket_id work d =
      let queue = queue_at socket_id d.queues in
      if leb d.queue_size (length queue)
      then (record d { overflowed = d.overflowed ++ socket_id ∷ [] }, false)
      else (
        record d {
          queues = insert socket_id (queue ++ work ∷ []) d.queues;
          workers = spawn (lookup socket_id d.queues) socket_id d.workers;
          accepted = d.accepted ++ (socket_id, work) ∷ [];
        },
        true,
      )

  -- What a worker does from the lock to the unlock.
  abbrev pub take_work : String → List W → Dispatcher W → Dispatcher W
  take_work socket_id [] d = record d {
    queues = delete socket_id d.queues;
    workers = delete socket_id d.workers;
  }
  take_work socket_id (work ∷ queue) d = record d {
    queues = insert socket_id queue d.queues;
    workers = insert socket_id (some work) d.workers;
    started = d.started ++ (socket_id, work) ∷ [];
  }

  unfoldable pub run_turn : String → Dispatcher W → Dispatcher W
  run_turn socket_id d = take_work socket_id (queue_at socket_id d.queues) d

  -- work() returns
  unfoldable pub run_done : String → W → Dispatcher W → Dispatcher W
  run_done socket_id work d = record d {
    workers = insert socket_id none d.workers;
    finished = d.finished ++ (socket_id, work) ∷ [];
  }

  pub data Step (d : Dispatcher W) : Dispatcher W → Type 0 where
    dispatched : (socket_id : String) (work : W) → Step d (dispatch socket_id work d).0
    turned :
        (socket_id : String)
        → lookup socket_id d.workers ≡ some none
        → Step d (run_turn socket_id d)
    done :
        (socket_id : String) (work : W)
        → lookup socket_id d.workers ≡ some (some work)
        → Step d (run_done socket_id work d)

  pub data Reach (d : Dispatcher W) : Dispatcher W → Type 0 where
    here : Reach d d
    next : {u v : Dispatcher W} → Reach d u → Step u v → Reach d v
