-- ===== src/Lifecycle.antt =====
-- lifecycle.go: the blocking runs of Gateway.Connect and Service.Listen. Contexts and channels are
-- numbered as they are made; closing a closed channel panics. A method takes effect as one step:
-- what it does after the unlock (cancel, close(done)) concerns only what it took under the lock.
mod Tests
pub mod Runs
use eurus.Prelude.{ℕ, ◌+◌, Option, none, some, Bool, true, false, ◌||◌, ◌==◌, nat_eq, if◌then◌else◌}

pub record Lifecycle : Type 0 where
  pub cancel : Option ℕ
  pub done : Option ℕ
  pub ready : Option ℕ

pub record World : Type 0 where
  pub lifecycle : Lifecycle
  pub open lifecycle use *
  pub next : ℕ
  pub canceled : ℕ → Bool
  pub is_closed : ℕ → Bool
  pub panicked : Bool

abbrev pub raise : ℕ → (ℕ → Bool) → ℕ → Bool
raise n f k = if n == k then true else f k

abbrev pub lower : ℕ → (ℕ → Bool) → ℕ → Bool
lower n f k = if n == k then false else f k

-- close(ch)
abbrev pub close_chan : ℕ → World → World
close_chan ch w = record w {
  panicked = w.panicked || w.is_closed ch;
  is_closed = raise ch w.is_closed;
}

-- make(chan struct{}), context.WithCancel: a number that is new.
abbrev pub fresh : World → World
fresh w = record w {
  next = w.next + 1;
  canceled = lower w.next w.canceled;
  is_closed = lower w.next w.is_closed;
}

abbrev pub set_ready : World → World
set_ready w = elim w.ready [
  | some _ ↦ w
  | none ↦ record (fresh w) { lifecycle = record w.lifecycle { ready = some w.next } }
]

-- The context of the run, or `none` for alreadyErr.
unfoldable pub begin : World → World × Option ℕ
begin w = elim w.cancel [
  | some _ ↦ (w, none)
  | none ↦
      let ctx = w.next in
      let w' = fresh (fresh w) in
      (
        set_ready (record w' {
          lifecycle = record w.lifecycle { cancel = some ctx; done = some (ctx + 1) };
        }),
        some ctx,
      )
]

abbrev pub close_ready : Option ℕ → World → World
close_ready none w = w
close_ready (some ch) w = if w.is_closed ch then w else close_chan ch w

unfoldable pub mark_ready : World → World
mark_ready w = let w' = set_ready w in close_ready w'.ready w'

unfoldable pub ready_chan : World → World × Option ℕ
ready_chan w = let w' = set_ready w in (w', w'.ready)

abbrev pub cancel_run : Option ℕ → World → World
cancel_run none w = w
cancel_run (some ctx) w = record w { canceled = raise ctx w.canceled }

unfoldable pub interrupt : World → World
interrupt w = cancel_run w.cancel w

abbrev pub close_done : Option ℕ → World → World
close_done none w = w
close_done (some ch) w = close_chan ch w

unfoldable pub end : World → World
end w = close_done w.done (
    cancel_run w.cancel
      (record w { lifecycle = record { cancel = none; done = none; ready = none } }))

-- The run is canceled at once, and the caller waits for the channel that is returned, if any.
unfoldable pub close : World → World × Option ℕ
close w = (cancel_run w.cancel w, w.done)

unfoldable pub new : World
new = record {
  lifecycle = record { cancel = none; done = none; ready = none };
  next = 0;
  canceled = λ n. false;
  is_closed = λ n. false;
  panicked = false;
}
