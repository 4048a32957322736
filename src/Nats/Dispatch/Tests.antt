-- ===== src/Nats/Dispatch/Tests.antt =====
-- Runs of the dispatcher as in dispatch_test.go, and the theorems at them. A work is a number.
use eurus.Prelude.{ℕ, [], ◌∷◌, ◌≡◌, refl, string_eq}
use eurus.Nats.Dispatch.{
  Dispatcher, new_dispatcher, dispatch, run_turn, run_done, Reach, dispatched, turned, done, here,
  next,
}
use eurus.Nats.Dispatch.Order.{IsOrdered, Reach-IsOrdered}

program : Unit {0}
unfolding new_dispatcher dispatch run_turn run_done
program = tt

abbrev two : Dispatcher ℕ
two = (dispatch "k1" 8 (dispatch "k1" 7 (new_dispatcher 2)).0).0

abbrev refused : Dispatcher ℕ
refused = (dispatch "k1" 9 two).0

abbrev busy : Dispatcher ℕ
busy = run_turn "k1" refused

abbrev idle : Dispatcher ℕ
idle = run_turn "k1" (run_done "k1" 8 (run_turn "k1" (run_done "k1" 7 busy)))

overflow : refused.overflowed ≡ "k1" ∷ []
unfolding program
overflow = refl

busy_history : Reach (new_dispatcher 2) busy
unfolding program
busy_history =
    next (next (next (next here (dispatched "k1" 7)) (dispatched "k1" 8)) (dispatched "k1" 9))
      (turned "k1" refl)

idle_history : Reach (new_dispatcher 2) idle
unfolding program
idle_history =
    next (next (next (next busy_history (done "k1" 7 refl)) (turned "k1" refl)) (done "k1" 8 refl))
      (turned "k1" refl)

Reach-IsOrdered_example : IsOrdered busy
Reach-IsOrdered_example = Reach-IsOrdered 2 busy_history
