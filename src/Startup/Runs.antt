-- ===== src/Startup/Runs.antt =====
-- The lifecycle and the error over a whole run.
use eurus.Prelude.{ℕ, String, List, Option, none, some, Bool, true, false, ◌≡◌, ◌≢◌, arith}
use eurus.Lifecycle.{World, begin, mark_ready, interrupt, end}
use eurus.Lifecycle.Runs.{IsSound, Step-IsSound, marked, interrupted, ended}
use eurus.Startup.{StartError, Answers, subscribe_all, group_error, or_else, announced, serve}

module _ {E : Type 0} (answers : Answers E) (names : List String) where
  -- Every stream was subscribed, and the announcement sent.
  abbrev pub has_started : Bool
  has_started = elim (or_else (subscribe_all answers.subscribe names) (announced answers)) [
    | none ↦ true
    | some e ↦ false
  ]

  -- A stream that cannot be subscribed, else the announcement, else the group.
  abbrev pub first_error : Option (StartError E)
  first_error =
      or_else (subscribe_all answers.subscribe names)
        (or_else (announced answers) (group_error answers.group))

  -- The run of the lifecycle.
  abbrev pub after_run : World → World
  after_run w = elim has_started [ true ↦ interrupt (mark_ready w) | false ↦ interrupt w ]

  pub serve_lem : (w : World) → serve answers names w ≡ (after_run w, first_error)
  unfolding serve
  serve_lem w = ground arith

  pub after_run-IsSound : (w : World) → IsSound w → IsSound (end (after_run w))
  after_run-IsSound w i = Step-IsSound ended (by_start has_started)
    where
      by_start :
          (started : Bool)
          → IsSound (elim started [ true ↦ interrupt (mark_ready w) | false ↦ interrupt w ])
      by_start true = Step-IsSound interrupted (Step-IsSound marked i)
      by_start false = Step-IsSound interrupted i

  -- Whoever asked for readiness before learns of it exactly when the run has started.
  pub after_run_ready :
      (w : World) (ch : ℕ)
      → IsSound w
      → w.ready ≡ some ch
      → w.is_closed ch ≡ false
      → (end (after_run w)).is_closed ch ≡ has_started
  unfolding mark_ready interrupt end
  after_run_ready w ch i e opened = ground arith

  pub after_run_idle : (w : World) → (begin (end (after_run w))).1 ≢ none
  unfolding begin end
  after_run_idle w = ground arith
