-- ===== src/Lifecycle/Runs.antt =====
-- The runs of lifecycle.go: one at a time, no double close, and each run's own readiness.
use eurus.Prelude.{ℕ, ◌<◌, Option, none, some, Bool, true, false, ◌≡◌, ◌≢◌, refl, arith, nat_eq}
use eurus.Lifecycle.{World, new, begin, mark_ready, ready_chan, interrupt, end, close}

abbrev is_some : Option ℕ → Bool
is_some none = false
is_some (some k) = true

abbrev Below : ℕ → Option ℕ → Type 0
Below n none = Unit {0}
Below n (some k) = k < n

abbrev IsOpen : (ℕ → Bool) → Option ℕ → Type 0
IsOpen closed none = Unit {0}
IsOpen closed (some k) = closed k ≡ false

abbrev Apart : Option ℕ → Option ℕ → Type 0
Apart none r = Unit {0}
Apart (some d) none = Unit {0}
Apart (some d) (some r) = d ≢ r

-- A run has both a context and a channel to wait for; that channel is open while the run lasts,
-- it is not the readiness channel, and no channel was closed twice.
pub record IsSound (w : World) : Type 0 where
  pub together : is_some w.cancel ≡ is_some w.done
  pub cancel_below : Below w.next w.cancel
  pub done_below : Below w.next w.done
  pub ready_below : Below w.next w.ready
  pub done_open : IsOpen w.is_closed w.done
  pub apart : Apart w.done w.ready
  pub no_panic : w.panicked ≡ false

pub data Step (w : World) : World → Type 0 where
  begun : Step w (begin w).0
  marked : Step w (mark_ready w)
  asked : Step w (ready_chan w).0
  interrupted : Step w (interrupt w)
  ended : Step w (end w)
  closing : Step w (close w).0

pub data Reach (w : World) : World → Type 0 where
  here : Reach w w
  next : {u v : World} → Reach w u → Step u v → Reach w v

new-IsSound : IsSound new
unfolding new
new-IsSound = record {
  together = refl;
  cancel_below = tt;
  done_below = tt;
  ready_below = tt;
  done_open = tt;
  apart = tt;
  no_panic = refl;
}

pub Step-IsSound : {w v : World} → Step w v → IsSound w → IsSound v
unfolding begin mark_ready ready_chan interrupt end close
Step-IsSound {w} begun i = ground arith
Step-IsSound {w} marked i = ground arith
Step-IsSound {w} asked i = ground arith
Step-IsSound {w} interrupted i = ground arith
Step-IsSound {w} ended i = ground arith
Step-IsSound {w} closing i = ground arith

-- Whatever the calls and their order, a run has a context exactly when it has a channel to wait
-- for, that channel is open as long as the run lasts, and no channel is closed twice.
pub Reach-IsSound : {w : World} → Reach new w → IsSound w
Reach-IsSound here = new-IsSound
Reach-IsSound (next r st) = Step-IsSound st (Reach-IsSound r)

-- If no run is active, begin starts one; a second begin is refused and changes nothing; after the
-- end of the run it is accepted again, with a context that is not canceled.
pub begin_exclusive :
    (w : World)
    → w.cancel ≡ none
    → let v = (begin w).0 in
      ((begin w).1 ≢ none)
      × ((begin v).0 ≡ v)
      × ((begin v).1 ≡ none)
      × ((begin (end v)).1 ≢ none)
      × ((c : ℕ) → (begin (end v)).1 ≡ some c → (begin (end v)).0.canceled c ≡ false)
unfolding begin end
begin_exclusive w idle = ground arith

-- A channel that Ready made before a run is closed by markReady in the run and not by begin; after
-- the run Ready returns an open channel again.
pub ready_before_begin :
    (w : World) (ch : ℕ)
    → IsSound w
    → w.cancel ≡ none
    → w.ready ≡ none
    → (ready_chan w).1 ≡ some ch
    → let v = (begin (ready_chan w).0).0 in
      (v.is_closed ch ≡ false)
      × ((mark_ready v).is_closed ch ≡ true)
      × ((c : ℕ)
          → (ready_chan (end (mark_ready v))).1 ≡ some c
          → (ready_chan (end (mark_ready v))).0.is_closed c ≡ false)
unfolding ready_chan begin mark_ready end
ready_before_begin w ch i idle absent e = ground arith

-- Close cancels the context of the run and waits for the channel that the end of the run closes;
-- without a run it waits for nothing and changes nothing.
pub close_waits_for_end :
    (w : World)
    → IsSound w
    → ((ctx : ℕ) → w.cancel ≡ some ctx → (close w).0.canceled ctx ≡ true)
      × ((ch : ℕ)
          → (close w).1 ≡ some ch
          → (w.is_closed ch ≡ false)
            × ((close w).0.is_closed ch ≡ false)
            × ((end (close w).0).is_closed ch ≡ true))
      × (w.cancel ≡ none → ((close w).1 ≡ none) × ((close w).0 ≡ w))
unfolding close end
close_waits_for_end w i = ground arith
