-- ===== src/Lifecycle/Tests.antt =====
-- Runs of lifecycle.go as in lifecycle_test.go, and the theorems at them.
use eurus.Prelude.{none, some, ◌≡◌, refl, nat_eq}
use eurus.Lifecycle.{World, new, begin, mark_ready, ready_chan, interrupt, end, close}
use eurus.Lifecycle.Runs.{IsSound, Reach, here, next, begun, marked, ended, closing, Reach-IsSound}

program : Unit {0}
unfolding new begin mark_ready ready_chan interrupt end close
program = tt

abbrev running : World
running = (begin new).0

abbrev restarted : World
restarted = (begin (end (mark_ready running))).0

second_begin : (begin running).1 ≡ none
unfolding program
second_begin = refl

third_begin : (begin (end running)).1 ≡ some 3
unfolding program
third_begin = refl

history : Reach new (close (mark_ready restarted)).0
history = next (next (next (next (next (next here begun) marked) ended) begun) marked) closing

Reach-IsSound_example : IsSound (close (mark_ready restarted)).0
Reach-IsSound_example = Reach-IsSound history
