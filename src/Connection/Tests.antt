-- ===== src/Connection/Tests.antt =====
-- Runs of a connection as in connection_test.go, and the theorems at them. A message is a number.
use eurus.Prelude.{ℕ, [], ◌∷◌, ◌≡◌, refl, arith}
use eurus.Gateway.{going_away}
use eurus.Connection.{
  Trace, Reach, put, get, drop, shut, here, next, handle_close, write, opened, new_connection,
  mailbox_capacity, close, pos, negsuc,
}
use eurus.Connection.Mailbox.{IsOrderly, Reach-IsOrderly}

program : Unit {0}
unfolding mailbox_capacity new_connection handle_close write close opened
program = tt

abbrev fresh : Trace ℕ
fresh = opened "g1" "k1" (pos 2)

abbrev loaded : Trace ℕ
loaded = record fresh {
  connection = record fresh.connection { mailbox = 7 ∷ 8 ∷ [] };
  accepted = 7 ∷ 8 ∷ [];
}

abbrev drained : Trace ℕ
drained = record loaded {
  connection = record fresh.connection { mailbox = 8 ∷ [] };
  received = 7 ∷ [];
}

abbrev ended : Trace ℕ
ended = record drained {
  connection = handle_close going_away "Client disconnected" drained.connection;
  dropped = 9 ∷ [];
}

negative_size : mailbox_capacity (negsuc 4) ≡ 0
unfolding program
negative_size = refl

history : Reach fresh ended
unfolding program
history =
    next
      (next
        (next (next (next here (put 7 (omega arith))) (put 8 (omega arith))) (get 7 (8 ∷ []) refl))
        (shut going_away "Client disconnected"))
      (drop 9 refl)

Reach-IsOrderly_example : IsOrderly ended
Reach-IsOrderly_example = Reach-IsOrderly "g1" "k1" (pos 2) history
