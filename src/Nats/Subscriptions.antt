-- ===== src/Nats/Subscriptions.antt =====
-- transport/natstransport/nats-transport.go: subscriptions, and the size of the dispatch queues. A
-- subscription of NATS is a number; `E` is the type of its errors, which are arguments.
use eurus.Prelude.{
  ℕ, zero, suc, ◌+◌, ◌<◌, List, [], ◌∷◌, ◌++◌, Option, none, some, false, ◌≡◌, refl, arith, ◌⊎◌,
  inl, inr, erase, contains, nat_eq, nat_eq_iff,
}
use eurus.Connection.{ℤ, pos, negsuc}

abbrev pub default_dispatch_queue_size : ℕ
default_dispatch_queue_size = 128

-- `DispatchQueueSize` is an int, which may be below zero.
unfoldable pub dispatch_queue_size : ℤ → ℕ
dispatch_queue_size (pos (suc n)) = suc n
dispatch_queue_size (pos zero) = default_dispatch_queue_size
dispatch_queue_size (negsuc n) = default_dispatch_queue_size

-- A dispatch queue always has room for a message.
pub dispatch_queue_size_positive : (n : ℤ) → 0 < dispatch_queue_size n
unfolding dispatch_queue_size
dispatch_queue_size_positive (pos (suc n)) = omega arith
dispatch_queue_size_positive (pos zero) = omega arith
dispatch_queue_size_positive (negsuc n) = omega arith

-- The subscriptions of the connection, and the number of the next one.
pub record Subscriptions : Type 0 where
  pub active : List ℕ
  pub next : ℕ

abbrev pub unsubscribe : ℕ → Subscriptions → Subscriptions
unsubscribe sub c = record c { active = erase sub c.active }

-- `subscribed` and `flushed` are the errors of Subscribe and of FlushWithContext. The result is the
-- error, or the subscription.
unfoldable pub subscribe_async :
    {E : Type 0} → Option E → Option E → Subscriptions → Subscriptions × (E ⊎ ℕ)
subscribe_async (some e) flushed c = (c, inl e)
subscribe_async none (some e) c =
    (unsubscribe c.next (record { active = c.active ++ c.next ∷ []; next = c.next + 1 }), inl e)
subscribe_async none none c =
    (record { active = c.active ++ c.next ∷ []; next = c.next + 1 }, inr c.next)

erase-snoc : (n : ℕ) (l : List ℕ) → contains n l ≡ false → erase n (l ++ n ∷ []) ≡ l
erase-snoc n [] absent = ground (arith, nat_eq_iff n n)
erase-snoc n (x ∷ l) absent = ground (arith, erase-snoc n l, nat_eq_iff x n)

-- Every subscription has a number below the next one.
abbrev pub AreBelow : ℕ → List ℕ → Type 0
AreBelow n [] = Unit
AreBelow n (x ∷ l) = (x < n) × AreBelow n l

AreBelow-contains : (n : ℕ) (l : List ℕ) → AreBelow n l → contains n l ≡ false
AreBelow-contains n [] b = refl
AreBelow-contains n (x ∷ l) b = ground (arith, b.0, AreBelow-contains n l b.1, nat_eq_iff x n)

-- With an error no subscription is left that was not there; without one there is one more, and when
-- it is served to its end, no more than before.
abbrev pub IsBalanced : {E : Type 0} → Subscriptions → Subscriptions × (E ⊎ ℕ) → Type 0
IsBalanced c (c', inl e) = c'.active ≡ c.active
IsBalanced c (c', inr sub) =
    (c'.active ≡ c.active ++ sub ∷ []) × ((unsubscribe sub c').active ≡ c.active)

-- A call of subscribeAsync leaves a subscription exactly if it returns one, and serving that to its
-- end takes it away again.
pub subscribe_async-IsBalanced :
    {E : Type 0} (subscribed flushed : Option E) (c : Subscriptions)
    → AreBelow c.next c.active
    → IsBalanced c (subscribe_async subscribed flushed c)
unfolding subscribe_async
subscribe_async-IsBalanced (some e) flushed c b = refl
subscribe_async-IsBalanced none (some e) c b =
    erase-snoc c.next c.active (AreBelow-contains c.next c.active b)
subscribe_async-IsBalanced none none c b =
    (refl, erase-snoc c.next c.active (AreBelow-contains c.next c.active b))
