-- ===== src/Gateway/Counts.antt =====
-- How often the closings of a socket of gateway.go are broadcast, under way and possible.
use eurus.Prelude.{
  ℕ, ◌+◌, String, List, [], ◌∷◌, ◌++◌, none, some, Bool, ◌≡◌, arith, ◌==◌, string_eq, if◌then◌else◌,
  Map, lookup,
}
use eurus.Gateway.{Call, closed_socket}
use eurus.Gateway.Threads.{Thread, shutting}

abbrev pub one_if : Bool → ℕ
one_if b = if b then 1 else 0

-- How often a socket occurs, is broadcast as closed, is about to be, and is registered.
abbrev pub occurrences : String → List String → ℕ
occurrences k [] = 0
occurrences k (x ∷ xs) = one_if (x == k) + occurrences k xs

abbrev pub registered_now : String → Map String ℕ → ℕ
registered_now k m = elim (lookup k m) [ none ↦ 0 | some socket ↦ 1 ]

module _ {I M : Type 0} (k : String) where
  abbrev pub is_broadcast : Call I M → ℕ
  is_broadcast (closed_socket socket_id status reason) = one_if (socket_id == k)
  is_broadcast c = 0

  abbrev pub broadcasts : List (Call I M) → ℕ
  broadcasts [] = 0
  broadcasts (c ∷ cs) = is_broadcast c + broadcasts cs

  abbrev pub is_shutting : Thread I M → ℕ
  is_shutting (shutting socket_id socket status reason) = one_if (socket_id == k)
  is_shutting t = 0

  abbrev pub pending : List (Thread I M) → ℕ
  pending [] = 0
  pending (t ∷ ts) = is_shutting t + pending ts

  pub broadcasts-append :
      (cs ds : List (Call I M)) → broadcasts (cs ++ ds) ≡ broadcasts cs + broadcasts ds
  broadcasts-append [] ds = omega arith
  broadcasts-append (c ∷ cs) ds = omega (arith, broadcasts-append cs ds)

  pub pending-append : (ts us : List (Thread I M)) → pending (ts ++ us) ≡ pending ts + pending us
  pending-append [] us = omega arith
  pending-append (t ∷ ts) us = omega (arith, pending-append ts us)

pub occurrences-append :
    (k : String) (xs ys : List String)
    → occurrences k (xs ++ ys) ≡ occurrences k xs + occurrences k ys
occurrences-append k [] ys = omega arith
occurrences-append k (x ∷ xs) ys = omega (arith, occurrences-append k xs ys)
