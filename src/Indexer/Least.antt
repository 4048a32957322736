-- ===== src/Indexer/Least.antt =====
-- The choice of MapSocket, and the maps that it writes.
use eurus.Prelude.{
  ℕ, String, List, [], ◌∷◌, none, some, true, false, ◌≡◌, ◌≤◌, refl, arith, ◌==◌, ◌&&◌, ◌⊎◌, inl,
  inr, Option-cases, length, is_empty, nat_eq, string_eq, nat_eq_iff, if◌then◌else◌, contains, Map,
  lookup, insert, lookup-insert, Distinct, Distinct-insert,
}
use text.Mathlib.TextEquality.{eq_iff}
use eurus.Descriptor.{Ref, Heap}
use eurus.Indexer.Sockets.{better, least, pin, add_pin}

module _ {P : Type 0} (h : Heap P) where
  abbrev pub load : Ref → ℕ
  load p = length (h p).socket_ids

  -- The loop returns one of the candidates, and none of them has fewer sockets.
  pub record IsLeast (t : Ref) (ps : List Ref) (q : Ref) : Type 0 where
    pub candidate : (q ≡ t) ⊎ (contains q ps ≡ true)
    pub below_start : load q ≤ load t
    pub below : (p : Ref) → contains p ps ≡ true → load q ≤ load p

  pub least_lem :
      (t : Ref) (ps : List Ref) → (q : Ref) × (least h (some t) ps ≡ some q) × IsLeast t ps q
  least_lem t [] =
      (t, refl, record { candidate = inl refl; below_start = omega arith; below = λ p c. cc })
  least_lem t (x ∷ ps) =
      let (q, found, i) = least_lem (better h (some t) x) ps in
      (
        q,
        found,
        record {
          candidate = ground (arith, i.candidate, nat_eq_iff x q);
          below_start = ground (arith, i.below_start);
          below = λ p c. ground (arith, i.below_start, i.below p, nat_eq_iff x p);
        },
      )

  -- Of a slice that is not empty the loop finds a least loaded instance.
  pub least-of-slice :
      (ps : List Ref)
      → is_empty ps ≡ false
      → (q : Ref) × (least h none ps ≡ some q)
        × (contains q ps ≡ true)
        × ((p : Ref) → contains p ps ≡ true → load q ≤ load p)
  least-of-slice [] e = cc
  least-of-slice (x ∷ ps) e =
      let (q, found, i) = least_lem x ps in
      (
        q,
        found,
        ground (arith, i.candidate, nat_eq_iff x q),
        λ p c. ground (arith, i.below_start, i.below p, nat_eq_iff x p),
      )

module _ (name socket id : String) (m : Map String (Map String String)) where
  pub pin-add_pin :
      (n k : String)
      → pin n k (add_pin name socket id m)
        ≡ (if name == n && socket == k then some id else pin n k m)
  pin-add_pin n k = elim (Option-cases (lookup socket m)) [
    | inl unmapped ↦
        ground (arith, unmapped, eq_iff socket k, lookup-insert socket k (insert name id []) m)
    | inr (services, mapped) ↦ ground (
      arith,
      mapped,
      eq_iff socket k,
      lookup-insert socket k (insert name id services) m,
      lookup-insert name n id services,
    )
  ]

  pub Distinct-add_pin : Distinct m → Distinct (add_pin name socket id m)
  Distinct-add_pin d = Distinct-insert socket _ m d
