-- ===== src/Indexer/Instances.antt =====
-- The slices of instances of gateway-service-indexer.go: lookup and removal by id.
use eurus.Prelude.{
  length, suc, String, List, [], ◌∷◌, ◌++◌, none, some, true, ◌≡◌, refl, ◌≢◌, arith, ◌==◌, ◌&&◌,
  not, nat_eq, string_eq, nat_eq_iff, if◌then◌else◌, contains,
}
use text.Mathlib.TextEquality.{eq_iff}
use eurus.Descriptor.{Ref, Heap}
use eurus.Indexer.{find_id, delete_id}

module _ {P : Type 0} where
  -- No two instances of a slice share an id.
  abbrev pub DistinctIds : Heap P → List Ref → Type 0
  DistinctIds h [] = Unit {0}
  DistinctIds h (p ∷ ps) = (find_id h (h p).id ps ≡ none) × DistinctIds h ps

  module _ (h : Heap P) where
    pub find_id_sound :
        (i : String) (ps : List Ref) (p : Ref)
        → find_id h i ps ≡ some p
        → (contains p ps ≡ true) × ((h p).id ≡ i)
    find_id_sound i [] p e = ground arith
    find_id_sound i (q ∷ ps) p e =
        ground (arith, eq_iff (h q).id i, nat_eq_iff q p, find_id_sound i ps p)

    pub find_id-none :
        (i : String) (ps : List Ref) (p : Ref)
        → find_id h i ps ≡ none
        → contains p ps ≡ true
        → (h p).id ≢ i
    find_id-none i [] p e c = ground arith
    find_id-none i (q ∷ ps) p e c =
        ground (arith, eq_iff (h q).id i, nat_eq_iff q p, find_id-none i ps p)

    pub find_id_self :
        (ps : List Ref) (p : Ref)
        → DistinctIds h ps
        → contains p ps ≡ true
        → find_id h (h p).id ps ≡ some p
    find_id_self [] p d c = ground arith
    find_id_self (q ∷ ps) p d c =
        ground (arith, eq_iff (h q).id (h p).id, nat_eq_iff q p, find_id_self ps p d.1)

    pub delete_id_absent :
        (i : String) (ps : List Ref) → find_id h i ps ≡ none → delete_id h i ps ≡ ps
    delete_id_absent i [] e = refl
    delete_id_absent i (q ∷ ps) e = ground (arith, delete_id_absent i ps)

    pub find_id-delete_id_ne :
        (i j : String) (ps : List Ref) → i ≢ j → find_id h j (delete_id h i ps) ≡ find_id h j ps
    find_id-delete_id_ne i j [] e = refl
    find_id-delete_id_ne i j (q ∷ ps) e =
        ground (arith, eq_iff (h q).id i, eq_iff (h q).id j, find_id-delete_id_ne i j ps e)

    pub find_id-delete_id_le :
        (i j : String) (ps : List Ref)
        → find_id h j ps ≡ none
        → find_id h j (delete_id h i ps) ≡ none
    find_id-delete_id_le i j [] e = refl
    find_id-delete_id_le i j (q ∷ ps) e = ground (arith, find_id-delete_id_le i j ps)

    pub find_id-delete_id_self :
        (i : String) (ps : List Ref) → DistinctIds h ps → find_id h i (delete_id h i ps) ≡ none
    find_id-delete_id_self i [] d = refl
    find_id-delete_id_self i (q ∷ ps) d =
        ground (arith, eq_iff (h q).id i, find_id-delete_id_self i ps d.1)

    pub contains-delete_id :
        (i : String) (ps : List Ref) (p : Ref)
        → DistinctIds h ps
        → contains p (delete_id h i ps) ≡ (contains p ps && not ((h p).id == i))
    contains-delete_id i [] p d = refl
    contains-delete_id i (q ∷ ps) p d = ground (
      arith,
      eq_iff (h q).id i,
      eq_iff (h p).id i,
      nat_eq_iff q p,
      find_id-none i ps p,
      contains-delete_id i ps p d.1,
    )

    pub DistinctIds-delete_id :
        (i : String) (ps : List Ref) → DistinctIds h ps → DistinctIds h (delete_id h i ps)
    DistinctIds-delete_id i [] d = tt
    DistinctIds-delete_id i (q ∷ ps) d =
        ground (arith, DistinctIds-delete_id i ps d.1, find_id-delete_id_le i (h q).id ps d.0)

    pub length-delete_id :
        (i : String) (ps : List Ref) (p : Ref)
        → find_id h i ps ≡ some p
        → length ps ≡ suc (length (delete_id h i ps))
    length-delete_id i [] p e = cc
    length-delete_id i (q ∷ ps) p e = ground (arith, length-delete_id i ps p)

    pub find_id-snoc :
        (i : String) (ps : List Ref) (p : Ref)
        → find_id h i (ps ++ p ∷ []) ≡ elim (find_id h i ps) [
          | some q ↦ some q
          | none ↦ if (h p).id == i then some p else none
        ]
    find_id-snoc i [] p = ground arith
    find_id-snoc i (q ∷ ps) p = ground (arith, find_id-snoc i ps p)

    pub DistinctIds-snoc :
        (ps : List Ref) (p : Ref)
        → DistinctIds h ps
        → find_id h (h p).id ps ≡ none
        → DistinctIds h (ps ++ p ∷ [])
    DistinctIds-snoc [] p d n = (refl, tt)
    DistinctIds-snoc (q ∷ ps) p d n = ground (
      arith,
      find_id-snoc (h q).id ps p,
      eq_iff (h q).id (h p).id,
      eq_iff (h p).id (h q).id,
      DistinctIds-snoc ps p d.1,
    )

  -- Two heaps with the same ids.
  abbrev pub SameIds : Heap P → Heap P → Type 0
  SameIds h k = (p : Ref) → (k p).id ≡ (h p).id

  module _ (h k : Heap P) (same : SameIds h k) where
    pub find_id-SameIds : (i : String) (ps : List Ref) → find_id k i ps ≡ find_id h i ps
    find_id-SameIds i [] = refl
    find_id-SameIds i (p ∷ ps) = ground (arith, same p, find_id-SameIds i ps)

    pub DistinctIds-SameIds : (ps : List Ref) → DistinctIds h ps → DistinctIds k ps
    DistinctIds-SameIds [] d = tt
    DistinctIds-SameIds (p ∷ ps) d =
        ground (arith, same p, find_id-SameIds (h p).id ps, DistinctIds-SameIds ps d.1)
