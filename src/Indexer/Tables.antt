-- ===== src/Indexer/Tables.antt =====
-- The maps of gateway-service-indexer.go: what unsetServiceLocked leaves in each of them.
use eurus.Prelude.{
  String, List, [], ◌∷◌, none, some, ◌≡◌, refl, arith, ◌==◌, string_eq, if◌then◌else◌, Map, lookup,
  Distinct, lookup-delete, ◌&&◌,
}
use text.Mathlib.TextEquality.{eq_iff}
use eurus.Descriptor.{Heap, Ref}
use eurus.Indexer.{slice_at, delete_id, owner, drop_instance, forget_instance}
use eurus.Indexer.Sockets.{pin}
use eurus.Indexer.Instances.{delete_id_absent}

module _ {P : Type 0} (h : Heap P) (id : String) where
  pub lookup-drop_instance_absent :
      (n : String) (m : Map String (List Ref))
      → lookup n m ≡ none
      → lookup n (drop_instance h id m) ≡ none
  lookup-drop_instance_absent n [] e = refl
  lookup-drop_instance_absent n ((k, ps) ∷ m) e = ground (arith, lookup-drop_instance_absent n m)

  pub Distinct-drop_instance :
      (m : Map String (List Ref)) → Distinct m → Distinct (drop_instance h id m)
  Distinct-drop_instance [] d = tt
  Distinct-drop_instance ((k, ps) ∷ m) d =
      ground (arith, Distinct-drop_instance m d.1, lookup-drop_instance_absent k m d.0)

  -- The loop removes the id from the slice of the first service that has it, and from no other.
  pub slice_at-drop_instance :
      (n : String) (m : Map String (List Ref))
      → Distinct m
      → slice_at n (drop_instance h id m)
        ≡ (if owner h id m == n then delete_id h id (slice_at n m) else slice_at n m)
  slice_at-drop_instance n [] d = ground arith
  slice_at-drop_instance n ((k, ps) ∷ m) d = ground (
    arith,
    eq_iff k n,
    eq_iff (owner h id m) n,
    delete_id_absent h id ps,
    slice_at-drop_instance n m d.1,
  )

module _ (name id : String) where
  pub lookup-forget_instance :
      (s : String) (m : Map String (Map String String))
      → lookup s m ≡ none
      → lookup s (forget_instance name id m) ≡ none
  lookup-forget_instance s [] e = refl
  lookup-forget_instance s ((k, services) ∷ m) e = ground (arith, lookup-forget_instance s m)

  pub Distinct-forget_instance :
      (m : Map String (Map String String)) → Distinct m → Distinct (forget_instance name id m)
  Distinct-forget_instance [] d = tt
  Distinct-forget_instance ((k, services) ∷ m) d =
      ground (arith, Distinct-forget_instance m d.1, lookup-forget_instance k m d.0)

  -- The mapping of `name` is dropped where it names the instance; every other one stays.
  pub pin-forget_instance :
      (n s : String) (m : Map String (Map String String))
      → Distinct m
      → pin n s (forget_instance name id m)
        ≡ elim (pin n s m) [ none ↦ none | some i ↦ if name == n && i == id then none else some i ]
  pin-forget_instance n s [] d = refl
  pin-forget_instance n s ((k, services) ∷ m) d = ground (
    arith,
    eq_iff k s,
    eq_iff name n,
    lookup-delete name n services,
    lookup-forget_instance s m,
    pin-forget_instance n s m d.1,
  )
