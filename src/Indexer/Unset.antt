-- ===== src/Indexer/Unset.antt =====
-- unsetServiceLocked: what it removes and that the tables stay consistent.
use eurus.Prelude.{
  String, List, [], ◌∷◌, Option, none, some, true, false, ◌≡◌, ◌≢◌, refl, arith, ◌==◌, ◌&&◌, inl,
  inr, Option-cases, Bool-cases, ap, sym, ◌∙◌, nat_eq, string_eq, if◌then◌else◌, contains, Map,
  Distinct,
}
use text.Mathlib.TextEquality.{eq_iff}
use eurus.Descriptor.{Ref, Heap}
use eurus.Indexer.{
  State, slice_at, find_id, delete_id, owner, drop_instance, unset_service, forget_instance,
}
use eurus.Indexer.Sockets.{pin}
use eurus.Indexer.Instances.{
  delete_id_absent, contains-delete_id, DistinctIds-delete_id, find_id-delete_id_ne,
  find_id-delete_id_self,
}
use eurus.Indexer.Tables.{
  Distinct-drop_instance, slice_at-drop_instance, Distinct-forget_instance, pin-forget_instance,
}
use eurus.Indexer.Valid.{IsIndexed, IsPinned, IsValid, one_service}

-- The mapping that is left of one when an instance goes.
abbrev pub without : String → Option String → Option String
without id none = none
without id (some i) = if i == id then none else some i

module _ {P : Type 0} (h : Heap P) (id : String) where
  -- The service that the loop stops at has the id, and if it stops at none, none has it.
  pub owner_has :
      (n : String) (p : Ref) (m : Map String (List Ref))
      → Distinct m
      → find_id h id (slice_at n m) ≡ some p
      → (q : Ref) × (find_id h id (slice_at (owner h id m) m) ≡ some q)
  owner_has n p [] d e = ground arith
  owner_has n p ((k, ps) ∷ m) d e = elim (Option-cases (find_id h id ps)) [
    | inl none_here ↦
        let (q, found) = owner_has n p m d.1 (ground (arith, eq_iff k n)) in
        (q, ground (arith, eq_iff k (owner h id m)))
    | inr (q, here) ↦ (q, ground (arith, eq_iff k k))
  ]

module _ {P : Type 0} (s : State P) (id : String) (v : IsIndexed s) where
  owner_is :
      (n : String) (p : Ref)
      → find_id s.heap id (slice_at n s.services_by_name) ≡ some p
      → owner s.heap id s.services_by_name ≡ n
  owner_is n p e =
      let (q, found) = owner_has s.heap id n p s.services_by_name v.names e in
      one_service s v id (owner s.heap id s.services_by_name) n q p found e

  drop_every :
      (n : String)
      → slice_at n (drop_instance s.heap id s.services_by_name)
        ≡ delete_id s.heap id (slice_at n s.services_by_name)
  drop_every n = elim (Option-cases (find_id s.heap id (slice_at n s.services_by_name))) [
    | inl absent ↦ ground (
      arith,
      slice_at-drop_instance s.heap id n s.services_by_name v.names,
      delete_id_absent s.heap id (slice_at n s.services_by_name) absent,
    )
    | inr (p, found) ↦ ground (
      arith,
      slice_at-drop_instance s.heap id n s.services_by_name v.names,
      eq_iff (owner s.heap id s.services_by_name) n,
      owner_is n p found,
    )
  ]

  -- Every service loses the instance with the id, and so does the list of all descriptors.
  pub slice_at-unset_service :
      s.closed ≡ false
      → (n : String)
      → slice_at n (unset_service id s).services_by_name
        ≡ delete_id s.heap id (slice_at n s.services_by_name)
  unfolding unset_service
  slice_at-unset_service opened n = rw (opened, unset_service) (drop_every n)

  module _ (pinned : IsPinned s) (n k : String) where
    forgotten :
        pin n k (forget_instance (owner s.heap id s.services_by_name) id s.socket_to_instance)
        ≡ elim (pin n k s.socket_to_instance) [
          | none ↦ none
          | some i ↦ if owner s.heap id s.services_by_name == n && i == id then none else some i
        ]
    forgotten =
        pin-forget_instance (owner s.heap id s.services_by_name) id n k s.socket_to_instance
          pinned.sockets

    owner_of_mapped :
        pin n k s.socket_to_instance ≡ some id → (owner s.heap id s.services_by_name ≡ n) × (n ≢ "")
    owner_of_mapped mapped =
        let (p, found, _) = pinned.live n k id mapped in
        (owner_is n p found, λ e. ground (arith, v.no_empty_name))

    pins_left :
        pin n k (
          if owner s.heap id s.services_by_name == ""
          then s.socket_to_instance
          else forget_instance (owner s.heap id s.services_by_name) id s.socket_to_instance)
        ≡ without id (pin n k s.socket_to_instance)
    pins_left = elim (Option-cases (pin n k s.socket_to_instance)) [
      | inl unmapped ↦ ground (arith, forgotten)
      | inr (i, mapped) ↦ ground (
        arith,
        forgotten,
        eq_iff i id,
        eq_iff (owner s.heap id s.services_by_name) n,
        eq_iff (owner s.heap id s.services_by_name) "",
        owner_of_mapped,
      )
    ]

    -- Every mapping to the instance is dropped, and every other one stays.
    pin-unset_service :
        s.closed ≡ false
        → pin n k (unset_service id s).socket_to_instance
          ≡ without id (pin n k s.socket_to_instance)
    unfolding unset_service
    pin-unset_service opened = rw (opened, unset_service) pins_left

  -- An instance that stays was there before, and has another id.
  kept :
      (n : String) (p : Ref)
      → contains p (slice_at n (drop_instance s.heap id s.services_by_name)) ≡ true
      → (contains p (slice_at n s.services_by_name) ≡ true) × ((s.heap p).id ≢ id)
  kept n p c = ground (
    arith,
    drop_every n,
    eq_iff (s.heap p).id id,
    contains-delete_id s.heap id (slice_at n s.services_by_name) p (v.ids_by_name n),
  )

  unset_open-IsIndexed : s.closed ≡ false → IsIndexed (unset_service id s)
  unfolding unset_service
  unset_open-IsIndexed opened =
      rw (opened, unset_service)
        (record {
          names = Distinct-drop_instance s.heap id s.services_by_name v.names;
          ids = DistinctIds-delete_id s.heap id s.descriptors v.ids;
          ids_by_name = λ n.
              rw (drop_every n)
                (DistinctIds-delete_id s.heap id (slice_at n s.services_by_name) (v.ids_by_name n));
          named = λ n p c. v.named n p (kept n p c).0;
          indexed = λ p. ground (
            arith,
            drop_every (s.heap p).name,
            v.indexed p,
            contains-delete_id s.heap id s.descriptors p v.ids,
            contains-delete_id s.heap id (slice_at (s.heap p).name s.services_by_name) p
                (v.ids_by_name (s.heap p).name),
          );
          no_empty_name = rw (drop_every "", v.no_empty_name) refl;
        })

  module _ (pinned : IsPinned s) where
    sockets_left : Distinct (
        if owner s.heap id s.services_by_name == ""
        then s.socket_to_instance
        else forget_instance (owner s.heap id s.services_by_name) id s.socket_to_instance)
    sockets_left = ground (
      arith,
      pinned.sockets,
      Distinct-forget_instance (owner s.heap id s.services_by_name) id s.socket_to_instance
          pinned.sockets,
    )

    still_mapped :
        (n k i : String)
        → without id (pin n k s.socket_to_instance) ≡ some i
        → (pin n k s.socket_to_instance ≡ some i) × (id ≢ i)
    still_mapped n k i e = elim (Option-cases (pin n k s.socket_to_instance)) [
      | inl unmapped ↦ cc (ap (without id) unmapped)
      | inr (j, mapped) ↦ ground (arith, ap (without id) mapped, eq_iff j id)
    ]

    unset_open-IsPinned : s.closed ≡ false → IsPinned (unset_service id s)
    unfolding unset_service
    unset_open-IsPinned opened =
        rw (opened, unset_service)
          (record {
            sockets = sockets_left;
            live = λ n k i e.
                let (mapped, other) = still_mapped n k i (sym (pins_left pinned n k) ∙ e) in
                let (p, found, has) = pinned.live n k i mapped in
                (
                  p,
                  rw (drop_every n) (
                      find_id-delete_id_ne s.heap id i (slice_at n s.services_by_name) other
                      ∙ found),
                  has,
                );
            assigned = λ n k p c has.
                let (c', other) = kept n p c in
                pins_left pinned n k
                ∙ ground (arith, pinned.assigned n k p c' has, eq_iff (s.heap p).id id);
            once = λ n p c. pinned.once n p (kept n p c).0;
          })

unset_closed : {P : Type 0} (id : String) (s : State P) → s.closed ≡ true → unset_service id s ≡ s
unfolding unset_service
unset_closed id s shut = ground arith

-- Unsetting a service keeps the tables consistent.
pub unset_service-IsValid :
    {P : Type 0} (id : String) (s : State P) → IsValid s → IsValid (unset_service id s)
unset_service-IsValid id s v = elim (Bool-cases s.closed) [
  | inl shut ↦ rw (unset_closed id s shut) v
  | inr opened ↦ record {
    registry = unset_open-IsIndexed s id v.registry opened;
    pins = unset_open-IsPinned s id v.registry v.pins opened;
  }
]

module _ {P : Type 0} (s : State P) (id : String) (v : IsIndexed s)
    (opened : s.closed ≡ false) where
  -- In an open indexer with consistent tables UnsetService removes the instance with the given id
  -- and leaves every other.
  pub unset_service-instances :
      (n j : String)
      → find_id (unset_service id s).heap j (slice_at n (unset_service id s).services_by_name)
        ≡ (if j == id then none else find_id s.heap j (slice_at n s.services_by_name))
  unfolding unset_service
  unset_service-instances n j =
      rw (opened, unset_service, drop_every s id v n)
        (ground (
          arith,
          eq_iff j id,
          find_id-delete_id_self s.heap id (slice_at n s.services_by_name) (v.ids_by_name n),
          find_id-delete_id_ne s.heap id j (slice_at n s.services_by_name),
        ))

  -- In an open indexer with consistent tables UnsetService removes the mappings to the given
  -- instance and no other.
  pub unset_service-pins :
      IsPinned s
      → (n k : String)
      → pin n k (unset_service id s).socket_to_instance ≡ without id (pin n k s.socket_to_instance)
  unset_service-pins pinned n k = pin-unset_service s id v pinned n k opened
