-- ===== src/Indexer/Announce.antt =====
-- SetServiceDescriptor: a known instance is refreshed in place, a new one is added.
use eurus.Prelude.{
  ℕ, String, [], none, some, true, false, ◌≡◌, ◌≢◌, refl, arith, inl, inr, Option-cases, Bool-cases,
  ap, ◌∙◌, nat_eq, string_eq, nat_eq_iff,
}
use text.Mathlib.TextEquality.{eq_iff}
use eurus.Descriptor.{Ref, Heap, store}
use eurus.Indexer.{State, slice_at, find_id, set_service_descriptor}
use eurus.Indexer.Instances.{find_id_sound, find_id-none, find_id-snoc, find_id-SameIds}
use eurus.Indexer.Valid.{IsIndexed, IsPinned, IsValid}
use eurus.Indexer.Registered.{
  SameNames, SameNames-IsIndexed, SameSockets-IsPinned, registered, registered-IsIndexed,
  registered-IsPinned, slice_at-registered, store-SameNames, store-SameSockets, store-at,
}

-- What the indexer relies on of an announced descriptor: ids are generated, so an instance keeps
-- one name, and a descriptor that is new to the indexer comes from the wire, with no sockets.
pub record IsAnnounceable {P : Type 0} (s : State P) (p : Ref) : Type 0 where
  pub has_name : (s.heap p).name ≢ ""
  pub one_name :
      (q : Ref)
      → find_id s.heap (s.heap p).id s.descriptors ≡ some q
      → (s.heap q).name ≡ (s.heap p).name
  pub no_sockets : find_id s.heap (s.heap p).id s.descriptors ≡ none → (s.heap p).socket_ids ≡ []

module _ {P : Type 0} (now : ℕ) (p : Ref) (s : State P) where
  open s use {heap}

  -- The instance that a second announcement refreshes.
  abbrev pub refreshed : Ref → Heap P
  refreshed q =
      store heap q (record (heap q) {
        route_descriptors = (heap p).route_descriptors;
        last_seen_at = some now;
      })

  abbrev pub stamped : Heap P
  stamped = store heap p (record (heap p) { last_seen_at = some now })

pub set_closed :
    {P : Type 0} (now : ℕ) (p : Ref) (s : State P)
    → s.closed ≡ true
    → set_service_descriptor now p s ≡ s
unfolding set_service_descriptor
set_closed now p s shut = ground arith

module _ {P : Type 0} (now : ℕ) (p : Ref) (s : State P) (v : IsIndexed s) where
  open s use {heap, descriptors, services_by_name}

  pub unknown :
      IsAnnounceable s p
      → find_id heap (heap p).id (slice_at (heap p).name services_by_name) ≡ none
      → find_id heap (heap p).id descriptors ≡ none
  unknown a e = elim (Option-cases (find_id heap (heap p).id descriptors)) [
    | inl absent ↦ absent
    | inr (q, found) ↦
        let (c, same) = find_id_sound heap (heap p).id descriptors q found in
        absurd (
          find_id-none heap (heap p).id (slice_at (heap p).name services_by_name) q e
            (ground (arith, v.indexed q, a.one_name q found)) same)
  ]

  pub set_known :
      (q : Ref)
      → s.closed ≡ false
      → find_id heap (heap p).id (slice_at (heap p).name services_by_name) ≡ some q
      → set_service_descriptor now p s ≡ record s { heap = refreshed now p s q }
  unfolding set_service_descriptor
  set_known q opened e = ground arith

  pub set_new :
      s.closed ≡ false
      → find_id heap (heap p).id (slice_at (heap p).name services_by_name) ≡ none
      → set_service_descriptor now p s ≡ registered (record s { heap = (stamped now p s) }) p
  unfolding set_service_descriptor
  set_new opened e = ground (arith, nat_eq_iff p p)

  pub stamped_names : SameNames heap (stamped now p s)
  stamped_names = store-SameNames heap p (record (heap p) { last_seen_at = some now }) refl refl

  stamped_absent :
      find_id heap (heap p).id descriptors ≡ none
      → find_id (stamped now p s) ((stamped now p s) p).id descriptors ≡ none
  stamped_absent e =
      rw (stamped_names.ids p)
        (find_id-SameIds heap (stamped now p s) stamped_names.ids (heap p).id descriptors ∙ e)

  stamped_new :
      IsPinned s
      → IsAnnounceable s p
      → find_id heap (heap p).id descriptors ≡ none
      → IsValid (registered (record s { heap = (stamped now p s) }) p)
  stamped_new pinned a e = record {
    registry =
        registered-IsIndexed (record s { heap = (stamped now p s) }) p valid absent
          (λ x. a.has_name (ground (arith, nat_eq_iff p p)));
    pins =
        registered-IsPinned (record s { heap = (stamped now p s) }) p valid absent
          (ground (arith, nat_eq_iff p p, a.no_sockets e))
          (SameSockets-IsPinned s (stamped now p s) stamped_names (store-SameSockets heap p _ refl)
            pinned);
  }
    where
      valid : IsIndexed (record s { heap = (stamped now p s) })
      valid = SameNames-IsIndexed s (stamped now p s) stamped_names v

      absent : find_id (stamped now p s) ((stamped now p s) p).id descriptors ≡ none
      absent = stamped_absent e

  pub find_id-stamped :
      (n j : String)
      → j ≢ (heap p).id
      → find_id
          (stamped now p s)
          j
          (slice_at n (registered (record s { heap = stamped now p s }) p).services_by_name)
        ≡ find_id heap j (slice_at n services_by_name)
  find_id-stamped n j other = ground (
    arith,
    slice_at-registered (record s { heap = stamped now p s }) p n,
    find_id-snoc (stamped now p s) j (slice_at n services_by_name) p,
    find_id-SameIds heap (stamped now p s) stamped_names.ids j (slice_at n services_by_name),
    stamped_names.ids p,
    eq_iff (heap p).id j,
  )

  pub found_new :
      find_id heap (heap p).id (slice_at (heap p).name services_by_name) ≡ none
      → find_id (stamped now p s) (heap p).id (
          slice_at
            (heap p).name
            (registered (record s { heap = stamped now p s }) p).services_by_name)
        ≡ some p
  found_new absent = ground (
    arith,
    slice_at-registered (record s { heap = stamped now p s }) p (heap p).name,
    find_id-snoc (stamped now p s) (heap p).id (slice_at (heap p).name services_by_name) p,
    find_id-SameIds heap (stamped now p s) stamped_names.ids (heap p).id
        (slice_at (heap p).name services_by_name),
    stamped_names.ids p,
    stamped_names.names p,
    eq_iff (heap p).name (heap p).name,
    eq_iff (heap p).id (heap p).id,
  )

  pub refreshed_names : (q : Ref) → SameNames heap (refreshed now p s q)
  refreshed_names q = store-SameNames heap q _ refl refl

  refreshed_known : (q : Ref) → IsPinned s → IsValid (record s { heap = refreshed now p s q })
  refreshed_known q pinned = record {
    registry = SameNames-IsIndexed s (refreshed now p s q) (refreshed_names q) v;
    pins =
        SameSockets-IsPinned s (refreshed now p s q) (refreshed_names q)
          (store-SameSockets heap q _ refl) pinned;
  }

module _ {P : Type 0} (now : ℕ) (p : Ref) (s : State P) where
  open s use {heap, descriptors, services_by_name}

  -- An announcement keeps the tables consistent.
  pub set_service_descriptor-IsValid :
      IsValid s → IsAnnounceable s p → IsValid (set_service_descriptor now p s)
  set_service_descriptor-IsValid v a = elim (Bool-cases s.closed) [
    | inl shut ↦ rw (set_closed now p s shut) v
    | inr opened ↦
        elim (Option-cases (find_id heap (heap p).id (slice_at (heap p).name services_by_name))) [
          | inr (q, found) ↦
              rw (set_known now p s v.registry q opened found)
                (refreshed_known now p s v.registry q v.pins)
          | inl absent ↦
              rw (set_new now p s v.registry opened absent)
                (stamped_new now p s v.registry v.pins a (unknown now p s v.registry a absent))
        ]
  ]

  -- In an open indexer with consistent tables an announced instance is found by its id under its
  -- name, with the announced routes and the time of the announcement, and no other instance is
  -- lost or moved.
  pub set_service_descriptor-finds :
      IsIndexed s
      → s.closed ≡ false
      → let t = set_service_descriptor now p s in
        ((q : Ref) × (find_id t.heap (heap p).id (slice_at (heap p).name t.services_by_name)
            ≡ some q)
          × ((t.heap q).route_descriptors ≡ (heap p).route_descriptors)
          × ((t.heap q).last_seen_at ≡ some now))
        × ((n j : String)
            → j ≢ (heap p).id
            → find_id t.heap j (slice_at n t.services_by_name)
              ≡ find_id heap j (slice_at n services_by_name))
  set_service_descriptor-finds v opened =
      elim (Option-cases (find_id heap (heap p).id (slice_at (heap p).name services_by_name))) [
        | inr (q, found) ↦ rw (set_known now p s v q opened found) (
          (
            q,
            find_id-SameIds heap (refreshed now p s q) (refreshed_names now p s v q).ids (heap p).id
                  _
                ∙ found,
            ap (λ d. d.route_descriptors) (store-at heap q _),
            ap (λ d. d.last_seen_at) (store-at heap q _),
          ),
          λ n j other.
              find_id-SameIds heap (refreshed now p s q) (refreshed_names now p s v q).ids j _,
        )
        | inl absent ↦ rw (set_new now p s v opened absent) (
          (
            p,
            found_new now p s v absent,
            ap (λ d. d.route_descriptors) (store-at heap p _),
            ap (λ d. d.last_seen_at) (store-at heap p _),
          ),
          λ n j other. find_id-stamped now p s v n j other,
        )
      ]
