-- ===== src/Indexer/Registered.antt =====
-- The tables of the indexer with one instance more, and heaps that keep what the tables rest on.
use eurus.Prelude.{
  String, [], ◌∷◌, ◌++◌, none, true, ◌≡◌, ◌≢◌, arith, ◌==◌, ◌||◌, ◌&&◌, inl, inr, Option-cases, ◌∙◌,
  nat_eq, string_eq, nat_eq_iff, if◌then◌else◌, contains, contains-append, insert, lookup-insert,
  Distinct-insert,
}
use text.Mathlib.TextEquality.{eq_iff}
use eurus.Descriptor.{ServiceDescriptor, Ref, Heap, store}
use eurus.Indexer.{State, slice_at, find_id}
use eurus.Indexer.Instances.{
  find_id_sound, find_id-none, find_id-snoc, DistinctIds-snoc, find_id-SameIds, DistinctIds-SameIds,
}
use eurus.Indexer.Valid.{IsIndexed, IsPinned, listed}

-- A heap in which every descriptor keeps its name and its id.
pub record SameNames {P : Type 0} (h k : Heap P) : Type 0 where
  pub ids : (p : Ref) → (k p).id ≡ (h p).id
  pub names : (p : Ref) → (k p).name ≡ (h p).name

module _ {P : Type 0} (s : State P) (k : Heap P) (same : SameNames s.heap k) where
  pub SameNames-IsIndexed : IsIndexed s → IsIndexed (record s { heap = k })
  SameNames-IsIndexed v = record {
    names = v.names;
    ids = DistinctIds-SameIds s.heap k same.ids s.descriptors v.ids;
    ids_by_name = λ n.
        DistinctIds-SameIds s.heap k same.ids (slice_at n s.services_by_name) (v.ids_by_name n);
    named = λ n p c. same.names p ∙ v.named n p c;
    indexed = λ p. rw (same.names p) (v.indexed p);
    no_empty_name = v.no_empty_name;
  }

  pub SameSockets-IsPinned :
      ((p : Ref) → (k p).socket_ids ≡ (s.heap p).socket_ids)
      → IsPinned s
      → IsPinned (record s { heap = k })
  SameSockets-IsPinned kept v = record {
    sockets = v.sockets;
    live = λ n j i e.
        let (p, found, has) = v.live n j i e in
        (
          p,
          find_id-SameIds s.heap k same.ids i (slice_at n s.services_by_name) ∙ found,
          rw (kept p) has,
        );
    assigned = λ n j p c has. rw (same.ids p) (v.assigned n j p c (rw (kept p) at has));
    once = λ n p c. rw (kept p) (v.once n p c);
  }

module _ {P : Type 0} (s : State P) (p : Ref) where
  open s use {heap, descriptors, services_by_name}

  -- The tables with a new instance at the end of the slice of its name.
  abbrev pub registered : State P
  registered = record s {
    indexer = record s.indexer {
      services_by_name =
          insert (heap p).name (slice_at (heap p).name services_by_name ++ p ∷ []) services_by_name;
      descriptors = descriptors ++ p ∷ [];
    };
  }

  pub slice_at-registered :
      (n : String)
      → slice_at n registered.services_by_name ≡ (
          if (heap p).name == n
          then slice_at n services_by_name ++ p ∷ []
          else slice_at n services_by_name)
  slice_at-registered n = ground (
    arith,
    eq_iff (heap p).name n,
    lookup-insert (heap p).name n (slice_at (heap p).name services_by_name ++ p ∷ [])
        services_by_name,
  )

  module _ (v : IsIndexed s) (fresh : find_id heap (heap p).id descriptors ≡ none) where
    pub fresh_at : (n : String) → find_id heap (heap p).id (slice_at n services_by_name) ≡ none
    fresh_at n = elim (Option-cases (find_id heap (heap p).id (slice_at n services_by_name))) [
      | inl absent ↦ absent
      | inr (q, found) ↦
          let (c, e) = find_id_sound heap (heap p).id (slice_at n services_by_name) q found in
          absurd (find_id-none heap (heap p).id descriptors q fresh (listed s v n q c) e)
    ]

    contains-registered :
        (n : String) (q : Ref)
        → contains q (slice_at n registered.services_by_name)
          ≡ (contains q (slice_at n services_by_name) || ((heap p).name == n && p == q))
    contains-registered n q =
        ground
          (arith, slice_at-registered n, contains-append q (slice_at n services_by_name) (p ∷ []))

    pub registered-IsIndexed : (heap p).name ≢ "" → IsIndexed registered
    registered-IsIndexed nonempty = record {
      names = Distinct-insert (heap p).name _ services_by_name v.names;
      ids = DistinctIds-snoc heap descriptors p v.ids fresh;
      ids_by_name = λ n. rw (slice_at-registered n) (
          ground (
            arith,
            v.ids_by_name n,
            DistinctIds-snoc heap (slice_at n services_by_name) p (v.ids_by_name n) (fresh_at n),
          ));
      named = λ n q c.
          ground
            (arith, contains-registered n q, v.named n q, eq_iff (heap p).name n, nat_eq_iff p q);
      indexed = λ q. ground (
        arith,
        contains-registered (heap q).name q,
        contains-append q descriptors (p ∷ []),
        v.indexed q,
        eq_iff (heap p).name (heap q).name,
        nat_eq_iff p q,
      );
      no_empty_name =
          ground (arith, slice_at-registered "", v.no_empty_name, eq_iff (heap p).name "");
    }

    pub registered-IsPinned : (heap p).socket_ids ≡ [] → IsPinned s → IsPinned registered
    registered-IsPinned unused pinned = record {
      sockets = pinned.sockets;
      live = λ n k i e.
          let (q, found, has) = pinned.live n k i e in
          (
            q,
            rw (slice_at-registered n)
                (ground (arith, found, find_id-snoc heap i (slice_at n services_by_name) p)),
            has,
          );
      assigned = λ n k q c has. pinned.assigned n k q (old n k q c has) has;
      once =
          λ n q c. ground (arith, contains-registered n q, pinned.once n q, nat_eq_iff p q, unused);
    }
      where
        old :
            (n k : String) (q : Ref)
            → contains q (slice_at n registered.services_by_name) ≡ true
            → contains k (heap q).socket_ids ≡ true
            → contains q (slice_at n services_by_name) ≡ true
        old n k q c has = ground (arith, contains-registered n q, nat_eq_iff p q, unused)

module _ {P : Type 0} (h : Heap P) (p : Ref) (d : ServiceDescriptor P) where
  pub store-SameNames : d.id ≡ (h p).id → d.name ≡ (h p).name → SameNames h (store h p d)
  store-SameNames i n = record {
    ids = λ q. ground (arith, nat_eq_iff p q);
    names = λ q. ground (arith, nat_eq_iff p q);
  }

  pub store-SameSockets :
      d.socket_ids ≡ (h p).socket_ids → (q : Ref) → (store h p d q).socket_ids ≡ (h q).socket_ids
  store-SameSockets e q = ground (arith, nat_eq_iff p q)

  pub store-at : store h p d p ≡ d
  store-at = ground (arith, nat_eq_iff p p)
