-- ===== src/Indexer/Views.antt =====
-- What Indexer/Spec sees of an indexer, and what it sees after each call but an announcement.
use eurus.Prelude.{
  ℕ, String, List, [], ◌∷◌, Option, none, some, false, ◌≡◌, refl, arith, ap, sym, ◌∙◌, fun_ext, inl,
  inr, Option-cases, Bool-cases, string_eq, nat_eq, nat_eq_iff, lookup, contains, if◌then◌else◌,
}
use text.Mathlib.TextEquality.{eq_iff}
use eurus.Descriptor.{ServiceDescriptor, Ref, Heap, store}
use eurus.Indexer.{
  State, slice_at, find_id, unset_service, unset_all, stale_ids, prune_stale_services,
}
use eurus.Indexer.Sockets.{pin, add_socket, unmap_socket}
use eurus.Indexer.Registered.{store-SameNames}
use eurus.Indexer.Least.{pin-add_pin}
use eurus.Indexer.Pinning.{assigned_to}
use eurus.Indexer.Unmap.{unmap_same, unmap_mapped, unmapped_from, left_heap, removes, pin_left}
use eurus.Indexer.Instances.{find_id_sound, find_id-SameIds}
use eurus.Indexer.Valid.{IsValid, listed}
use eurus.Indexer.Prune.{Unsets, unset_all-Unsets, contains-stale_ids, prune_open}
use eurus.Indexer.Spec.{
  Entry, Registry, listed_pin, drop_entries, keep_other, keep_fresh, assign, unpin,
}

module _ {P : Type 0} where
  abbrev pub entry_of : ServiceDescriptor P → Entry P
  entry_of d = record { routes = d.route_descriptors; seen = d.last_seen_at }

  abbrev pub entry_at : State P → String → String → Option (Entry P)
  entry_at s n i = elim (find_id s.heap i (slice_at n s.services_by_name)) [
    | none ↦ none
    | some p ↦ some (entry_of (s.heap p))
  ]

  -- The abstract view of an indexer.
  abbrev pub view : State P → Registry P
  view s = record {
    closed = s.closed;
    entries = entry_at s;
    pins = λ n k. pin n k s.socket_to_instance;
  }

  pub Registry-ext :
      (r q : Registry P)
      → r.closed ≡ q.closed
      → ((n i : String) → r.entries n i ≡ q.entries n i)
      → ((n k : String) → r.pins n k ≡ q.pins n k)
      → r ≡ q
  Registry-ext r q c e p = cc (c, fun_ext (λ n. fun_ext (e n)), fun_ext (λ n. fun_ext (p n)))

  module _ (ids : List String) (s t : State P) (v : IsValid s) (u : Unsets ids s t) where
    entry_at-Unsets :
        (n i : String) → entry_at t n i ≡ (if contains i ids then none else entry_at s n i)
    entry_at-Unsets n i = ground (arith, u.instances n i, u.heap)

    pin-Unsets :
        (n k : String)
        → pin n k t.socket_to_instance
          ≡ listed_pin
              (λ i. if contains i ids then none else entry_at s n i)
              (pin n k s.socket_to_instance)
    pin-Unsets n k = elim (Option-cases (pin n k s.socket_to_instance)) [
      | inl unmapped ↦ ground (arith, u.pins n k)
      | inr (i, mapped) ↦
          let (p, found, has) = v.pins.live n k i mapped in ground (arith, u.pins n k)
    ]

    -- The entries that `keep` drops are those of the ids.
    view-Unsets :
        (keep : String → Option (Entry P) → Option (Entry P))
        → s.closed ≡ false
        → ((n i : String)
            → (if contains i ids then none else entry_at s n i) ≡ keep i (entry_at s n i))
        → view t ≡ drop_entries keep (view s)
    view-Unsets keep opened kept =
        Registry-ext (view t) _ (u.opened ∙ sym opened) (λ n i. entry_at-Unsets n i ∙ kept n i)
          (λ n k.
            pin-Unsets n k
            ∙ ap (λ f. listed_pin f (pin n k s.socket_to_instance)) (fun_ext (kept n)))
        ∙ rw opened refl

  module _ (s : State P) (v : IsValid s) where
    open s use {heap, descriptors, services_by_name, socket_to_instance}

    pub view-unset_service :
        (id : String) → view (unset_service id s) ≡ drop_entries (keep_other id) (view s)
    view-unset_service id = elim (Bool-cases s.closed) [
      | inl shut ↦ unfold unset_service in rw shut refl
      | inr opened ↦
          view-Unsets (id ∷ []) s (unset_service id s) v
            (unfold unset_all in unset_all-Unsets (id ∷ []) s v opened) (keep_other id) opened
            (λ n i. ground (arith, eq_iff i id, eq_iff id i))
    ]

    stale_at :
        (threshold now : ℕ) (n i : String)
        → (if contains i (stale_ids threshold now heap descriptors) then none else entry_at s n i)
          ≡ keep_fresh threshold now i (entry_at s n i)
    stale_at threshold now n i =
        elim (Option-cases (find_id heap i (slice_at n services_by_name))) [
          | inl absent ↦ ground (arith, absent)
          | inr (p, found) ↦
              let (c, same) = find_id_sound heap i (slice_at n services_by_name) p found in
              ground (
                arith,
                found,
                same,
                contains-stale_ids threshold now heap descriptors p v.registry.ids
                    (listed s v.registry n p c),
              )
        ]

    pub view-prune_stale_services :
        (threshold now : ℕ)
        → view (prune_stale_services threshold now s).0
          ≡ drop_entries (keep_fresh threshold now) (view s)
    view-prune_stale_services threshold now = elim (Bool-cases s.closed) [
      | inl shut ↦ unfold prune_stale_services in rw shut refl
      | inr opened ↦
          let stale = stale_ids threshold now heap descriptors in
          rw (prune_open threshold now s opened) (
            view-Unsets stale s (unset_all stale s) v (unset_all-Unsets stale s v opened)
              (keep_fresh threshold now) opened (stale_at threshold now))
    ]

    -- The entries stay when the heap keeps ids, routes and times.
    entry_at-same :
        (k : Heap P)
        → ((p : Ref) → (k p).id ≡ (heap p).id)
        → ((p : Ref) → (k p).route_descriptors ≡ (heap p).route_descriptors)
        → ((p : Ref) → (k p).last_seen_at ≡ (heap p).last_seen_at)
        → (n i : String) → entry_at (record s { heap = k }) n i ≡ entry_at s n i
    entry_at-same k ids routes times n i =
        elim (Option-cases (find_id heap i (slice_at n services_by_name))) [
          | inl absent ↦
              ground (arith, absent, find_id-SameIds heap k ids i (slice_at n services_by_name))
          | inr (p, found) ↦ ground (
            arith,
            found,
            find_id-SameIds heap k ids i (slice_at n services_by_name),
            routes p,
            times p,
          )
        ]

    pub view-unmap_socket : (socket : String) → view (unmap_socket socket s) ≡ unpin socket (view s)
    view-unmap_socket socket = elim (Bool-cases s.closed) [
      | inl shut ↦ rw (unmap_same socket s v (inl shut), shut) refl
      | inr opened ↦ elim (Option-cases (lookup socket socket_to_instance)) [
        | inl unmapped ↦ rw (unmap_same socket s v (inr unmapped)) (
            Registry-ext (view s) _ (rw opened refl) (λ n i. rw opened refl)
              (λ n k. ground (arith, opened, unmapped, eq_iff k socket)))
        | inr (services, mapped) ↦
            let gone = removes socket s v services mapped in
            rw (unmap_mapped socket s v services opened mapped) (
              Registry-ext (view (unmapped_from socket s v services)) _ (rw opened refl)
                (λ n i. rw opened (
                  entry_at-same (left_heap socket s v services) gone.names.ids gone.same_routes
                    gone.same_times n i))
                (λ n k. ground (
                  arith,
                  opened,
                  pin_left socket s v services mapped n k,
                  eq_iff k socket,
                  eq_iff socket k,
                )))
      ]
    ]

    pub view-assigned_to :
        (name socket : String) (target : Ref)
        → view (assigned_to name socket s target) ≡ assign name socket (heap target).id (view s)
    view-assigned_to name socket target =
        let d = add_socket socket (heap target) in
        Registry-ext (view (assigned_to name socket s target)) _ refl
          (entry_at-same (store heap target d) (store-SameNames heap target d refl refl).ids
            (λ p. ground (arith, nat_eq_iff target p)) (λ p. ground (arith, nat_eq_iff target p)))
          (λ n k. ground (
            arith,
            pin-add_pin name socket (heap target).id socket_to_instance n k,
            eq_iff n name,
            eq_iff name n,
            eq_iff k socket,
            eq_iff socket k,
          ))
