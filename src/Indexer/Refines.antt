-- ===== src/Indexer/Refines.antt =====
-- The indexer does what Indexer/Spec promises: each call is a step of the registry that its view is.
use eurus.Prelude.{
  ℕ, Bool, true, String, List, [], ◌∷◌, is_empty, Option, none, some, false, ◌≡◌, ◌≢◌, refl, arith,
  ap, sym, ◌∙◌, inl, inr, Option-cases, Bool-cases, ◌==◌, ◌&&◌, string_eq, nat_eq, nat_eq_iff,
  if◌then◌else◌,
}
use text.Mathlib.TextEquality.{eq_iff}
use eurus.Descriptor.{Ref, Heap}
use eurus.Indexer.{State, new, slice_at, find_id, set_service_descriptor, close}
use eurus.Indexer.Sockets.{pin, map_socket}
use eurus.Indexer.Instances.{find_id_sound, find_id_self, find_id-SameIds}
use eurus.Indexer.Valid.{IsValid}
use eurus.Indexer.Registered.{registered, slice_at-registered, fresh_at}
use eurus.Indexer.Announce.{
  IsAnnounceable, refreshed, stamped, set_closed, unknown, set_known, set_new, stamped_names,
  find_id-stamped, found_new, refreshed_names,
}
use eurus.Indexer.Balance.{map_socket_cases, map_socket-least}
use eurus.Indexer.Histories as Concrete
use eurus.Indexer.Pinning.{map_closed, map_pinned, map_unavailable}
use eurus.Indexer.Spec.{
  Entry, empty, announce, Call, announcing, unsetting, pruning, mapping, unmapping, closing, Maps,
  Does, DoAll,
}
use eurus.Indexer.Views.{
  entry_of, entry_at, view, Registry-ext, view-unset_service, view-prune_stale_services,
  view-unmap_socket, view-assigned_to,
}

module _ {P : Type 0} (now : ℕ) (p : Ref) (s : State P) (v : IsValid s)
    (a : IsAnnounceable s p) where
  open s use {heap, descriptors, services_by_name}

  -- The entry of the announced instance is new, and the others stay.
  abbrev announced_at : String → String → Option (Entry P)
  announced_at n i =
      if n == (heap p).name && i == (heap p).id
      then some (record { routes = (heap p).route_descriptors; seen = some now })
      else entry_at s n i

  entry_at-refreshed :
      (q : Ref)
      → find_id heap (heap p).id (slice_at (heap p).name services_by_name) ≡ some q
      → (n i : String) → entry_at (record s { heap = refreshed now p s q }) n i ≡ announced_at n i
  entry_at-refreshed q known n i =
      elim (Option-cases (find_id heap i (slice_at n services_by_name))) [
        | inl absent ↦ ground (
          arith,
          known,
          absent,
          find_id-SameIds heap (refreshed now p s q) (refreshed_names now p s v.registry q).ids i
              (slice_at n services_by_name),
          eq_iff n (heap p).name,
          eq_iff i (heap p).id,
        )
        | inr (r, found) ↦
            let (c, same) = find_id_sound heap i (slice_at n services_by_name) r found in
            let (d, is_id) =
              find_id_sound heap _ (slice_at (heap p).name services_by_name) q known in
            ground (
              arith,
              known,
              found,
              find_id-SameIds heap (refreshed now p s q) (refreshed_names now p s v.registry q).ids
                  i (slice_at n services_by_name),
              v.registry.named n r c,
              v.registry.named (heap p).name q d,
              is_id,
              same,
              nat_eq_iff q r,
              eq_iff n (heap p).name,
              eq_iff i (heap p).id,
            )
      ]

  module _
      (absent : find_id heap (heap p).id (slice_at (heap p).name services_by_name) ≡ none) where
    abbrev added : State P
    added = registered (record s { heap = stamped now p s }) p

    absent_at : (n : String) → find_id heap (heap p).id (slice_at n services_by_name) ≡ none
    absent_at = fresh_at s p v.registry (unknown now p s v.registry a absent)

    entry_at-added :
        entry_at added (heap p).name (heap p).id
        ≡ some (record { routes = (heap p).route_descriptors; seen = some now })
    entry_at-added = ground (arith, found_new now p s v.registry absent, nat_eq_iff p p)

    entry_at-added_here : (n : String) → entry_at added n (heap p).id ≡ announced_at n (heap p).id
    entry_at-added_here n = elim (Bool-cases (n == (heap p).name)) [
      | inl same ↦
          ap (λ m. entry_at added m (heap p).id) ((eq_iff n (heap p).name).0 same)
          ∙ entry_at-added
          ∙ ground (arith, same, eq_iff (heap p).id (heap p).id)
      | inr other ↦ ground (
        arith,
        absent_at n,
        other,
        slice_at-registered (record s { heap = stamped now p s }) p n,
        find_id-SameIds heap (stamped now p s) (stamped_names now p s v.registry).ids (heap p).id
            (slice_at n services_by_name),
        (stamped_names now p s v.registry).names p,
        eq_iff n (heap p).name,
        eq_iff (heap p).name n,
      )
    ]

    entry_at-added_other : (n i : String) → i ≢ (heap p).id → entry_at added n i ≡ announced_at n i
    entry_at-added_other n i other =
        elim (Option-cases (find_id heap i (slice_at n services_by_name))) [
          | inl nothing ↦
              ground
                (arith, nothing, find_id-stamped now p s v.registry n i other, eq_iff i (heap p).id)
          | inr (r, found) ↦
              let (c, same) = find_id_sound heap i (slice_at n services_by_name) r found in
              ground (
                arith,
                found,
                find_id-stamped now p s v.registry n i other,
                eq_iff i (heap p).id,
                same,
                nat_eq_iff p r,
              )
        ]

  pub view-set_service_descriptor :
      view (set_service_descriptor now p s) ≡ announce now (heap p) (view s)
  view-set_service_descriptor = elim (Bool-cases s.closed) [
    | inl shut ↦ rw (set_closed now p s shut, shut) refl
    | inr opened ↦
        elim (Option-cases (find_id heap (heap p).id (slice_at (heap p).name services_by_name))) [
          | inr (q, known) ↦ rw (set_known now p s v.registry q opened known) (
              Registry-ext (view (record s { heap = refreshed now p s q })) _ (rw opened refl)
                (λ n i. rw opened (entry_at-refreshed q known n i)) (λ n k. rw opened refl))
          | inl absent ↦ rw (set_new now p s v.registry opened absent) (
              Registry-ext (view (added absent)) _ (rw opened refl)
                (λ n i. rw opened (entry_at-new absent n i)) (λ n k. rw opened refl))
        ]
  ]
    where
      entry_at-new :
          (absent : find_id heap (heap p).id (slice_at (heap p).name services_by_name) ≡ none)
          (n i : String)
          → entry_at (added absent) n i ≡ announced_at n i
      entry_at-new absent n i = elim (Bool-cases (i == (heap p).id)) [
        | inl here ↦
            let e = (eq_iff i (heap p).id).0 here in
            ap (entry_at (added absent) n) e
            ∙ entry_at-added_here absent n
            ∙ ap (announced_at n) (sym e)
        | inr other ↦ entry_at-added_other absent n i (λ e. ground (arith, eq_iff i (heap p).id))
      ]

module _ {P : Type 0} where
  module _ (name socket : String) (s : State P) (v : IsValid s) where
    -- An unmapped socket of a service that has instances.
    assigns :
        s.closed ≡ false
        → pin name socket s.socket_to_instance ≡ none
        → is_empty (slice_at name s.services_by_name) ≡ false
        → Maps name socket false none (view s) (view (map_socket name socket s).0)
    assigns opened unmapped some_left = elim (map_socket_cases name socket s) [
      | inl e ↦ absurd (cc ((map_socket-least name socket s opened unmapped some_left).0, e))
      | inr (inl kept) ↦ absurd (cc (unmapped, kept.mapped))
      | inr (inr a) ↦ inr (
        (s.heap a.target).id,
        entry_of (s.heap a.target),
        ground (
          arith,
          find_id_self s.heap (slice_at name s.services_by_name) a.target
              (v.registry.ids_by_name name) a.member,
        ),
        ap (λ r. view r.0) a.outcome ∙ view-assigned_to s v name socket a.target,
      )
    ]

    none_at :
        is_empty (slice_at name s.services_by_name) ≡ true
        → (id : String) → entry_at s name id ≡ none
    none_at e id = ground (arith, e)

    Maps-by_case :
        (closed : Bool) (pinned : Option String)
        → s.closed ≡ closed
        → pin name socket s.socket_to_instance ≡ pinned
        → Maps name socket closed pinned (view s) (view (map_socket name socket s).0)
    Maps-by_case true pinned shut e = ap (λ r. view r.0) (map_closed name socket s shut)
    Maps-by_case false (some id) opened mapped =
        ap (λ r. view r.0) (map_pinned name socket s id opened mapped)
    Maps-by_case false none opened unmapped =
        elim (Bool-cases (is_empty (slice_at name s.services_by_name))) [
          | inl e ↦
              inl (none_at e, ap (λ r. view r.0) (map_unavailable name socket s opened unmapped e))
          | inr some_left ↦ assigns opened unmapped some_left
        ]

    map_socket-Does : Does (mapping name socket) (view s) (view (map_socket name socket s).0)
    map_socket-Does = Maps-by_case s.closed (pin name socket s.socket_to_instance) refl refl

  -- The call that a step of the indexer is.
  abbrev pub call_of : {s t : State P} → Concrete.Step s t → Call P
  call_of {s} (Concrete.Step.announced now p a) = announcing now (s.heap p)
  call_of (Concrete.Step.unset id) = unsetting id
  call_of (Concrete.Step.pruned threshold now) = pruning threshold now
  call_of (Concrete.Step.mapped name socket) = mapping name socket
  call_of (Concrete.Step.unmapped socket) = unmapping socket
  call_of Concrete.Step.closed = closing

  abbrev pub calls_of : {s t : State P} → Concrete.Reach s t → List (Call P)
  calls_of Concrete.Reach.here = []
  calls_of (Concrete.Reach.next r st) = call_of st ∷ calls_of r

  -- From a valid indexer, each call is that call of the registry.
  pub Step-refines :
      {s t : State P} → IsValid s → (st : Concrete.Step s t) → Does (call_of st) (view s) (view t)
  unfolding close
  Step-refines {s} v (Concrete.Step.announced now p a) = view-set_service_descriptor now p s v a
  Step-refines {s} v (Concrete.Step.unset id) = view-unset_service s v id
  Step-refines {s} v (Concrete.Step.pruned threshold now) =
      view-prune_stale_services s v threshold now
  Step-refines {s} v (Concrete.Step.mapped name socket) = map_socket-Does name socket s v
  Step-refines {s} v (Concrete.Step.unmapped socket) = view-unmap_socket s v socket
  Step-refines {s} v Concrete.Step.closed = refl

  -- After any sequence of calls from an empty indexer, announcements being of descriptors that may
  -- be announced, the view of the indexer is what the same calls, with the same arguments and in
  -- the same order, make of an empty registry that knows neither pointers nor lists of sockets. In
  -- the registry an announcement writes one entry, removing an instance and pruning drop just the
  -- entries that they are about and the pins to them, an unmapping drops the pins of its socket,
  -- closing empties it, and a mapping keeps the pin that the socket has for the service, pins it
  -- to some entry of the service if it has none, and changes nothing if the service has no entry;
  -- closed, it changes by none of these.
  pub Reach-refines :
      (h : Heap P) {t : State P} (r : Concrete.Reach (Concrete.start h) t)
      → DoAll (calls_of r) (empty false) (view t)
  unfolding Concrete.start new
  Reach-refines h Concrete.Reach.here = refl
  Reach-refines h (Concrete.Reach.next {t} r st) =
      (view t, Reach-refines h r, Step-refines (Concrete.Reach-IsValid h r) st)
