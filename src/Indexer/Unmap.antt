-- ===== src/Indexer/Unmap.antt =====
-- UnmapSocket: the socket leaves every instance, and nothing else changes.
use eurus.Prelude.{
  String, List, [], ◌∷◌, none, some, true, false, ◌≡◌, ◌≢◌, refl, arith, ◌==◌, ◌⊎◌, inl, inr,
  Option-cases, Bool-cases, sym, ◌∙◌, nat_eq, string_eq, nat_eq_iff, if◌then◌else◌, contains, erase,
  NoDup, NoDup-erase, contains-erase_ne, contains-erase_self, contains-erase-le, Map, lookup,
  delete, lookup-delete, Distinct-delete,
}
use text.Mathlib.TextEquality.{eq_iff}
use eurus.Descriptor.{Ref, Heap, store}
use eurus.Indexer.{State, slice_at, find_id}
use eurus.Indexer.Sockets.{unmap_socket, pin, remove_socket, remove_everywhere}
use eurus.Indexer.Instances.{find_id_self, find_id-SameIds}
use eurus.Indexer.Valid.{IsPinned, IsValid}
use eurus.Indexer.Registered.{SameNames, SameNames-IsIndexed, store-SameNames}

-- What the removal of a socket from one or more instances leaves of a heap.
pub record Removes {P : Type 0} (socket : String) (h k : Heap P) : Type 0 where
  pub names : SameNames h k
  pub others :
      (j : String) (p : Ref)
      → j ≢ socket
      → contains j (k p).socket_ids ≡ contains j (h p).socket_ids
  pub gone :
      (p : Ref)
      → contains socket (h p).socket_ids ≡ false
      → contains socket (k p).socket_ids ≡ false
  pub once : (p : Ref) → NoDup (h p).socket_ids → NoDup (k p).socket_ids
  pub same_routes : (p : Ref) → (k p).route_descriptors ≡ (h p).route_descriptors
  pub same_times : (p : Ref) → (k p).last_seen_at ≡ (h p).last_seen_at

module _ {P : Type 0} (socket : String) where
  Removes-refl : (h : Heap P) → Removes socket h h
  Removes-refl h = record {
    names = record { ids = λ p. refl; names = λ p. refl };
    others = λ j p ne. refl;
    gone = λ p e. e;
    once = λ p d. d;
    same_routes = λ p. refl;
    same_times = λ p. refl;
  }

  Removes-trans : {h k l : Heap P} → Removes socket h k → Removes socket k l → Removes socket h l
  Removes-trans a b = record {
    names = record {
      ids = λ p. b.names.ids p ∙ a.names.ids p;
      names = λ p. b.names.names p ∙ a.names.names p;
    };
    others = λ j p ne. b.others j p ne ∙ a.others j p ne;
    gone = λ p e. b.gone p (a.gone p e);
    once = λ p d. b.once p (a.once p d);
    same_routes = λ p. b.same_routes p ∙ a.same_routes p;
    same_times = λ p. b.same_times p ∙ a.same_times p;
  }

  Removes-store :
      (h : Heap P) (q : Ref)
      → Removes socket h (store h q (record (h q) { socket_ids = erase socket (h q).socket_ids }))
  Removes-store h q = record {
    names = store-SameNames h q _ refl refl;
    others = λ j p ne.
        ground
          (arith, nat_eq_iff q p, contains-erase_ne socket j (h q).socket_ids (λ e. ne (sym e)));
    gone = λ p e. ground (arith, nat_eq_iff q p, contains-erase-le socket socket (h q).socket_ids);
    once = λ p d. ground (arith, nat_eq_iff q p, NoDup-erase socket (h p).socket_ids d, d);
    same_routes = λ p. ground (arith, nat_eq_iff q p);
    same_times = λ p. ground (arith, nat_eq_iff q p);
  }

  Removes-remove_socket :
      (id : String) (ps : List Ref) (h : Heap P) → Removes socket h (remove_socket socket id ps h)
  Removes-remove_socket id ps h = elim (Option-cases (find_id h id ps)) [
    | inl e ↦ rw (e, remove_socket) (Removes-refl h)
    | inr (q, e) ↦ rw (e, remove_socket) (Removes-store h q)
  ]

  Removes-everywhere :
      (by_name : Map String (List Ref)) (services : Map String String) (h : Heap P)
      → Removes socket h (remove_everywhere socket by_name services h)
  Removes-everywhere by_name [] h = Removes-refl h
  Removes-everywhere by_name ((n, id) ∷ services) h =
      Removes-trans (Removes-remove_socket id (slice_at n by_name) h)
        (Removes-everywhere by_name services (remove_socket socket id (slice_at n by_name) h))

  removed_here :
      (id : String) (ps : List Ref) (h : Heap P) (p : Ref)
      → find_id h id ps ≡ some p
      → NoDup (h p).socket_ids
      → contains socket (remove_socket socket id ps h p).socket_ids ≡ false
  removed_here id ps h p e d =
      ground (arith, e, nat_eq_iff p p, contains-erase_self socket (h p).socket_ids d)

  -- The instance that a service of the socket names loses the socket.
  removed_everywhere :
      (by_name : Map String (List Ref)) (services : Map String String) (h : Heap P) (n id : String)
      (p : Ref)
      → find_id h id (slice_at n by_name) ≡ some p
      → lookup n services ≡ some id
      → NoDup (h p).socket_ids
      → contains socket (remove_everywhere socket by_name services h p).socket_ids ≡ false
  removed_everywhere by_name [] h n id p e f d = cc
  removed_everywhere by_name ((m, j) ∷ services) h n id p e f d = elim (Bool-cases (m == n)) [
    | inl here ↦
        (Removes-everywhere by_name services after).gone p
          (removed_here j (slice_at m by_name) h p (ground (arith, eq_iff m n)) d)
    | inr elsewhere ↦
        removed_everywhere by_name services after n id p
          (find_id-SameIds h after one.names.ids id (slice_at n by_name) ∙ e) (ground arith)
          (one.once p d)
  ]
    where
      after : Heap P
      after = remove_socket socket j (slice_at m by_name) h

      one : Removes socket h after
      one = Removes-remove_socket j (slice_at m by_name) h

module _ {P : Type 0} (socket : String) (s : State P) where
  open s use {heap, services_by_name, socket_to_instance}

  -- After UnmapSocket the socket has no mapping and no instance lists it; every other socket keeps
  -- its mappings and its places.
  pub record Forgets (t : State P) : Type 0 where
    pub unpinned : (n : String) → pin n socket t.socket_to_instance ≡ none
    pub unlisted :
        (n : String) (p : Ref)
        → contains p (slice_at n t.services_by_name) ≡ true
        → contains socket (t.heap p).socket_ids ≡ false
    pub other_pins :
        (n k : String) → k ≢ socket → pin n k t.socket_to_instance ≡ pin n k socket_to_instance
    pub other_places :
        (k : String) (p : Ref)
        → k ≢ socket
        → contains k (t.heap p).socket_ids ≡ contains k (heap p).socket_ids

module _ {P : Type 0} (socket : String) (s : State P) (v : IsValid s) where
  open s use {heap, services_by_name, socket_to_instance}

  abbrev pub left_heap : Map String String → Heap P
  left_heap services = remove_everywhere socket services_by_name services heap

  -- The state after the removal of the mappings `services` of the socket.
  abbrev pub unmapped_from : Map String String → State P
  unmapped_from services = record s {
    heap = left_heap services;
    indexer = record s.indexer { socket_to_instance = delete socket socket_to_instance };
  }

  module _ (services : Map String String)
      (mapped : lookup socket socket_to_instance ≡ some services) where
    pub removes : Removes socket heap (left_heap services)
    removes = Removes-everywhere socket services_by_name services heap

    pub pin_left :
        (n k : String)
        → pin n k (delete socket socket_to_instance)
          ≡ (if socket == k then none else pin n k socket_to_instance)
    pin_left n k = ground (arith, eq_iff socket k, lookup-delete socket k socket_to_instance)

    -- No instance of a service lists the socket any more.
    not_listed :
        (n : String) (p : Ref)
        → contains p (slice_at n services_by_name) ≡ true
        → contains socket (left_heap services p).socket_ids ≡ false
    not_listed n p c = elim (Bool-cases (contains socket (heap p).socket_ids)) [
      | inr absent ↦ removes.gone p absent
      | inl present ↦
          removed_everywhere socket services_by_name services heap n (heap p).id p
            (find_id_self heap (slice_at n services_by_name) p (v.registry.ids_by_name n) c)
            (ground (arith, mapped, v.pins.assigned n socket p c present)) (v.pins.once n p c)
    ]

    unmapped_from-IsPinned : IsPinned (unmapped_from services)
    unmapped_from-IsPinned = record {
      sockets = Distinct-delete socket socket_to_instance v.pins.sockets;
      live = λ n k i e.
          let (p, found, has) = v.pins.live n k i (ground (arith, pin_left n k)) in
          (
            p,
            find_id-SameIds heap (left_heap services) removes.names.ids i
                  (slice_at n services_by_name)
                ∙ found,
            removes.others k p (λ same. ground (arith, pin_left n k, eq_iff socket k)) ∙ has,
          );
      assigned = λ n k p c has. ground (
        arith,
        pin_left n k,
        eq_iff socket k,
        not_listed n p c,
        removes.others k p,
        removes.names.ids p,
        v.pins.assigned n k p c,
      );
      once = λ n p c. removes.once p (v.pins.once n p c);
    }

    unmapped_from-IsValid : IsValid (unmapped_from services)
    unmapped_from-IsValid = record {
      registry =
          let w = SameNames-IsIndexed s (left_heap services) removes.names v.registry in
          record {
            names = w.names;
            ids = w.ids;
            ids_by_name = w.ids_by_name;
            named = w.named;
            indexed = w.indexed;
            no_empty_name = w.no_empty_name;
          };
      pins = unmapped_from-IsPinned;
    }

  pub unmap_same :
      (s.closed ≡ true) ⊎ (lookup socket socket_to_instance ≡ none) → unmap_socket socket s ≡ s
  unfolding unmap_socket
  unmap_same h = ground arith

  pub unmap_mapped :
      (services : Map String String)
      → s.closed ≡ false
      → lookup socket socket_to_instance ≡ some services
      → unmap_socket socket s ≡ unmapped_from services
  unfolding unmap_socket
  unmap_mapped services opened mapped = ground arith

  pub unmap_cases :
      (Q : State P → Type 0)
      → Q s
      → ((services : Map String String)
          → lookup socket socket_to_instance ≡ some services
          → Q (unmapped_from services))
      → Q (unmap_socket socket s)
  unmap_cases Q same left = elim (Bool-cases s.closed) [
    | inl shut ↦ rw (unmap_same (inl shut)) same
    | inr opened ↦ elim (Option-cases (lookup socket socket_to_instance)) [
      | inl unmapped ↦ rw (unmap_same (inr unmapped)) same
      | inr (services, mapped) ↦ rw (unmap_mapped services opened mapped) (left services mapped)
    ]
  ]

  -- UnmapSocket keeps the tables consistent.
  pub unmap_socket-IsValid : IsValid (unmap_socket socket s)
  unmap_socket-IsValid = unmap_cases IsValid v unmapped_from-IsValid

  -- In a valid open indexer UnmapSocket removes each mapping of the socket and the socket from
  -- each instance, and changes nothing of the other sockets.
  pub unmap_socket-Forgets : s.closed ≡ false → Forgets socket s (unmap_socket socket s)
  unmap_socket-Forgets opened = elim (Option-cases (lookup socket socket_to_instance)) [
    | inl unmapped ↦ rw (unmap_same (inr unmapped)) (record {
      unpinned = λ n. ground arith;
      unlisted = λ n p c. ground (arith, v.pins.assigned n socket p c);
      other_pins = λ n k ne. refl;
      other_places = λ k p ne. refl;
    })
    | inr (services, mapped) ↦ rw (unmap_mapped services opened mapped) (record {
      unpinned = λ n. ground (arith, pin_left services mapped n socket, eq_iff socket socket);
      unlisted = not_listed services mapped;
      other_pins = λ n k ne. ground (arith, pin_left services mapped n k, eq_iff socket k);
      other_places = (removes services mapped).others;
    })
  ]

pub closed-unmap_socket :
    {P : Type 0} (socket : String) (s : State P) → (unmap_socket socket s).closed ≡ s.closed
unfolding unmap_socket
closed-unmap_socket socket s = ground arith
