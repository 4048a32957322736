-- ===== src/Indexer/Pinning.antt =====
-- MapSocket: the socket is pinned to an instance with the fewest sockets, once.
use eurus.Prelude.{
  String, List, [], ◌∷◌, none, some, true, false, ◌≡◌, refl, arith, ◌==◌, ◌||◌, ◌&&◌, inl, inr,
  Bool-cases, is_empty, ◌∙◌, nat_eq, string_eq, nat_eq_iff, if◌then◌else◌, contains,
  contains-append, NoDup-snoc,
}
use text.Mathlib.TextEquality.{eq_iff}
use eurus.Descriptor.{Ref, store}
use eurus.Indexer.{State, slice_at, find_id}
use eurus.Indexer.Sockets.{map_socket, pin, add_pin, add_socket, least}
use eurus.Indexer.Instances.{find_id_self, find_id-SameIds}
use eurus.Indexer.Valid.{IsIndexed, IsPinned, IsValid}
use eurus.Indexer.Registered.{SameNames, SameNames-IsIndexed, store-SameNames}
use eurus.Indexer.Least.{pin-add_pin, Distinct-add_pin}

module _ {P : Type 0} (name socket : String) (s : State P) where
  open s use {heap, services_by_name, socket_to_instance}

  abbrev pub instances : List Ref
  instances = slice_at name services_by_name

  -- The state after a new mapping to the instance `target`.
  abbrev pub assigned_to : Ref → State P
  assigned_to target = record s {
    heap = store heap target (add_socket socket (heap target));
    indexer = record s.indexer {
      socket_to_instance = add_pin name socket (heap target).id socket_to_instance;
    };
  }

  pub map_closed : s.closed ≡ true → map_socket name socket s ≡ (s, "", false, none)
  unfolding map_socket
  map_closed shut = ground arith

  pub map_pinned :
      (id : String)
      → s.closed ≡ false
      → pin name socket socket_to_instance ≡ some id
      → map_socket name socket s ≡ (s, id, false, none)
  unfolding map_socket
  map_pinned id opened mapped = ground arith

  pub map_unavailable :
      s.closed ≡ false
      → pin name socket socket_to_instance ≡ none
      → is_empty instances ≡ true
      → map_socket name socket s ≡ (s, "", false, none)
  unfolding map_socket
  map_unavailable opened unmapped e = ground arith

  pub map_new :
      (target : Ref)
      → s.closed ≡ false
      → pin name socket socket_to_instance ≡ none
      → is_empty instances ≡ false
      → least heap none instances ≡ some target
      → map_socket name socket s ≡ (assigned_to target, (heap target).id, true, none)
  unfolding map_socket
  map_new target opened unmapped e found = ground arith

  module _ (v : IsIndexed s) (pinned : IsPinned s) (target : Ref)
      (member : contains target instances ≡ true)
      (unmapped : pin name socket socket_to_instance ≡ none) where
    names_kept : SameNames heap (assigned_to target).heap
    names_kept = store-SameNames heap target (add_socket socket (heap target)) refl refl

    not_listed : contains socket (heap target).socket_ids ≡ false
    not_listed = ground (arith, pinned.assigned name socket target member)

    heap_after :
        (p : Ref)
        → (assigned_to target).heap p
          ≡ (if target == p then add_socket socket (heap target) else heap p)
    heap_after p = refl

    listed_after :
        (k : String) (p : Ref)
        → contains k ((assigned_to target).heap p).socket_ids
          ≡ (contains k (heap p).socket_ids || (target == p && socket == k))
    listed_after k p =
        ground
          (arith, nat_eq_iff target p, contains-append k (heap target).socket_ids (socket ∷ []))

    pin_after :
        (n k : String)
        → pin n k (assigned_to target).socket_to_instance
          ≡ (if name == n && socket == k then some (heap target).id else pin n k socket_to_instance)
    pin_after n k = pin-add_pin name socket (heap target).id socket_to_instance n k

    found_target : find_id heap (heap target).id instances ≡ some target
    found_target = find_id_self heap instances target (v.ids_by_name name) member

    live_after :
        (n k i : String)
        → pin n k (assigned_to target).socket_to_instance ≡ some i
        → (p : Ref) × (find_id (assigned_to target).heap i (slice_at n services_by_name) ≡ some p)
          × (contains k ((assigned_to target).heap p).socket_ids ≡ true)
    live_after n k i e = elim (Bool-cases (name == n && socket == k)) [
      | inl here ↦ (
        target,
        find_id-SameIds heap (assigned_to target).heap names_kept.ids i
              (slice_at n services_by_name)
            ∙ ground (arith, eq_iff name n, pin_after n k, found_target),
        ground (arith, listed_after k target, nat_eq_iff target target),
      )
      | inr elsewhere ↦
          let (p, found, has) = pinned.live n k i (ground (arith, pin_after n k)) in
          (
            p,
            find_id-SameIds heap (assigned_to target).heap names_kept.ids i
                  (slice_at n services_by_name)
                ∙ found,
            ground (arith, listed_after k p),
          )
    ]

    assigned_after :
        (n k : String) (p : Ref)
        → contains p (slice_at n services_by_name) ≡ true
        → contains k ((assigned_to target).heap p).socket_ids ≡ true
        → pin n k (assigned_to target).socket_to_instance ≡ some ((assigned_to target).heap p).id
    assigned_after n k p c has = rw (names_kept.ids p) (
        ground (
          arith,
          listed_after k p,
          pin_after n k,
          nat_eq_iff target p,
          eq_iff name n,
          eq_iff socket k,
          v.named n p c,
          v.named name target member,
          pinned.assigned n k p c,
        ))

    pub assigned_to-IsValid : IsValid (assigned_to target)
    assigned_to-IsValid = record {
      registry =
          let w = SameNames-IsIndexed s (assigned_to target).heap names_kept v in
          record {
            names = w.names;
            ids = w.ids;
            ids_by_name = w.ids_by_name;
            named = w.named;
            indexed = w.indexed;
            no_empty_name = w.no_empty_name;
          };
      pins = record {
        sockets = Distinct-add_pin name socket (heap target).id socket_to_instance pinned.sockets;
        live = live_after;
        assigned = assigned_after;
        once = λ n p c. ground (
          arith,
          nat_eq_iff target p,
          pinned.once n p c,
          NoDup-snoc socket (heap p).socket_ids (pinned.once n p c),
          not_listed,
        );
      };
    }
