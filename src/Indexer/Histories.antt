-- ===== src/Indexer/Histories.antt =====
-- A GatewayServiceIndexer over time: the calls come in any order, one after another.
use eurus.Prelude.{
  ℕ, String, List, Option, none, some, true, ◌≡◌, refl, arith, ◌⊎◌, inl, inr, Bool-cases, string_eq,
}
use text.Mathlib.TextEquality.{eq_iff}
use eurus.Descriptor.{Ref, Heap}
use eurus.Indexer.{State, new, close, set_service_descriptor, unset_service, prune_stale_services}
use eurus.Indexer.Sockets.{pin, map_socket, unmap_socket}
use eurus.Indexer.Valid.{IsValid}
use eurus.Indexer.Announce.{IsAnnounceable, set_service_descriptor-IsValid}
use eurus.Indexer.Unset.{without, unset_service-IsValid, unset_service-pins}
use eurus.Indexer.Least.{pin-add_pin}
use eurus.Indexer.Balance.{map_socket_cases, map_socket-IsValid}
use eurus.Indexer.Unmap.{unmap_socket-IsValid, unmap_socket-Forgets}
use eurus.Indexer.Prune.{without_all, prune_stale_services-Prunes}

-- What a call leaves of a pin: the pin itself, or nothing.
abbrev KeepsOrDrops : Option String → Option String → Type 0
KeepsOrDrops before after = (after ≡ before) ⊎ (after ≡ none)

without_drops : (id : String) (o : Option String) → KeepsOrDrops o (without id o)
without_drops id o = ground arith

without_all_drops : (ids : List String) (o : Option String) → KeepsOrDrops o (without_all ids o)
without_all_drops ids o = ground arith

module _ {P : Type 0} where
  -- The heap holds the descriptors that announcements will bring, at the pointers that bring them.
  pub data Step (s : State P) : State P → Type 0 where
    announced : (now : ℕ) (p : Ref) → IsAnnounceable s p → Step s (set_service_descriptor now p s)
    unset : (id : String) → Step s (unset_service id s)
    pruned : (threshold now : ℕ) → Step s (prune_stale_services threshold now s).0
    mapped : (name socket : String) → Step s (map_socket name socket s).0
    unmapped : (socket : String) → Step s (unmap_socket socket s)
    closed : Step s (close s)

  pub data Reach (s : State P) : State P → Type 0 where
    here : Reach s s
    next : {t u : State P} → Reach s t → Step t u → Reach s u

  unfoldable pub start : Heap P → State P
  unfolding new
  start h = record { heap = h; indexer = new }

  start-IsValid : (h : Heap P) → IsValid (start h)
  unfolding start
  start-IsValid h = record {
    registry = record {
      names = tt;
      ids = tt;
      ids_by_name = λ n. tt;
      named = λ n p c. cc;
      indexed = λ p. refl;
      no_empty_name = refl;
    };
    pins = record {
      sockets = tt;
      live = λ n k i e. cc;
      assigned = λ n k p c. cc;
      once = λ n p c. cc;
    };
  }

  close-IsValid : (s : State P) → IsValid (close s)
  unfolding close
  close-IsValid s = record {
    registry = record {
      names = tt;
      ids = tt;
      ids_by_name = λ n. tt;
      named = λ n p c. cc;
      indexed = λ p. refl;
      no_empty_name = refl;
    };
    pins = record {
      sockets = tt;
      live = λ n k i e. cc;
      assigned = λ n k p c. cc;
      once = λ n p c. cc;
    };
  }

  prune_closed :
      (threshold now : ℕ) (s : State P)
      → s.closed ≡ true
      → (prune_stale_services threshold now s).0 ≡ s
  unfolding prune_stale_services
  prune_closed threshold now s shut = ground arith

  prune-IsValid :
      (threshold now : ℕ) (s : State P)
      → IsValid s
      → IsValid (prune_stale_services threshold now s).0
  prune-IsValid threshold now s v = elim (Bool-cases s.closed) [
    | inl shut ↦ rw (prune_closed threshold now s shut) v
    | inr opened ↦ (prune_stale_services-Prunes threshold now s v opened).valid
  ]

  pub Step-IsValid : {s t : State P} → Step s t → IsValid s → IsValid t
  Step-IsValid {s} (announced now p a) v = set_service_descriptor-IsValid now p s v a
  Step-IsValid {s} (unset id) v = unset_service-IsValid id s v
  Step-IsValid {s} (pruned threshold now) v = prune-IsValid threshold now s v
  Step-IsValid {s} (mapped name socket) v = map_socket-IsValid name socket s v
  Step-IsValid {s} (unmapped socket) v = unmap_socket-IsValid socket s v
  Step-IsValid {s} closed v = close-IsValid s

  -- From an empty indexer, after any sequence of announcements of descriptors that may be
  -- announced, removals, prunings, mappings, unmappings and closings, the tables of the indexer
  -- agree: an instance stands under its own name and in the list of all descriptors, an id belongs
  -- to one instance, and the sockets listed at an instance are those mapped to it, each once.
  pub Reach-IsValid : (h : Heap P) {t : State P} → Reach (start h) t → IsValid t
  Reach-IsValid h here = start-IsValid h
  Reach-IsValid h (next r st) = Step-IsValid st (Reach-IsValid h r)

  module _ (n k i : String) (s : State P) (v : IsValid s)
      (before : pin n k s.socket_to_instance ≡ some i) where
    announced_pin :
        (now : ℕ) (p : Ref) → pin n k (set_service_descriptor now p s).socket_to_instance ≡ some i
    unfolding set_service_descriptor
    announced_pin now p = ground arith

    mapped_pin :
        (name socket : String) → pin n k (map_socket name socket s).0.socket_to_instance ≡ some i
    mapped_pin name socket = elim (map_socket_cases name socket s) [
      | inl e ↦ rw e before
      | inr (inl kept) ↦ rw kept.outcome before
      | inr (inr a) ↦ rw a.outcome (
          ground (
            arith,
            pin-add_pin name socket (s.heap a.target).id s.socket_to_instance n k,
            a.unmapped,
            eq_iff name n,
            eq_iff socket k,
          ))
    ]

    unset_pin :
        (id : String) → KeepsOrDrops (some i) (pin n k (unset_service id s).socket_to_instance)
    unset_pin id = elim (Bool-cases s.closed) [
      | inl shut ↦ inl (unfold unset_service in ground arith)
      | inr opened ↦ ground (
        arith,
        unset_service-pins s id v.registry opened v.pins n k,
        without_drops id (pin n k s.socket_to_instance),
      )
    ]

    pruned_pin :
        (threshold now : ℕ)
        → KeepsOrDrops
            (some i)
            (pin n k (prune_stale_services threshold now s).0.socket_to_instance)
    pruned_pin threshold now = elim (Bool-cases s.closed) [
      | inl shut ↦ inl (rw (prune_closed threshold now s shut) before)
      | inr opened ↦ ground (arith, (prune_stale_services-Prunes threshold now s v opened).pins n k)
    ]

    unmapped_pin :
        (socket : String)
        → KeepsOrDrops (some i) (pin n k (unmap_socket socket s).socket_to_instance)
    unmapped_pin socket = elim (Bool-cases s.closed) [
      | inl shut ↦ inl (unfold unmap_socket in ground arith)
      | inr opened ↦ ground (
        arith,
        (unmap_socket-Forgets socket s v opened).unpinned n,
        (unmap_socket-Forgets socket s v opened).other_pins n k,
        eq_iff k socket,
      )
    ]

  -- From a valid indexer, a call never moves a mapped socket to another instance: its mapping
  -- stays as it is or is dropped.
  pub Step-pin :
      (n k i : String) {s t : State P}
      → IsValid s
      → Step s t
      → pin n k s.socket_to_instance ≡ some i
      → (pin n k t.socket_to_instance ≡ some i) ⊎ (pin n k t.socket_to_instance ≡ none)
  unfolding close
  Step-pin n k i {s} v (announced now p a) e = inl (announced_pin n k i s v e now p)
  Step-pin n k i {s} v (unset id) e = unset_pin n k i s v e id
  Step-pin n k i {s} v (pruned threshold now) e = pruned_pin n k i s v e threshold now
  Step-pin n k i {s} v (mapped name socket) e = inl (mapped_pin n k i s v e name socket)
  Step-pin n k i {s} v (unmapped socket) e = unmapped_pin n k i s v e socket
  Step-pin n k i {s} v closed e = inr refl
