-- ===== src/Indexer/Tests.antt =====
-- Runs of the indexer on the inputs of gateway-service-indexer_test.go, and the theorems at them.
-- A pattern is a text, and it matches the path that it spells.
use eurus.Prelude.{
  String, List, [], ◌∷◌, none, some, true, false, ◌≡◌, ◌≢◌, ◌≤◌, refl, arith, ◌==◌, ◌⊎◌, string_eq,
  nat_eq, if◌then◌else◌, contains, length,
}
use text.Mathlib.Text.{◌==◌ as str_beq}
use text.Mathlib.TextEquality.{eq_iff}
use eurus.Descriptor.{RouteDescriptor, ServiceDescriptor, Ref, Heap}
use eurus.Indexer.{
  State, new, close, set_service_descriptor, unset_service, unset_all, prune_stale_services,
  fresh_service_descriptors, resolve_service, slice_at, find_id,
}
use eurus.Indexer.Sockets.{pin, map_socket, unmap_socket, socket_ids_by_service_instance}
use eurus.Indexer.Valid.{IsValid}
use eurus.Indexer.Announce.{IsAnnounceable, set_service_descriptor-finds}
use eurus.Indexer.Spec.{DoAll, empty as empty_registry}
use eurus.Indexer.Views.{view, entry_of}
use eurus.Indexer.Refines.{calls_of, Reach-refines}
use eurus.Indexer.Silence.{Quiet, silent_instance_goes}
use eurus.Indexer.Views.{entry_at}
use eurus.Indexer.Histories.{
  unmapped, start, Reach, here, next, announced, unset, mapped, Reach-IsValid, Step-pin,
}
use eurus.Indexer.Balance.{map_socket-least, map_socket-pins}
use eurus.Indexer.Unmap.{Forgets, unmap_socket-Forgets}
use eurus.Indexer.Prune.{Prunes, prune_stale_services-Prunes}
use eurus.Indexer.Resolve.{Serves, resolve_service_sound, resolve_service_complete}

program : Unit {0}
unfolding start new close set_service_descriptor unset_service unset_all prune_stale_services
    fresh_service_descriptors resolve_service map_socket unmap_socket socket_ids_by_service_instance
program = tt

abbrev route : String → List (RouteDescriptor String)
route p = record { pattern = p } ∷ []

abbrev instance_of : String → String → String → ServiceDescriptor String
instance_of name id p = record {
  name = name;
  id = id;
  gateway_names = [];
  route_descriptors = route p;
  last_seen_at = none;
  socket_ids = [];
}

-- What the announcements will bring: two instances of one service and one of another.
abbrev memory : Heap String
memory p =
    if p == 0
    then instance_of "chat" "a1" "/chat"
    else if p == 1
    then instance_of "chat" "a2" "/chat"
    else instance_of "users" "b1" "/users"

abbrev empty : State String
empty = start memory

abbrev one : State String
one = set_service_descriptor 10 0 empty

abbrev two : State String
two = set_service_descriptor 20 1 one

abbrev three : State String
three = set_service_descriptor 30 2 two

abbrev paired : State String
paired = (map_socket "chat" "k1" three).0

abbrev full : State String
full = (map_socket "chat" "k2" paired).0

balance : ((map_socket "chat" "k1" three).1 ≡ "a1") × ((map_socket "chat" "k2" paired).1 ≡ "a2")
unfolding program
balance = (refl, refl)

resolves :
    (resolve_service str_beq "/users" full ≡ ("users", true))
    × (resolve_service str_beq "/none" full ≡ ("", false))
unfolding program
resolves = (refl, refl)

prunes : (prune_stale_services 15 30 full).1 ≡ "a1" ∷ []
unfolding program
prunes = refl

prunes_sockets : (prune_stale_services 15 30 full).2 ≡ "k1" ∷ []
unfolding program
prunes_sockets = refl

one-IsAnnounceable : IsAnnounceable empty 0
unfolding program
one-IsAnnounceable = record {
  has_name = λ e. ground (arith, eq_iff "chat" "");
  one_name = λ q e. cc;
  no_sockets = λ e. refl;
}

two-IsAnnounceable : IsAnnounceable one 1
unfolding program
two-IsAnnounceable = record {
  has_name = λ e. ground (arith, eq_iff "chat" "");
  one_name = λ q e. cc;
  no_sockets = λ e. refl;
}

three-IsAnnounceable : IsAnnounceable two 2
unfolding program
three-IsAnnounceable = record {
  has_name = λ e. ground (arith, eq_iff "users" "");
  one_name = λ q e. cc;
  no_sockets = λ e. refl;
}

history : Reach empty full
history =
    next
      (next
        (next
          (next (next here (announced 10 0 one-IsAnnounceable)) (announced 20 1 two-IsAnnounceable))
          (announced 30 2 three-IsAnnounceable))
        (mapped "chat" "k1"))
      (mapped "chat" "k2")

full-IsValid : IsValid full
full-IsValid = Reach-IsValid memory history

-- After the unmapping of a socket a pruning finds the first instance stale, and then a socket is mapped.
abbrev pruned_full : State String
pruned_full = (prune_stale_services 15 30 (unmap_socket "k2" full)).0

silent_instance_goes_example :
    (entry_at (map_socket "chat" "k3" pruned_full).0 "chat" "a1" ≡ none)
    × ((k : String)
        → pin "chat" k (map_socket "chat" "k3" pruned_full).0.socket_to_instance ≢ some "a1")
silent_instance_goes_example =
    silent_instance_goes "a1" "chat" 15 30 10 (entry_of (full.heap 0)) full-IsValid known seen_at
      (Quiet.next Quiet.here (unmapped "k2") tt) opened (omega arith)
      (Quiet.next Quiet.here (mapped "chat" "k3") tt)
  where
    known : entry_at full "chat" "a1" ≡ some (entry_of (full.heap 0))
    known = unfold program in refl

    seen_at : (full.heap 0).last_seen_at ≡ some 10
    seen_at = unfold program in refl

    opened : (unmap_socket "k2" full).closed ≡ false
    opened = unfold program in refl

Reach-IsValid_example : IsValid full
Reach-IsValid_example = Reach-IsValid memory history

Reach-refines_example : DoAll (calls_of history) (empty_registry false) (view full)
Reach-refines_example = Reach-refines memory history

-- The registry that the history leads to.
seen_in_view :
    ((view full).entries "chat" "a1" ≡ some (entry_of (full.heap 0)))
    × ((view full).pins "chat" "k2" ≡ pin "chat" "k2" full.socket_to_instance)
unfolding program
seen_in_view = (refl, refl)

pinned_k1 : pin "chat" "k1" full.socket_to_instance ≡ some "a1"
unfolding program
pinned_k1 = refl

open_full : full.closed ≡ false
unfolding program
open_full = refl

Step-pin_example :
    (pin "chat" "k1" (unset_service "a1" full).socket_to_instance ≡ some "a1")
    ⊎ (pin "chat" "k1" (unset_service "a1" full).socket_to_instance ≡ none)
Step-pin_example = Step-pin "chat" "k1" "a1" full-IsValid (unset "a1") pinned_k1

map_socket-least_example :
    ((map_socket "chat" "k1" three).2 ≡ true)
    × (target : Ref) × (contains target (slice_at "chat" three.services_by_name) ≡ true)
    × ((map_socket "chat" "k1" three).1 ≡ (three.heap target).id)
    × ((p : Ref)
        → contains p (slice_at "chat" three.services_by_name) ≡ true
        → length (three.heap target).socket_ids ≤ length (three.heap p).socket_ids)
unfolding program
map_socket-least_example = map_socket-least "chat" "k1" three refl refl refl

map_socket-pins_example :
    (pin "chat" "k1" paired.socket_to_instance ≡ some (map_socket "chat" "k1" three).1)
    × (map_socket "chat" "k1" paired ≡ (paired, (map_socket "chat" "k1" three).1, false, none))
unfolding program
map_socket-pins_example = map_socket-pins "chat" "k1" three (λ e. ground (arith, eq_iff "a1" ""))

set_service_descriptor-finds_example :
    let t = set_service_descriptor 40 0 full in
    ((q : Ref) × (find_id t.heap "a1" (slice_at "chat" t.services_by_name) ≡ some q)
      × ((t.heap q).route_descriptors ≡ route "/chat")
      × ((t.heap q).last_seen_at ≡ some 40))
    × ((n j : String)
        → j ≢ "a1"
        → find_id t.heap j (slice_at n t.services_by_name)
          ≡ find_id full.heap j (slice_at n full.services_by_name))
unfolding program
set_service_descriptor-finds_example =
    set_service_descriptor-finds 40 0 full full-IsValid.registry open_full

unmap_socket-Forgets_example : Forgets "k1" full (unmap_socket "k1" full)
unmap_socket-Forgets_example = unmap_socket-Forgets "k1" full full-IsValid open_full

prune_stale_services-Prunes_example :
    Prunes 15 30 full (prune_stale_services 15 30 full).0 (prune_stale_services 15 30 full).2
prune_stale_services-Prunes_example = prune_stale_services-Prunes 15 30 full full-IsValid open_full

resolve_service_sound_example :
    (p : Ref) × (contains p
        (slice_at (resolve_service str_beq "/users" full).0 full.services_by_name)
      ≡ true)
    × Serves str_beq "/users" (full.heap p).route_descriptors
resolve_service_sound_example =
    resolve_service_sound str_beq "/users" full full-IsValid.registry.names found
  where
    found : (resolve_service str_beq "/users" full).1 ≡ true
    found = unfold program in refl

resolve_service_complete_example : (resolve_service str_beq "/chat" full).1 ≡ true
unfolding program
resolve_service_complete_example =
    resolve_service_complete str_beq "/chat" full full-IsValid.registry.names open_full "chat" 1
      refl (Serves.here refl)
