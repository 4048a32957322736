-- ===== src/Gateway/Tests.antt =====
-- Runs of a gateway with two instances of one service and two clients, and the theorems at them. A
-- pattern is a text, and it matches the path that it spells; messages and connection data are
-- numbers.
mod Races
use eurus.Prelude.{
  ℕ, ◌<◌, String, List, [], ◌∷◌, ◌++◌, none, some, true, false, ◌≡◌, refl, arith, ◌==◌, string_eq,
  nat_eq, if◌then◌else◌, contains, lookup, length,
}
use text.Mathlib.Text.{◌==◌ as str_beq}
use text.Mathlib.TextEquality.{eq_iff}
use eurus.Descriptor.{ServiceDescriptor, Heap}
use eurus.Indexer.{
  State, new, close, set_service_descriptor, unset_service, unset_all, prune_stale_services,
  resolve_service, slice_at, stale_ids,
}
use eurus.Indexer.Sockets.{pin, map_socket, unmap_socket}
use eurus.Indexer.Valid.{IsValid}
use eurus.Indexer.Announce.{IsAnnounceable}
use eurus.Indexer.Resolve.{Serves}
use eurus.Indexer.Histories.{start, Reach, here, next, announced, mapped, Reach-IsValid}
use eurus.Gateway.{
  Gateway, Call, Context, Outcome, delivered, slow_consumer, failed, Status, policy_violation,
  going_away, socket_close, closed_socket, message_service, close_socket, new_gateway,
  handle_service_announcement, handle_socket_heartbeats, can_serve_path, deliver, handle,
  close_each, prune_tick, close_all_sockets,
}
use eurus.Gateway.Close.{close_socket_once}
use eurus.Gateway.Settled.{Settles}
use eurus.Gateway.Handle.{handle-Settles}
use eurus.Gateway.Handlers.{announced_path_is_served, prune_tick_drops}
use eurus.Gateway.Threads as Threads
use eurus.Gateway.Threads.{Thread, System, run_mapping, unset_at, run_thread, advance, Alone}
use eurus.Gateway.Interleavings.{IsAccounted, quiet, Reach-IsAccounted}
use eurus.Gateway.Alone.{handle-Alone}

program : Unit {0}
unfolding run_mapping unset_at run_thread advance start new close set_service_descriptor
    unset_service unset_all prune_stale_services resolve_service map_socket unmap_socket new_gateway
    close_socket handle_service_announcement can_serve_path deliver handle handle_socket_heartbeats
    close_each prune_tick close_all_sockets
program = tt

abbrev instance_of : String → ServiceDescriptor String
instance_of id = record {
  name = "chat";
  id = id;
  gateway_names = [];
  route_descriptors = record { pattern = "/chat" } ∷ [];
  last_seen_at = none;
  socket_ids = [];
}

abbrev memory : Heap String
memory p = if p == 0 then instance_of "a1" else instance_of "a2"

abbrev one : State String
one = set_service_descriptor 10 0 (start memory)

abbrev pub two : State String
two = set_service_descriptor 30 1 one

abbrev pinned : State String
pinned = (map_socket "chat" "k1" two).0

abbrev gateway : Gateway String ℕ ℕ
gateway = record (new_gateway "edge" "g1" 4) {
  gsi = some pinned;
  sockets = ("k1", 1) ∷ ("k2", 2) ∷ [];
}

abbrev pub ctx : Context ℕ ℕ
ctx = record { path = "/chat"; socket_id = "k1"; socket = 1; info = 0; message = 5 }

-- The first instance does not answer.
abbrev first_fails : ℕ → String → Outcome
first_fails round id = if id == "a1" then failed else delivered

one-IsAnnounceable : IsAnnounceable (start memory) 0
unfolding program
one-IsAnnounceable = record {
  has_name = λ e. ground (arith, eq_iff "chat" "");
  one_name = λ q e. cc;
  no_sockets = λ e. refl;
}

two-IsAnnounceable : IsAnnounceable one 1
unfolding program
two-IsAnnounceable = record {
  has_name = λ e. ground (arith, eq_iff "chat" "");
  one_name = λ q e. cc;
  no_sockets = λ e. refl;
}

one-IsValid : IsValid one
one-IsValid = Reach-IsValid memory (next here (announced 10 0 one-IsAnnounceable))

two_history : Reach (start memory) two
two_history =
    next (next here (announced 10 0 one-IsAnnounceable)) (announced 30 1 two-IsAnnounceable)

pub two-IsValid : IsValid two
two-IsValid = Reach-IsValid memory two_history

pinned-IsValid : IsValid pinned
pinned-IsValid = Reach-IsValid memory (next two_history (mapped "chat" "k1"))

-- A socket whose instance fails is not moved: it is closed. A new socket goes to the next instance.
moves_on :
    ((elim (handle str_beq first_fails 9 ctx (record gateway { gsi = some two; sockets = [] })) [
      | none ↦ []
      | some g ↦ g.calls
    ])
      ≡ message_service "a1" "g1" "k1" 0 5 failed
        ∷ message_service "a2" "g1" "k1" 0 5 delivered
        ∷ [])
    × ((elim (handle str_beq first_fails 9 ctx gateway) [ none ↦ [] | some g ↦ g.calls ])
        ≡ message_service "a1" "g1" "k1" 0 5 failed
          ∷ socket_close 1 going_away "Service unreachable"
          ∷ closed_socket "k1" going_away "Service unreachable"
          ∷ [])
unfolding program
moves_on = (refl, refl)

handle-Settles_example :
    ((resolve_service str_beq "/chat" pinned).1 ≡ true
      → Settles
          (resolve_service str_beq "/chat" pinned).0
          ctx
          "g1"
          pinned
          []
          (handle str_beq first_fails 3 ctx gateway))
    × ((resolve_service str_beq "/chat" pinned).1 ≡ false
        → handle str_beq first_fails 3 ctx gateway
          ≡ some (record gateway { calls = gateway.calls ++ Call.next_handler ∷ [] }))
unfolding new_gateway
handle-Settles_example =
    handle-Settles str_beq first_fails 3 ctx gateway pinned refl pinned-IsValid enough
  where
    enough :
        length (slice_at (resolve_service str_beq "/chat" pinned).0 pinned.services_by_name) < 3
    enough = unfold program in omega arith

announced_path_is_served_example :
    can_serve_path str_beq "/chat" (handle_service_announcement 30 1 gateway one) ≡ true
unfolding program
announced_path_is_served_example =
    announced_path_is_served str_beq "/chat" 30 1 gateway one one-IsValid opened two-IsAnnounceable
      refl served
  where
    opened : one.closed ≡ false
    opened = unfold program in refl

    served : Serves str_beq "/chat" (one.heap 1).route_descriptors
    served = unfold program in Serves.here refl

prune_tick_drops_example : lookup "k1" (prune_tick 40 pinned gateway).sockets ≡ none
unfolding program
prune_tick_drops_example =
    prune_tick_drops 40 pinned gateway "chat" "k1" "a1" pinned-IsValid opened is_pinned is_old
  where
    opened : pinned.closed ≡ false
    opened = unfold program in refl

    is_pinned : pin "chat" "k1" pinned.socket_to_instance ≡ some "a1"
    is_pinned = unfold program in refl

    is_old : contains "a1" (stale_ids 20 40 pinned.heap pinned.descriptors) ≡ true
    is_old = unfold program in refl
