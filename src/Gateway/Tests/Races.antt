-- ===== src/Gateway/Tests/Races.antt =====
-- A closing of a socket between two steps of Handle.
use eurus.Prelude.{ℕ, String, List, [], ◌∷◌, none, some, true, ◌≡◌, refl, string_eq, nat_eq}
use eurus.Indexer.{new, set_service_descriptor, unset_service}
use eurus.Indexer.Sockets.{pin, map_socket, unmap_socket}
use eurus.Indexer.Histories.{start}
use eurus.Gateway.{Gateway, delivered, going_away, new_gateway}
use eurus.Gateway.Threads as Threads
use eurus.Gateway.Threads.{Thread, System, run_mapping, unset_at, run_thread, advance, Alone}
use eurus.Gateway.Interleavings.{IsAccounted, quiet, Reach-IsAccounted}
use eurus.Gateway.Tests.{two, ctx, two-IsValid}

program : Unit {0}
unfolding run_mapping unset_at run_thread advance start new set_service_descriptor unset_service
    map_socket unmap_socket new_gateway
program = tt

-- Two instances, and no client yet.
abbrev connected : Gateway String ℕ ℕ
connected = record (new_gateway "edge" "g1" 4) { gsi = some two }

-- The message of a client comes in, and before it is mapped the client goes: first the closing runs
-- to its end, then the handler.
abbrev registered_first : System String ℕ ℕ
registered_first =
    advance delivered [] (Thread.registering "chat" ctx) []
      (record (quiet connected) { threads = Thread.registering "chat" ctx ∷ [] })

abbrev both : System String ℕ ℕ
both = record registered_first {
  threads = Thread.closing "k1" going_away "Client disconnected" ∷ registered_first.threads;
}

abbrev handling : List (Thread ℕ ℕ)
handling = Thread.mapping "chat" ctx ∷ []

abbrev closed_first : System String ℕ ℕ
closed_first = advance delivered [] (Thread.unmapping "k1") handling (
    advance delivered [] (Thread.shutting "k1" 1 going_away "Client disconnected") handling
      (advance delivered [] (Thread.closing "k1" going_away "Client disconnected") handling both))

abbrev all_done : System String ℕ ℕ
all_done =
    advance delivered (Thread.finished ∷ []) (Thread.sending "chat" ctx "a1" true) []
      (advance delivered (Thread.finished ∷ []) (Thread.mapping "chat" ctx) [] closed_first)

race : Threads.Reach (quiet connected) all_done
unfolding program
race =
    Threads.Reach.next
      (Threads.Reach.next
        (Threads.Reach.next
          (Threads.Reach.next
            (Threads.Reach.next
              (Threads.Reach.next
                (Threads.Reach.next
                  (Threads.Reach.next Threads.Reach.here
                    (Threads.Step.started (Thread.registering "chat" ctx) refl))
                  (Threads.Step.ran delivered [] (Thread.registering "chat" ctx) [] refl))
                (Threads.Step.started (Thread.closing "k1" going_away "Client disconnected") refl))
              (Threads.Step.ran delivered [] (Thread.closing "k1" going_away "Client disconnected")
                handling refl))
            (Threads.Step.ran delivered [] (Thread.shutting "k1" 1 going_away "Client disconnected")
              handling refl))
          (Threads.Step.ran delivered [] (Thread.unmapping "k1") handling refl))
        (Threads.Step.ran delivered (Thread.finished ∷ []) (Thread.mapping "chat" ctx) [] refl))
      (Threads.Step.ran delivered (Thread.finished ∷ []) (Thread.sending "chat" ctx "a1" true) []
        refl)

-- Nothing is left to run, the socket is not registered, and it stays mapped.
left_behind :
    (all_done.threads ≡ Thread.finished ∷ Thread.finished ∷ [])
    × (all_done.gateway.sockets ≡ [])
    × ((elim all_done.gateway.gsi [
      | none ↦ none
      | some gsi ↦ pin "chat" "k1" gsi.socket_to_instance
    ])
        ≡ some "a1")
unfolding program
left_behind = (refl, refl, refl)

Reach-IsAccounted_example : IsAccounted all_done
unfolding new_gateway
Reach-IsAccounted_example = Reach-IsAccounted connected two-IsValid refl refl race
