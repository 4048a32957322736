-- ===== src/Startup/Tests.antt =====
-- Runs of Connect and Listen as in gateway_test.go and service_test.go, and the theorems at them. An
-- error is a number.
use eurus.Prelude.{
  ℕ, String, [], ◌∷◌, none, some, Bool, true, false, ◌≡◌, refl, ◌==◌, string_eq, if◌then◌else◌,
}
use eurus.Lifecycle.{World, new as new_world, begin, mark_ready, ready_chan, interrupt, end}
use eurus.Lifecycle.Runs.{IsSound, Reach-IsSound, here, next, asked}
use eurus.Indexer.{State, new, close as close_state, service_descriptors}
use eurus.Descriptor.{Heap}
use eurus.Gateway.{Gateway, new_gateway, can_serve_path, close_all_sockets}
use eurus.Service.{Service, close_all_connections, do_announce}
use eurus.Startup.{no_transport, stream_failed, announce_failed, Answers, serve}
use eurus.Startup.Connect.{
  gateway_streams, started_gateway, run_gateway, stop_gateway, announce_now, connect_begun, connect,
}
use eurus.Startup.Listen.{service_streams, started_service, run_service, listen_begun, listen}
use eurus.Startup.Stops.{IsFinished, connect_stops, listen_stops}

program : Unit {0}
unfolding new_world begin mark_ready ready_chan interrupt end new close_state service_descriptors
    new_gateway can_serve_path close_all_sockets close_all_connections do_announce serve
    announce_now started_gateway run_gateway stop_gateway connect_begun connect started_service
    run_service listen_begun listen
program = tt

abbrev memory : Heap String
memory p = record {
  name = "";
  id = "";
  gateway_names = [];
  route_descriptors = [];
  last_seen_at = none;
  socket_ids = [];
}

abbrev indexer : State String
indexer = record { heap = memory; indexer = new }

abbrev gateway : Gateway String ℕ ℕ
gateway = new_gateway "edge" "g1" 4

-- Someone has asked for readiness.
abbrev world : World
world = (ready_chan new_world).0

world-IsSound : IsSound world
world-IsSound = Reach-IsSound (next here asked)

-- One client connects while the gateway runs.
abbrev one_client : Gateway String ℕ ℕ → Gateway String ℕ ℕ
one_client g = record g { sockets = ("k1", 1) ∷ g.sockets }

abbrev all_well : Answers ℕ
all_well = record { subscribe = λ name. none; announce = none; group = none }

abbrev no_heartbeats : Answers ℕ
no_heartbeats = record {
  subscribe = λ name. if name == "socket heartbeats" then some 7 else none;
  announce = none;
  group = none;
}

abbrev as_it_is : Gateway String ℕ ℕ → Gateway String ℕ ℕ
as_it_is g = g

outcomes :
    ((connect all_well as_it_is one_client true indexer gateway world).2 ≡ none)
    × ((connect no_heartbeats as_it_is one_client true indexer gateway world).2
        ≡ some (stream_failed "socket heartbeats" 7))
    × ((connect all_well as_it_is one_client false indexer gateway world).2 ≡ some no_transport)
unfolding program
outcomes = (refl, refl, refl)

connect_stops_example :
    let (g', v, err) = connect no_heartbeats as_it_is one_client true indexer gateway world in
    (err ≡ some (stream_failed "socket heartbeats" 7))
    × IsFinished no_heartbeats gateway_streams world v
    × (g'.sockets ≡ [])
    × ((matches : String → String → Bool) (path : String) → can_serve_path matches path g' ≡ false)
unfolding program
connect_stops_example =
    connect_stops no_heartbeats as_it_is one_client indexer gateway world world-IsSound refl
      (λ h present. present) (λ h present. present)

abbrev service : Service String ℕ ℕ
service = record {
  gateway_names = [];
  name = "chat";
  id = "a1";
  route_descriptors = none;
  provided = none;
  closed_socket_ttl = 20;
  connections = ("k1", record { handle = 0; gateway_id = "g1" }) ∷ [];
  closed_sockets = [];
  next_handle = 1;
  calls = [];
}

abbrev unheard : Answers ℕ
unheard = record { subscribe = λ name. none; announce = some 3; group = none }

abbrev unchanged : Service String ℕ ℕ → Service String ℕ ℕ
unchanged s = s

listen_stops_example :
    let (s', v, err) = listen unheard unchanged unchanged true service world in
    (err ≡ some (announce_failed 3))
    × IsFinished unheard service_streams world v
    × (s'.connections ≡ [])
unfolding program
listen_stops_example = listen_stops unheard unchanged unchanged service world world-IsSound refl
