-- ===== src/Startup/Connect.antt =====
-- Gateway.Connect of gateway.go.
use eurus.Prelude.{ℕ, String, List, [], ◌∷◌, Option, none, some, Bool, true, false}
use eurus.Lifecycle.{World, begin, end}
use eurus.Indexer.{State, service_descriptors, close as close_state}
use eurus.Gateway.{Gateway, going_away, close_all_sockets, emit, announce_gateway}
use eurus.Startup.{StartError, no_transport, already, Answers, subscribe_all, serve}

abbrev pub gateway_streams : List String
gateway_streams =
    "service announcements" ∷ "gateway messages" ∷ "socket closures" ∷ "socket heartbeats" ∷ []

abbrev pub close_indexer : {P : Type 0} → Option (State P) → Option (State P)
unfolding close_state
close_indexer none = none
close_indexer (some s) = some (close_state s)

module _ {P I M : Type 0} where
  -- gsi.Close() and closeAllSockets, in the order in which the deferred calls run.
  unfoldable pub stop_gateway : Gateway P I M → Gateway P I M
  unfolding close_all_sockets close_state
  stop_gateway g =
      close_all_sockets going_away "Gateway is stopping" (record g { gsi = close_indexer g.gsi })

  unfoldable pub announce_now : Gateway P I M → Gateway P I M
  unfolding service_descriptors
  announce_now g = elim g.gsi [
    | none ↦ g
    | some gsi ↦
        emit
          (announce_gateway
            (record { name = g.name; service_descriptors = service_descriptors gsi }))
          g
  ]

module _ {P I M E : Type 0} (answers : Answers E) (early live : Gateway P I M → Gateway P I M) where
  -- The gateway once its streams are subscribed, if they are, and it is announced; `gsi` is the
  -- indexer that is made.
  unfoldable pub started_gateway : State P → Gateway P I M → Gateway P I M
  unfolding announce_now service_descriptors
  started_gateway gsi g = elim (subscribe_all answers.subscribe gateway_streams) [
    | some e ↦ early (record g { gsi = some gsi })
    | none ↦ announce_now (early (record g { gsi = some gsi }))
  ]

  unfoldable pub run_gateway : State P → Gateway P I M → Gateway P I M
  unfolding started_gateway announce_now stop_gateway service_descriptors
  run_gateway gsi g = stop_gateway (live (started_gateway gsi g))

  unfoldable pub connect_begun :
      State P → Gateway P I M → World × Option ℕ → Gateway P I M × World × Option (StartError E)
  unfolding run_gateway started_gateway announce_now serve end stop_gateway service_descriptors
  connect_begun gsi g (w, none) = (g, w, some already)
  connect_begun gsi g (w, some ctx) =
      let (w', err) = serve answers gateway_streams w in (run_gateway gsi g, end w', err)

  -- The gateway and its lifecycle after the call, and the error.
  unfoldable pub connect :
      Bool → State P → Gateway P I M → World → Gateway P I M × World × Option (StartError E)
  unfolding connect_begun run_gateway started_gateway announce_now begin serve end stop_gateway
      service_descriptors
  connect has_transport gsi g w = elim has_transport [
    | false ↦ (g, w, some no_transport)
    | true ↦ connect_begun gsi g (begin w)
  ]
