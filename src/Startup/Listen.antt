-- ===== src/Startup/Listen.antt =====
-- Service.Listen of service.go.
use eurus.Prelude.{ℕ, String, List, [], ◌∷◌, Option, none, some, Bool, true, false}
use eurus.Lifecycle.{World, begin, end}
use eurus.Service.{Service, close_all_connections, do_announce}
use eurus.Startup.{StartError, no_transport, already, Answers, subscribe_all, serve}

abbrev pub service_streams : List String
service_streams = "gateway announcements" ∷ "service messages" ∷ "socket closures" ∷ []

module _ {P I M E : Type 0} (answers : Answers E) (early live : Service P I M → Service P I M) where
  -- The service once its streams are subscribed, if they are, and it is announced.
  unfoldable pub started_service : Service P I M → Service P I M
  unfolding do_announce
  started_service s = elim (subscribe_all answers.subscribe service_streams) [
    | some e ↦ early s
    | none ↦ do_announce (early s)
  ]

  unfoldable pub run_service : Service P I M → Service P I M
  unfolding started_service close_all_connections do_announce
  run_service s = close_all_connections (live (started_service s))

  unfoldable pub listen_begun :
      Service P I M → World × Option ℕ → Service P I M × World × Option (StartError E)
  unfolding run_service started_service serve end close_all_connections do_announce
  listen_begun s (w, none) = (s, w, some already)
  listen_begun s (w, some ctx) =
      let (w', err) = serve answers service_streams w in (run_service s, end w', err)

  unfoldable pub listen :
      Bool → Service P I M → World → Service P I M × World × Option (StartError E)
  unfolding listen_begun run_service started_service begin serve end close_all_connections
      do_announce
  listen has_transport s w = elim has_transport [
    | false ↦ (s, w, some no_transport)
    | true ↦ listen_begun s (begin w)
  ]
