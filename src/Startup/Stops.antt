-- ===== src/Startup/Stops.antt =====
-- What a run leaves behind when Connect or Listen returns, whatever ended it.
use eurus.Prelude.{
  ℕ, String, List, [], ◌∷◌, Option, none, some, Bool, true, false, ◌≡◌, ◌≢◌, refl, arith,
  Option-cases, inl, inr, Map, ◌∙◌,
}
use eurus.Lifecycle.{World, begin, end}
use eurus.Lifecycle.Runs.{IsSound, Step-IsSound, begun}
use eurus.Indexer.{State, resolve_service, close as close_state}
use eurus.Indexer.Sockets.{unmap_socket}
use eurus.Indexer.Unmap.{closed-unmap_socket}
use eurus.Gateway.{Gateway, Status, going_away, close_handles, close_all_sockets, can_serve_path}
use eurus.Gateway.Handlers.{close_all_sockets_lem}
use eurus.Service.{Service}
use eurus.Service.Closed.{connections-close_all_connections}
use eurus.Startup.{StartError, no_transport, already, subscribe_all, Answers}
use eurus.Startup.Runs.{
  has_started, first_error, after_run, serve_lem, after_run-IsSound, after_run_ready,
  after_run_idle,
}
use eurus.Startup.Connect.{
  gateway_streams, announce_now, started_gateway, close_indexer, stop_gateway, run_gateway, connect,
  connect_begun,
}
use eurus.Startup.Listen.{service_streams, started_service, run_service, listen, listen_begun}

-- The indexer is there, and closed.
abbrev pub IsStopped : {P : Type 0} → Option (State P) → Type 0
IsStopped {P} gsi = (s : State P) × (gsi ≡ some s) × (s.closed ≡ true)

module _ {P I M : Type 0} where
  close_handles-IsStopped :
      (m : Map String ℕ) (status : Status) (reason : String) (g : Gateway P I M)
      → IsStopped g.gsi
      → IsStopped (close_handles m status reason g).gsi
  close_handles-IsStopped [] status reason g h = h
  close_handles-IsStopped ((k, socket) ∷ m) status reason g (s, e, shut) =
      close_handles-IsStopped m status reason _
        (rw e (unmap_socket k s, refl, closed-unmap_socket k s ∙ shut))

  stop_gateway-IsStopped : (g : Gateway P I M) → g.gsi ≢ none → IsStopped (stop_gateway g).gsi
  unfolding stop_gateway close_all_sockets close_state
  stop_gateway-IsStopped g present = elim (Option-cases g.gsi) [
    | inl absent ↦ absurd (present absent)
    | inr (s, e) ↦
        close_handles-IsStopped g.sockets going_away "Gateway is stopping" _
          (rw e (close_state s, refl, refl))
  ]

  sockets-stop_gateway : (g : Gateway P I M) → (stop_gateway g).sockets ≡ []
  unfolding stop_gateway
  sockets-stop_gateway g =
      (close_all_sockets_lem going_away "Gateway is stopping"
        (record g { gsi = close_indexer g.gsi })).0

  stopped_serves_nothing :
      (matches : P → String → Bool) (path : String) (g : Gateway P I M)
      → IsStopped g.gsi
      → can_serve_path matches path g ≡ false
  unfolding can_serve_path resolve_service
  stopped_serves_nothing matches path g (s, e, shut) = ground (arith, e, shut)

-- The run that `begin` starts.
begun_lem :
    (w : World)
    → IsSound w
    → w.cancel ≡ none
    → (ctx : ℕ) × (begin w ≡ ((begin w).0, some ctx))
      × IsSound (begin w).0
      × ((ch : ℕ)
          → w.ready ≡ some ch
          → ((begin w).0.ready ≡ some ch) × ((begin w).0.is_closed ch ≡ w.is_closed ch))
unfolding begin
begun_lem w i idle = (
  w.next,
  ground (arith, idle),
  Step-IsSound begun i,
  (λ ch e. (ground (arith, idle, e), ground (arith, idle, e, i.ready_below))),
)

-- What the lifecycle is after a run: nobody's, with no double close, and readiness was reported
-- exactly when the run had started.
pub record IsFinished {E : Type 0} (answers : Answers E) (names : List String) (w v : World)
    : Type 0 where
  pub sound : IsSound v
  pub idle : (begin v).1 ≢ none
  pub ready :
      (ch : ℕ)
      → w.ready ≡ some ch
      → w.is_closed ch ≡ false
      → v.is_closed ch ≡ has_started answers names

finished :
    {E : Type 0} (answers : Answers E) (names : List String) (w : World)
    → IsSound w
    → w.cancel ≡ none
    → IsFinished answers names w (end (after_run answers names (begin w).0))
finished answers names w i idle =
    let (ctx, e, sound, readiness) = begun_lem w i idle in
    record {
      sound = after_run-IsSound answers names (begin w).0 sound;
      idle = after_run_idle answers names (begin w).0;
      ready = λ ch asked opened.
          let (kept, same) = readiness ch asked in
          after_run_ready answers names (begin w).0 ch sound kept (same ∙ opened);
    }

module _ {P I M E : Type 0} (answers : Answers E) (early live : Gateway P I M → Gateway P I M)
    (gsi : State P) (g : Gateway P I M) (w : World) where
  connect_runs :
      (ctx : ℕ)
      → begin w ≡ ((begin w).0, some ctx)
      → connect answers early live true gsi g w ≡ (
        run_gateway answers early live gsi g,
        end (after_run answers gateway_streams (begin w).0),
        first_error answers gateway_streams,
      )
  unfolding connect connect_begun
  connect_runs ctx e = ground (arith, e, serve_lem answers gateway_streams (begin w).0)

  started_present :
      ((h : Gateway P I M) → h.gsi ≢ none → (early h).gsi ≢ none)
      → (started_gateway answers early live gsi g).gsi ≢ none
  unfolding started_gateway announce_now
  started_present keeps = by_subscriptions (subscribe_all answers.subscribe gateway_streams)
    where
      present : (early (record g { gsi = some gsi })).gsi ≢ none
      present = keeps (record g { gsi = some gsi }) (λ e. cc e)

      by_subscriptions :
          (o : Option (StartError E))
          → (elim o as (λ x. Gateway P I M) [
            | some e ↦ early (record g { gsi = some gsi })
            | none ↦ announce_now (early (record g { gsi = some gsi }))
          ]).gsi
            ≢ none
      by_subscriptions (some e) = present
      by_subscriptions none = ground (arith, present)

  -- If no run is active and the lifecycle is sound, and what handlers do keeps the indexer
  -- pointer, then Connect with a transport returns the first error of the subscriptions, of the
  -- announcement or else of the group; it leaves a sound lifecycle on which a run can begin, with
  -- a channel of Ready that was open before closed exactly if all streams were subscribed and the
  -- announcement sent; no socket is registered, and no path is served.
  pub connect_stops :
      IsSound w
      → w.cancel ≡ none
      → ((h : Gateway P I M) → h.gsi ≢ none → (early h).gsi ≢ none)
      → ((h : Gateway P I M) → h.gsi ≢ none → (live h).gsi ≢ none)
      → let (g', v, err) = connect answers early live true gsi g w in
        (err ≡ first_error answers gateway_streams)
        × IsFinished answers gateway_streams w v
        × (g'.sockets ≡ [])
        × ((matches : P → String → Bool) (path : String) → can_serve_path matches path g' ≡ false)
  unfolding run_gateway
  connect_stops i idle early_keeps live_keeps =
      let (ctx, e, _, _) = begun_lem w i idle in
      let present =
        live_keeps (started_gateway answers early live gsi g) (started_present early_keeps) in
      rw (connect_runs ctx e) (
        refl,
        finished answers gateway_streams w i idle,
        sockets-stop_gateway (live (started_gateway answers early live gsi g)),
        (λ matches path.
            stopped_serves_nothing matches path (run_gateway answers early live gsi g)
              (stop_gateway-IsStopped (live (started_gateway answers early live gsi g)) present)),
      )

  -- While a run is active, another Connect is refused and changes nothing.
  pub connect_refused :
      (has_transport : Bool) (c : ℕ)
      → w.cancel ≡ some c
      → connect answers early live has_transport gsi g w
        ≡ (g, w, some (elim has_transport [ true ↦ already | false ↦ no_transport ]))
  unfolding connect connect_begun begin
  connect_refused has_transport c running = ground (arith, running)

module _ {P I M E : Type 0} (answers : Answers E) (early live : Service P I M → Service P I M)
    (s : Service P I M) (w : World) where
  listen_runs :
      (ctx : ℕ)
      → begin w ≡ ((begin w).0, some ctx)
      → listen answers early live true s w ≡ (
        run_service answers early live s,
        end (after_run answers service_streams (begin w).0),
        first_error answers service_streams,
      )
  unfolding listen listen_begun
  listen_runs ctx e = ground (arith, e, serve_lem answers service_streams (begin w).0)

  -- If no run is active and the lifecycle is sound, Listen with a transport returns the first
  -- error of the subscriptions, of the announcement or else of the group; it leaves a sound
  -- lifecycle on which a run can begin, with a channel of Ready that was open before closed
  -- exactly if all streams were subscribed and the announcement sent, and the service without a
  -- connection.
  pub listen_stops :
      IsSound w
      → w.cancel ≡ none
      → let (s', v, err) = listen answers early live true s w in
        (err ≡ first_error answers service_streams)
        × IsFinished answers service_streams w v
        × (s'.connections ≡ [])
  unfolding run_service
  listen_stops i idle =
      let (ctx, e, _, _) = begun_lem w i idle in
      rw (listen_runs ctx e) (
        refl,
        finished answers service_streams w i idle,
        connections-close_all_connections (live (started_service answers early live s)),
      )
