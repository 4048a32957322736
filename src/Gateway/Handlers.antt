-- ===== src/Gateway/Handlers.antt =====
-- The other handlers of gateway.go: announcements, heartbeats, pruning and shutdown.
use eurus.Prelude.{
  ℕ, ◌*◌, String, List, [], ◌∷◌, ◌++◌, none, some, Bool, true, false, ◌≡◌, refl, arith, ◌∙◌, sym,
  contains, map, append_assoc, append-nil, ◌&&◌, string_eq, if◌then◌else◌, Map, lookup,
}
use text.Mathlib.TextEquality.{eq_iff}
use eurus.Descriptor.{Ref}
use eurus.Indexer.{State, slice_at, set_service_descriptor, prune_stale_services, stale_ids}
use eurus.Indexer.Instances.{find_id_sound}
use eurus.Indexer.Sockets.{pin}
use eurus.Indexer.Valid.{IsValid}
use eurus.Indexer.Announce.{
  IsAnnounceable, set_service_descriptor-finds, set_service_descriptor-IsValid,
}
use eurus.Indexer.Prune.{prune_stale_services-Prunes}
use eurus.Indexer.Resolve.{Serves, resolve_service_complete}
use eurus.Gateway.{
  Gateway, Status, going_away, socket_close, close_socket, announcing_to,
  handle_service_announcement, handle_socket_heartbeats, can_serve_path, close_each, prune_tick,
  close_handles, close_all_sockets,
}
use eurus.Gateway.Close.{close_socket_once}

closed-set_service_descriptor :
    {P : Type 0} (now : ℕ) (p : Ref) (s : State P)
    → (set_service_descriptor now p s).closed ≡ s.closed
unfolding set_service_descriptor
closed-set_service_descriptor now p s = ground arith

module _ {P I M : Type 0} where
  -- A heartbeat is answered with exactly those of its sockets that are not registered.
  pub handle_socket_heartbeats_lem :
      (g : Gateway P I M) (ids : List String) (k : String)
      → contains k (handle_socket_heartbeats g ids)
        ≡ (contains k ids && elim (lookup k g.sockets) [ none ↦ true | some _ ↦ false ])
  unfolding handle_socket_heartbeats
  handle_socket_heartbeats_lem g [] k = refl
  handle_socket_heartbeats_lem g (i ∷ ids) k =
      ground (arith, eq_iff i k, handle_socket_heartbeats_lem g ids k)

  -- If the indexer is valid and open and the descriptor may be announced, then once a service has
  -- announced itself to this gateway, or to all, the gateway serves each path that a route of the
  -- announcement matches.
  pub announced_path_is_served :
      (matches : P → String → Bool) (path : String) (now : ℕ) (p : Ref) (g : Gateway P I M)
      (s : State P)
      → IsValid s
      → s.closed ≡ false
      → IsAnnounceable s p
      → announcing_to g.name (s.heap p) ≡ true
      → Serves matches path (s.heap p).route_descriptors
      → can_serve_path matches path (handle_service_announcement now p g s) ≡ true
  unfolding handle_service_announcement can_serve_path
  announced_path_is_served matches path now p g s v opened a addressed m =
      let t = set_service_descriptor now p s in
      let ((q, found, routes, _), _) = set_service_descriptor-finds now p s v.registry opened in
      rw addressed (
        resolve_service_complete matches path t
          (set_service_descriptor-IsValid now p s v a).registry.names
          (closed-set_service_descriptor now p s ∙ opened) (s.heap p).name q
          (find_id_sound t.heap (s.heap p).id (slice_at (s.heap p).name t.services_by_name) q
            found).0
          (rw routes m))

  sockets-close_each :
      (ids : List String) (status : Status) (reason : String) (g : Gateway P I M) (k : String)
      → lookup k (close_each ids status reason g).sockets
        ≡ (if contains k ids then none else lookup k g.sockets)
  unfolding close_each
  sockets-close_each [] status reason g k = refl
  sockets-close_each (i ∷ ids) status reason g k =
      sockets-close_each ids status reason (close_socket i status reason g) k
      ∙ ground (arith, (close_socket_once i status reason g).1 k)

  -- If the indexer is valid and open, then after a tick of the prune loop a socket that was pinned
  -- to a stale instance is not registered.
  pub prune_tick_drops :
      (now : ℕ) (s : State P) (g : Gateway P I M) (n k i : String)
      → IsValid s
      → s.closed ≡ false
      → pin n k s.socket_to_instance ≡ some i
      → contains i (stale_ids (5 * g.announce_interval) now s.heap s.descriptors) ≡ true
      → lookup k (prune_tick now s g).sockets ≡ none
  unfolding prune_tick
  prune_tick_drops now s g n k i v opened pinned stale =
      let threshold = 5 * g.announce_interval in
      let w = prune_stale_services-Prunes threshold now s v opened in
      sockets-close_each (prune_stale_services threshold now s).2 going_away "Service unreachable" _
        k
      ∙ ground (arith, w.complete n k (λ e. ground (arith, w.pins n k, pinned, stale, e)))

  calls-close_handles :
      (m : Map String ℕ) (status : Status) (reason : String) (g : Gateway P I M)
      → (close_handles m status reason g).calls
        ≡ g.calls ++ map (λ e. socket_close e.1 status reason) m
  calls-close_handles [] status reason g = sym (append-nil g.calls)
  calls-close_handles ((k, socket) ∷ m) status reason g =
      calls-close_handles m status reason _ ∙ append_assoc g.calls _ _

  sockets-close_handles :
      (m : Map String ℕ) (status : Status) (reason : String) (g : Gateway P I M)
      → (close_handles m status reason g).sockets ≡ g.sockets
  sockets-close_handles [] status reason g = refl
  sockets-close_handles ((k, socket) ∷ m) status reason g = sockets-close_handles m status reason _

  -- At shutdown every registered socket is closed once and none is left registered.
  pub close_all_sockets_lem :
      (status : Status) (reason : String) (g : Gateway P I M)
      → ((close_all_sockets status reason g).sockets ≡ [])
        × ((close_all_sockets status reason g).calls
            ≡ g.calls ++ map (λ e. socket_close e.1 status reason) g.sockets)
  unfolding close_all_sockets
  close_all_sockets_lem status reason g = (
    sockets-close_handles g.sockets status reason _,
    calls-close_handles g.sockets status reason _,
  )
