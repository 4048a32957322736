-- ===== src/Gateway/Handle.antt =====
-- The loop of Gateway.Handle: it ends, and the message is delivered or the socket is dropped.
use mathlib.Core.Path.{subst}
use eurus.Prelude.{
  ℕ, zero, suc, ◌<◌, String, none, some, Bool, true, false, ◌≡◌, refl, arith, ◌==◌, ◌⊎◌, inl, inr,
  Bool-cases, ap, length, string_eq, lookup, insert, lookup-insert,
}
use text.Mathlib.TextEquality.{eq_iff}
use eurus.Indexer.{State, slice_at, unset_service, resolve_service}
use eurus.Indexer.Instances.{length-delete_id}
use eurus.Indexer.Sockets.{pin, map_socket}
use eurus.Indexer.Valid.{IsValid}
use eurus.Indexer.Unset.{unset_service-IsValid, slice_at-unset_service}
use eurus.Indexer.Balance.{
  map_socket-IsValid, map_socket-pins, map_socket-no_error, map_socket_frame,
}
use eurus.Gateway.{Gateway, Context, Outcome, going_away, deliver, handle, next_handler, emit}
use eurus.Gateway.Settled.{Settles, settled, closed_drops, after_map-Settles}

module _ {P I M : Type 0} (name : String) (ctx : Context I M) where
  fewer_left :
      (id : String) (s : State P)
      → IsValid s
      → s.closed ≡ false
      → pin name ctx.socket_id s.socket_to_instance ≡ some id
      → length (slice_at name s.services_by_name)
        ≡ suc (length (slice_at name (unset_service id s).services_by_name))
  fewer_left id s v opened pinned =
      let (p, found, _) = v.pins.live name ctx.socket_id id pinned in
      rw (slice_at-unset_service s id v.registry opened name)
        (length-delete_id s.heap id (slice_at name s.services_by_name) p found)

  -- With more fuel than the service has instances the loop ends.
  deliver-Settles :
      (respond : ℕ → String → Outcome) (fuel round : ℕ) (s : State P) (g : Gateway P I M)
      → IsValid s
      → length (slice_at name s.services_by_name) < fuel
      → lookup ctx.socket_id g.sockets ≡ some ctx.socket
      → Settles name ctx g.id s g.calls (deliver respond fuel round name ctx s g)
  unfolding deliver
  deliver-Settles respond zero round s g v enough registered = absurd (omega arith)
  deliver-Settles respond (suc fuel) round s g v enough registered =
      rw (map_socket-no_error name ctx.socket_id s) (elim (Bool-cases (id == "")) [
        | inl none_left ↦ rw none_left (
            settled name ctx g.id s g.calls _ (
              inr (
                inr (
                  closed_drops name ctx going_away "Service unreachable" _ t registered refl valid,
                  λ e. ground (arith, none_left, eq_iff id ""),
                ))))
        | inr given ↦ rw given (
            after_map-Settles name ctx (respond round id) id (map_socket name ctx.socket_id s).2 s
              (deliver respond fuel (suc round) name ctx) t (record g { gsi = some t }) valid
              (pinned given) registered refl
              λ k r same.
                subst
                  (λ i.
                    Settles name ctx i (unset_service id t) k.calls
                      (deliver respond fuel (suc round) name ctx (unset_service id t) k))
                  same
                  (deliver-Settles respond fuel (suc round) (unset_service id t) k
                    (unset_service-IsValid id t valid) (fewer given) r))
      ])
    where
      id : String
      id = (map_socket name ctx.socket_id s).1

      t : State P
      t = (map_socket name ctx.socket_id s).0

      valid : IsValid t
      valid = map_socket-IsValid name ctx.socket_id s v

      pinned : (id == "") ≡ false → pin name ctx.socket_id t.socket_to_instance ≡ some id
      pinned given = (map_socket-pins name ctx.socket_id s (λ e. ground (arith, eq_iff id ""))).0

      fewer :
          (id == "") ≡ false → length (slice_at name (unset_service id t).services_by_name) < fuel
      fewer given = omega (
        arith,
        enough,
        ap (λ m. length (slice_at name m)) (map_socket_frame name ctx.socket_id s).0,
        fewer_left id t valid
            ((map_socket_frame name ctx.socket_id s).1 (λ e. ground (arith, eq_iff id "")))
            (pinned given),
      )

module _ {P I M : Type 0} (matches : P → String → Bool) (respond : ℕ → String → Outcome) where
  handle_skips :
      (fuel : ℕ) (ctx : Context I M) (g : Gateway P I M)
      → (g.gsi ≡ none)
        ⊎ ((s : State P) × (g.gsi ≡ some s) × ((resolve_service matches ctx.path s).1 ≡ false))
      → handle matches respond fuel ctx g ≡ some (emit next_handler g)
  unfolding handle
  handle_skips fuel ctx g h = ground arith

  pub handle_routes :
      (fuel : ℕ) (ctx : Context I M) (g : Gateway P I M) (s : State P)
      → g.gsi ≡ some s
      → (resolve_service matches ctx.path s).1 ≡ true
      → handle matches respond fuel ctx g
        ≡ deliver respond fuel 0
            (resolve_service matches ctx.path s).0
            ctx
            s
            (record g { sockets = insert ctx.socket_id ctx.socket g.sockets })
  unfolding handle
  handle_routes fuel ctx g s current found = ground (arith, current, found)

  -- If the gateway is connected, its indexer is valid and the fuel is more than the number of
  -- instances of the service that the path resolves to, Handle returns. If the path resolves, then
  -- after the earlier calls and deliveries that failed one of three things is the end: the message
  -- was delivered to the instance that the socket is now pinned to, and the socket is registered;
  -- or an instance refused it as a slow consumer, which stays an entry of the indexer, and the
  -- socket was closed as a policy violation; or the socket was closed as going away, a delivery
  -- having failed or MapSocket having had no instance for it. A socket that was closed had its
  -- client closed and then the closing broadcast, with that status and reason, as the last calls;
  -- it is not registered, and an open indexer pins it to nothing. If the path does not resolve,
  -- Handle only calls the next handler.
  pub handle-Settles :
      (fuel : ℕ) (ctx : Context I M) (g : Gateway P I M) (s : State P)
      → g.gsi ≡ some s
      → IsValid s
      → length (slice_at (resolve_service matches ctx.path s).0 s.services_by_name) < fuel
      → ((resolve_service matches ctx.path s).1 ≡ true
          → Settles
              (resolve_service matches ctx.path s).0
              ctx
              g.id
              s
              g.calls
              (handle matches respond fuel ctx g))
        × ((resolve_service matches ctx.path s).1 ≡ false
            → handle matches respond fuel ctx g ≡ some (emit next_handler g))
  handle-Settles fuel ctx g s current v enough = (
    λ found. rw (handle_routes fuel ctx g s current found) (
        deliver-Settles (resolve_service matches ctx.path s).0 ctx respond fuel 0 s _ v enough (
          ground (
            arith,
            lookup-insert ctx.socket_id ctx.socket_id ctx.socket g.sockets,
            eq_iff ctx.socket_id ctx.socket_id,
          ))),
    λ missing. handle_skips fuel ctx g (inr (s, current, missing)),
  )
