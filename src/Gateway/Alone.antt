-- ===== src/Gateway/Alone.antt =====
-- Gateway.handle is what a goroutine of Handle does when no other comes between its steps.
use eurus.Prelude.{
  ℕ, zero, suc, ◌<◌, String, ◌++◌, [], ◌∷◌, Option, none, some, Bool, true, false, ◌≡◌, refl, arith,
  sym, ◌∙◌, ◌||◌, ◌==◌, string_eq, Option-cases, Bool-cases, inl, inr, length, lookup, delete,
}
use eurus.Indexer.{State, slice_at, unset_service, resolve_service}
use eurus.Indexer.Sockets.{Error, map_socket}
use eurus.Indexer.Valid.{IsValid}
use eurus.Gateway.{
  Gateway, Status, Outcome, delivered, slow_consumer, failed, Context, socket_close, closed_socket,
  unmap, close_socket, going_away, policy_violation, is_error, after_map, deliver, handle,
}
use eurus.Gateway.Handle.{handle-Settles, handle_routes}
use eurus.Gateway.Threads.{
  Thread, registering, mapping, sending, closing, run_mapping, unset_at, run_thread, Alone, ended,
  went,
}

module _ {P I M : Type 0} where
  -- If there is a result, the goroutine alone leads to it.
  abbrev pub LeadsTo : Thread I M → Gateway P I M → Option (Gateway P I M) → Type 0
  LeadsTo t g none = Unit
  LeadsTo t g (some h) = Alone t g h

  LeadsTo-went :
      (outcome : Outcome) (t : Thread I M) (g : Gateway P I M) (r : Option (Gateway P I M))
      → LeadsTo (run_thread outcome t g).0 (run_thread outcome t g).1 r
      → LeadsTo t g r
  LeadsTo-went outcome t g none l = tt
  LeadsTo-went outcome t g (some h) l = went outcome l

  module _ (k : String) (status : Status) (reason : String) (g : Gateway P I M) where
    close_absent : lookup k g.sockets ≡ none → close_socket k status reason g ≡ g
    unfolding close_socket
    close_absent absent = ground (arith, absent)

    close_present :
        (socket : ℕ)
        → lookup k g.sockets ≡ some socket
        → close_socket k status reason g ≡ record g {
          sockets = delete k g.sockets;
          calls =
              g.calls ++ (socket_close socket status reason ∷ closed_socket k status reason ∷ []);
          gsi = unmap k g.gsi;
        }
    unfolding close_socket
    close_present socket present = ground (arith, present)

    closing-Alone : Alone (closing k status reason) g (close_socket k status reason g)
    unfolding run_thread
    closing-Alone = elim (Option-cases (lookup k g.sockets)) [
      | inl absent ↦ rw (close_absent absent) (went delivered (rw absent ended))
      | inr (socket, present) ↦
          rw (close_present socket present)
            (went delivered (rw present (went delivered (went delivered ended))))
    ]

  module _ (name : String) (ctx : Context I M) where
    after_map-LeadsTo :
        (o : Outcome) (id : String) (is_new : Bool)
        (again : State P → Gateway P I M → Option (Gateway P I M)) (gsi : State P)
        (g : Gateway P I M)
        → g.gsi ≡ some gsi
        → ((k : Gateway P I M)
            → k.gsi ≡ some (unset_service id gsi)
            → LeadsTo (mapping name ctx) k (again (unset_service id gsi) k))
        → LeadsTo (sending name ctx id is_new) g (after_map o ctx id is_new again gsi g)
    unfolding run_thread unset_at
    after_map-LeadsTo delivered id is_new again gsi g current rest = went delivered ended
    after_map-LeadsTo slow_consumer id is_new again gsi g current rest =
        went slow_consumer (closing-Alone ctx.socket_id policy_violation "Slow consumer" _)
    after_map-LeadsTo failed id true again gsi g current rest =
        LeadsTo-went failed _ g _ (LeadsTo-went delivered _ _ _ (rw current (rest _ refl)))
    after_map-LeadsTo failed id false again gsi g current rest = went failed (
        went delivered
          (rw current (closing-Alone ctx.socket_id going_away "Service unreachable" _)))

    deliver-LeadsTo :
        (respond : ℕ → String → Outcome) (fuel round : ℕ) (gsi : State P) (g : Gateway P I M)
        → g.gsi ≡ some gsi
        → LeadsTo (mapping name ctx) g (deliver respond fuel round name ctx gsi g)
    unfolding deliver run_thread run_mapping
    deliver-LeadsTo respond zero round gsi g current = tt
    deliver-LeadsTo respond (suc fuel) round gsi g current =
        LeadsTo-went delivered (mapping name ctx) g _ (
          rw current (elim (Bool-cases (is_error err || id == "")) [
            | inl over ↦ rw over (closing-Alone ctx.socket_id going_away "Service unreachable" g')
            | inr given ↦ rw given (
                after_map-LeadsTo (respond round id) id is_new
                  (deliver respond fuel (suc round) name ctx) gsi' g' refl
                  (λ k now. deliver-LeadsTo respond fuel (suc round) (unset_service id gsi') k now))
          ]))
      where
        gsi' : State P
        gsi' = (map_socket name ctx.socket_id gsi).0

        id : String
        id = (map_socket name ctx.socket_id gsi).1

        is_new : Bool
        is_new = (map_socket name ctx.socket_id gsi).2

        err : Option Error
        err = (map_socket name ctx.socket_id gsi).3

        g' : Gateway P I M
        g' = record g { gsi = some gsi' }

module _ {P I M : Type 0} (matches : P → String → Bool) (respond : ℕ → String → Outcome) where
  LeadsTo-result :
      (t : Thread I M) (g h : Gateway P I M) (r : Option (Gateway P I M))
      → r ≡ some h
      → LeadsTo t g r
      → Alone t g h
  LeadsTo-result t g h r e l = rw e at l

  -- If the gateway is connected, its indexer is valid, the path resolves to a service and the fuel
  -- is more than the number of its instances, then Handle returns the gateway that a goroutine of
  -- it leads to, from the registration on, when no other runs between its steps.
  pub handle-Alone :
      (fuel : ℕ) (ctx : Context I M) (g : Gateway P I M) (s : State P)
      → g.gsi ≡ some s
      → IsValid s
      → length (slice_at (resolve_service matches ctx.path s).0 s.services_by_name) < fuel
      → (resolve_service matches ctx.path s).1 ≡ true
      → (h : Gateway P I M) × (handle matches respond fuel ctx g ≡ some h)
        × Alone (registering (resolve_service matches ctx.path s).0 ctx) g h
  unfolding run_thread
  handle-Alone fuel ctx g s current v enough found =
      let (h, e, _, _) = (handle-Settles matches respond fuel ctx g s current v enough).0 found in
      (
        h,
        e,
        went delivered (
            LeadsTo-result _ _ h _
              (sym (handle_routes matches respond fuel ctx g s current found) ∙ e)
              (deliver-LeadsTo (resolve_service matches ctx.path s).0 ctx respond fuel 0 s _
                current)),
      )
