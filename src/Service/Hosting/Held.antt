-- ===== src/Service/Hosting/Held.antt =====
-- The table of a service holds exactly its open connections.
use eurus.Prelude.{
  ◌∙◌, sym, String, [], true, false, ◌≡◌, refl, arith, nat_eq, string_eq, lookup, lookup-insert,
  Option-cases, inl, inr, ap,
}
use eurus.Gateway.{internal_error}
use eurus.Connection.{ℤ, new_connection}
use eurus.Service.{Service, ensure_connection, prune_stale_resources}
use eurus.Service.Hosting.{
  Host, put_message, ensure, write_at, hosted, Step, Reach, ensured, kept, read, wrote, closed,
  pruned, stopped, here, next,
}
use eurus.Service.Hosting.Owners.{IsHeld, same-IsHeld, updated-IsHeld, added-IsHeld}
use eurus.Service.Hosting.Closing.{shut-IsHeld, close_hosted-IsHeld, stop_hosted-closes}

module _ {P I M : Type 0} where
  ensure-IsHeld :
      (gateway_id socket_id : String) (info : I) (w : Host P I M)
      → IsHeld w
      → IsHeld (ensure gateway_id socket_id info w).0
  unfolding ensure ensure_connection new_connection
  ensure-IsHeld gateway_id socket_id info w i =
      elim (Option-cases (lookup socket_id w.service.closed_sockets)) [
        | inr (t, recorded) ↦
            same-IsHeld w _ (λ k. ground (arith, recorded)) (λ h. ground (arith, recorded))
              (ground (arith, recorded)) i
        | inl open_ ↦ elim (Option-cases (lookup socket_id w.service.connections)) [
          | inr (p, found) ↦
              same-IsHeld w _ (λ k. ground (arith, open_, found))
                (λ h. ground (arith, open_, found)) (ground (arith, open_, found)) i
          | inl absent ↦
              added-IsHeld socket_id gateway_id w.service.next_handle w _ absent
                (λ j. ground (
                  arith,
                  open_,
                  absent,
                  lookup-insert socket_id j
                      (record { handle = w.service.next_handle; gateway_id = gateway_id })
                      w.service.connections,
                ))
                (λ j. ground (arith, open_, absent, nat_eq.is_same_iff w.service.next_handle j))
                refl (ground (arith, open_, absent)) i
        ]
      ]

  Step-IsHeld : {w v : Host P I M} → Step w v → IsHeld w → IsHeld v
  unfolding write_at prune_stale_resources
  Step-IsHeld {w} (ensured gateway_id socket_id info) i =
      ensure-IsHeld gateway_id socket_id info w i
  Step-IsHeld {w} (kept h msg c at room) i = updated-IsHeld h c (put_message msg c) w at refl i
  Step-IsHeld {w} (read h msg rest c at e) i =
      updated-IsHeld h c (record c { mailbox = rest }) w at refl i
  Step-IsHeld {w} (wrote h true) i = i
  Step-IsHeld {w} (wrote h false) i =
      shut-IsHeld h internal_error "Failed to write message to gateway" w i
  Step-IsHeld {w} (closed now socket_id status reason) i =
      close_hosted-IsHeld now socket_id status reason w i
  Step-IsHeld {w} (pruned now) i = same-IsHeld w _ (λ k. refl) (λ j. refl) refl i
  Step-IsHeld {w} stopped i =
      let (idle, empty) = stop_hosted-closes w i in
      record {
        held = λ k p e. cc (e, empty k);
        listed = λ h k g e. cc (e, idle h);
        unused = λ h le. idle h;
      }

  -- If a service starts without connections, then after any sequence of messages, reads, writes,
  -- failed writes, closings, prunings and stops its table holds exactly the connections that are
  -- open: each entry leads to an open connection of its socket and gateway, each open connection
  -- is the entry of its socket, so that a socket has one at most, and a handle that was not given
  -- out yet has none.
  pub Reach-IsHeld :
      (size : ℤ) (s : Service P I M) {w : Host P I M}
      → s.connections ≡ []
      → Reach (hosted size s) w
      → IsHeld w
  Reach-IsHeld size s none_yet here = record {
    held = λ k p e. absurd (cc (sym (ap (lookup k) none_yet) ∙ e));
    listed = λ h k g e. cc e;
    unused = λ h le. refl;
  }
  Reach-IsHeld size s none_yet (next r st) = Step-IsHeld st (Reach-IsHeld size s none_yet r)
