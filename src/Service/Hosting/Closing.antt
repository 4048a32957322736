-- ===== src/Service/Hosting/Closing.antt =====
-- The closing of the connections of service.go, one by one or all at once.
use eurus.Prelude.{
  ℕ, String, [], ◌∷◌, none, some, Bool, true, false, ◌≡◌, refl, arith, ◌==◌, nat_eq, string_eq,
  if◌then◌else◌, Map, lookup, lookup-delete, Option-cases, ◌⊎◌, inl, inr, ap, ◌∙◌,
}
use text.Mathlib.TextEquality.{eq_iff}
use eurus.Gateway.{Status, going_away}
use eurus.Connection.{handle_close}
use eurus.Service.{Peer, close_connection, close_all_connections, on_closed}
use eurus.Service.Closed.{close_connection_frame, connections-close_all_connections}
use eurus.Service.Hosting.{Host, shut, close_hosted, shut_peers, stop_hosted}
use eurus.Service.Hosting.Owners.{owner, IsHeld, same-IsHeld, removed-IsHeld}

-- Does a table name the handle?
abbrev names : ℕ → Map String Peer → Bool
names h [] = false
names h ((k, p) ∷ m) = if p.handle == h then true else names h m

names-lookup :
    (k : String) (p : Peer) (m : Map String Peer) → lookup k m ≡ some p → names p.handle m ≡ true
names-lookup k p [] e = cc e
names-lookup k p ((j, q) ∷ m) e =
    ground (arith, e, names-lookup k p m, nat_eq.is_same_iff q.handle p.handle)

module _ {P I M : Type 0} where
  module _ (h : ℕ) (status : Status) (reason : String) (w : Host P I M) where
    owner-shut : (j : ℕ) → owner (shut h status reason w) j ≡ (if h == j then none else owner w j)
    unfolding shut handle_close
    owner-shut j = elim (Option-cases (w.store h)) [
      | inl absent ↦ ground (arith, absent, nat_eq.is_same_iff h j)
      | inr (c, at) ↦ ground (arith, at, nat_eq.is_same_iff h j)
    ]

    next_handle-shut : (shut h status reason w).service.next_handle ≡ w.service.next_handle
    unfolding shut on_closed
    next_handle-shut = elim (Option-cases (w.store h)) [
      | inl absent ↦ ground (arith, absent)
      | inr (c, at) ↦ ground (arith, at)
    ]

    -- The callback takes the socket of an open connection from the table.
    table-shut :
        (k : String)
        → lookup k (shut h status reason w).service.connections ≡ elim (owner w h) [
          | none ↦ lookup k w.service.connections
          | some (of, g) ↦ if of == k then none else lookup k w.service.connections
        ]
    unfolding shut on_closed
    table-shut k = elim (Option-cases (w.store h)) [
      | inl absent ↦ ground (arith, absent)
      | inr (c, at) ↦ ground (arith, at, lookup-delete c.socket_id k w.service.connections)
    ]

    pub shut-IsHeld : IsHeld w → IsHeld (shut h status reason w)
    shut-IsHeld i = elim (Option-cases (owner w h)) [
      | inl idle ↦
          same-IsHeld w (shut h status reason w) (λ k. ground (arith, idle, table-shut k))
            (λ j. ground (arith, idle, owner-shut j, nat_eq.is_same_iff h j)) next_handle-shut i
      | inr ((k, g), at) ↦
          removed-IsHeld k g h w (shut h status reason w) at (λ j. ground (arith, at, table-shut j))
            owner-shut next_handle-shut i
    ]

  module _ (now : ℕ) (socket_id : String) (status : Status) (reason : String) (w : Host P I M) where
    -- Once closeConnection has left its lock.
    abbrev unlocked : Host P I M
    unlocked = record w { service = close_connection now socket_id status reason w.service }

    next_handle-unlocked : unlocked.service.next_handle ≡ w.service.next_handle
    unfolding close_connection
    next_handle-unlocked = ground arith

    table-unlocked :
        (k : String)
        → lookup k unlocked.service.connections
          ≡ (if socket_id == k then none else lookup k w.service.connections)
    table-unlocked k =
        ap (lookup k) (close_connection_frame now socket_id status reason w.service).0
        ∙ lookup-delete socket_id k w.service.connections

    close_hosted_cases :
        ((lookup socket_id w.service.connections ≡ none)
          × (close_hosted now socket_id status reason w ≡ unlocked))
        ⊎ ((p : Peer) × (lookup socket_id w.service.connections ≡ some p)
            × (close_hosted now socket_id status reason w ≡ shut p.handle status reason unlocked))
    unfolding close_hosted
    close_hosted_cases = elim (Option-cases (lookup socket_id w.service.connections)) [
      | inl absent ↦ inl (absent, ground (arith, absent))
      | inr (p, found) ↦ inr (p, found, ground (arith, found))
    ]

    pub close_hosted-IsHeld : IsHeld w → IsHeld (close_hosted now socket_id status reason w)
    close_hosted-IsHeld i = elim close_hosted_cases [
      | inl (absent, e) ↦ rw e (
          same-IsHeld w unlocked (λ k. ground (arith, table-unlocked k, eq_iff socket_id k, absent))
            (λ j. refl) next_handle-unlocked i)
      | inr (p, found, e) ↦ rw e (
          let at = i.held socket_id p found in
          removed-IsHeld socket_id p.gateway_id p.handle w (shut p.handle status reason unlocked) at
            (λ j.
              ground (arith, at, table-shut p.handle status reason unlocked j, table-unlocked j))
            (owner-shut p.handle status reason unlocked)
            (next_handle-shut p.handle status reason unlocked ∙ next_handle-unlocked) i)
    ]

  owner-shut_peers :
      (m : Map String Peer) (w : Host P I M) (j : ℕ)
      → owner (shut_peers m w) j ≡ (if names j m then none else owner w j)
  unfolding shut_peers
  owner-shut_peers [] w j = refl
  owner-shut_peers ((k, p) ∷ m) w j = ground (
    arith,
    owner-shut_peers m (shut p.handle going_away "Service is stopping" w) j,
    owner-shut p.handle going_away "Service is stopping" w j,
  )

  table-shut_peers :
      (m : Map String Peer) (w : Host P I M) (k : String)
      → lookup k w.service.connections ≡ none
      → lookup k (shut_peers m w).service.connections ≡ none
  unfolding shut_peers
  table-shut_peers [] w k e = e
  table-shut_peers ((j, p) ∷ m) w k e =
      table-shut_peers m (shut p.handle going_away "Service is stopping" w) k
        (ground (arith, e, table-shut p.handle going_away "Service is stopping" w k))

  -- When the service stops, every connection is closed.
  pub stop_hosted-closes :
      (w : Host P I M)
      → IsHeld w
      → ((j : ℕ) → owner (stop_hosted w) j ≡ none)
        × ((k : String) → lookup k (stop_hosted w).service.connections ≡ none)
  unfolding stop_hosted
  stop_hosted-closes w i =
      let begun = record w { service = close_all_connections w.service } in
      (
        λ j. elim (Option-cases (owner w j)) [
          | inl idle ↦ ground (arith, owner-shut_peers w.service.connections begun j, idle)
          | inr ((k, g), at) ↦ ground (
            arith,
            owner-shut_peers w.service.connections begun j,
            names-lookup k (record { handle = j; gateway_id = g }) w.service.connections
                (i.listed j k g at),
          )
        ],
        λ k.
            table-shut_peers w.service.connections begun k
              (ap (lookup k) (connections-close_all_connections w.service)),
      )
