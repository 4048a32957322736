-- ===== src/Service/Hosting/Owners.antt =====
-- Whose an open connection of service.go is, and when the table of a service agrees with that.
use eurus.Prelude.{
  ℕ, ◌+◌, ◌≤◌, String, Option, none, some, ◌≡◌, refl, arith, ◌==◌, nat_eq, string_eq, if◌then◌else◌,
  lookup, sym, ◌∙◌,
}
use text.Mathlib.TextEquality.{eq_iff}
use eurus.Connection.{Connection}
use eurus.Service.{Peer}
use eurus.Service.Hosting.{Host, set_connection}

-- The socket and the gateway of an open connection.
abbrev pub owner_of : {M : Type 0} → Option (Connection M) → Option (String × String)
owner_of none = none
owner_of (some c) = if c.closed then none else some (c.socket_id, c.gateway_id)

module _ {P I M : Type 0} where
  abbrev pub owner : Host P I M → ℕ → Option (String × String)
  owner w h = owner_of (w.store h)

  pub record IsHeld (w : Host P I M) : Type 0 where
    -- A connection of the table is open, and is of its socket and gateway.
    pub held :
        (k : String) (p : Peer)
        → lookup k w.service.connections ≡ some p
        → owner w p.handle ≡ some (k, p.gateway_id)
    -- An open connection is the one of its socket in the table.
    pub listed :
        (h : ℕ) (k gateway_id : String)
        → owner w h ≡ some (k, gateway_id)
        → lookup k w.service.connections ≡ some (record { handle = h; gateway_id = gateway_id })
    pub unused : (h : ℕ) → w.service.next_handle ≤ h → owner w h ≡ none

  -- The invariant reads the lookups of the table and the owners only.
  pub same-IsHeld :
      (w v : Host P I M)
      → ((k : String) → lookup k v.service.connections ≡ lookup k w.service.connections)
      → ((h : ℕ) → owner v h ≡ owner w h)
      → v.service.next_handle ≡ w.service.next_handle
      → IsHeld w
      → IsHeld v
  same-IsHeld w v table owners next_ i = record {
    held = λ k p e. owners p.handle ∙ i.held k p (sym (table k) ∙ e);
    listed = λ h k g e. table k ∙ i.listed h k g (sym (owners h) ∙ e);
    unused = λ h le. owners h ∙ i.unused h (omega (arith, next_, le));
  }

  -- A connection that keeps its identity may change otherwise.
  pub updated-IsHeld :
      (h : ℕ) (c d : Connection M) (w : Host P I M)
      → w.store h ≡ some c
      → owner_of (some d) ≡ owner_of (some c)
      → IsHeld w
      → IsHeld (record w { store = set_connection h d w.store })
  updated-IsHeld h c d w at same i =
      same-IsHeld w (record w { store = set_connection h d w.store }) (λ k. refl)
        (λ j. ground (arith, same, at, nat_eq.is_same_iff h j)) refl i

  -- A new connection of a socket that has none.
  pub added-IsHeld :
      (k gateway_id : String) (h : ℕ) (w v : Host P I M)
      → lookup k w.service.connections ≡ none
      → ((j : String)
          → lookup j v.service.connections ≡ (
              if k == j
              then some (record { handle = h; gateway_id = gateway_id })
              else lookup j w.service.connections))
      → ((j : ℕ) → owner v j ≡ (if h == j then some (k, gateway_id) else owner w j))
      → h ≡ w.service.next_handle
      → v.service.next_handle ≡ h + 1
      → IsHeld w
      → IsHeld v
  added-IsHeld k gateway_id h w v absent table owners at next_ i = record {
    held = λ j p e. ground (
      arith,
      owners p.handle,
      table j,
      e,
      i.held j p,
      eq_iff k j,
      nat_eq.is_same_iff h p.handle,
      i.unused h,
      at,
    );
    listed = λ j k' g e. ground (
      arith,
      owners j,
      table k',
      e,
      i.listed j k' g,
      eq_iff k k',
      nat_eq.is_same_iff h j,
      absent,
    );
    unused = λ j le. ground (arith, owners j, i.unused j, nat_eq.is_same_iff h j, at, next_);
  }

  -- A connection that is closed, and taken from the table.
  pub removed-IsHeld :
      (k gateway_id : String) (h : ℕ) (w v : Host P I M)
      → owner w h ≡ some (k, gateway_id)
      → ((j : String)
          → lookup j v.service.connections
            ≡ (if k == j then none else lookup j w.service.connections))
      → ((j : ℕ) → owner v j ≡ (if h == j then none else owner w j))
      → v.service.next_handle ≡ w.service.next_handle
      → IsHeld w
      → IsHeld v
  removed-IsHeld k gateway_id h w v at table owners next_ i = record {
    held = λ j p e. ground (
      arith,
      owners p.handle,
      table j,
      e,
      i.held j p,
      eq_iff k j,
      nat_eq.is_same_iff h p.handle,
      at,
    );
    listed = λ j k' g e. ground (
      arith,
      owners j,
      table k',
      e,
      i.listed j k' g,
      i.listed h k gateway_id at,
      eq_iff k k',
      nat_eq.is_same_iff h j,
    );
    unused = λ j le. ground (arith, owners j, i.unused j, nat_eq.is_same_iff h j, next_, le);
  }
