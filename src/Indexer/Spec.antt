-- ===== src/Indexer/Spec.antt =====
-- What gateway-service-indexer.go promises: a registry of instances by service and id, and an instance
-- for a service and a socket. Pointers, the order of the maps, and the lists of sockets are left out.
use eurus.Prelude.{
  ℕ, false, ◌-◌, String, List, [], ◌∷◌, ◌⊎◌, Option, none, some, Bool, true, ltb, ◌≡◌, ◌==◌, ◌&&◌,
  string_eq, if◌then◌else◌,
}
use eurus.Descriptor.{RouteDescriptor, ServiceDescriptor}

-- What is known of an instance: its routes and when it was announced last.
pub record Entry (P : Type 0) : Type 0 where
  pub routes : List (RouteDescriptor P)
  pub seen : Option ℕ

-- `entries` by service and id, `pins` by service and socket.
pub record Registry (P : Type 0) : Type 0 where
  pub closed : Bool
  pub entries : String → String → Option (Entry P)
  pub pins : String → String → Option String

-- A call of the registry, with its arguments.
pub data Call (P : Type 0) : Type 0 where
  announcing : ℕ → ServiceDescriptor P → Call P
  unsetting : String → Call P
  pruning : ℕ → ℕ → Call P
  mapping : String → String → Call P
  unmapping : String → Call P
  closing : Call P

module _ {P : Type 0} where
  abbrev pub empty : Bool → Registry P
  empty closed = record { closed = closed; entries = λ n i. none; pins = λ n k. none }

  abbrev pub announce : ℕ → ServiceDescriptor P → Registry P → Registry P
  announce now d r = if r.closed then r else record r {
    entries = λ n i.
        if n == d.name && i == d.id
        then some (record { routes = d.route_descriptors; seen = some now })
        else r.entries n i;
  }

  abbrev pub is_old : ℕ → ℕ → Entry P → Bool
  is_old threshold now e = elim e.seen [ none ↦ true | some t ↦ ltb threshold (now - t) ]

  -- A pin to an instance that is still an entry.
  abbrev pub listed_pin : (String → Option (Entry P)) → Option String → Option String
  listed_pin entries none = none
  listed_pin entries (some i) = elim (entries i) [ none ↦ none | some e ↦ some i ]

  -- Entries go, and the pins to them with them.
  abbrev pub drop_entries : (String → Option (Entry P) → Option (Entry P)) → Registry P → Registry P
  drop_entries keep r = if r.closed then r else record r {
    entries = λ n i. keep i (r.entries n i);
    pins = λ n k. listed_pin (λ i. keep i (r.entries n i)) (r.pins n k);
  }

  abbrev pub keep_other : String → String → Option (Entry P) → Option (Entry P)
  keep_other id i o = if i == id then none else o

  abbrev pub keep_fresh : ℕ → ℕ → String → Option (Entry P) → Option (Entry P)
  keep_fresh threshold now i none = none
  keep_fresh threshold now i (some e) = if is_old threshold now e then none else some e

  abbrev pub assign : String → String → String → Registry P → Registry P
  assign name socket id r = record r {
    pins = λ n k. if n == name && k == socket then some id else r.pins n k;
  }

  abbrev pub unpin : String → Registry P → Registry P
  unpin socket r =
      if r.closed then r else record r { pins = λ n k. if k == socket then none else r.pins n k }

  -- What the mapping of a socket does, given whether the registry is closed, and its pin for the
  -- service: a socket that has one keeps it; one that has none is pinned to some entry of the service,
  -- unless there is none.
  abbrev pub Maps : String → String → Bool → Option String → Registry P → Registry P → Type 0
  Maps name socket true pin r q = q ≡ r
  Maps name socket false (some id) r q = q ≡ r
  Maps name socket false none r q =
      (((id : String) → r.entries name id ≡ none) × (q ≡ r))
      ⊎ ((id : String) × (e : Entry P) × (r.entries name id ≡ some e)
          × (q ≡ assign name socket id r))

  -- The registry after a call. All calls but the mapping leave no choice.
  abbrev pub Does : Call P → Registry P → Registry P → Type 0
  Does (announcing now d) r q = q ≡ announce now d r
  Does (unsetting id) r q = q ≡ drop_entries (keep_other id) r
  Does (pruning threshold now) r q = q ≡ drop_entries (keep_fresh threshold now) r
  Does (mapping name socket) r q = Maps name socket r.closed (r.pins name socket) r q
  Does (unmapping socket) r q = q ≡ unpin socket r
  Does closing r q = q ≡ empty true

  -- The calls one after another, the last one first.
  abbrev pub DoAll : List (Call P) → Registry P → Registry P → Type 0
  DoAll [] r q = q ≡ r
  DoAll (c ∷ calls) r q = (u : Registry P) × DoAll calls r u × Does c u q
