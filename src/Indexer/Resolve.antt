-- ===== src/Indexer/Resolve.antt =====
-- ResolveService: a path goes to a service that announces a route for it.
use eurus.Prelude.{
  String, List, [], ◌∷◌, Bool, true, false, ◌≡◌, arith, inl, inr, Bool-cases, nat_eq, string_eq,
  nat_eq_iff, contains, Map, Distinct,
}
use text.Mathlib.TextEquality.{eq_iff}
use eurus.Descriptor.{RouteDescriptor, Ref, Heap}
use eurus.Indexer.{State, slice_at, routes_match, instances_match, resolve_in, resolve_service}

module _ {P : Type 0} (matches : P → String → Bool) (path : String) where
  -- One of the routes matches the path.
  pub data Serves : List (RouteDescriptor P) → Type 0 where
    here :
        {r : RouteDescriptor P} {rs : List (RouteDescriptor P)}
        → matches r.pattern path ≡ true
        → Serves (r ∷ rs)
    there : {r : RouteDescriptor P} {rs : List (RouteDescriptor P)} → Serves rs → Serves (r ∷ rs)

  routes_match_sound :
      (rs : List (RouteDescriptor P)) → routes_match matches path rs ≡ true → Serves rs
  routes_match_sound [] e = cc
  routes_match_sound (r ∷ rs) e = elim (Bool-cases (matches r.pattern path)) [
    | inl hit ↦ here hit
    | inr miss ↦ there (routes_match_sound rs (ground arith))
  ]

  routes_match_complete :
      {rs : List (RouteDescriptor P)} → Serves rs → routes_match matches path rs ≡ true
  routes_match_complete (here hit) = rw hit
  routes_match_complete (there m) = ground (arith, routes_match_complete m)

  module _ (h : Heap P) where
    instances_match_sound :
        (ps : List Ref)
        → instances_match matches path h ps ≡ true
        → (p : Ref) × (contains p ps ≡ true) × Serves (h p).route_descriptors
    instances_match_sound [] e = cc
    instances_match_sound (q ∷ ps) e =
        elim (Bool-cases (routes_match matches path (h q).route_descriptors)) [
          | inl hit ↦ (q, ground (arith, nat_eq_iff q q), routes_match_sound _ hit)
          | inr miss ↦
              let (p, c, m) = instances_match_sound ps (ground arith) in (p, ground (arith, c), m)
        ]

    instances_match_complete :
        (ps : List Ref) (p : Ref)
        → contains p ps ≡ true
        → Serves (h p).route_descriptors
        → instances_match matches path h ps ≡ true
    instances_match_complete [] p c m = cc
    instances_match_complete (q ∷ ps) p c m =
        ground (arith, nat_eq_iff q p, routes_match_complete m, instances_match_complete ps p)

    resolve_in_sound :
        (m : Map String (List Ref))
        → Distinct m
        → (resolve_in matches path h m).1 ≡ true
        → instances_match matches path h (slice_at (resolve_in matches path h m).0 m) ≡ true
    resolve_in_sound [] d e = cc
    resolve_in_sound ((n, ps) ∷ m) d e =
        ground (arith, eq_iff n n, eq_iff n (resolve_in matches path h m).0, resolve_in_sound m d.1)

    resolve_in_complete :
        (m : Map String (List Ref)) (n : String)
        → instances_match matches path h (slice_at n m) ≡ true
        → (resolve_in matches path h m).1 ≡ true
    resolve_in_complete [] n e = cc
    resolve_in_complete ((k, ps) ∷ m) n e = ground (arith, eq_iff k n, resolve_in_complete m n)

  module _ (s : State P) (d : Distinct s.services_by_name) where
    resolve_open :
        s.closed ≡ false
        → resolve_service matches path s ≡ resolve_in matches path s.heap s.services_by_name
    unfolding resolve_service
    resolve_open opened = ground arith

    resolve_shut : s.closed ≡ true → (resolve_service matches path s).1 ≡ false
    unfolding resolve_service
    resolve_shut shut = ground arith

    -- If the table of services holds each name once and ResolveService finds a service, an
    -- instance of it announces a route that matches the path.
    pub resolve_service_sound :
        (resolve_service matches path s).1 ≡ true
        → (p : Ref) × (contains p (slice_at (resolve_service matches path s).0 s.services_by_name)
            ≡ true)
          × Serves (s.heap p).route_descriptors
    resolve_service_sound e = elim (Bool-cases s.closed) [
      | inl shut ↦ cc (e, resolve_shut shut)
      | inr opened ↦ rw (resolve_open opened) (
          instances_match_sound s.heap _
            (resolve_in_sound s.heap s.services_by_name d (rw (resolve_open opened) at e)))
    ]

    -- In an open indexer whose table of services holds each name once, if an instance of a named
    -- service announces a route that matches the path, ResolveService in an open indexer finds a
    -- service.
    pub resolve_service_complete :
        s.closed ≡ false
        → (n : String) (p : Ref) → contains p (slice_at n s.services_by_name) ≡ true
        → Serves (s.heap p).route_descriptors
        → (resolve_service matches path s).1 ≡ true
    unfolding resolve_service
    resolve_service_complete opened n p c m = ground (
      arith,
      resolve_in_complete s.heap s.services_by_name n
          (instances_match_complete s.heap (slice_at n s.services_by_name) p c m),
    )
