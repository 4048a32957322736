-- ===== src/Indexer/Balance.antt =====
-- MapSocket, whole: its outcomes, least-connections balancing and socket pinning.
use eurus.Prelude.{
  String, none, some, true, false, ◌≡◌, ◌≢◌, ◌≤◌, refl, arith, ◌⊎◌, inl, inr, Option-cases,
  Bool-cases, length, is_empty, ap, nat_eq, string_eq, contains,
}
use text.Mathlib.TextEquality.{eq_iff}
use eurus.Descriptor.{Ref}
use eurus.Indexer.{State, slice_at}
use eurus.Indexer.Sockets.{map_socket, pin}
use eurus.Indexer.Valid.{IsValid}
use eurus.Indexer.Least.{load, least-of-slice, pin-add_pin}
use eurus.Indexer.Pinning.{
  assigned_to, map_closed, map_pinned, map_unavailable, map_new, assigned_to-IsValid,
}

module _ {P : Type 0} (name socket : String) (s : State P) where
  -- A new mapping, to an instance of the service that has the fewest sockets.
  pub record IsAssigned : Type 0 where
    pub target : Ref
    pub opened : s.closed ≡ false
    pub unmapped : pin name socket s.socket_to_instance ≡ none
    pub member : contains target (slice_at name s.services_by_name) ≡ true
    pub fewest :
        (p : Ref)
        → contains p (slice_at name s.services_by_name) ≡ true
        → load s.heap target ≤ load s.heap p
    pub outcome :
        map_socket name socket s
        ≡ (assigned_to name socket s target, (s.heap target).id, true, none)

  -- The socket keeps the instance that it has.
  pub record IsKept : Type 0 where
    pub id : String
    pub opened : s.closed ≡ false
    pub mapped : pin name socket s.socket_to_instance ≡ some id
    pub outcome : map_socket name socket s ≡ (s, id, false, none)

  new_mapping :
      s.closed ≡ false
      → pin name socket s.socket_to_instance ≡ none
      → is_empty (slice_at name s.services_by_name) ≡ false
      → IsAssigned
  new_mapping opened unmapped e =
      let (q, found, member, fewest) = least-of-slice s.heap (slice_at name s.services_by_name) e in
      record {
        target = q;
        opened = opened;
        unmapped = unmapped;
        member = member;
        fewest = fewest;
        outcome = map_new name socket s q opened unmapped e found;
      }

  pub map_socket_cases : (map_socket name socket s ≡ (s, "", false, none)) ⊎ IsKept ⊎ IsAssigned
  map_socket_cases = elim (Bool-cases s.closed) [
    | inl shut ↦ inl (map_closed name socket s shut)
    | inr opened ↦ elim (Option-cases (pin name socket s.socket_to_instance)) [
      | inr (id, mapped) ↦ inr (
          inl (record {
            id = id;
            opened = opened;
            mapped = mapped;
            outcome = map_pinned name socket s id opened mapped;
          }))
      | inl unmapped ↦ elim (Bool-cases (is_empty (slice_at name s.services_by_name))) [
        | inl e ↦ inl (map_unavailable name socket s opened unmapped e)
        | inr e ↦ inr (inr (new_mapping opened unmapped e))
      ]
    ]
  ]

  -- MapSocket keeps the tables consistent.
  pub map_socket-IsValid : IsValid s → IsValid (map_socket name socket s).0
  map_socket-IsValid v = elim map_socket_cases [
    | inl e ↦ rw e v
    | inr (inl k) ↦ rw k.outcome v
    | inr (inr a) ↦
        rw a.outcome
          (assigned_to-IsValid name socket s v.registry v.pins a.target a.member a.unmapped)
  ]

  pub map_socket-no_error : (map_socket name socket s).3 ≡ none
  map_socket-no_error = elim map_socket_cases [
    | inl e ↦ rw e
    | inr (inl k) ↦ rw k.outcome
    | inr (inr a) ↦ rw a.outcome
  ]

  -- If the indexer is open, the service has an instance and the socket is not mapped, MapSocket
  -- makes a new mapping, to an instance of the service that has no more sockets than any other
  -- instance of it.
  pub map_socket-least :
      s.closed ≡ false
      → pin name socket s.socket_to_instance ≡ none
      → is_empty (slice_at name s.services_by_name) ≡ false
      → ((map_socket name socket s).2 ≡ true)
        × (target : Ref) × (contains target (slice_at name s.services_by_name) ≡ true)
        × ((map_socket name socket s).1 ≡ (s.heap target).id)
        × ((p : Ref)
            → contains p (slice_at name s.services_by_name) ≡ true
            → length (s.heap target).socket_ids ≤ length (s.heap p).socket_ids)
  map_socket-least opened unmapped e =
      let a = new_mapping opened unmapped e in
      (ap (λ r. r.2) a.outcome, a.target, a.member, ap (λ r. r.1) a.outcome, a.fewest)

  pinned_again :
      (id : String) (t : State P)
      → t.closed ≡ false
      → pin name socket t.socket_to_instance ≡ some id
      → (pin name socket t.socket_to_instance ≡ some id)
        × (map_socket name socket t ≡ (t, id, false, none))
  pinned_again id t opened mapped = (mapped, map_pinned name socket t id opened mapped)

  -- If MapSocket returns an instance, the socket is mapped to it afterwards, and the next
  -- MapSocket for the same service and socket returns it again, as not new, and changes nothing.
  pub map_socket-pins :
      (map_socket name socket s).1 ≢ ""
      → let t = (map_socket name socket s).0 in
        let id = (map_socket name socket s).1 in
        (pin name socket t.socket_to_instance ≡ some id)
        × (map_socket name socket t ≡ (t, id, false, none))
  map_socket-pins given = elim map_socket_cases [
    | inl e ↦ absurd (given (ap (λ r. r.1) e))
    | inr (inl k) ↦ rw k.outcome (pinned_again k.id s k.opened k.mapped)
    | inr (inr a) ↦ rw a.outcome (
        pinned_again (s.heap a.target).id (assigned_to name socket s a.target) a.opened (
          ground (
            arith,
            pin-add_pin name socket (s.heap a.target).id s.socket_to_instance name socket,
            eq_iff name name,
            eq_iff socket socket,
          )))
  ]

  -- MapSocket leaves the registered instances alone, and gives an instance only while open.
  pub map_socket_frame :
      ((map_socket name socket s).0.services_by_name ≡ s.services_by_name)
      × ((map_socket name socket s).1 ≢ "" → (map_socket name socket s).0.closed ≡ false)
  map_socket_frame = elim map_socket_cases [
    | inl e ↦ rw e (refl, λ given. absurd (given refl))
    | inr (inl k) ↦ rw k.outcome (refl, λ given. k.opened)
    | inr (inr a) ↦ rw a.outcome (refl, λ given. a.opened)
  ]
