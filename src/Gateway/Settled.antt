-- ===== src/Gateway/Settled.antt =====
-- How a call of Gateway.Handle ends, and one round of its loop.
use mathlib.Core.Path.{subst}
use eurus.Prelude.{
  String, List, [], ◌∷◌, ◌++◌, Option, some, Bool, true, false, ◌≡◌, refl, arith, ◌⊎◌, inl, inr, ap,
  ◌∙◌, append-nil, append_assoc, string_eq, lookup,
}
use eurus.Indexer.{State, unset_service}
use eurus.Indexer.Sockets.{pin, map_socket, unmap_socket}
use eurus.Indexer.Valid.{IsValid}
use eurus.Indexer.Unset.{unset_service-IsValid}
use eurus.Gateway.{
  Gateway, Call, Context, Outcome, delivered, slow_consumer, failed, Status, policy_violation,
  going_away, message_service, close_socket, after_map, emit, unmap,
}
use eurus.Indexer.Spec.{Entry}
use eurus.Indexer.Views.{entry_of, entry_at, view-unmap_socket}
use eurus.Gateway.Close.{IsDropped, close_registered, close_socket-IsDropped}

-- The deliveries that failed, oldest first.
abbrev pub attempts : {I M : Type 0} → Context I M → String → List String → List (Call I M)
attempts ctx gateway_id [] = []
attempts ctx gateway_id (id ∷ ids) =
    message_service id gateway_id ctx.socket_id ctx.info ctx.message failed
    ∷ attempts ctx gateway_id ids

module _ {P I M : Type 0} (name : String) (ctx : Context I M) (gateway_id : String) where
  -- The message was last sent to the instance that the socket is pinned to, and the socket is
  -- registered.
  pub record IsDelivered (before : List (Call I M)) (g : Gateway P I M) : Type 0 where
    pub indexer : State P
    pub current : g.gsi ≡ some indexer
    pub valid : IsValid indexer
    pub instance_id : String
    pub pinned : pin name ctx.socket_id indexer.socket_to_instance ≡ some instance_id
    pub last_call :
        g.calls
        ≡ before
          ++ message_service instance_id gateway_id ctx.socket_id ctx.info ctx.message delivered
            ∷ []
    pub registered : lookup ctx.socket_id g.sockets ≡ some ctx.socket

  abbrev pub Drops : Status → String → List (Call I M) → Gateway P I M → Type 0
  Drops status reason before g = IsDropped ctx.socket_id ctx.socket status reason before g

  -- The delivery to an instance was refused as too slow, the socket was dropped for that, and the
  -- instance is still an entry.
  pub record IsSlow (before : List (Call I M)) (g : Gateway P I M) : Type 0 where
    pub instance_id : String
    pub dropped :
        Drops policy_violation "Slow consumer"
          (before
            ++ message_service instance_id gateway_id ctx.socket_id ctx.info ctx.message
                slow_consumer
              ∷ [])
          g
    pub indexer : State P
    pub current : g.gsi ≡ some indexer
    pub entry : Entry P
    pub kept : entry_at indexer name instance_id ≡ some entry

  -- The socket was dropped after a delivery that failed, or else MapSocket gave no instance.
  abbrev pub IsUnreachable : State P → List String → List (Call I M) → Gateway P I M → Type 0
  IsUnreachable s ids before g =
      Drops going_away "Service unreachable" before g
      × (ids ≡ [] → (map_socket name ctx.socket_id s).1 ≡ "")

  -- `s` is the indexer at the start, and `ids` are the instances that the deliveries failed to.
  abbrev pub IsSettled : State P → List String → List (Call I M) → Gateway P I M → Type 0
  IsSettled s ids before g = IsDelivered before g ⊎ (IsSlow before g ⊎ IsUnreachable s ids before g)

  -- The call returns: after the calls in `before` and deliveries that failed, it is settled.
  abbrev pub Settles : State P → List (Call I M) → Option (Gateway P I M) → Type 0
  Settles s before r =
      (g : Gateway P I M) × (r ≡ some g)
      × (ids : List String) × IsSettled s ids (before ++ attempts ctx gateway_id ids) g

  pub settled :
      (s : State P) (before : List (Call I M)) (g : Gateway P I M)
      → IsSettled s [] before g
      → Settles s before (some g)
  settled s before g i = (g, refl, [], rw (append-nil before) i)

  later_round :
      (s t : State P) (id : String) (ids : List String) (l : List (Call I M)) (g : Gateway P I M)
      → IsSettled t ids l g
      → IsSettled s (id ∷ ids) l g
  later_round s t id ids l g (inl i) = inl i
  later_round s t id ids l g (inr (inl i)) = inr (inl i)
  later_round s t id ids l g (inr (inr (dropped, _))) =
      inr (inr (dropped, λ e. absurd (ground (arith, e))))

  -- A delivery that failed goes before what follows.
  failed_before :
      (s t : State P) (id : String) (before : List (Call I M)) (r : Option (Gateway P I M))
      → Settles t
          (before ++ message_service id gateway_id ctx.socket_id ctx.info ctx.message failed ∷ [])
          r
      → Settles s before r
  failed_before s t id before r (g, e, ids, i) = (
    g,
    e,
    id ∷ ids,
    subst (λ l. IsSettled s (id ∷ ids) l g)
        (append_assoc before
          (message_service id gateway_id ctx.socket_id ctx.info ctx.message failed ∷ [])
          (attempts ctx gateway_id ids))
        (later_round s t id ids _ g i),
  )

module _ {P I M : Type 0} (name : String) (ctx : Context I M) where
  module _ (status : Status) (reason : String) (g : Gateway P I M) (s : State P)
      (registered : lookup ctx.socket_id g.sockets ≡ some ctx.socket)
      (current : g.gsi ≡ some s) where
    pub closed_drops :
        IsValid s
        → IsDropped ctx.socket_id ctx.socket status reason g.calls
            (close_socket ctx.socket_id status reason g)
    closed_drops v =
        close_socket-IsDropped ctx.socket_id status reason g ctx.socket s registered current v

    gsi-close_socket :
        (close_socket ctx.socket_id status reason g).gsi ≡ some (unmap_socket ctx.socket_id s)
    gsi-close_socket =
        ap (λ h. h.gsi) (close_registered ctx.socket_id status reason g ctx.socket registered)
        ∙ ap (unmap ctx.socket_id) current

  -- An instance that a socket is pinned to stays an entry when the socket is unmapped.
  entry_after_unmap :
      (id : String) (s : State P)
      → IsValid s
      → pin name ctx.socket_id s.socket_to_instance ≡ some id
      → (e : Entry P) × (entry_at (unmap_socket ctx.socket_id s) name id ≡ some e)
  entry_after_unmap id s v pinned =
      let (p, found, _) = v.pins.live name ctx.socket_id id pinned in
      (
        entry_of (s.heap p),
        ap (λ r. r.entries name id) (view-unmap_socket s v ctx.socket_id) ∙ ground (arith, found),
      )

  pub after_map-Settles :
      (o : Outcome) (id : String) (is_new : Bool) (start : State P)
      (again : State P → Gateway P I M → Option (Gateway P I M)) (s : State P) (g : Gateway P I M)
      → IsValid s
      → pin name ctx.socket_id s.socket_to_instance ≡ some id
      → lookup ctx.socket_id g.sockets ≡ some ctx.socket
      → g.gsi ≡ some s
      → ((k : Gateway P I M)
          → lookup ctx.socket_id k.sockets ≡ some ctx.socket
          → k.id ≡ g.id
          → Settles name ctx g.id (unset_service id s) k.calls (again (unset_service id s) k))
      → Settles name ctx g.id start g.calls (after_map o ctx id is_new again s g)
  after_map-Settles delivered id is_new start again s g v pinned registered current rest =
      (settled name ctx g.id start g.calls _ (
        inl (record {
          indexer = s;
          current = current;
          valid = v;
          instance_id = id;
          pinned = pinned;
          last_call = refl;
          registered = registered;
        })))
  after_map-Settles slow_consumer id is_new start again s g v pinned registered current rest =
      let (e, kept) = entry_after_unmap id s v pinned in
      let tried =
        emit (message_service id g.id ctx.socket_id ctx.info ctx.message slow_consumer) g in
      (settled name ctx g.id start g.calls _ (
        inr (
          inl (record {
            instance_id = id;
            dropped = closed_drops policy_violation "Slow consumer" tried s registered current v;
            indexer = unmap_socket ctx.socket_id s;
            current = gsi-close_socket policy_violation "Slow consumer" tried s registered current;
            entry = e;
            kept = kept;
          }))))
  after_map-Settles failed id true start again s g v pinned registered current rest =
      failed_before name ctx g.id start (unset_service id s) id g.calls _ (rest _ registered refl)
  after_map-Settles failed id false start again s g v pinned registered current rest = (
    _,
    refl,
    id ∷ [],
    inr (
        inr (
          closed_drops going_away "Service unreachable" _ (unset_service id s) registered refl
              (unset_service-IsValid id s v),
          λ e. absurd (ground (arith, e)),
        )),
  )
