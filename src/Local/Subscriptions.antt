-- ===== src/Local/Subscriptions.antt =====
-- The subscriptions of transport/localtransport: each reaches its handler, alone, until it ends.
use mathlib.Core.List.{Perm, perm_middle}
use mathlib.Core.List.Perm
use eurus.Prelude.{
  ◌↔◌, List, append-nil, map, ℕ, ◌+◌, ◌<◌, [], ◌∷◌, ◌++◌, none, ◌≡◌, refl, arith, ap, ◌∙◌, nat_eq,
  nat_eq_iff, string_eq, Map, lookup, insert, delete, Distinct, lookup-insert, lookup-delete,
  Distinct-insert, Distinct-delete,
}
use eurus.Local.{
  LocalTransport, uint64_size, new_transport, register_handler_id, Notifies, AnnounceGateway,
  AnnounceService, ClosedSocket, subscribe_gateway_announcements, unsubscribe_gateway_announcements,
  subscribe_service_announcements, unsubscribe_service_announcements, subscribe_socket_closures,
  unsubscribe_socket_closures, Step, Reach, gateway_announcements, service_announcements,
  socket_closures, no_gateway_announcements, no_service_announcements, no_socket_closures, here,
  next,
}

module _ {H : Type 0} where
  -- Each number is in the table once, and none is above `bound`.
  pub record IsNumbered (bound : ℕ) (table : Map ℕ H) : Type 0 where
    pub distinct : Distinct table
    pub below : (k : ℕ) → bound < k → lookup k table ≡ none

  pub record IsSound (t : LocalTransport H) : Type 0 where
    pub gateways : IsNumbered t.next_handler_id t.gateway_announce_handlers
    pub services : IsNumbered t.next_handler_id t.service_announce_handlers
    pub closures : IsNumbered t.next_handler_id t.socket_closed_handlers

  insert-IsNumbered :
      (n : ℕ) (handler : H) (table : Map ℕ H)
      → IsNumbered n table
      → IsNumbered (n + 1) (insert (n + 1) handler table)
  insert-IsNumbered n handler table i = record {
    distinct = Distinct-insert (n + 1) handler table i.distinct;
    below = λ k h.
        ground (arith, h, i.below k, lookup-insert (n + 1) k handler table, nat_eq_iff (n + 1) k);
  }

  delete-IsNumbered :
      (n id : ℕ) (table : Map ℕ H) → IsNumbered n table → IsNumbered n (delete id table)
  delete-IsNumbered n id table i = record {
    distinct = Distinct-delete id table i.distinct;
    below = λ k h. ground (arith, i.below k h, lookup-delete id k table);
  }

  later-IsNumbered : (n : ℕ) (table : Map ℕ H) → IsNumbered n table → IsNumbered (n + 1) table
  later-IsNumbered n table i = record {
    distinct = i.distinct;
    below = λ k h. i.below k (omega arith);
  }

  register_handler_id_lem :
      (t : LocalTransport H)
      → t.next_handler_id + 1 < uint64_size
      → register_handler_id t ≡ t.next_handler_id + 1
  register_handler_id_lem t h = omega arith

  Step-IsSound : {t u : LocalTransport H} → Step t u → IsSound t → IsSound u
  unfolding subscribe_gateway_announcements unsubscribe_gateway_announcements
      subscribe_service_announcements unsubscribe_service_announcements subscribe_socket_closures
      unsubscribe_socket_closures
  Step-IsSound {t} (gateway_announcements handler h) i = rw (register_handler_id_lem t h) (record {
    gateways = insert-IsNumbered t.next_handler_id handler t.gateway_announce_handlers i.gateways;
    services = later-IsNumbered t.next_handler_id t.service_announce_handlers i.services;
    closures = later-IsNumbered t.next_handler_id t.socket_closed_handlers i.closures;
  })
  Step-IsSound {t} (service_announcements handler h) i = rw (register_handler_id_lem t h) (record {
    gateways = later-IsNumbered t.next_handler_id t.gateway_announce_handlers i.gateways;
    services = insert-IsNumbered t.next_handler_id handler t.service_announce_handlers i.services;
    closures = later-IsNumbered t.next_handler_id t.socket_closed_handlers i.closures;
  })
  Step-IsSound {t} (socket_closures handler h) i = rw (register_handler_id_lem t h) (record {
    gateways = later-IsNumbered t.next_handler_id t.gateway_announce_handlers i.gateways;
    services = later-IsNumbered t.next_handler_id t.service_announce_handlers i.services;
    closures = insert-IsNumbered t.next_handler_id handler t.socket_closed_handlers i.closures;
  })
  Step-IsSound {t} (no_gateway_announcements id) i = record {
    gateways = delete-IsNumbered t.next_handler_id id t.gateway_announce_handlers i.gateways;
    services = i.services;
    closures = i.closures;
  }
  Step-IsSound {t} (no_service_announcements id) i = record {
    gateways = i.gateways;
    services = delete-IsNumbered t.next_handler_id id t.service_announce_handlers i.services;
    closures = i.closures;
  }
  Step-IsSound {t} (no_socket_closures id) i = record {
    gateways = i.gateways;
    services = i.services;
    closures = delete-IsNumbered t.next_handler_id id t.socket_closed_handlers i.closures;
  }

  Reach-IsSound : {t : LocalTransport H} → Reach new_transport t → IsSound t
  unfolding new_transport
  Reach-IsSound here = record {
    gateways = record { distinct = tt; below = λ k h. refl };
    services = record { distinct = tt; below = λ k h. refl };
    closures = record { distinct = tt; below = λ k h. refl };
  }
  Reach-IsSound (next r st) = Step-IsSound st (Reach-IsSound r)

  insert_fresh :
      (id : ℕ) (handler : H) (table : Map ℕ H)
      → lookup id table ≡ none
      → insert id handler table ≡ table ++ (id, handler) ∷ []
  insert_fresh id handler [] e = refl
  insert_fresh id handler ((k, h) ∷ table) e = ground (arith, insert_fresh id handler table)

  delete_absent : (id : ℕ) (table : Map ℕ H) → lookup id table ≡ none → delete id table ≡ table
  delete_absent id [] e = refl
  delete_absent id ((k, h) ∷ table) e = ground (arith, delete_absent id table)

  delete_last :
      (id : ℕ) (handler : H) (table : Map ℕ H)
      → lookup id table ≡ none
      → delete id (table ++ (id, handler) ∷ []) ≡ table
  delete_last id handler [] e = ground (arith, nat_eq_iff id id)
  delete_last id handler ((k, h) ∷ table) e = ground (arith, delete_last id handler table)

  values_snoc :
      (id : ℕ) (handler : H) (table : Map ℕ H)
      → map (λ entry. entry.1) (table ++ (id, handler) ∷ [])
        ≡ map (λ entry. entry.1) table ++ handler ∷ []
  values_snoc id handler [] = refl
  values_snoc id handler ((k, h) ∷ table) = ap (◌∷◌ h) (values_snoc id handler table)

  module _ (handler : H) (t : LocalTransport H) (h : t.next_handler_id + 1 < uint64_size) where
    fresh_in :
        (table : Map ℕ H)
        → IsNumbered t.next_handler_id table
        → lookup (register_handler_id t) table ≡ none
    fresh_in table i = i.below (register_handler_id t) (omega (arith, register_handler_id_lem t h))

    reaches :
        (table : Map ℕ H)
        → IsNumbered t.next_handler_id table
        → (map (λ entry. entry.1) (insert (register_handler_id t) handler table)
            ≡ map (λ entry. entry.1) table ++ handler ∷ [])
          × (delete (register_handler_id t) (insert (register_handler_id t) handler table) ≡ table)
    reaches table i =
        let e = insert_fresh (register_handler_id t) handler table (fresh_in table i) in
        (
          ap (map (λ entry. entry.1)) e ∙ values_snoc (register_handler_id t) handler table,
          ap (delete (register_handler_id t)) e
              ∙ delete_last (register_handler_id t) handler table (fresh_in table i),
        )

    -- A broadcast calls one handler more, in any place.
    one_more :
        (table : Map ℕ H) (m l : List H)
        → IsNumbered t.next_handler_id table
        → Notifies table m
        → (Notifies (insert (register_handler_id t) handler table) l ↔ Perm (handler ∷ m) l)
    one_more table m l i before =
        let front : Perm (map (λ entry. entry.1) (insert (register_handler_id t) handler table))
            (handler ∷ m) =
          rw (reaches table i).0 (
            Perm.trans (perm_middle (map (λ entry. entry.1) table) [])
              (Perm.cons handler (rw (append-nil (map (λ entry. entry.1) table)) before))) in
        ((λ p. Perm.trans (Perm.symm front) p), (λ p. Perm.trans front p))

    none_more :
        (table : Map ℕ H) (l : List H)
        → IsNumbered t.next_handler_id table
        → (Notifies
              (delete (register_handler_id t) (insert (register_handler_id t) handler table))
              l
            ↔ Notifies table l)
    none_more table l i = rw (reaches table i).1 ((λ p. p), (λ p. p))

    -- In a transport that calls led to, before 2^64 - 1 subscriptions: after a new subscription to
    -- gateway announcements, service announcements or socket closures a broadcast may call exactly
    -- the reorderings of the new handler with those that it called before, each once; and after
    -- the end of that subscription it may call exactly what it might before it.
    pub subscriptions_add_handlers :
        (m n o l : List H)
        → Reach new_transport t
        → AnnounceGateway t m
        → AnnounceService t n
        → ClosedSocket t o
        → let (a, i) = subscribe_gateway_announcements handler t in
          let (b, j) = subscribe_service_announcements handler t in
          let (c, k) = subscribe_socket_closures handler t in
          ((AnnounceGateway a l ↔ Perm (handler ∷ m) l)
            × (AnnounceGateway (unsubscribe_gateway_announcements i a) l ↔ AnnounceGateway t l))
          × ((AnnounceService b l ↔ Perm (handler ∷ n) l)
              × (AnnounceService (unsubscribe_service_announcements j b) l ↔ AnnounceService t l))
          × ((ClosedSocket c l ↔ Perm (handler ∷ o) l)
              × (ClosedSocket (unsubscribe_socket_closures k c) l ↔ ClosedSocket t l))
    unfolding subscribe_gateway_announcements unsubscribe_gateway_announcements
        subscribe_service_announcements unsubscribe_service_announcements subscribe_socket_closures
        unsubscribe_socket_closures
    subscriptions_add_handlers m n o l r p q s =
        let i = Reach-IsSound r in
        (
          (
            one_more t.gateway_announce_handlers m l i.gateways p,
            none_more t.gateway_announce_handlers l i.gateways,
          ),
          (
            one_more t.service_announce_handlers n l i.services q,
            none_more t.service_announce_handlers l i.services,
          ),
          (
            one_more t.socket_closed_handlers o l i.closures s,
            none_more t.socket_closed_handlers l i.closures,
          ),
        )
