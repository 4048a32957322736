-- ===== src/Local/Tests.antt =====
-- Runs of the local transport as in local-transport_test.go, and the theorems at them. A handler is a
-- number.
use mathlib.Core.List.{Perm}
use mathlib.Core.List.Perm
use eurus.Prelude.{◌↔◌, ℕ, [], ◌∷◌, arith}
use eurus.Local.{
  LocalTransport, new_transport, AnnounceGateway, AnnounceService, ClosedSocket, message_service,
  message_gateway, heartbeat_handler, subscribe_gateway_announcements,
  unsubscribe_gateway_announcements, subscribe_service_announcements,
  unsubscribe_service_announcements, subscribe_socket_closures, unsubscribe_socket_closures,
  subscribe_service_messages, unsubscribe_service_messages, subscribe_gateway_messages,
  unsubscribe_gateway_messages, subscribe_socket_heartbeats, unsubscribe_socket_heartbeats, Reach,
  socket_closures, here, next,
}
use eurus.Local.Subscriptions.{subscriptions_add_handlers}

program : Unit {0}
unfolding new_transport message_service message_gateway heartbeat_handler
    subscribe_gateway_announcements unsubscribe_gateway_announcements
    subscribe_service_announcements unsubscribe_service_announcements subscribe_socket_closures
    unsubscribe_socket_closures subscribe_service_messages unsubscribe_service_messages
    subscribe_gateway_messages unsubscribe_gateway_messages subscribe_socket_heartbeats
    unsubscribe_socket_heartbeats
program = tt

abbrev one : LocalTransport ℕ
one = (subscribe_socket_closures 7 new_transport).0

history : Reach new_transport one
unfolding program
history = next here (socket_closures 7 (omega arith))

-- Two handlers of socket closures are called in either order.
both_orders :
    let t = (subscribe_socket_closures 8 one).0 in
    ClosedSocket t (7 ∷ 8 ∷ []) × ClosedSocket t (8 ∷ 7 ∷ [])
unfolding program
both_orders = (Perm.refl _, Perm.swap 8 7 [])

subscriptions_add_handlers_example :
    ((AnnounceGateway (subscribe_gateway_announcements 8 one).0 (8 ∷ 7 ∷ [])
        ↔ Perm {A = ℕ} (8 ∷ []) (8 ∷ 7 ∷ []))
      × (AnnounceGateway
            (unsubscribe_gateway_announcements 2 (subscribe_gateway_announcements 8 one).0)
            (8 ∷ 7 ∷ [])
          ↔ AnnounceGateway one (8 ∷ 7 ∷ [])))
    × ((AnnounceService (subscribe_service_announcements 8 one).0 (8 ∷ 7 ∷ [])
          ↔ Perm {A = ℕ} (8 ∷ []) (8 ∷ 7 ∷ []))
        × (AnnounceService
              (unsubscribe_service_announcements 2 (subscribe_service_announcements 8 one).0)
              (8 ∷ 7 ∷ [])
            ↔ AnnounceService one (8 ∷ 7 ∷ [])))
    × ((ClosedSocket (subscribe_socket_closures 8 one).0 (8 ∷ 7 ∷ [])
          ↔ Perm {A = ℕ} (8 ∷ 7 ∷ []) (8 ∷ 7 ∷ []))
        × (ClosedSocket
              (unsubscribe_socket_closures 2 (subscribe_socket_closures 8 one).0)
              (8 ∷ 7 ∷ [])
            ↔ ClosedSocket one (8 ∷ 7 ∷ [])))
unfolding program
subscriptions_add_handlers_example =
    subscriptions_add_handlers 8 one (omega arith) [] [] (7 ∷ []) (8 ∷ 7 ∷ []) history
      (Perm.refl []) (Perm.refl []) (Perm.refl (7 ∷ []))
