-- ===== src/Local.antt =====
-- transport/localtransport: the tables of handlers. `H` is the type of handlers, which are functions of
-- the subscribers; a broadcast calls those in its table in any order, and a message to one receiver is
-- the handler that it calls, or none for the error.
pub mod Subscriptions
mod Tests
use Prim.Native.Nat.{◌%◌}
use mathlib.Core.List.{Perm}
use eurus.Prelude.{
  ℕ, ◌+◌, ◌<◌, ◌≤◌, String, List, [], Option, ◌≡◌, nat_eq, string_eq, map, Map, lookup, insert,
  delete,
}

pub record LocalTransport (H : Type 0) : Type 0 where
  pub next_handler_id : ℕ
  pub gateway_announce_handlers : Map ℕ H
  pub service_announce_handlers : Map ℕ H
  pub service_message_handlers : Map String H
  pub gateway_message_handlers : Map String H
  pub socket_closed_handlers : Map ℕ H
  pub socket_heartbeat_handlers : Map String H

-- The number of values of a uint64.
abbrev pub uint64_size : ℕ
uint64_size = 18446744073709551616

module _ {H : Type 0} where
  unfoldable pub new_transport : LocalTransport H
  new_transport = record {
    next_handler_id = 0;
    gateway_announce_handlers = [];
    service_announce_handlers = [];
    service_message_handlers = [];
    gateway_message_handlers = [];
    socket_closed_handlers = [];
    socket_heartbeat_handlers = [];
  }

  abbrev pub register_handler_id : LocalTransport H → ℕ
  register_handler_id t = (t.next_handler_id + 1) % uint64_size

  -- A broadcast ranges over a map: it calls each handler in the table once, in any order.
  abbrev pub Notifies : Map ℕ H → List H → Type 0
  Notifies table calls = Perm (map (λ entry. entry.1) table) calls

  abbrev pub AnnounceGateway : LocalTransport H → List H → Type 0
  AnnounceGateway t calls = Notifies t.gateway_announce_handlers calls

  abbrev pub AnnounceService : LocalTransport H → List H → Type 0
  AnnounceService t calls = Notifies t.service_announce_handlers calls

  abbrev pub ClosedSocket : LocalTransport H → List H → Type 0
  ClosedSocket t calls = Notifies t.socket_closed_handlers calls

  unfoldable pub message_service : String → LocalTransport H → Option H
  message_service service_id t = lookup service_id t.service_message_handlers

  unfoldable pub message_gateway : String → LocalTransport H → Option H
  message_gateway gateway_id t = lookup gateway_id t.gateway_message_handlers

  unfoldable pub heartbeat_handler : String → LocalTransport H → Option H
  heartbeat_handler gateway_id t = lookup gateway_id t.socket_heartbeat_handlers

  unfoldable pub subscribe_gateway_announcements : H → LocalTransport H → LocalTransport H × ℕ
  subscribe_gateway_announcements handler t =
      let id = register_handler_id t in
      (
        record t {
          next_handler_id = id;
          gateway_announce_handlers = insert id handler t.gateway_announce_handlers;
        },
        id,
      )

  unfoldable pub unsubscribe_gateway_announcements : ℕ → LocalTransport H → LocalTransport H
  unsubscribe_gateway_announcements id t = record t {
    gateway_announce_handlers = delete id t.gateway_announce_handlers;
  }

  unfoldable pub subscribe_service_announcements : H → LocalTransport H → LocalTransport H × ℕ
  subscribe_service_announcements handler t =
      let id = register_handler_id t in
      (
        record t {
          next_handler_id = id;
          service_announce_handlers = insert id handler t.service_announce_handlers;
        },
        id,
      )

  unfoldable pub unsubscribe_service_announcements : ℕ → LocalTransport H → LocalTransport H
  unsubscribe_service_announcements id t = record t {
    service_announce_handlers = delete id t.service_announce_handlers;
  }

  unfoldable pub subscribe_socket_closures : H → LocalTransport H → LocalTransport H × ℕ
  subscribe_socket_closures handler t =
      let id = register_handler_id t in
      (
        record t {
          next_handler_id = id;
          socket_closed_handlers = insert id handler t.socket_closed_handlers;
        },
        id,
      )

  unfoldable pub unsubscribe_socket_closures : ℕ → LocalTransport H → LocalTransport H
  unsubscribe_socket_closures id t = record t {
    socket_closed_handlers = delete id t.socket_closed_handlers;
  }

  unfoldable pub subscribe_service_messages : String → H → LocalTransport H → LocalTransport H
  subscribe_service_messages id handler t = record t {
    service_message_handlers = insert id handler t.service_message_handlers;
  }

  unfoldable pub unsubscribe_service_messages : String → LocalTransport H → LocalTransport H
  unsubscribe_service_messages id t = record t {
    service_message_handlers = delete id t.service_message_handlers;
  }

  unfoldable pub subscribe_gateway_messages : String → H → LocalTransport H → LocalTransport H
  subscribe_gateway_messages id handler t = record t {
    gateway_message_handlers = insert id handler t.gateway_message_handlers;
  }

  unfoldable pub unsubscribe_gateway_messages : String → LocalTransport H → LocalTransport H
  unsubscribe_gateway_messages id t = record t {
    gateway_message_handlers = delete id t.gateway_message_handlers;
  }

  unfoldable pub subscribe_socket_heartbeats : String → H → LocalTransport H → LocalTransport H
  subscribe_socket_heartbeats id handler t = record t {
    socket_heartbeat_handlers = insert id handler t.socket_heartbeat_handlers;
  }

  unfoldable pub unsubscribe_socket_heartbeats : String → LocalTransport H → LocalTransport H
  unsubscribe_socket_heartbeats id t = record t {
    socket_heartbeat_handlers = delete id t.socket_heartbeat_handlers;
  }

  -- A subscription or its end, in one of the tables that broadcasts go by.
  pub data Step (t : LocalTransport H) : LocalTransport H → Type 0 where
    gateway_announcements :
        (handler : H)
        → t.next_handler_id + 1 < uint64_size
        → Step t (subscribe_gateway_announcements handler t).0
    service_announcements :
        (handler : H)
        → t.next_handler_id + 1 < uint64_size
        → Step t (subscribe_service_announcements handler t).0
    socket_closures :
        (handler : H)
        → t.next_handler_id + 1 < uint64_size
        → Step t (subscribe_socket_closures handler t).0
    no_gateway_announcements : (id : ℕ) → Step t (unsubscribe_gateway_announcements id t)
    no_service_announcements : (id : ℕ) → Step t (unsubscribe_service_announcements id t)
    no_socket_closures : (id : ℕ) → Step t (unsubscribe_socket_closures id t)

  pub data Reach (t : LocalTransport H) : LocalTransport H → Type 0 where
    here : Reach t t
    next : {u v : LocalTransport H} → Reach t u → Step u v → Reach t v
