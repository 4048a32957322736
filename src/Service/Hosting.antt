-- ===== src/Service/Hosting.antt =====
-- A service together with its connections: service.go and connection.go on one state. The store has the
-- Connection of each handle, and HandleClose runs the callback that NewConnection was given.
pub mod Owners
pub mod Closing
pub mod Held
mod Tests
use eurus.Prelude.{
  ℕ, suc, ◌+◌, ◌<◌, String, List, [], ◌∷◌, ◌++◌, Option, none, some, Bool, true, false, ◌≡◌, ◌==◌,
  nat_eq, string_eq, if◌then◌else◌, Map, lookup, length,
}
use eurus.Gateway.{Status, going_away, internal_error}
use eurus.Connection.{Connection, ℤ, new_connection, handle_close, write}
use eurus.Service.{
  Service, Peer, ensure_connection, close_connection, close_all_connections, on_closed,
  prune_stale_resources,
}

pub record Host (P I M : Type 0) : Type 0 where
  pub service : Service P I M
  pub store : ℕ → Option (Connection M)
  pub mailbox_size : ℤ

abbrev pub set_connection :
    {M : Type 0} → ℕ → Connection M → (ℕ → Option (Connection M)) → ℕ → Option (Connection M)
set_connection h c store i = if h == i then some c else store i

-- HandleMessage, case c.messageChan <- msg
abbrev pub put_message : {M : Type 0} → M → Connection M → Connection M
put_message msg c = record c { mailbox = c.mailbox ++ msg ∷ [] }

module _ {P I M : Type 0} where
  -- ensureConnection, with the Connection that it makes.
  unfoldable pub ensure : String → String → I → Host P I M → Host P I M × Option Peer
  unfolding ensure_connection new_connection
  ensure gateway_id socket_id info w =
      let (s', peer) = ensure_connection gateway_id socket_id info w.service in
      (
        record w {
          service = s';
          store =
              if w.service.next_handle == s'.next_handle
              then w.store
              else set_connection w.service.next_handle
                  (new_connection gateway_id socket_id w.mailbox_size) w.store;
        },
        peer,
      )

  -- HandleClose: the first time, the callback deletes the socket of the connection.
  unfoldable pub shut : ℕ → Status → String → Host P I M → Host P I M
  unfolding handle_close on_closed
  shut h status reason w = elim (w.store h) [
    | none ↦ w
    | some c ↦ if c.closed then w else record w {
      store = set_connection h (handle_close status reason c) w.store;
      service = on_closed c.socket_id w.service;
    }
  ]

  -- Write, after which HandleClose follows an error of MessageGateway.
  unfoldable pub write_at : ℕ → Bool → Host P I M → Host P I M
  unfolding shut
  write_at h sent w =
      if sent then w else shut h internal_error "Failed to write message to gateway" w

  -- closeConnection
  unfoldable pub close_hosted : ℕ → String → Status → String → Host P I M → Host P I M
  unfolding shut close_connection
  close_hosted now socket_id status reason w =
      let w' = record w { service = close_connection now socket_id status reason w.service } in
      elim (lookup socket_id w.service.connections) [
        | none ↦ w'
        | some c ↦ shut c.handle status reason w'
      ]

  unfoldable pub shut_peers : Map String Peer → Host P I M → Host P I M
  unfolding shut
  shut_peers [] w = w
  shut_peers ((socket_id, c) ∷ m) w =
      shut_peers m (shut c.handle going_away "Service is stopping" w)

  -- closeAllConnections
  unfoldable pub stop_hosted : Host P I M → Host P I M
  unfolding close_all_connections shut_peers
  stop_hosted w =
      shut_peers w.service.connections (record w { service = close_all_connections w.service })

  -- The steps. A HandleMessage or a Read that meets a canceled context, and a message that goes straight
  -- to a waiting Read, leave the state as it is.
  pub data Step (w : Host P I M) : Host P I M → Type 0 where
    -- A message comes: its connection is found or made, and HandleMessage begins.
    ensured :
        (gateway_id socket_id : String) (info : I) → Step w (ensure gateway_id socket_id info w).0
    kept :
        (h : ℕ) (msg : M) (c : Connection M)
        → w.store h ≡ some c
        → length c.mailbox < c.capacity
        → Step w (record w { store = set_connection h (put_message msg c) w.store })
    read :
        (h : ℕ) (msg : M) (rest : List M) (c : Connection M)
        → w.store h ≡ some c
        → c.mailbox ≡ msg ∷ rest
        → Step w (record w { store = set_connection h (record c { mailbox = rest }) w.store })
    wrote : (h : ℕ) (sent : Bool) → Step w (write_at h sent w)
    -- A closure that is broadcast, or a socket of heartbeatConnections that is dead.
    closed :
        (now : ℕ) (socket_id : String) (status : Status) (reason : String)
        → Step w (close_hosted now socket_id status reason w)
    pruned : (now : ℕ) → Step w (record w { service = prune_stale_resources now w.service })
    stopped : Step w (stop_hosted w)

  -- Before the first message.
  abbrev pub hosted : ℤ → Service P I M → Host P I M
  hosted size s = record { service = s; store = λ h. none; mailbox_size = size }

  pub data Reach (w : Host P I M) : Host P I M → Type 0 where
    here : Reach w w
    next : {u v : Host P I M} → Reach w u → Step u v → Reach w v
