-- ===== src/Connection.antt =====
-- connection.go: the mailbox of a connection and its closing. `M` is velaros.SocketMessage. The
-- select statements choose among the cases that are ready: the mailbox is a step relation.
mod Tests
pub mod Mailbox
use eurus.Prelude.{
  ℕ, suc, ◌+◌, ◌<◌, String, List, [], ◌∷◌, ◌++◌, Option, none, some, Bool, true, false, ◌≡◌, length,
}
use eurus.Gateway.{Status, internal_error}

pub data ℤ : Type 0 where
  pos : ℕ → ℤ
  negsuc : ℕ → ℤ

-- if mailboxSize < 0 { mailboxSize = 0 }
unfoldable pub mailbox_capacity : ℤ → ℕ
mailbox_capacity (pos n) = n
mailbox_capacity (negsuc n) = 0

-- `closed` says that the context is canceled, and with it that closeOnce has run; `on_closed`
-- counts the calls of the callback.
pub record Connection (M : Type 0) : Type 0 where
  pub gateway_id : String
  pub socket_id : String
  pub capacity : ℕ
  pub mailbox : List M
  pub closed : Bool
  pub close_status : Option Status
  pub close_reason : String
  pub on_closed : ℕ

-- The writes and closures that the transport is asked for.
pub data Call (M : Type 0) : Type 0 where
  message_gateway : String → String → M → Call M
  closed_socket : String → Status → String → Call M

-- A connection with the messages that HandleMessage took, that Read returned and that were
-- dropped, oldest first.
pub record Trace (M : Type 0) : Type 0 where
  pub connection : Connection M
  pub accepted : List M
  pub received : List M
  pub dropped : List M

module _ {M : Type 0} where
  unfoldable pub new_connection : String → String → ℤ → Connection M
  unfolding mailbox_capacity
  new_connection gateway_id socket_id size = record {
    gateway_id = gateway_id;
    socket_id = socket_id;
    capacity = mailbox_capacity size;
    mailbox = [];
    closed = false;
    close_status = none;
    close_reason = "";
    on_closed = 0;
  }

  unfoldable pub handle_close : Status → String → Connection M → Connection M
  handle_close status reason c = elim c.closed [
    | true ↦ c
    | false ↦ record c {
      closed = true;
      close_status = some status;
      close_reason = reason;
      on_closed = c.on_closed + 1;
    }
  ]

  -- `sent` is false if MessageGateway returned an error.
  unfoldable pub write : Bool → M → Connection M → Connection M × Call M
  write sent msg c = (
    elim sent [
      | true ↦ c
      | false ↦ handle_close internal_error "Failed to write message to gateway" c
    ],
    message_gateway c.gateway_id c.socket_id msg,
  )

  unfoldable pub close : Status → String → Connection M → Call M
  close status reason c = closed_socket c.socket_id status reason

  pub data Step (t : Trace M) : Trace M → Type 0 where
    -- HandleMessage, case c.messageChan <- msg, while the buffer has room
    put :
        (msg : M)
        → length t.connection.mailbox < t.connection.capacity
        → Step t (record t {
          connection = record t.connection { mailbox = t.connection.mailbox ++ msg ∷ [] };
          accepted = t.accepted ++ msg ∷ [];
        })
    -- the same, to a Read that waits at the empty channel
    hand :
        (msg : M)
        → t.connection.mailbox ≡ []
        → Step t (record t { accepted = t.accepted ++ msg ∷ []; received = t.received ++ msg ∷ [] })
    -- HandleMessage, case <-c.ctx.Done()
    drop :
        (msg : M)
        → t.connection.closed ≡ true
        → Step t (record t { dropped = t.dropped ++ msg ∷ [] })
    -- Read, case msg := <-c.messageChan
    get :
        (msg : M) (rest : List M)
        → t.connection.mailbox ≡ msg ∷ rest
        → Step t (record t {
          connection = record t.connection { mailbox = rest };
          received = t.received ++ msg ∷ [];
        })
    -- HandleClose
    shut :
        (status : Status) (reason : String)
        → Step t (record t { connection = handle_close status reason t.connection })
    -- Write
    sent : (ok : Bool) (msg : M) → Step t (record t { connection = (write ok msg t.connection).0 })

  pub data Reach (t : Trace M) : Trace M → Type 0 where
    here : Reach t t
    next : {u v : Trace M} → Reach t u → Step u v → Reach t v

  unfoldable pub opened : String → String → ℤ → Trace M
  unfolding new_connection
  opened gateway_id socket_id size = record {
    connection = new_connection gateway_id socket_id size;
    accepted = [];
    received = [];
    dropped = [];
  }
