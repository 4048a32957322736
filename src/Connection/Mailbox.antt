-- ===== src/Connection/Mailbox.antt =====
-- The mailbox of connection.go over time: bounded, first in first out, closed once.
use eurus.Prelude.{
  ◌≤◌, String, [], ◌∷◌, ◌++◌, some, true, false, ◌≡◌, refl, arith, length, length-append,
  append_assoc, append-nil, sym, ap, ◌∙◌,
}
use eurus.Gateway.{Status, internal_error}
use eurus.Connection.{
  Connection, Trace, Step, Reach, put, hand, drop, get, shut, sent, here, next, handle_close, write,
  opened, ℤ,
}

module _ {M : Type 0} where
  pub record IsOrderly (t : Trace M) : Type 0 where
    pub bounded : length t.connection.mailbox ≤ t.connection.capacity
    pub in_order : t.accepted ≡ t.received ++ t.connection.mailbox
    pub lossless : t.connection.closed ≡ false → t.dropped ≡ []
    pub closed_once :
        (t.connection.closed ≡ false → t.connection.on_closed ≡ 0)
        × (t.connection.closed ≡ true → t.connection.on_closed ≡ 1)

  handle_close-IsOrderly :
      (status : Status) (reason : String) (t : Trace M)
      → IsOrderly t
      → IsOrderly (record t { connection = handle_close status reason t.connection })
  unfolding handle_close
  handle_close-IsOrderly status reason t i = record {
    bounded = ground (arith, i.bounded);
    in_order = ground (arith, i.in_order);
    lossless = ground (arith, i.lossless);
    closed_once = ground (arith, i.closed_once);
  }

  Step-IsOrderly : {t u : Trace M} → Step t u → IsOrderly t → IsOrderly u
  unfolding write
  Step-IsOrderly {t} (put msg room) i = record {
    bounded = omega (arith, length-append t.connection.mailbox (msg ∷ []));
    in_order =
        ap (λ l. l ++ msg ∷ []) i.in_order
        ∙ append_assoc t.received t.connection.mailbox (msg ∷ []);
    lossless = i.lossless;
    closed_once = i.closed_once;
  }
  Step-IsOrderly {t} (hand msg e) i = record {
    bounded = i.bounded;
    in_order =
        ap (λ l. l ++ msg ∷ []) (i.in_order ∙ ap (◌++◌ t.received) e ∙ append-nil t.received)
        ∙ sym (append-nil (t.received ++ msg ∷ []))
        ∙ sym (ap (◌++◌ (t.received ++ msg ∷ [])) e);
    lossless = i.lossless;
    closed_once = i.closed_once;
  }
  Step-IsOrderly {t} (drop msg closed) i = record {
    bounded = i.bounded;
    in_order = i.in_order;
    lossless = λ opened. cc (closed, opened);
    closed_once = i.closed_once;
  }
  Step-IsOrderly {t} (get msg rest e) i = record {
    bounded = omega (arith, i.bounded, ap length e);
    in_order = i.in_order ∙ ap (◌++◌ t.received) e ∙ sym (append_assoc t.received (msg ∷ []) rest);
    lossless = i.lossless;
    closed_once = i.closed_once;
  }
  Step-IsOrderly {t} (shut status reason) i = handle_close-IsOrderly status reason t i
  Step-IsOrderly {t} (sent true msg) i = i
  Step-IsOrderly {t} (sent false msg) i =
      handle_close-IsOrderly internal_error "Failed to write message to gateway" t i

  opened-IsOrderly :
      (gateway_id socket_id : String) (size : ℤ) → IsOrderly (opened gateway_id socket_id size)
  unfolding opened
  opened-IsOrderly gateway_id socket_id size = record {
    bounded = omega arith;
    in_order = refl;
    lossless = λ e. refl;
    closed_once = ((λ e. refl), (λ e. cc));
  }

  -- Whatever the calls and their order, the mailbox holds no more than its capacity, messages are
  -- read in the order in which they were accepted and none is lost on the way, none is dropped
  -- while the connection is open, and the callback of the closing runs once.
  pub Reach-IsOrderly :
      (gateway_id socket_id : String) (size : ℤ) {t : Trace M}
      → Reach (opened gateway_id socket_id size) t
      → IsOrderly t
  Reach-IsOrderly gateway_id socket_id size here = opened-IsOrderly gateway_id socket_id size
  Reach-IsOrderly gateway_id socket_id size (next r st) =
      Step-IsOrderly st (Reach-IsOrderly gateway_id socket_id size r)

  -- The first closing of an open connection decides the status and the reason; a later one changes
  -- nothing.
  pub handle_close_first :
      (a b : Status) (why later : String) (c : Connection M)
      → c.closed ≡ false
      → ((handle_close a why c).close_status ≡ some a)
        × ((handle_close a why c).close_reason ≡ why)
        × (handle_close b later (handle_close a why c) ≡ handle_close a why c)
  unfolding handle_close
  handle_close_first a b why later c opened = ground arith
