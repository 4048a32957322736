-- ===== src/Nats/Serving.antt =====
-- serveMessages of transport/natstransport/message.go, whole: its loop takes messages while the workers
-- of its dispatcher run; once NextMsgWithContext fails, it waits for the workers and unsubscribes. `E`
-- is the type of errors of NATS, and `W` that of works.
pub mod Accounts
pub mod Histories
mod Tests
use eurus.Prelude.{
  String, List, [], ◌∷◌, ◌++◌, Option, none, some, Bool, true, false, ◌≡◌, lookup, string_eq, ℕ,
}
use eurus.Nats.Codec.{Codec, Msg}
use eurus.Nats.Dispatch.{Dispatcher, new_dispatcher, run_turn, run_done}
use eurus.Nats.Envelopes.{MessageAck, Pump, serve_message}

-- Where the call stands: in its loop, in the deferred wait, or back with its result.
pub data Phase (E : Type 0) : Type 0 where
  receiving : Phase E
  waiting returned : Option E → Phase E

-- `arrived` are the messages that the loop has taken, oldest first.
pub record Serving (E W : Type 0) : Type 0 where
  pub phase : Phase E
  pub pump : Pump W
  pub arrived : List Msg
  pub subscribed : Bool

-- What NextMsgWithContext fails with.
pub data Failure (E : Type 0) : Type 0 where
  canceled : Failure E
  broken : E → Failure E

-- if errors.Is(err, context.Canceled) { return nil }
abbrev pub loop_error : {E : Type 0} → Failure E → Option E
loop_error canceled = none
loop_error (broken e) = some e

module _ {E W : Type 0} where
  unfoldable pub start_serving : ℕ → Serving E W
  unfolding new_dispatcher
  start_serving size = record {
    phase = receiving;
    pump = record { dispatcher = new_dispatcher size; published = [] };
    arrived = [];
    subscribed = true;
  }

  abbrev pub with_dispatcher : Dispatcher W → Serving E W → Serving E W
  with_dispatcher d s = record s { pump = record s.pump { dispatcher = d } }

  module _ (acks : Codec MessageAck) (decode : Msg → Option (String × Bool × W)) where
    unfoldable pub receive : Msg → Serving E W → Serving E W
    unfolding serve_message
    receive msg s = record s {
      pump = serve_message acks decode msg s.pump;
      arrived = s.arrived ++ msg ∷ [];
    }

    pub data Step (s : Serving E W) : Serving E W → Type 0 where
      came : (msg : Msg) → s.phase ≡ receiving → Step s (receive msg s)
      failed :
          (e : Failure E)
          → s.phase ≡ receiving
          → Step s (record s { phase = waiting (loop_error e) })
      turned :
          (socket_id : String)
          → lookup socket_id s.pump.dispatcher.workers ≡ some none
          → Step s (with_dispatcher (run_turn socket_id s.pump.dispatcher) s)
      done :
          (socket_id : String) (work : W)
          → lookup socket_id s.pump.dispatcher.workers ≡ some (some work)
          → Step s (with_dispatcher (run_done socket_id work s.pump.dispatcher) s)
      -- dispatcher.wait returns, and the other deferred call unsubscribes.
      waited :
          (e : Option E)
          → s.phase ≡ waiting e
          → s.pump.dispatcher.workers ≡ []
          → Step s (record s { phase = returned e; subscribed = false })

    pub data Reach (s : Serving E W) : Serving E W → Type 0 where
      here : Reach s s
      next : {t u : Serving E W} → Reach s t → Step t u → Reach s u
