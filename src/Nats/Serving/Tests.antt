-- ===== src/Nats/Serving/Tests.antt =====
-- A call of serveMessages with a queue of one: a work is a number, and so is the first byte of a message.
use eurus.Prelude.{
  ℕ, String, List, ◌==◌, [], ◌∷◌, Option, none, some, Bool, true, false, ◌≡◌, refl, string_eq,
  if◌then◌else◌,
}
use eurus.Nats.Codec.{Codec, Msg}
use eurus.Nats.Dispatch.{dispatch, new_dispatcher, run_turn, run_done}
use eurus.Nats.Dispatch.Order.{of_socket}
use eurus.Nats.Envelopes.{MessageAck, respond_ack, serve_message}
use eurus.Nats.Serving.{
  Serving, canceled, returned, waiting, start_serving, with_dispatcher, receive, Reach, here, next,
  came, failed, turned, done, waited,
}
use eurus.Nats.Serving.Accounts.{Log, queued_for, refusals, messages, acks_of, AllFit}
use eurus.Nats.Serving.Histories.{IsServed, Reach-IsServed, returned_lem}

program : Unit {0}
unfolding dispatch new_dispatcher run_turn run_done respond_ack serve_message start_serving receive
program = tt

-- An ack is a byte: 0 for none, 1 for an error.
abbrev acks : Codec MessageAck
acks = record {
  marshal = λ a. if a.error == "" then some (0 ∷ []) else some (1 ∷ []);
  unmarshal = λ b. none;
}

-- No bytes are malformed. A message of one byte is inline, a longer one is streamed.
abbrev decode : Msg → Option (String × Bool × ℕ)
decode msg = elim msg.bytes [
  | [] ↦ none
  | w ∷ more ↦ elim more [ [] ↦ some ("k1", false, w) | x ∷ xs ↦ some ("k2", true, w) ]
]

abbrev message : String → List ℕ → Msg
message reply bytes = record { reply = reply; bytes = bytes }

abbrev serving : Serving ℕ ℕ
serving = start_serving 1

-- A message is queued, the next of the same socket is refused, one is malformed and one is streamed.
abbrev taken : Serving ℕ ℕ
taken = receive acks decode (message "r4" (8 ∷ 9 ∷ [])) (
    receive acks decode (message "r3" []) (
      receive acks decode (message "r2" (6 ∷ []))
        (receive acks decode (message "r1" (5 ∷ [])) serving)))

abbrev turn : String → Serving ℕ ℕ → Serving ℕ ℕ
turn k s = with_dispatcher (run_turn k s.pump.dispatcher) s

abbrev end_work : String → ℕ → Serving ℕ ℕ → Serving ℕ ℕ
end_work k w s = with_dispatcher (run_done k w s.pump.dispatcher) s

abbrev stopping : Serving ℕ ℕ
stopping = record (turn "k1" taken) { phase = waiting none }

abbrev drained : Serving ℕ ℕ
drained = turn "k2" (end_work "k2" 8 (turn "k2" (turn "k1" (end_work "k1" 5 stopping))))

abbrev over : Serving ℕ ℕ
over = record drained { phase = returned none; subscribed = false }

history : Reach acks decode serving over
unfolding program
history =
    next
      (next
        (next
          (next
            (next
              (next
                (next
                  (next
                    (next
                      (next
                        (next (next here (came (message "r1" (5 ∷ [])) refl))
                          (came (message "r2" (6 ∷ [])) refl))
                        (came (message "r3" []) refl))
                      (came (message "r4" (8 ∷ 9 ∷ [])) refl))
                    (turned "k1" refl))
                  (failed canceled refl))
                (done "k1" 5 refl))
              (turned "k1" refl))
            (turned "k2" refl))
          (done "k2" 8 refl))
        (turned "k2" refl))
      (waited none refl refl)

published : over.pump.published ≡ ("r1", 0 ∷ []) ∷ ("r2", 1 ∷ []) ∷ ("r3", 1 ∷ []) ∷ []
unfolding program
published = refl

Reach-IsServed_example : IsServed acks decode 1 over
Reach-IsServed_example = Reach-IsServed acks decode 1 history

returned_lem_example :
    (log : Log ℕ) × (over.arrived ≡ messages log)
    × AllFit acks decode log
    × (over.pump.published ≡ acks_of acks decode log)
    × (over.pump.dispatcher.overflowed ≡ refusals log)
    × ((k : String) → of_socket k over.pump.dispatcher.finished ≡ queued_for k log)
    × (over.subscribed ≡ false)
returned_lem_example = returned_lem acks decode 1 none history refl
