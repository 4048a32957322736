-- ===== src/Nats/Serving/Accounts.antt =====
-- Each message that serveMessages takes has one verdict, which decides its ack and its work.
use eurus.Prelude.{
  String, List, [], ◌∷◌, ◌++◌, Option, none, some, Bool, true, false, ◌≡◌, refl, arith, ◌==◌, ◌∙◌,
  sym, string_eq, leb, length, if◌then◌else◌, append-nil, Option-cases, Bool-cases, inl, inr,
}
use eurus.Nats.Codec.{Bytes, Codec, Msg}
use eurus.Nats.Dispatch.{Dispatcher, queue_at, dispatch, run_turn, run_done}
use eurus.Nats.Dispatch as Dispatch
use eurus.Nats.Dispatch.Order.{of_socket, of_socket-snoc}
use eurus.Nats.Envelopes.{
  MessageAck, slow_consumer_reply, ack_error, Pump, respond_ack, serve_message,
}

pub data Verdict (W : Type 0) : Type 0 where
  malformed : Verdict W
  refused : String → Verdict W
  queued : String → Bool → W → Verdict W

abbrev pub Log : Type 0 → Type 0
Log W = List (Msg × Verdict W)

module _ {W : Type 0} where
  -- The works that a log queues for a socket, and the sockets that it refuses a message of.
  abbrev pub queued_for : String → Log W → List W
  queued_for k [] = []
  queued_for k ((msg, malformed) ∷ l) = queued_for k l
  queued_for k ((msg, refused j) ∷ l) = queued_for k l
  queued_for k ((msg, queued j streamed w) ∷ l) =
      let rest = queued_for k l in if j == k then w ∷ rest else rest

  abbrev pub refusals : Log W → List String
  refusals [] = []
  refusals ((msg, malformed) ∷ l) = refusals l
  refusals ((msg, refused j) ∷ l) = j ∷ refusals l
  refusals ((msg, queued j streamed w) ∷ l) = refusals l

  abbrev pub messages : Log W → List Msg
  messages [] = []
  messages ((msg, v) ∷ l) = msg ∷ messages l

module _ {W : Type 0} (acks : Codec MessageAck) (decode : Msg → Option (String × Bool × W)) where
  -- What respondAck publishes: nothing without a reply subject.
  abbrev pub published_ack : String → MessageAck → List (String × Bytes)
  published_ack reply ack =
      if reply == ""
      then []
      else elim (acks.marshal ack) [ none ↦ [] | some bytes ↦ (reply, bytes) ∷ [] ]

  abbrev pub ack_of : Msg → Verdict W → List (String × Bytes)
  ack_of msg malformed = published_ack msg.reply (ack_error "malformed envelope")
  ack_of msg (refused k) = published_ack msg.reply (ack_error slow_consumer_reply)
  ack_of msg (queued k true w) = []
  ack_of msg (queued k false w) = published_ack msg.reply (ack_error "")

  abbrev pub acks_of : Log W → List (String × Bytes)
  acks_of [] = []
  acks_of ((msg, v) ∷ l) = ack_of msg v ++ acks_of l

  -- The verdict fits what the message decodes to.
  abbrev pub Fits : Msg → Verdict W → Type 0
  Fits msg malformed = decode msg ≡ none
  Fits msg (refused k) = (streamed : Bool) × (w : W) × (decode msg ≡ some (k, streamed, w))
  Fits msg (queued k streamed w) = decode msg ≡ some (k, streamed, w)

  abbrev pub AllFit : Log W → Type 0
  AllFit [] = Unit
  AllFit ((msg, v) ∷ l) = Fits msg v × AllFit l

  respond_ack_lem :
      (reply : String) (ack : MessageAck) (pump : Pump W)
      → respond_ack acks reply ack pump
        ≡ record pump { published = pump.published ++ published_ack reply ack }
  unfolding respond_ack
  respond_ack_lem reply ack pump = ground (arith, append-nil pump.published)

  -- One round: the verdict, and what it leaves.
  pub record Served (msg : Msg) (pump after : Pump W) : Type 0 where
    pub verdict : Verdict W
    pub fits : Fits msg verdict
    pub published : after.published ≡ pump.published ++ ack_of msg verdict
    pub accepted :
        (k : String)
        → of_socket k after.dispatcher.accepted
          ≡ of_socket k pump.dispatcher.accepted ++ queued_for k ((msg, verdict) ∷ [])
    pub overflowed :
        after.dispatcher.overflowed ≡ pump.dispatcher.overflowed ++ refusals ((msg, verdict) ∷ [])
    -- The dispatcher makes a step, or none.
    pub reached :
        {d : Dispatcher W} → Dispatch.Reach d pump.dispatcher → Dispatch.Reach d after.dispatcher

  serve_malformed :
      (msg : Msg) (pump : Pump W)
      → decode msg ≡ none
      → serve_message acks decode msg pump
        ≡ respond_ack acks msg.reply (ack_error "malformed envelope") pump
  unfolding serve_message
  serve_malformed msg pump e = ground (arith, e)

  module _ (msg : Msg) (pump : Pump W) (k : String) (streamed : Bool) (w : W)
      (e : decode msg ≡ some (k, streamed, w)) where
    abbrev full : Bool
    full = leb pump.dispatcher.queue_size (length (queue_at k pump.dispatcher.queues))

    abbrev dispatched : Pump W
    unfolding dispatch
    dispatched = record pump { dispatcher = (dispatch k w pump.dispatcher).0 }

    serve_refused :
        full ≡ true
        → serve_message acks decode msg pump
          ≡ respond_ack acks msg.reply (ack_error slow_consumer_reply) dispatched
    unfolding serve_message dispatch dispatched
    serve_refused f = ground (arith, e, f)

    serve_queued :
        full ≡ false
        → serve_message acks decode msg pump
          ≡ (if streamed then dispatched else respond_ack acks msg.reply (ack_error "") dispatched)
    unfolding serve_message dispatch dispatched
    serve_queued f = ground (arith, e, f)

    dispatch_without_room :
        full ≡ true
        → (dispatch k w pump.dispatcher).0
          ≡ record pump.dispatcher { overflowed = pump.dispatcher.overflowed ++ k ∷ [] }
    unfolding dispatch
    dispatch_without_room f = ground (arith, f)

    dispatch_room :
        full ≡ false
        → ((dispatch k w pump.dispatcher).0.accepted ≡ pump.dispatcher.accepted ++ (k, w) ∷ [])
          × ((dispatch k w pump.dispatcher).0.overflowed ≡ pump.dispatcher.overflowed)
    unfolding dispatch
    dispatch_room f = (ground (arith, f), ground (arith, f))

    step_taken :
        {d : Dispatcher W}
        → Dispatch.Reach d pump.dispatcher
        → Dispatch.Reach d (dispatch k w pump.dispatcher).0
    step_taken r = Dispatch.Reach.next r (Dispatch.Step.dispatched k w)

    refused-Served : full ≡ true → Served msg pump (serve_message acks decode msg pump)
    unfolding dispatched
    refused-Served f =
        rw (serve_refused f, respond_ack_lem msg.reply (ack_error slow_consumer_reply) dispatched)
          (record {
            verdict = refused k;
            fits = (streamed, w, e);
            published = refl;
            accepted = λ j.
                rw (dispatch_without_room f)
                  (sym (append-nil (of_socket j pump.dispatcher.accepted)));
            overflowed = rw (dispatch_without_room f) refl;
            reached = step_taken;
          })

    queued_one :
        (j : String) (b : Bool)
        → full ≡ false
        → of_socket j (dispatch k w pump.dispatcher).0.accepted
          ≡ of_socket j pump.dispatcher.accepted ++ queued_for j ((msg, queued k b w) ∷ [])
    queued_one j b f = ground (
      arith,
      (dispatch_room f).0,
      of_socket-snoc j k w pump.dispatcher.accepted,
      append-nil (of_socket j pump.dispatcher.accepted),
    )

    queued-Served : full ≡ false → Served msg pump (serve_message acks decode msg pump)
    unfolding dispatched
    queued-Served f = rw (serve_queued f) (by_mode streamed e)
      where
        by_mode :
            (b : Bool)
            → decode msg ≡ some (k, b, w)
            → Served msg pump
                (if b then dispatched else respond_ack acks msg.reply (ack_error "") dispatched)
        by_mode true e' = record {
          verdict = queued k true w;
          fits = e';
          published = sym (append-nil pump.published);
          accepted = λ j. queued_one j true f;
          overflowed = (dispatch_room f).1 ∙ sym (append-nil pump.dispatcher.overflowed);
          reached = step_taken;
        }
        by_mode false e' = rw (respond_ack_lem msg.reply (ack_error "") dispatched) (record {
          verdict = queued k false w;
          fits = e';
          published = refl;
          accepted = λ j. queued_one j false f;
          overflowed = (dispatch_room f).1 ∙ sym (append-nil pump.dispatcher.overflowed);
          reached = step_taken;
        })

  pub serve_message-Served :
      (msg : Msg) (pump : Pump W) → Served msg pump (serve_message acks decode msg pump)
  serve_message-Served msg pump = elim (Option-cases (decode msg)) [
    | inl bad ↦
        rw
          (
            serve_malformed msg pump bad,
            respond_ack_lem msg.reply (ack_error "malformed envelope") pump,
          )
          (record {
            verdict = malformed;
            fits = bad;
            published = refl;
            accepted = λ k. sym (append-nil (of_socket k pump.dispatcher.accepted));
            overflowed = sym (append-nil pump.dispatcher.overflowed);
            reached = λ r. r;
          })
    | inr ((k, streamed, w), e) ↦
        elim (Bool-cases
          (leb pump.dispatcher.queue_size (length (queue_at k pump.dispatcher.queues)))) [
            | inl f ↦ refused-Served msg pump k streamed w e f
            | inr f ↦ queued-Served msg pump k streamed w e f
          ]
  ]
