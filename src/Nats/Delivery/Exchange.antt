-- ===== src/Nats/Delivery/Exchange.antt =====
-- One request of sendEnvelope against one round of serveMessages.
use eurus.Prelude.{
  ℕ, String, List, [], ◌∷◌, ◌++◌, Option, none, some, Bool, true, false, ◌≡◌, ◌≢◌, refl, arith,
  Bool-cases, inl, inr, string_eq, leb, length, drop, lookup-insert,
}
use text.Mathlib.TextEquality.{eq_iff}
use eurus.Nats.Codec.{Bytes, Codec, Keeps, Msg}
use eurus.Nats.Chunks.{stream_chunks, receive_chunks, stream_chunks_lem}
use eurus.Nats.Dispatch.{queue_at, dispatch}
use eurus.Nats.Envelopes.{
  MessageAck, slow_consumer_reply, checked_ack, parse_message_ack, inline_error, stream_after,
  stream_error, Link, send_envelope, Pump, ack_error, respond_ack, serve_message,
}

-- The first ack that was published after `before`.
abbrev pub reply_after : {W : Type 0} → Pump W → Pump W → Option Bytes
reply_after before after = elim (drop (length before.published) after.published) [
  | [] ↦ none
  | (reply, bytes) ∷ more ↦ some bytes
]

drop-append : {A : Type 0} (xs ys : List A) → drop (length xs) (xs ++ ys) ≡ ys
drop-append [] ys = refl
drop-append (x ∷ xs) ys = drop-append xs ys

module _ {W : Type 0} (acks : Codec MessageAck) where
  module _ (decode : Msg → Option (String × Bool × W)) (msg : Msg) (socket_id : String)
      (streamed : Bool) (work : W) (pump : Pump W)
      (decodes : decode msg ≡ some (socket_id, streamed, work)) (answers : msg.reply ≢ "") where
    abbrev pub served : Pump W
    served = serve_message acks decode msg pump

    -- A full queue: the sender is told, and the work is dropped.
    pub serve_full :
        (k : Keeps acks (ack_error slow_consumer_reply))
        → leb pump.dispatcher.queue_size (length (queue_at socket_id pump.dispatcher.queues)) ≡ true
        → (reply_after pump served ≡ some k.bytes)
          × (served.dispatcher ≡ record pump.dispatcher {
            overflowed = pump.dispatcher.overflowed ++ socket_id ∷ [];
          })
    unfolding serve_message dispatch respond_ack
    serve_full k full = (
      ground (
        arith,
        decodes,
        full,
        k.marshals,
        eq_iff msg.reply "",
        drop-append pump.published ((msg.reply, k.bytes) ∷ []),
      ),
      ground (arith, decodes, full, k.marshals, eq_iff msg.reply ""),
    )

    -- Room in the queue: the work is the last one of the socket.
    pub serve_queues :
        leb pump.dispatcher.queue_size (length (queue_at socket_id pump.dispatcher.queues)) ≡ false
        → (queue_at socket_id served.dispatcher.queues
            ≡ queue_at socket_id pump.dispatcher.queues ++ work ∷ [])
          × (served.dispatcher.overflowed ≡ pump.dispatcher.overflowed)
    unfolding serve_message dispatch respond_ack
    serve_queues room = (
      ground (
        arith,
        decodes,
        room,
        eq_iff socket_id socket_id,
        lookup-insert socket_id socket_id (queue_at socket_id pump.dispatcher.queues ++ work ∷ [])
            pump.dispatcher.queues,
      ),
      ground (arith, decodes, room),
    )

    -- An inline message is acked at once.
    pub serve_inline :
        (k : Keeps acks (ack_error ""))
        → leb pump.dispatcher.queue_size (length (queue_at socket_id pump.dispatcher.queues))
          ≡ false
        → streamed ≡ false
        → reply_after pump served ≡ some k.bytes
    unfolding serve_message dispatch respond_ack
    serve_inline k room inline = ground (
      arith,
      decodes,
      room,
      inline,
      k.marshals,
      eq_iff msg.reply "",
      drop-append pump.published ((msg.reply, k.bytes) ∷ []),
    )

    -- A streamed one is left to its worker.
    pub serve_silent :
        leb pump.dispatcher.queue_size (length (queue_at socket_id pump.dispatcher.queues)) ≡ false
        → streamed ≡ true
        → served.published ≡ pump.published
    unfolding serve_message dispatch respond_ack
    serve_silent room long = ground (arith, decodes, room, long)

module _ {E : Type 0} (envelopes : Codec E) (acks : Codec MessageAck) where
  module _ (link : Link) (make_envelope : Bytes → Bool → E) (payload : Bytes) where
    pub send_inline :
        (k : Keeps envelopes (make_envelope payload false)) (reply : Bytes) (ack : MessageAck)
        → leb (length k.bytes) link.max_payload ≡ true
        → link.request k.bytes ≡ some reply
        → acks.unmarshal reply ≡ some ack
        → send_envelope envelopes acks link make_envelope payload ≡ inline_error (checked_ack ack)
    unfolding send_envelope parse_message_ack
    send_inline k reply ack fits answered parsed =
        ground (arith, k.marshals, fits, answered, parsed)

    pub send_long :
        (k : Keeps envelopes (make_envelope payload false))
        (q : Keeps envelopes (make_envelope [] true)) (reply : Bytes) (ack : MessageAck)
        → leb (length k.bytes) link.max_payload ≡ false
        → link.request q.bytes ≡ some reply
        → acks.unmarshal reply ≡ some ack
        → send_envelope envelopes acks link make_envelope payload
          ≡ stream_after link.send payload (checked_ack ack)
    unfolding send_envelope parse_message_ack
    send_long k q reply ack long answered parsed =
        ground (arith, k.marshals, q.marshals, long, answered, parsed)

-- What receiveChunks assembles of the chunks that streamChunks sends, when each is acknowledged.
abbrev pub transferred : (ℕ → Bool) → Bytes → Option Bytes
transferred send payload = elim (stream_chunks send payload) [
  | none ↦ none
  | some (chunks, ok) ↦ receive_chunks chunks
]

pub transfer_lem :
    (send : ℕ → Bool) (payload : Bytes)
    → ((i : ℕ) → send i ≡ true)
    → (transferred send payload ≡ some payload) × (stream_error (stream_chunks send payload) ≡ none)
transfer_lem send payload all_acked =
    let (chunks, ok, e, _, arrives, fails) = stream_chunks_lem send payload in
    elim (Bool-cases ok) [
      | inl good ↦ (ground (arith, e, good, arrives good), ground (arith, e, good))
      | inr bad ↦ let (i, lost) = fails bad in absurd (ground (arith, lost, all_acked i))
    ]
