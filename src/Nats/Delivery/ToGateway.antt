-- ===== src/Nats/Delivery/ToGateway.antt =====
-- A message from a service to the gateway of a socket over NATS.
use eurus.Prelude.{
  ℕ, String, [], ◌∷◌, ◌++◌, Option, none, some, Bool, true, false, ◌≡◌, ◌≢◌, refl, arith, string_eq,
  leb, length,
}
use text.Mathlib.TextEquality.{eq_iff}
use eurus.Nats.Codec.{Bytes, Codec, Keeps}
use eurus.Nats.Dispatch.{queue_at}
use eurus.Nats.Envelopes.{
  MessageAck, slow_consumer, slow_consumer_reply, ack_error, Link, Pump, serve_message,
}
use eurus.Nats.ServiceMessages.{SocketMessage}
use eurus.Nats.GatewayMessages.{
  GatewayMessageEnvelope, GatewayMessagePayload, GatewayWork, GatewayDelivery, gateway_payload_of,
  gateway_envelope, decode_gateway_message, message_gateway, deliver_gateway_message,
}
use eurus.Nats.Delivery.Exchange.{
  reply_after, serve_full, serve_queues, serve_inline, serve_silent, send_inline, send_long,
  transferred, transfer_lem,
}

module _ {Meta : Type 0} (payloads : Codec (GatewayMessagePayload Meta))
    (envelopes : Codec GatewayMessageEnvelope) (acks : Codec MessageAck) (socket_id : String)
    (msg : SocketMessage Meta) (kept : Keeps payloads (gateway_payload_of msg)) (reply : String)
    (pump : Pump GatewayWork) where
  -- The gateway's pump takes the bytes of a request.
  abbrev pub pumped : Bytes → Pump GatewayWork
  pumped bytes =
      serve_message acks (decode_gateway_message envelopes)
        (record { reply = reply; bytes = bytes }) pump

  abbrev pub envelope_of : Bytes → Bool → GatewayMessageEnvelope
  envelope_of = gateway_envelope socket_id msg

  -- What the handler is to be called with.
  abbrev pub delivery : GatewayDelivery Meta
  delivery = record { socket_id = socket_id; message = msg }

  abbrev pub is_full : Bool
  is_full = leb pump.dispatcher.queue_size (length (queue_at socket_id pump.dispatcher.queues))

  decoded :
      (payload : Bytes) (streamed : Bool) (k : Keeps envelopes (envelope_of payload streamed))
      → decode_gateway_message envelopes (record { reply = reply; bytes = k.bytes })
        ≡ some (
          socket_id,
          streamed,
          record {
            msg = record { reply = reply; bytes = k.bytes };
            envelope = envelope_of payload streamed;
          },
        )
  unfolding decode_gateway_message
  decoded payload streamed k = ground (arith, k.unmarshals)

  module _ (max_payload : ℕ) (send : String → ℕ → Bool) (answers : reply ≢ "") where
    abbrev pub pump_link : Link
    pump_link = record {
      max_payload = max_payload;
      request = λ bytes. reply_after pump (pumped bytes);
      send = send;
    }

    module _ (k : Keeps envelopes (envelope_of kept.bytes false))
        (fits : leb (length k.bytes) max_payload ≡ true) where
      -- If the envelope fits and the queue has room, MessageGateway returns no error, and the work
      -- that is queued calls the handler with what was sent.
      pub gateway_inline :
          (a : Keeps acks (ack_error ""))
          → is_full ≡ false
          → (work : GatewayWork) × (message_gateway payloads envelopes acks pump_link socket_id msg
              ≡ none)
            × (queue_at socket_id (pumped k.bytes).dispatcher.queues
                ≡ queue_at socket_id pump.dispatcher.queues ++ work ∷ [])
            × ((receive : String → Option Bytes)
                → deliver_gateway_message payloads receive work ≡ some delivery)
      unfolding message_gateway deliver_gateway_message
      gateway_inline a room =
          let work : GatewayWork = record {
            msg = record { reply = reply; bytes = k.bytes };
            envelope = envelope_of kept.bytes false;
          } in
          let d = decoded kept.bytes false k in
          (
            work,
            ground (
              arith,
              kept.marshals,
              send_inline envelopes acks pump_link envelope_of kept.bytes k a.bytes (ack_error "")
                  fits
                  (serve_inline acks (decode_gateway_message envelopes) work.msg socket_id false
                    work pump d answers a room refl)
                  a.unmarshals,
            ),
            (serve_queues acks (decode_gateway_message envelopes) work.msg socket_id false work pump
                d answers room).0,
            (λ receive. ground (arith, kept.unmarshals)),
          )

      -- If the envelope fits and the queue is full, MessageGateway returns ErrSlowConsumer, and the
      -- dispatcher only reports the overflow.
      pub gateway_slow :
          (a : Keeps acks (ack_error slow_consumer_reply))
          → is_full ≡ true
          → (message_gateway payloads envelopes acks pump_link socket_id msg ≡ some slow_consumer)
            × ((pumped k.bytes).dispatcher ≡ record pump.dispatcher {
              overflowed = pump.dispatcher.overflowed ++ socket_id ∷ [];
            })
      unfolding message_gateway
      gateway_slow a full =
          let work : GatewayWork = record {
            msg = record { reply = reply; bytes = k.bytes };
            envelope = envelope_of kept.bytes false;
          } in
          let d = decoded kept.bytes false k in
          let served =
            serve_full acks (decode_gateway_message envelopes) work.msg socket_id false work pump d
              answers a full in
          (
            ground (
              arith,
              kept.marshals,
              send_inline envelopes acks pump_link envelope_of kept.bytes k a.bytes
                  (ack_error slow_consumer_reply) fits served.0 a.unmarshals,
            ),
            served.1,
          )

    -- The worker's ack, with the inbox that it has opened for the chunks.
    abbrev pub worker_link : Bytes → Link
    worker_link ack = record { max_payload = max_payload; request = λ bytes. some ack; send = send }

    -- If the envelope is too long, the queue has room and each chunk is acked, the pump publishes no
    -- ack of its own, and the work calls the handler with the payload that is assembled.
    pub gateway_streamed :
        (k : Keeps envelopes (envelope_of kept.bytes false))
        (q : Keeps envelopes (envelope_of [] true)) (inbox : String)
        (a : Keeps acks (record { chunk_subject = inbox; error = "" }))
        → leb (length k.bytes) max_payload ≡ false
        → inbox ≢ ""
        → ((i : ℕ) → send inbox i ≡ true)
        → is_full ≡ false
        → (work : GatewayWork) × ((pumped q.bytes).published ≡ pump.published)
          × (queue_at socket_id (pumped q.bytes).dispatcher.queues
              ≡ queue_at socket_id pump.dispatcher.queues ++ work ∷ [])
          × (message_gateway payloads envelopes acks (worker_link a.bytes) socket_id msg ≡ none)
          × (deliver_gateway_message payloads (λ subject. transferred (send inbox) kept.bytes) work
              ≡ some delivery)
    unfolding message_gateway deliver_gateway_message
    gateway_streamed k q inbox a long named all_acked room =
        let work : GatewayWork = record {
          msg = record { reply = reply; bytes = q.bytes };
          envelope = envelope_of [] true;
        } in
        let d = decoded [] true q in
        let (arrives, no_error) = transfer_lem (send inbox) kept.bytes all_acked in
        (
          work,
          serve_silent acks (decode_gateway_message envelopes) work.msg socket_id true work pump d
              answers room refl,
          (serve_queues acks (decode_gateway_message envelopes) work.msg socket_id true work pump d
              answers room).0,
          ground (
            arith,
            kept.marshals,
            eq_iff inbox "",
            no_error,
            send_long envelopes acks (worker_link a.bytes) envelope_of kept.bytes k q a.bytes
                (record { chunk_subject = inbox; error = "" }) long refl a.unmarshals,
          ),
          ground (arith, arrives, kept.unmarshals),
        )
