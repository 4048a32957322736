-- ===== src/Nats/Delivery/ToService.antt =====
-- A message from a gateway to a service instance over NATS.
use eurus.Prelude.{
  ℕ, String, [], ◌∷◌, ◌++◌, Option, none, some, Bool, true, false, ◌≡◌, ◌≢◌, refl, arith, string_eq,
  leb, length,
}
use eurus.Nats.Codec.{Bytes, Codec, Keeps}
use eurus.Nats.Dispatch.{queue_at}
use eurus.Nats.Envelopes.{
  MessageAck, slow_consumer, slow_consumer_reply, ack_error, Link, Pump, serve_message,
}
use eurus.Nats.ServiceMessages.{
  ConnectionInfo, SocketMessage, ServiceMessageEnvelope, ServiceMessagePayload, ServiceWork,
  ServiceDelivery, payload_of, service_envelope, decode_service_message, message_service,
  deliver_service_message,
}
use eurus.Nats.Delivery.Exchange.{reply_after, serve_full, serve_queues, serve_inline, send_inline}

module _ {Meta : Type 0} (payloads : Codec (ServiceMessagePayload Meta))
    (envelopes : Codec ServiceMessageEnvelope) (acks : Codec MessageAck)
    (gateway_id socket_id : String) (info : ConnectionInfo) (msg : SocketMessage Meta)
    (kept : Keeps payloads (payload_of msg)) (reply : String) (pump : Pump ServiceWork) where
  -- The instance's pump takes the bytes of a request.
  abbrev pub pumped : Bytes → Pump ServiceWork
  pumped bytes =
      serve_message acks (decode_service_message envelopes)
        (record { reply = reply; bytes = bytes }) pump

  abbrev pub envelope_of : Bytes → Bool → ServiceMessageEnvelope
  envelope_of = service_envelope gateway_id socket_id info msg

  -- What the handler is to be called with.
  abbrev pub delivery : ServiceDelivery Meta
  delivery = record {
    gateway_id = gateway_id;
    socket_id = socket_id;
    conn_info = info;
    message = msg;
  }

  abbrev pub is_full : Bool
  is_full = leb pump.dispatcher.queue_size (length (queue_at socket_id pump.dispatcher.queues))

  decoded :
      (payload : Bytes) (streamed : Bool) (k : Keeps envelopes (envelope_of payload streamed))
      → decode_service_message envelopes (record { reply = reply; bytes = k.bytes })
        ≡ some (
          socket_id,
          streamed,
          record {
            msg = record { reply = reply; bytes = k.bytes };
            envelope = envelope_of payload streamed;
          },
        )
  unfolding decode_service_message
  decoded payload streamed k = ground (arith, k.unmarshals)

  module _ (max_payload : ℕ) (send : String → ℕ → Bool) (answers : reply ≢ "") where
    abbrev pub pump_link : Link
    pump_link = record {
      max_payload = max_payload;
      request = λ bytes. reply_after pump (pumped bytes);
      send = send;
    }

    module _ (k : Keeps envelopes (envelope_of kept.bytes false))
        (fits : leb (length k.bytes) max_payload ≡ true) where
      -- If the codecs keep the payload, the inline envelope and an empty ack, the envelope fits
      -- into one NATS message, the request has a reply subject and the queue of the socket has
      -- room, then MessageService returns no error, its message is the last in the queue of the
      -- socket, and the work of it calls the handler with the gateway, the socket, the connection
      -- and the message that were sent.
      pub service_inline :
          (a : Keeps acks (ack_error ""))
          → is_full ≡ false
          → (work : ServiceWork) × (message_service payloads envelopes acks pump_link gateway_id
                socket_id info msg
              ≡ none)
            × (queue_at socket_id (pumped k.bytes).dispatcher.queues
                ≡ queue_at socket_id pump.dispatcher.queues ++ work ∷ [])
            × ((receive : String → Option Bytes)
                → deliver_service_message payloads receive work ≡ some delivery)
      unfolding message_service deliver_service_message
      service_inline a room =
          let work : ServiceWork = record {
            msg = record { reply = reply; bytes = k.bytes };
            envelope = envelope_of kept.bytes false;
          } in
          let d = decoded kept.bytes false k in
          (
            work,
            ground (
              arith,
              kept.marshals,
              send_inline envelopes acks pump_link envelope_of kept.bytes k a.bytes (ack_error "")
                  fits
                  (serve_inline acks (decode_service_message envelopes) work.msg socket_id false
                    work pump d answers a room refl)
                  a.unmarshals,
            ),
            (serve_queues acks (decode_service_message envelopes) work.msg socket_id false work pump
                d answers room).0,
            (λ receive. ground (arith, kept.unmarshals)),
          )

      -- If the codecs keep the payload, the inline envelope and the ack, the envelope fits into
      -- one NATS message, the request has a reply subject and the queue of the socket is full,
      -- then MessageService returns ErrSlowConsumer, and the dispatcher changes only in that the
      -- overflow of the socket is reported.
      pub service_slow :
          (a : Keeps acks (ack_error slow_consumer_reply))
          → is_full ≡ true
          → (message_service payloads envelopes acks pump_link gateway_id socket_id info msg
              ≡ some slow_consumer)
            × ((pumped k.bytes).dispatcher ≡ record pump.dispatcher {
              overflowed = pump.dispatcher.overflowed ++ socket_id ∷ [];
            })
      unfolding message_service
      service_slow a full =
          let work : ServiceWork = record {
            msg = record { reply = reply; bytes = k.bytes };
            envelope = envelope_of kept.bytes false;
          } in
          let d = decoded kept.bytes false k in
          let served =
            serve_full acks (decode_service_message envelopes) work.msg socket_id false work pump d
              answers a full in
          (
            ground (
              arith,
              kept.marshals,
              send_inline envelopes acks pump_link envelope_of kept.bytes k a.bytes
                  (ack_error slow_consumer_reply) fits served.0 a.unmarshals,
            ),
            served.1,
          )

    -- The worker's ack, with the inbox that it has opened for the chunks.
    abbrev pub worker_link : Bytes → Link
    worker_link ack = record { max_payload = max_payload; request = λ bytes. some ack; send = send }
