-- ===== src/Nats/Delivery/Conversation.antt =====
-- A client's message over NATS to a connection of the service instance, and the connection's answer to
-- the client: message-service.go and message-gateway.go with the handlers of service.go and gateway.go
-- that Listen and Connect subscribe, and Connection.Write of connection.go.
use eurus.Prelude.{
  ℕ, String, List, [], ◌∷◌, ◌++◌, Option, none, some, Bool, true, false, ◌≡◌, ◌≢◌, ◌⊎◌, inl, inr,
  refl, arith, ap, leb, length, lookup, delete, lookup-insert, string_eq, Option-cases,
}
use text.Mathlib.TextEquality.{eq_iff}
use eurus.Gateway.{
  Gateway, socket_send, socket_close, closed_socket, internal_error, unmap, close_socket,
  handle_gateway_message, emit,
}
use eurus.Service.{
  Service, Peer, Call, handle_connection, handle_message, handle_service_message, ensure_connection,
  add_connection, emit as emit_to_connection,
}
use eurus.Connection.{Connection, write, message_gateway as message_gateway_call}
use eurus.Nats.Codec.{Bytes, Codec, Keeps}
use eurus.Nats.Dispatch.{queue_at}
use eurus.Nats.Envelopes.{MessageAck, ack_error, SendError, Pump, serve_message}
use eurus.Nats.ServiceMessages.{
  ConnectionInfo, SocketMessage, ServiceMessageEnvelope, ServiceMessagePayload, ServiceWork,
  ServiceDelivery, payload_of, service_envelope, decode_service_message, message_service,
  deliver_service_message,
}
use eurus.Nats.GatewayMessages.{
  GatewayMessageEnvelope, GatewayMessagePayload, GatewayWork, GatewayDelivery, gateway_payload_of,
  gateway_envelope, decode_gateway_message, message_gateway, deliver_gateway_message,
}
use eurus.Nats.Delivery.ToService.{service_inline}
use eurus.Nats.Delivery.ToGateway.{gateway_inline}
use eurus.Nats.Delivery.Exchange.{reply_after}

-- err == nil
abbrev pub is_nil : Option SendError → Bool
is_nil none = true
is_nil (some e) = false

module _ {P Meta : Type 0} where
  -- handler is handleServiceMessage.
  abbrev pub take_message :
      Option (ServiceDelivery Meta)
      → Service P ConnectionInfo (SocketMessage Meta)
      → Service P ConnectionInfo (SocketMessage Meta)
  take_message none s = s
  take_message (some d) s = handle_service_message d.gateway_id d.socket_id d.conn_info d.message s

  -- handler is handleGatewayMessage, and `sent` is false if the socket's SendWithContext fails.
  abbrev pub take_answer :
      {I : Type 0}
      → Bool
      → Option (GatewayDelivery Meta)
      → Gateway P I (SocketMessage Meta)
      → Gateway P I (SocketMessage Meta)
  take_answer sent none g = g
  take_answer sent (some d) g = handle_gateway_message sent d.socket_id d.message g

-- The service has a connection for the socket, the one that it had or one to the gateway, and the
-- last thing that it did is to hand the message to it.
pub record IsHanded {P I M : Type 0} (gateway_id socket_id : String) (msg : M) (s t : Service P I M)
    : Type 0 where
  pub peer : Peer
  pub connected : lookup socket_id t.connections ≡ some peer
  pub origin : (lookup socket_id s.connections ≡ some peer) ⊎ (peer.gateway_id ≡ gateway_id)
  pub earlier : List (Call P I M)
  pub last_call : t.calls ≡ earlier ++ handle_message peer.handle msg ∷ []

module _ {P I M : Type 0} (gateway_id socket_id : String) (info : I) (msg : M) (s : Service P I M)
    (live : lookup socket_id s.closed_sockets ≡ none) where
  handled_known :
      (c : Peer)
      → lookup socket_id s.connections ≡ some c
      → handle_service_message gateway_id socket_id info msg s
        ≡ emit_to_connection (handle_message c.handle msg) s
  unfolding handle_service_message ensure_connection
  handled_known c known = ground (arith, known)

  handled_new :
      lookup socket_id s.connections ≡ none
      → handle_service_message gateway_id socket_id info msg s
        ≡ emit_to_connection
            (handle_message s.next_handle msg)
            (add_connection gateway_id socket_id info s)
  unfolding handle_service_message ensure_connection
  handled_new unknown = ground (arith, unknown)

  handle_service_message-IsHanded :
      IsHanded gateway_id socket_id msg s (handle_service_message gateway_id socket_id info msg s)
  handle_service_message-IsHanded = elim (Option-cases (lookup socket_id s.connections)) [
    | inr (c, known) ↦ rw (handled_known c known) (record {
      peer = c;
      connected = known;
      origin = inl known;
      earlier = s.calls;
      last_call = refl;
    })
    | inl unknown ↦ rw (handled_new unknown) (record {
      peer = record { handle = s.next_handle; gateway_id = gateway_id };
      connected = ground (
        arith,
        lookup-insert socket_id socket_id
            (record { handle = s.next_handle; gateway_id = gateway_id }) s.connections,
        eq_iff socket_id socket_id,
      );
      origin = inr refl;
      earlier = s.calls ++ handle_connection info s.next_handle ∷ [];
      last_call = refl;
    })
  ]

module _ {P Meta : Type 0} (payloads : Codec (ServiceMessagePayload Meta))
    (envelopes : Codec ServiceMessageEnvelope) (acks : Codec MessageAck)
    (gateway_id socket_id : String) (info : ConnectionInfo) (msg : SocketMessage Meta)
    (kept : Keeps payloads (payload_of msg)) (reply : String) (pump : Pump ServiceWork)
    (s : Service P ConnectionInfo (SocketMessage Meta)) where
  -- If the codecs keep the payload, the inline envelope and an empty ack, the envelope fits into
  -- one NATS message, the request has a reply subject, the queue of the socket has room and the
  -- service does not remember the socket as closed, then MessageService returns no error, its
  -- message is the last in the queue of the socket, and the work of it makes the service hand the
  -- message that was sent to the connection of the socket, which it had or makes for that gateway.
  pub message_reaches_connection :
      (max_payload : ℕ) (send : String → ℕ → Bool)
      → reply ≢ ""
      → (k : Keeps envelopes (service_envelope gateway_id socket_id info msg kept.bytes false))
      → leb (length k.bytes) max_payload ≡ true
      → Keeps acks (ack_error "")
      → leb pump.dispatcher.queue_size (length (queue_at socket_id pump.dispatcher.queues)) ≡ false
      → lookup socket_id s.closed_sockets ≡ none
      → let pumped = λ (bytes : Bytes).
        serve_message acks
          (decode_service_message envelopes)
          (record { reply = reply; bytes = bytes })
          pump in
        (work : ServiceWork) × (message_service payloads envelopes acks
            (record {
              max_payload = max_payload;
              request = λ bytes. reply_after pump (pumped bytes);
              send = send;
            })
            gateway_id
            socket_id
            info
            msg
          ≡ none)
        × (queue_at socket_id (pumped k.bytes).dispatcher.queues
            ≡ queue_at socket_id pump.dispatcher.queues ++ work ∷ [])
        × ((receive : String → Option Bytes)
            → IsHanded gateway_id socket_id msg s
                (take_message (deliver_service_message payloads receive work) s))
  message_reaches_connection max_payload send answers k fits a room live =
      let (work, sent, queued, delivered) =
        service_inline payloads envelopes acks gateway_id socket_id info msg kept reply pump
          max_payload send answers k fits a room in
      (
        work,
        sent,
        queued,
        λ receive.
            rw (delivered receive)
              (handle_service_message-IsHanded gateway_id socket_id info msg s live),
      )

module _ {P I Meta : Type 0} (payloads : Codec (GatewayMessagePayload Meta))
    (envelopes : Codec GatewayMessageEnvelope) (acks : Codec MessageAck)
    (c : Connection (SocketMessage Meta)) (msg : SocketMessage Meta)
    (kept : Keeps payloads (gateway_payload_of msg)) (reply : String) (pump : Pump GatewayWork)
    (g : Gateway P I (SocketMessage Meta)) where
  -- If the codecs keep the payload, the inline envelope and an empty ack, the envelope fits into
  -- one NATS message, the request has a reply subject, the queue of the socket has room and the
  -- gateway has the socket registered, then Connection.Write leaves the connection as it is, the
  -- message is the last in the queue of the socket, and the work of it makes the gateway send the
  -- message to the socket. If the sending succeeds, the gateway does nothing else; if it fails,
  -- the gateway closes the client as an internal error, broadcasts that, and unregisters and
  -- unmaps the socket.
  pub answer_reaches_client :
      (max_payload : ℕ) (send : String → ℕ → Bool) (socket : ℕ)
      → reply ≢ ""
      → (k : Keeps envelopes (gateway_envelope c.socket_id msg kept.bytes false))
      → leb (length k.bytes) max_payload ≡ true
      → Keeps acks (ack_error "")
      → leb pump.dispatcher.queue_size (length (queue_at c.socket_id pump.dispatcher.queues))
        ≡ false
      → lookup c.socket_id g.sockets ≡ some socket
      → let pumped = λ (bytes : Bytes).
        serve_message acks
          (decode_gateway_message envelopes)
          (record { reply = reply; bytes = bytes })
          pump in
        let error =
          message_gateway payloads envelopes acks
            (record {
              max_payload = max_payload;
              request = λ bytes. reply_after pump (pumped bytes);
              send = send;
            })
            c.socket_id
            msg in
        (work : GatewayWork) × (write (is_nil error) msg c
          ≡ (c, message_gateway_call c.gateway_id c.socket_id msg))
        × (queue_at c.socket_id (pumped k.bytes).dispatcher.queues
            ≡ queue_at c.socket_id pump.dispatcher.queues ++ work ∷ [])
        × ((receive : String → Option Bytes)
            → (take_answer true (deliver_gateway_message payloads receive work) g
                ≡ emit (socket_send socket msg) g)
              × (take_answer false (deliver_gateway_message payloads receive work) g ≡ record g {
                sockets = delete c.socket_id g.sockets;
                calls =
                    (g.calls ++ socket_send socket msg ∷ [])
                    ++ socket_close socket internal_error "Failed to send message"
                      ∷ closed_socket c.socket_id internal_error "Failed to send message"
                      ∷ [];
                gsi = unmap c.socket_id g.gsi;
              }))
  unfolding write handle_gateway_message close_socket
  answer_reaches_client max_payload send socket answers k fits a room registered =
      let (work, sent, queued, delivered) =
        gateway_inline payloads envelopes acks c.socket_id msg kept reply pump max_payload send
          answers k fits a room in
      (
        work,
        ap (λ e. write (is_nil e) msg c) sent,
        queued,
        λ receive. rw (delivered receive) (ground (arith, registered), ground (arith, registered)),
      )
