-- ===== src/Nats/GatewayMessages.antt =====
-- transport/natstransport/message-gateway.go: messages from a service to the gateway of a socket.
use eurus.Prelude.{ℕ, String, Option, none, some, Bool, if◌then◌else◌}
use eurus.Nats.Codec.{Bytes, Codec, Msg}
use eurus.Nats.ServiceMessages.{SocketMessage}
use eurus.Nats.Envelopes.{MessageAck, SendError, marshal_failed, Link, send_envelope}

pub record GatewayMessageEnvelope : Type 0 where
  pub socket_id : String
  pub message_type : ℕ
  pub payload : Bytes
  pub streamed : Bool

pub record GatewayMessagePayload (Meta : Type 0) : Type 0 where
  pub raw_data : Bytes
  pub message_data : Bytes
  pub meta : Meta

-- deliver, with the message and the envelope that it closes over.
pub record GatewayWork : Type 0 where
  pub msg : Msg
  pub envelope : GatewayMessageEnvelope

-- handler(socketID, msg)
pub record GatewayDelivery (Meta : Type 0) : Type 0 where
  pub socket_id : String
  pub message : SocketMessage Meta

abbrev pub gateway_payload_of : {Meta : Type 0} → SocketMessage Meta → GatewayMessagePayload Meta
gateway_payload_of msg = record {
  raw_data = msg.raw_data;
  message_data = msg.message_data;
  meta = msg.meta;
}

-- makeEnvelope
abbrev pub gateway_envelope :
    {Meta : Type 0} → String → SocketMessage Meta → Bytes → Bool → GatewayMessageEnvelope
gateway_envelope socket_id msg inline_payload streamed = record {
  socket_id = socket_id;
  message_type = msg.message_type;
  payload = inline_payload;
  streamed = streamed;
}

-- The decode function of SubscribeGatewayMessages: the socket, whether it is streamed, and the work.
unfoldable pub decode_gateway_message :
    Codec GatewayMessageEnvelope → Msg → Option (String × Bool × GatewayWork)
decode_gateway_message envelopes msg = elim (envelopes.unmarshal msg.bytes) [
  | none ↦ none
  | some envelope ↦
      some (envelope.socket_id, envelope.streamed, record { msg = msg; envelope = envelope })
]

module _ {Meta : Type 0} (payloads : Codec (GatewayMessagePayload Meta)) where
  -- `link` leads to the subject of the gateway.
  unfoldable pub message_gateway :
      Codec GatewayMessageEnvelope
      → Codec MessageAck
      → Link
      → String
      → SocketMessage Meta
      → Option SendError
  unfolding send_envelope
  message_gateway envelopes acks link socket_id msg =
      elim (payloads.marshal (gateway_payload_of msg)) [
        | none ↦ some marshal_failed
        | some payload ↦ send_envelope envelopes acks link (gateway_envelope socket_id msg) payload
      ]

  abbrev pub gateway_delivery_of :
      GatewayMessageEnvelope → Option (GatewayMessagePayload Meta) → Option (GatewayDelivery Meta)
  gateway_delivery_of envelope none = none
  gateway_delivery_of envelope (some payload) = some (record {
    socket_id = envelope.socket_id;
    message = record {
      message_type = envelope.message_type;
      raw_data = payload.raw_data;
      message_data = payload.message_data;
      meta = payload.meta;
    };
  })

  abbrev pub gateway_payload : (String → Option Bytes) → GatewayWork → Option Bytes
  gateway_payload receive work =
      if work.envelope.streamed then receive work.msg.reply else some work.envelope.payload

  -- The call of the handler, or none. `receive` is what receiveChunks returns for a reply subject.
  unfoldable pub deliver_gateway_message :
      (String → Option Bytes) → GatewayWork → Option (GatewayDelivery Meta)
  deliver_gateway_message receive work = elim (gateway_payload receive work) [
    | none ↦ none
    | some bytes ↦ gateway_delivery_of work.envelope (payloads.unmarshal bytes)
  ]
