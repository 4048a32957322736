-- ===== src/Nats/ServiceMessages.antt =====
-- transport/natstransport/message-service.go: messages from a gateway to an instance of a service.
-- `Meta` is the type of metadata, which is `any` in Go.
use eurus.Prelude.{ℕ, String, List, Option, none, some, Bool, Map, if◌then◌else◌}
use eurus.Nats.Codec.{Bytes, Codec, Msg}
use eurus.Nats.Envelopes.{MessageAck, SendError, marshal_failed, Link, send_envelope}

-- velaros.ConnectionInfo and velaros.SocketMessage, as far as they are read.
pub record ConnectionInfo : Type 0 where
  pub headers : Map String (List String)
  pub remote_addr : String

pub record SocketMessage (Meta : Type 0) : Type 0 where
  pub message_type : ℕ
  pub raw_data : Bytes
  pub message_data : Bytes
  pub meta : Meta

pub record ServiceMessageEnvelope : Type 0 where
  pub gateway_id : String
  pub socket_id : String
  pub headers : Map String (List String)
  pub remote_addr : String
  pub message_type : ℕ
  pub payload : Bytes
  pub streamed : Bool

pub record ServiceMessagePayload (Meta : Type 0) : Type 0 where
  pub raw_data : Bytes
  pub message_data : Bytes
  pub meta : Meta

-- deliver, with the message and the envelope that it closes over.
pub record ServiceWork : Type 0 where
  pub msg : Msg
  pub envelope : ServiceMessageEnvelope

-- handler(gatewayID, socketID, connInfo, msg)
pub record ServiceDelivery (Meta : Type 0) : Type 0 where
  pub gateway_id : String
  pub socket_id : String
  pub conn_info : ConnectionInfo
  pub message : SocketMessage Meta

abbrev pub payload_of : {Meta : Type 0} → SocketMessage Meta → ServiceMessagePayload Meta
payload_of msg = record {
  raw_data = msg.raw_data;
  message_data = msg.message_data;
  meta = msg.meta;
}

-- makeEnvelope
abbrev pub service_envelope :
    {Meta : Type 0}
    → String
    → String
    → ConnectionInfo
    → SocketMessage Meta
    → Bytes
    → Bool
    → ServiceMessageEnvelope
service_envelope gateway_id socket_id info msg inline_payload streamed = record {
  gateway_id = gateway_id;
  socket_id = socket_id;
  headers = info.headers;
  remote_addr = info.remote_addr;
  message_type = msg.message_type;
  payload = inline_payload;
  streamed = streamed;
}

-- The decode function of SubscribeServiceMessages: the socket, whether it is streamed, and the work.
unfoldable pub decode_service_message :
    Codec ServiceMessageEnvelope → Msg → Option (String × Bool × ServiceWork)
decode_service_message envelopes msg = elim (envelopes.unmarshal msg.bytes) [
  | none ↦ none
  | some envelope ↦
      some (envelope.socket_id, envelope.streamed, record { msg = msg; envelope = envelope })
]

module _ {Meta : Type 0} (payloads : Codec (ServiceMessagePayload Meta)) where
  -- `link` leads to the subject of the service instance.
  unfoldable pub message_service :
      Codec ServiceMessageEnvelope
      → Codec MessageAck
      → Link
      → String
      → String
      → ConnectionInfo
      → SocketMessage Meta
      → Option SendError
  unfolding send_envelope
  message_service envelopes acks link gateway_id socket_id info msg =
      elim (payloads.marshal (payload_of msg)) [
        | none ↦ some marshal_failed
        | some payload ↦
            send_envelope envelopes acks link (service_envelope gateway_id socket_id info msg)
              payload
      ]

  abbrev pub delivery_of :
      ServiceMessageEnvelope → Option (ServiceMessagePayload Meta) → Option (ServiceDelivery Meta)
  delivery_of envelope none = none
  delivery_of envelope (some payload) = some (record {
    gateway_id = envelope.gateway_id;
    socket_id = envelope.socket_id;
    conn_info = record { headers = envelope.headers; remote_addr = envelope.remote_addr };
    message = record {
      message_type = envelope.message_type;
      raw_data = payload.raw_data;
      message_data = payload.message_data;
      meta = payload.meta;
    };
  })

  abbrev pub service_payload : (String → Option Bytes) → ServiceWork → Option Bytes
  service_payload receive work =
      if work.envelope.streamed then receive work.msg.reply else some work.envelope.payload

  -- The call of the handler, or none. `receive` is what receiveChunks returns for a reply subject.
  unfoldable pub deliver_service_message :
      (String → Option Bytes) → ServiceWork → Option (ServiceDelivery Meta)
  deliver_service_message receive work = elim (service_payload receive work) [
    | none ↦ none
    | some bytes ↦ delivery_of work.envelope (payloads.unmarshal bytes)
  ]
