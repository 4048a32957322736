-- ===== src/Nats/Delivery/Tests.antt =====
-- Messages over NATS at concrete inputs. A codec here writes one fixed form for each kind of envelope.
use eurus.Prelude.{
  ℕ, String, [], ◌∷◌, ◌++◌, Option, none, some, Bool, true, false, ◌≡◌, refl, arith, if◌then◌else◌,
}
use text.Mathlib.TextEquality.{eq_iff}
use eurus.Nats.Codec.{Bytes, Codec, Keeps}
use eurus.Nats.Dispatch.{new_dispatcher, dispatch, queue_at}
use eurus.Nats.Envelopes.{
  MessageAck, Link, slow_consumer, slow_consumer_reply, ack_error, Pump, serve_message, respond_ack,
}
use eurus.Nats.GatewayMessages.{
  GatewayMessageEnvelope, GatewayMessagePayload, GatewayWork, gateway_payload_of, gateway_envelope,
  decode_gateway_message, message_gateway, deliver_gateway_message,
}
use eurus.Nats.ServiceMessages.{
  ConnectionInfo, SocketMessage, ServiceMessageEnvelope, ServiceMessagePayload, ServiceWork,
  payload_of, service_envelope, ServiceDelivery, decode_service_message, message_service,
  deliver_service_message,
}
use eurus.Nats.Delivery.Exchange.{reply_after}
use eurus.Nats.Delivery.ToService.{service_slow}
use eurus.Gateway.{
  Gateway, new_gateway, handle_gateway_message, socket_send, socket_close, closed_socket,
  internal_error,
}
use eurus.Connection.{
  Connection, write, new_connection, mailbox_capacity, pos, message_gateway as message_gateway_call,
}
use eurus.Service.{Service}
use eurus.Nats.Delivery.Conversation.{
  IsHanded, take_message, take_answer, is_nil, message_reaches_connection, answer_reaches_client,
}

program : Unit {0}
unfolding new_gateway new_connection mailbox_capacity write handle_gateway_message new_dispatcher
    dispatch serve_message respond_ack
program = tt

abbrev message : SocketMessage ℕ
message = record { message_type = 1; raw_data = 7 ∷ []; message_data = 8 ∷ 9 ∷ []; meta = 3 }

abbrev info : ConnectionInfo
info = record { headers = []; remote_addr = "10.0.0.1" }

-- One value, and the bytes for it.
abbrev only : {A : Type 0} → A → Bytes → Codec A
only a bytes = record { marshal = λ x. some bytes; unmarshal = λ b. some a }

abbrev only_kept : {A : Type 0} (a : A) (bytes : Bytes) → Keeps (only a bytes) a
only_kept a bytes = record { bytes = bytes; marshals = refl; unmarshals = refl }

abbrev payload : Bytes
payload = 1 ∷ 2 ∷ []

abbrev payloads : Codec (ServiceMessagePayload ℕ)
payloads = only (payload_of message) payload

abbrev inline_envelope : ServiceMessageEnvelope
inline_envelope = service_envelope "g1" "k1" info message payload false

abbrev streamed_envelope : ServiceMessageEnvelope
streamed_envelope = service_envelope "g1" "k1" info message [] true

-- A long form for an inline message, and a short one for a streamed one.
abbrev envelopes : Codec ServiceMessageEnvelope
envelopes = record {
  marshal = λ e. if e.streamed then some (5 ∷ []) else some (1 ∷ 2 ∷ 3 ∷ []);
  unmarshal = λ b. elim b [
    | [] ↦ none
    | x ∷ xs ↦ elim xs [ [] ↦ some streamed_envelope | y ∷ ys ↦ some inline_envelope ]
  ];
}

abbrev inline_kept : Keeps envelopes inline_envelope
inline_kept = record { bytes = 1 ∷ 2 ∷ 3 ∷ []; marshals = refl; unmarshals = refl }

abbrev streamed_kept : Keeps envelopes streamed_envelope
streamed_kept = record { bytes = 5 ∷ []; marshals = refl; unmarshals = refl }

abbrev idle : Pump ServiceWork
idle = record { dispatcher = new_dispatcher 1; published = [] }

-- No message is queued.
abbrev shut : Pump ServiceWork
shut = record { dispatcher = new_dispatcher 0; published = [] }

abbrev never : String → ℕ → Bool
never subject i = false

abbrev always : String → ℕ → Bool
always subject i = true

abbrev accepts : Codec MessageAck
accepts = only (ack_error "") (0 ∷ [])

abbrev rejects : Codec MessageAck
rejects = only (ack_error slow_consumer_reply) (9 ∷ [])

abbrev opens : Codec MessageAck
opens = only (record { chunk_subject = "inbox"; error = "" }) (4 ∷ [])

-- The pump of the service instance behind a subject.
abbrev pumped : Codec MessageAck → Pump ServiceWork → Bytes → Pump ServiceWork
pumped acks pump bytes =
    serve_message acks (decode_service_message envelopes) (record { reply = "r"; bytes = bytes })
      pump

abbrev link_to : Codec MessageAck → Pump ServiceWork → Link
link_to acks pump = record {
  max_payload = 10;
  request = λ bytes. reply_after pump (pumped acks pump bytes);
  send = never;
}

abbrev delivery : ServiceDelivery ℕ
delivery = record { gateway_id = "g1"; socket_id = "k1"; conn_info = info; message = message }

service_slow_example :
    (message_service payloads envelopes rejects (link_to rejects shut) "g1" "k1" info message
      ≡ some slow_consumer)
    × ((pumped rejects shut (1 ∷ 2 ∷ 3 ∷ [])).dispatcher
        ≡ record shut.dispatcher { overflowed = shut.dispatcher.overflowed ++ "k1" ∷ [] })
unfolding program
service_slow_example =
    service_slow payloads envelopes rejects "g1" "k1" info message
      (only_kept (payload_of message) payload) "r" shut 10 never
      (λ e. ground (arith, eq_iff "r" "")) inline_kept refl
      (only_kept (ack_error slow_consumer_reply) (9 ∷ [])) refl

abbrev service : Service String ConnectionInfo (SocketMessage ℕ)
service = record {
  gateway_names = [];
  name = "chat";
  id = "a1";
  route_descriptors = none;
  provided = none;
  closed_socket_ttl = 20;
  connections = [];
  closed_sockets = [];
  next_handle = 1;
  calls = [];
}

message_reaches_connection_example :
    (work : ServiceWork) × (message_service payloads envelopes accepts
        (link_to accepts idle)
        "g1"
        "k1"
        info
        message
      ≡ none)
    × (queue_at "k1" (pumped accepts idle (1 ∷ 2 ∷ 3 ∷ [])).dispatcher.queues ≡ work ∷ [])
    × ((receive : String → Option Bytes)
        → IsHanded "g1" "k1" message service
            (take_message (deliver_service_message payloads receive work) service))
unfolding program
message_reaches_connection_example =
    message_reaches_connection payloads envelopes accepts "g1" "k1" info message
      (only_kept (payload_of message) payload) "r" idle service 10 never
      (λ e. ground (arith, eq_iff "r" "")) inline_kept refl (only_kept (ack_error "") (0 ∷ [])) refl
      refl

abbrev answers : Codec (GatewayMessagePayload ℕ)
answers = only (gateway_payload_of message) payload

abbrev answer_envelope : GatewayMessageEnvelope
answer_envelope = gateway_envelope "k1" message payload false

abbrev answer_envelopes : Codec GatewayMessageEnvelope
answer_envelopes = only answer_envelope (6 ∷ [])

abbrev waiting : Pump GatewayWork
waiting = record { dispatcher = new_dispatcher 1; published = [] }

abbrev gateway : Gateway String ℕ (SocketMessage ℕ)
gateway = record (new_gateway "edge" "g1" 4) { sockets = ("k1", 7) ∷ [] }

abbrev connection : Connection (SocketMessage ℕ)
connection = new_connection "g1" "k1" (pos 2)

-- The pump of the gateway behind its subject.
abbrev answered : Bytes → Pump GatewayWork
answered bytes =
    serve_message accepts (decode_gateway_message answer_envelopes)
      (record { reply = "r"; bytes = bytes }) waiting

answer_reaches_client_example :
    (work : GatewayWork) × (write
        (is_nil (
          message_gateway answers answer_envelopes accepts
            (record {
              max_payload = 10;
              request = λ bytes. reply_after waiting (answered bytes);
              send = never;
            })
            "k1"
            message))
        message
        connection
      ≡ (connection, message_gateway_call "g1" "k1" message))
    × (queue_at "k1" (answered (6 ∷ [])).dispatcher.queues ≡ work ∷ [])
    × ((receive : String → Option Bytes)
        → (take_answer true (deliver_gateway_message answers receive work) gateway
            ≡ record gateway { calls = socket_send 7 message ∷ [] })
          × (take_answer false (deliver_gateway_message answers receive work) gateway
              ≡ record gateway {
                sockets = [];
                calls =
                    socket_send 7 message
                    ∷ socket_close 7 internal_error "Failed to send message"
                    ∷ closed_socket "k1" internal_error "Failed to send message"
                    ∷ [];
              }))
unfolding program
answer_reaches_client_example =
    answer_reaches_client answers answer_envelopes accepts connection message
      (only_kept (gateway_payload_of message) payload) "r" waiting gateway 10 never 7
      (λ e. ground (arith, eq_iff "r" "")) (only_kept answer_envelope (6 ∷ [])) refl
      (only_kept (ack_error "") (0 ∷ [])) refl refl
