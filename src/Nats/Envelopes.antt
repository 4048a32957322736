-- ===== src/Nats/Envelopes.antt =====
-- sendEnvelope, respondAck and serveMessages of transport/natstransport/message.go. A pump is the loop
-- of serveMessages; `W` is the work of a message, and `E` the envelope that it comes in.
use eurus.Prelude.{
  ℕ, String, List, [], ◌∷◌, ◌++◌, Option, none, some, Bool, true, false, ◌==◌, string_eq, leb,
  length, if◌then◌else◌,
}
use eurus.Nats.Codec.{Bytes, Codec, Msg}
use eurus.Nats.Chunks.{Sent, stream_chunks}
use eurus.Nats.Dispatch.{Dispatcher, dispatch}

pub record MessageAck : Type 0 where
  pub chunk_subject : String
  pub error : String

-- `slow_consumer` is ErrSlowConsumer.
pub data SendError : Type 0 where
  marshal_failed request_failed malformed_ack slow_consumer no_chunk_subject stream_failed :
      SendError
  rejected : String → SendError

pub data Parsed : Type 0 where
  acked : MessageAck → Parsed
  refused : SendError → Parsed

abbrev pub slow_consumer_reply : String
slow_consumer_reply = "slow consumer"

abbrev pub checked_ack : MessageAck → Parsed
checked_ack ack =
    if ack.error == slow_consumer_reply
    then refused slow_consumer
    else if ack.error == ""
    then acked ack
    else refused (rejected ack.error)

unfoldable pub parse_message_ack : Codec MessageAck → Bytes → Parsed
parse_message_ack acks reply = elim (acks.unmarshal reply) [
  | none ↦ refused malformed_ack
  | some ack ↦ checked_ack ack
]

-- The error of streamChunks.
abbrev pub stream_error : Option Sent → Option SendError
stream_error none = some stream_failed
stream_error (some (chunks, true)) = none
stream_error (some (chunks, false)) = some stream_failed

abbrev pub inline_error : Parsed → Option SendError
inline_error (acked ack) = none
inline_error (refused e) = some e

-- `send` tells whether a chunk on a chunk subject is acknowledged.
abbrev pub stream_after : (String → ℕ → Bool) → Bytes → Parsed → Option SendError
stream_after send payload (refused e) = some e
stream_after send payload (acked ack) =
    if ack.chunk_subject == ""
    then some no_chunk_subject
    else stream_error (stream_chunks (send ack.chunk_subject) payload)

-- One request, and what is done with its reply.
abbrev pub request_with :
    Codec MessageAck
    → (Bytes → Option Bytes)
    → (Parsed → Option SendError)
    → Bytes
    → Option SendError
unfolding parse_message_ack
request_with acks request handle bytes = elim (request bytes) [
  | none ↦ some request_failed
  | some reply ↦ handle (parse_message_ack acks reply)
]

-- NATS as the sender sees it: NatsConnection.MaxPayload, the reply to a request on the subject, and
-- `send`.
pub record Link : Type 0 where
  pub max_payload : ℕ
  pub request : Bytes → Option Bytes
  pub send : String → ℕ → Bool

module _ {E : Type 0} (envelopes : Codec E) (acks : Codec MessageAck) (link : Link) where
  abbrev pub send_streamed : (Bytes → Bool → E) → Bytes → Option SendError
  send_streamed make_envelope payload = elim (envelopes.marshal (make_envelope [] true)) [
    | none ↦ some marshal_failed
    | some bytes ↦ request_with acks link.request (stream_after link.send payload) bytes
  ]

  -- The error that is returned, or none for nil.
  unfoldable pub send_envelope : (Bytes → Bool → E) → Bytes → Option SendError
  send_envelope make_envelope payload = elim (envelopes.marshal (make_envelope payload false)) [
    | none ↦ some marshal_failed
    | some bytes ↦
        if leb (length bytes) link.max_payload
        then request_with acks link.request inline_error bytes
        else send_streamed make_envelope payload
  ]

abbrev pub ack_error : String → MessageAck
ack_error e = record { chunk_subject = ""; error = e }

-- The state of a subscription that is served, and the acks that were published, oldest first.
pub record Pump (W : Type 0) : Type 0 where
  pub dispatcher : Dispatcher W
  pub published : List (String × Bytes)

module _ {W : Type 0} (acks : Codec MessageAck) where
  unfoldable pub respond_ack : String → MessageAck → Pump W → Pump W
  respond_ack reply ack pump = if reply == "" then pump else elim (acks.marshal ack) [
    | none ↦ pump
    | some bytes ↦ record pump { published = pump.published ++ (reply, bytes) ∷ [] }
  ]

  -- What the pump does with a message that is decoded to a socket, whether it is streamed, and work.
  abbrev pub dispatch_decoded : Msg → String × Bool × W → Pump W → Pump W
  unfolding respond_ack dispatch
  dispatch_decoded msg (socket_id, streamed, work) pump =
      let (d, accepted) = dispatch socket_id work pump.dispatcher in
      let pump' = record pump { dispatcher = d } in
      elim accepted [
        | false ↦ respond_ack msg.reply (ack_error slow_consumer_reply) pump'
        | true ↦ if streamed then pump' else respond_ack msg.reply (ack_error "") pump'
      ]

  -- One round of serveMessages.
  unfoldable pub serve_message : (Msg → Option (String × Bool × W)) → Msg → Pump W → Pump W
  unfolding respond_ack dispatch
  serve_message decode msg pump = elim (decode msg) [
    | none ↦ respond_ack msg.reply (ack_error "malformed envelope") pump
    | some decoded ↦ dispatch_decoded msg decoded pump
  ]
