-- ===== src/Nats/Transfer.antt =====
-- The chunk protocol over the wire: sendChunk and the loops of streamChunks and receiveChunks of
-- transport/natstransport/message.go, chunk by chunk. Both ends may fail: `publishes` tells whether the
-- receiver's ack for a chunk is published, and `answers` whether it comes back to the request.
pub mod Arrival
mod Tests
use eurus.Prelude.{
  ℕ, zero, suc, ◌+◌, List, [], ◌∷◌, ◌++◌, Option, none, some, Bool, true, false, ltb, length,
  if◌then◌else◌,
}
use eurus.Nats.Codec.{Bytes, Codec}
use eurus.Nats.Slices.{min, slice}
use eurus.Nats.Chunks.{MessageChunk, max_chunk_size, payload_chunk, last_chunk}

pub record MessageChunkAck : Type 0 where
  pub index : ℕ
  pub is_eof : Bool

-- receiveChunks is in its loop, or has returned a payload or an error.
pub data Phase : Type 0 where
  receiving broken : Phase
  complete : Bytes → Phase

pub record Receiver : Type 0 where
  pub phase : Phase
  pub assembled : Bytes

abbrev pub fresh : Receiver
fresh = record { phase = receiving; assembled = [] }

abbrev pub broken_off : Receiver → Receiver
broken_off r = record r { phase = broken }

abbrev pub ack_for : MessageChunk → MessageChunkAck
ack_for c = record { index = c.index; is_eof = c.is_eof }

-- append(assembled, chunk.Data...), and the return on the last chunk
abbrev pub keep_chunk : MessageChunk → Receiver → Receiver
keep_chunk c r = record {
  phase = if c.is_eof then complete (r.assembled ++ c.bytes) else receiving;
  assembled = r.assembled ++ c.bytes;
}

module _ (chunks : Codec MessageChunk) (chunk_acks : Codec MessageChunkAck)
    (publishes answers : ℕ → Bool) where
  abbrev pub publish_ack : MessageChunk → Option Bytes → Receiver → Receiver × Option Bytes
  publish_ack c none r = (broken_off r, none)
  publish_ack c (some bytes) r =
      if publishes c.index then (keep_chunk c r, some bytes) else (broken_off r, none)

  -- A round of receiveChunks, once the bytes of a chunk are there.
  abbrev pub take_bytes : Option MessageChunk → Receiver → Receiver × Option Bytes
  take_bytes none r = (broken_off r, none)
  take_bytes (some c) r = publish_ack c (chunk_acks.marshal (ack_for c)) r

  -- What a request with these bytes does to the receiver, and the ack that it publishes: none once it
  -- has returned.
  abbrev pub receive_bytes : Phase → Bytes → Receiver → Receiver × Option Bytes
  receive_bytes receiving bytes r = take_bytes (chunks.unmarshal bytes) r
  receive_bytes broken bytes r = (r, none)
  receive_bytes (complete payload) bytes r = (r, none)

  -- Is the error nil, given the reply?
  abbrev pub is_acked : MessageChunk → Option Bytes → Bool
  is_acked c none = false
  is_acked c (some reply) =
      if answers c.index
      then elim (chunk_acks.unmarshal reply) [ none ↦ false | some _ ↦ true ]
      else false

  unfoldable pub send_chunk : MessageChunk → Receiver → Receiver × Bool
  send_chunk c r = elim (chunks.marshal c) [
    | none ↦ (r, false)
    | some bytes ↦ let (r', reply) = receive_bytes r.phase bytes r in (r', is_acked c reply)
  ]

  abbrev pub unless_failed :
      (Receiver → Option (Receiver × Bool)) → Receiver × Bool → Option (Receiver × Bool)
  unless_failed more (r, true) = more r
  unless_failed more (r, false) = some (r, false)

  module _ (payload : Bytes) where
    -- The loop of streamChunks, on fuel.
    unfoldable pub transfer_from : ℕ → ℕ → ℕ → Receiver → Option (Receiver × Bool)
    unfolding send_chunk
    transfer_from zero index offset r = none
    transfer_from (suc fuel) index offset r =
        let stop = min (offset + max_chunk_size) (length payload) in
        let rest =
          unless_failed (transfer_from fuel (index + 1) stop)
            (send_chunk (payload_chunk index (slice offset stop payload)) r) in
        if ltb offset (length payload) then rest else some (send_chunk (last_chunk index) r)

    -- The receiver after streamChunks, and whether that returned nil.
    unfoldable pub transfer : Option (Receiver × Bool)
    unfolding transfer_from
    transfer = transfer_from (length payload + 1) 0 0 fresh
