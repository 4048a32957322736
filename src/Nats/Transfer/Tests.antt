-- ===== src/Nats/Transfer/Tests.antt =====
-- Transfers at concrete inputs.
use eurus.Prelude.{ℕ, zero, suc, [], ◌∷◌, Option, none, some, Bool, true, false, ◌≡◌, refl, ltb}
use eurus.Nats.Codec.{Bytes, Codec, Keeps}
use eurus.Nats.Chunks.{MessageChunk}
use eurus.Nats.Transfer.{MessageChunkAck, broken, complete, send_chunk, transfer_from, transfer}
use eurus.Nats.Transfer.Arrival.{IsEnded, transfer_arrives}

abbrev flag : Bool → ℕ
flag true = 1
flag false = 0

-- A chunk is its index, the flag of its end and its bytes.
abbrev chunk_of : Bytes → Option MessageChunk
chunk_of (i ∷ zero ∷ bytes) = some (record { index = i; bytes = bytes; is_eof = false })
chunk_of (i ∷ suc n ∷ bytes) = some (record { index = i; bytes = bytes; is_eof = true })
chunk_of (i ∷ []) = none
chunk_of [] = none

abbrev chunks : Codec MessageChunk
chunks = record { marshal = λ c. some (c.index ∷ flag c.is_eof ∷ c.bytes); unmarshal = chunk_of }

abbrev ack_of_bytes : Bytes → Option MessageChunkAck
ack_of_bytes (i ∷ zero ∷ bytes) = some (record { index = i; is_eof = false })
ack_of_bytes (i ∷ suc n ∷ bytes) = some (record { index = i; is_eof = true })
ack_of_bytes (i ∷ []) = none
ack_of_bytes [] = none

abbrev chunk_acks : Codec MessageChunkAck
chunk_acks = record { marshal = λ a. some (a.index ∷ flag a.is_eof ∷ []); unmarshal = ack_of_bytes }

chunk_read_back :
    (b : Bool) (i : ℕ) (bytes : Bytes)
    → chunk_of (i ∷ flag b ∷ bytes) ≡ some (record { index = i; bytes = bytes; is_eof = b })
chunk_read_back true i bytes = refl
chunk_read_back false i bytes = refl

ack_read_back :
    (b : Bool) (i : ℕ) → ack_of_bytes (i ∷ flag b ∷ []) ≡ some (record { index = i; is_eof = b })
ack_read_back true i = refl
ack_read_back false i = refl

abbrev kept : (c : MessageChunk) → Keeps chunks c
kept c = record {
  bytes = c.index ∷ flag c.is_eof ∷ c.bytes;
  marshals = refl;
  unmarshals = chunk_read_back c.is_eof c.index c.bytes;
}

abbrev acks_kept : (a : MessageChunkAck) → Keeps chunk_acks a
acks_kept a = record {
  bytes = a.index ∷ flag a.is_eof ∷ [];
  marshals = refl;
  unmarshals = ack_read_back a.is_eof a.index;
}

-- The second ack is not published.
abbrev first_only : ℕ → Bool
first_only i = ltb i 1

abbrev all_back : ℕ → Bool
all_back i = true

breaks :
    transfer chunks chunk_acks first_only all_back (7 ∷ 8 ∷ [])
    ≡ some (record { phase = broken; assembled = 7 ∷ 8 ∷ [] }, false)
unfolding transfer transfer_from send_chunk
breaks = refl

-- The ack of the last chunk is published, and does not come back.
abbrev last_lost : ℕ → Bool
last_lost i = ltb i 1

-- The payload is there, and the sender gets an error.
delivered_with_error :
    transfer chunks chunk_acks all_back last_lost (7 ∷ 8 ∷ [])
    ≡ some (record { phase = complete (7 ∷ 8 ∷ []); assembled = 7 ∷ 8 ∷ [] }, false)
unfolding transfer transfer_from send_chunk
delivered_with_error = refl

transfer_arrives_example :
    IsEnded first_only all_back
      (7 ∷ 8 ∷ [])
      (transfer chunks chunk_acks first_only all_back (7 ∷ 8 ∷ []))
transfer_arrives_example =
    transfer_arrives chunks chunk_acks first_only all_back kept acks_kept (7 ∷ 8 ∷ [])
