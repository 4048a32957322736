-- ===== src/Nats/Transfer/Arrival.antt =====
-- If streamChunks returns nil, the receiver has the payload; otherwise an ack was lost.
use eurus.Prelude.{
  ℕ, zero, suc, ◌+◌, ◌-◌, ◌<◌, ◌++◌, Option, some, Bool, true, false, ◌≡◌, refl, arith, ltb, length,
  drop, Bool-cases, ◌⊎◌, inl, inr, append_assoc, ap, sym, ◌∙◌,
}
use eurus.Nats.Codec.{Bytes, Codec, Keeps}
use eurus.Nats.Slices.{min, slice, slice-drop, drop_all}
use eurus.Nats.Chunks.{MessageChunk, max_chunk_size, payload_chunk, last_chunk}
use eurus.Nats.Transfer.{
  MessageChunkAck, Phase, receiving, broken, complete, Receiver, fresh, broken_off, ack_for,
  keep_chunk, send_chunk, transfer_from, transfer,
}

-- The receiver has returned no other payload than the whole.
abbrev pub IsSound : Bytes → Phase → Type 0
IsSound whole receiving = Unit
IsSound whole broken = Unit
IsSound whole (complete payload) = payload ≡ whole

IsSound-failed :
    (whole : Bytes) (c : MessageChunk) (r t : Receiver)
    → IsSound whole (keep_chunk c r).phase
    → (t.phase ≡ broken) ⊎ (t ≡ keep_chunk c r)
    → IsSound whole t.phase
IsSound-failed whole c r t sound (inl e) = rw e tt
IsSound-failed whole c r t sound (inr e) = rw e sound

module _ (publishes answers : ℕ → Bool) where
  -- The ack of the chunk was not published, or did not come back.
  abbrev pub IsLost : ℕ → Type 0
  IsLost i = (publishes i ≡ false) ⊎ (answers i ≡ false)

  -- The transfer ends with no error and the whole at the receiver, or with an error.
  abbrev pub IsEnded : Bytes → Option (Receiver × Bool) → Type 0
  IsEnded whole o =
      ((r : Receiver) × (o ≡ some (r, true)) × (r.phase ≡ complete whole))
      ⊎ ((r : Receiver) × (o ≡ some (r, false)) × IsSound whole r.phase × (i : ℕ) × IsLost i)

module _ (chunks : Codec MessageChunk) (chunk_acks : Codec MessageChunkAck)
    (publishes answers : ℕ → Bool) (kept : (c : MessageChunk) → Keeps chunks c)
    (acks_kept : (a : MessageChunkAck) → Keeps chunk_acks a) where
  -- The chunk is kept and acked, or the sender gets an error.
  send_chunk_cases :
      (c : MessageChunk) (r : Receiver)
      → r.phase ≡ receiving
      → (send_chunk chunks chunk_acks publishes answers c r ≡ (keep_chunk c r, true))
        ⊎ ((t : Receiver) × (send_chunk chunks chunk_acks publishes answers c r ≡ (t, false))
            × IsLost publishes answers c.index
            × ((t.phase ≡ broken) ⊎ (t ≡ keep_chunk c r)))
  unfolding send_chunk
  send_chunk_cases c r now =
      let k = kept c in
      let a = acks_kept (ack_for c) in
      elim (Bool-cases (publishes c.index)) [
        | inr unpublished ↦ inr (
          broken_off r,
          ground (arith, now, k.marshals, k.unmarshals, a.marshals, unpublished),
          inl unpublished,
          inl refl,
        )
        | inl published ↦ elim (Bool-cases (answers c.index)) [
          | inr lost ↦ inr (
            keep_chunk c r,
            ground (arith, now, k.marshals, k.unmarshals, a.marshals, published, lost),
            inr lost,
            inr refl,
          )
          | inl answered ↦ inl (
              ground (
                arith, now, k.marshals, k.unmarshals, a.marshals, a.unmarshals, published, answered,
              ))
        ]
      ]

  module _ (payload : Bytes) where
    transfer_from-IsEnded :
        (fuel index offset : ℕ) (r : Receiver)
        → length payload - offset < fuel
        → r.phase ≡ receiving
        → IsEnded publishes answers
            (r.assembled ++ drop offset payload)
            (transfer_from chunks chunk_acks publishes answers payload fuel index offset r)
    unfolding transfer_from
    transfer_from-IsEnded zero index offset r h now = absurd (omega arith)
    transfer_from-IsEnded (suc fuel) index offset r h now =
        elim (Bool-cases (ltb offset (length payload))) [
          | inr ended ↦
              let whole =
                ap (◌++◌ r.assembled) (sym (drop_all offset payload (ground (arith, ended)))) in
              rw ended (elim (send_chunk_cases (last_chunk index) r now) [
                | inl sent ↦
                    rw sent (inl (keep_chunk (last_chunk index) r, refl, ap complete whole))
                | inr (t, failed, lost, after) ↦ rw failed (
                    inr (t, refl, IsSound-failed _ (last_chunk index) r t whole after, index, lost))
              ])
          | inl left ↦
              let stop = min (offset + max_chunk_size) (length payload) in
              let c = payload_chunk index (slice offset stop payload) in
              let whole =
                append_assoc r.assembled (slice offset stop payload) (drop stop payload)
                ∙ ap (◌++◌ r.assembled) (slice-drop offset stop payload (ground (arith, left))) in
              let rest =
                transfer_from-IsEnded fuel (index + 1) stop (keep_chunk c r)
                  (ground (arith, left, h)) refl in
              rw left (elim (send_chunk_cases c r now) [
                | inr (t, failed, lost, after) ↦
                    rw failed (inr (t, refl, IsSound-failed _ c r t tt after, index, lost))
                | inl sent ↦ rw sent (rw whole at rest)
              ])
        ]

    -- If the codecs keep every chunk and every ack, then whichever acks are lost the transfer
    -- ends: either streamChunks returns nil and receiveChunks has returned exactly the payload, or
    -- streamChunks returns an error, the ack of some chunk was not published or did not come back,
    -- and receiveChunks has returned no other payload.
    pub transfer_arrives :
        IsEnded publishes answers payload (transfer chunks chunk_acks publishes answers payload)
    unfolding transfer
    transfer_arrives = transfer_from-IsEnded (length payload + 1) 0 0 fresh (omega arith) refl
