-- ===== src/Nats/Chunks.antt =====
-- The chunk protocol of transport/natstransport/message.go. A byte is a number; `send` tells whether
-- the request of the chunk with an index is acknowledged.
use eurus.Prelude.{
  ℕ, zero, suc, ◌+◌, ◌-◌, ◌≤◌, ◌<◌, List, [], ◌∷◌, ◌++◌, Option, none, some, Bool, true, false, ◌≡◌,
  refl, arith, ltb, length, drop, if◌then◌else◌, Bool-cases, inl, inr, append_assoc, ap, sym, ◌∙◌,
}
use eurus.Nats.Slices.{min, slice, length-slice, slice-drop, drop_all}

abbrev pub max_chunk_size : ℕ
max_chunk_size = 16384

pub record MessageChunk : Type 0 where
  pub index : ℕ
  pub bytes : List ℕ
  pub is_eof : Bool

-- The chunks that were sent, and whether streamChunks returned nil.
abbrev pub Sent : Type 0
Sent = List MessageChunk × Bool

abbrev sent_before : MessageChunk → Option Sent → Option Sent
sent_before c none = none
sent_before c (some (cs, ok)) = some (c ∷ cs, ok)

abbrev pub payload_chunk : ℕ → List ℕ → MessageChunk
payload_chunk index bytes = record { index = index; bytes = bytes; is_eof = false }

abbrev pub last_chunk : ℕ → MessageChunk
last_chunk index = record { index = index; bytes = []; is_eof = true }

module _ (send : ℕ → Bool) (payload : List ℕ) where
  -- The loop of streamChunks, on fuel.
  unfoldable pub stream_from : ℕ → ℕ → ℕ → Option Sent
  stream_from zero index offset = none
  stream_from (suc fuel) index offset =
      let stop = min (offset + max_chunk_size) (length payload) in
      let chunk = payload_chunk index (slice offset stop payload) in
      let rest = stream_from fuel (index + 1) stop in
      if ltb offset (length payload)
      then if send index then sent_before chunk rest else some (chunk ∷ [], false)
      else some (last_chunk index ∷ [], send index)

  -- Each round but the last sends a byte, so that the fuel is enough.
  unfoldable pub stream_chunks : Option Sent
  unfolding stream_from
  stream_chunks = stream_from (length payload + 1) 0 0

-- The loop of receiveChunks: none if the last chunk does not come.
unfoldable pub receive_from : List ℕ → List MessageChunk → Option (List ℕ)
receive_from assembled [] = none
receive_from assembled (c ∷ cs) =
    let assembled' = assembled ++ c.bytes in
    let rest = receive_from assembled' cs in if c.is_eof then some assembled' else rest

unfoldable pub receive_chunks : List MessageChunk → Option (List ℕ)
unfolding receive_from
receive_chunks cs = receive_from [] cs

-- The chunks are numbered from `index` on, and none is too large.
abbrev pub IsNumbered : ℕ → List MessageChunk → Type 0
IsNumbered index [] = Unit
IsNumbered index (c ∷ cs) =
    (c.index ≡ index) × (length c.bytes ≤ max_chunk_size) × IsNumbered (index + 1) cs

module _ (send : ℕ → Bool) (payload : List ℕ) where
  pub record IsStreamed (index offset : ℕ) (r : Option Sent) : Type 0 where
    pub chunks : List MessageChunk
    pub ok : Bool
    pub result : r ≡ some (chunks, ok)
    pub numbered : IsNumbered index chunks
    pub arrives :
        ok ≡ true
        → (assembled : List ℕ)
        → receive_from assembled chunks ≡ some (assembled ++ drop offset payload)
    pub fails : ok ≡ false → (i : ℕ) × (send i ≡ false)

  stream_from-IsStreamed :
      (fuel index offset : ℕ)
      → length payload - offset < fuel
      → IsStreamed index offset (stream_from send payload fuel index offset)
  unfolding stream_from receive_from
  stream_from-IsStreamed zero index offset h = absurd (omega arith)
  stream_from-IsStreamed (suc fuel) index offset h =
      elim (Bool-cases (ltb offset (length payload))) [
        | inr ended ↦ rw ended (record {
          chunks = last_chunk index ∷ [];
          ok = send index;
          result = refl;
          numbered = (refl, omega arith, tt);
          arrives = λ e assembled.
              ap (λ l. some (assembled ++ l))
                (sym (drop_all offset payload (ground (arith, ended))));
          fails = λ e. (index, e);
        })
        | inl left ↦
            let stop = min (offset + max_chunk_size) (length payload) in
            let rest = stream_from-IsStreamed fuel (index + 1) stop (ground (arith, left, h)) in
            let small = length-slice offset stop payload in
            rw left (elim (Bool-cases (send index)) [
              | inr refused ↦ rw refused (record {
                chunks = payload_chunk index (slice offset stop payload) ∷ [];
                ok = false;
                result = refl;
                numbered = (refl, ground (arith, small), tt);
                arrives = λ e. cc e;
                fails = λ e. (index, refused);
              })
              | inl acked ↦
                  rw (acked, rest.result)
                    (record {
                      chunks = payload_chunk index (slice offset stop payload) ∷ rest.chunks;
                      ok = rest.ok;
                      result = refl;
                      numbered = (refl, ground (arith, small), rest.numbered);
                      arrives = λ e assembled.
                          rest.arrives e (assembled ++ slice offset stop payload)
                          ∙ ap some (
                              append_assoc assembled (slice offset stop payload) (drop stop payload)
                              ∙ ap (◌++◌ assembled)
                                  (slice-drop offset stop payload (ground (arith, left))));
                      fails = rest.fails;
                    })
            ])
      ]

  -- streamChunks ends; its chunks are numbered from 0 and none is larger than the limit; if it
  -- returns nil, receiveChunks assembles the payload from them, and otherwise a request has
  -- failed.
  pub stream_chunks_lem :
      (chunks : List MessageChunk) × (ok : Bool) × (stream_chunks send payload ≡ some (chunks, ok))
      × IsNumbered 0 chunks
      × (ok ≡ true → receive_chunks chunks ≡ some payload)
      × (ok ≡ false → (i : ℕ) × (send i ≡ false))
  unfolding stream_chunks receive_chunks
  stream_chunks_lem =
      let w = stream_from-IsStreamed (length payload + 1) 0 0 (omega arith) in
      (w.chunks, w.ok, w.result, w.numbered, (λ e. w.arrives e []), w.fails)
