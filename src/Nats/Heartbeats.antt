-- ===== src/Nats/Heartbeats.antt =====
-- transport/natstransport/socket-heartbeat.go: heartbeats in batches, and the gateway's side of them.
-- `request` is what one batch brings: the dead sockets, or none if it fails.
use eurus.Prelude.{
  ℕ, zero, suc, ◌+◌, ◌-◌, ◌<◌, String, List, [], ◌∷◌, ◌++◌, Option, none, some, true, ◌≡◌, refl,
  arith, ltb, length, drop, is_empty, if◌then◌else◌, Bool-cases, inl, inr, append-nil, append_assoc,
  fun_ext, ap, sym, ◌∙◌, string_eq,
}
use eurus.Gateway.{Gateway, handle_socket_heartbeats}
use eurus.Nats.Codec.{Bytes, Codec, Keeps}
use eurus.Nats.Slices.{min, slice, slice-drop, drop_all}

abbrev pub max_batch_size : ℕ
max_batch_size = 4096

pub data Answer : Type 0 where
  answered : List String → Answer
  unreachable : Answer

module _ (request : List String → Option (List String)) (ids : List String) where
  -- The loop, on fuel.
  unfoldable pub heartbeat_from : ℕ → ℕ → List String → Option Answer
  heartbeat_from zero start dead = none
  heartbeat_from (suc fuel) start dead =
      let stop = min (start + max_batch_size) (length ids) in
      if ltb start (length ids)
      then elim (request (slice start stop ids)) [
        | none ↦ some unreachable
        | some l ↦ heartbeat_from fuel (start + max_batch_size) (dead ++ l)
      ]
      else some (answered dead)

  unfoldable pub heartbeat_sockets : Option Answer
  unfolding heartbeat_from
  heartbeat_sockets =
      if is_empty ids then some (answered []) else heartbeat_from (length ids + 1) 0 []

pub record SocketHeartbeatEnvelope : Type 0 where
  pub service_id : String
  pub socket_ids : List String

pub record SocketHeartbeatReply : Type 0 where
  pub dead_socket_ids : List String

module _ (envelopes : Codec SocketHeartbeatEnvelope) (replies : Codec SocketHeartbeatReply) where
  -- The callback of SubscribeSocketHeartbeats: the reply, if it responds.
  unfoldable pub on_heartbeat : (String → List String → List String) → Bytes → Option Bytes
  on_heartbeat handler bytes = elim (envelopes.unmarshal bytes) [
    | none ↦ none
    | some e ↦ replies.marshal (record { dead_socket_ids = handler e.service_id e.socket_ids })
  ]

  abbrev pub dead_in_reply : Option SocketHeartbeatReply → Option (List String)
  dead_in_reply none = none
  dead_in_reply (some r) = some r.dead_socket_ids

  -- One batch of HeartbeatSockets; `ask` is the reply to a request on the gateway's subject.
  unfoldable pub heartbeat_request :
      (Bytes → Option Bytes) → String → List String → Option (List String)
  heartbeat_request ask service_id batch =
      elim (envelopes.marshal (record { service_id = service_id; socket_ids = batch })) [
        | none ↦ none
        | some bytes ↦ elim (ask bytes) [
          | none ↦ none
          | some reply ↦ dead_in_reply (replies.unmarshal reply)
        ]
      ]

module _ {P I M : Type 0} (g : Gateway P I M) where
  handle_socket_heartbeats-append :
      (xs ys : List String)
      → handle_socket_heartbeats g (xs ++ ys)
        ≡ handle_socket_heartbeats g xs ++ handle_socket_heartbeats g ys
  unfolding handle_socket_heartbeats
  handle_socket_heartbeats-append [] ys = refl
  handle_socket_heartbeats-append (x ∷ xs) ys =
      ground (arith, handle_socket_heartbeats-append xs ys)

  module _ (ids : List String) where
    heartbeat_from_gateway :
        (fuel start : ℕ) (dead : List String)
        → length ids - start < fuel
        → heartbeat_from (λ batch. some (handle_socket_heartbeats g batch)) ids fuel start dead
          ≡ some (answered (dead ++ handle_socket_heartbeats g (drop start ids)))
    unfolding heartbeat_from
    heartbeat_from_gateway zero start dead h = absurd (omega arith)
    heartbeat_from_gateway (suc fuel) start dead h = elim (Bool-cases (ltb start (length ids))) [
      | inr ended ↦ rw (ended, drop_all start ids (ground (arith, ended))) (nothing_left dead)
      | inl left ↦
          let stop = min (start + max_batch_size) (length ids) in
          rw left (
            heartbeat_from_gateway fuel (start + max_batch_size)
              (dead ++ handle_socket_heartbeats g (slice start stop ids)) (ground (arith, left, h))
            ∙ ap (λ l. some (answered l))
                (append_assoc dead _ _ ∙ ap (◌++◌ dead) (one_batch start left)))
    ]
      where
        nothing_left :
            (l : List String)
            → some (answered l) ≡ some (answered (l ++ handle_socket_heartbeats g []))
        nothing_left l =
            unfold handle_socket_heartbeats in ap (λ m. some (answered m)) (sym (append-nil l))

        same_end :
            (start : ℕ)
            → ltb start (length ids) ≡ true
            → drop (start + max_batch_size) ids
              ≡ drop (min (start + max_batch_size) (length ids)) ids
        same_end start left =
            ground (arith, left, drop_all (start + max_batch_size) ids, drop_all (length ids) ids)

        one_batch :
            (start : ℕ)
            → ltb start (length ids) ≡ true
            → handle_socket_heartbeats g
                  (slice start (min (start + max_batch_size) (length ids)) ids)
                ++ handle_socket_heartbeats g (drop (start + max_batch_size) ids)
              ≡ handle_socket_heartbeats g (drop start ids)
        one_batch start left =
            let stop = min (start + max_batch_size) (length ids) in
            ap
              (λ l.
                handle_socket_heartbeats g (slice start stop ids) ++ handle_socket_heartbeats g l)
              (same_end start left)
            ∙ sym (handle_socket_heartbeats-append (slice start stop ids) (drop stop ids))
            ∙ ap (handle_socket_heartbeats g) (slice-drop start stop ids (ground (arith, left)))

    -- However many batches it takes, HeartbeatSockets returns what the gateway would answer to all
    -- the sockets at once.
    pub heartbeat_sockets_batches :
        heartbeat_sockets (λ batch. some (handle_socket_heartbeats g batch)) ids
        ≡ some (answered (handle_socket_heartbeats g ids))
    unfolding heartbeat_sockets handle_socket_heartbeats
    heartbeat_sockets_batches = elim (Bool-cases (is_empty ids)) [
      | inl empty ↦ ground (arith, empty)
      | inr some_ids ↦ rw some_ids (heartbeat_from_gateway (length ids + 1) 0 [] (omega arith))
    ]

    -- Over NATS
    pub heartbeats_over_nats :
        (envelopes : Codec SocketHeartbeatEnvelope) (replies : Codec SocketHeartbeatReply)
        (service_id : String)
        → ((batch : List String)
            → Keeps envelopes (record { service_id = service_id; socket_ids = batch }))
        → ((dead : List String) → Keeps replies (record { dead_socket_ids = dead }))
        → heartbeat_sockets
            (heartbeat_request envelopes replies
              (on_heartbeat envelopes replies (λ id batch. handle_socket_heartbeats g batch))
              service_id)
            ids
          ≡ some (answered (handle_socket_heartbeats g ids))
    unfolding heartbeat_request on_heartbeat
    heartbeats_over_nats envelopes replies service_id kept reply_kept =
        ap (λ request. heartbeat_sockets request ids) (fun_ext one_request)
        ∙ heartbeat_sockets_batches
      where
        one_request :
            (batch : List String)
            → heartbeat_request envelopes replies
                (on_heartbeat envelopes replies (λ id b. handle_socket_heartbeats g b))
                service_id
                batch
              ≡ some (handle_socket_heartbeats g batch)
        one_request batch =
            let k = kept batch in
            let r = reply_kept (handle_socket_heartbeats g batch) in
            ground (arith, k.marshals, k.unmarshals, r.marshals, r.unmarshals)
