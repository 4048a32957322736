-- ===== src/Nats/Serving/Histories.antt =====
-- serveMessages over time: what is published, queued and refused is decided message by message.
use eurus.Prelude.{
  ℕ, String, [], ◌∷◌, ◌++◌, Option, none, some, Bool, true, false, ◌≡◌, refl, arith, ◌∙◌, ap, sym,
  string_eq, if◌then◌else◌, append_assoc, append-nil, lookup,
}
use eurus.Nats.Codec.{Codec, Msg}
use eurus.Nats.Dispatch.{Dispatcher, new_dispatcher, dispatch, run_turn, run_done}
use eurus.Nats.Dispatch as Dispatch
use eurus.Nats.Dispatch.Order.{of_socket, wait_lem}
use eurus.Nats.Envelopes.{MessageAck}
use eurus.Nats.Serving.{
  Phase, receiving, returned, Serving, start_serving, with_dispatcher, receive, Step, Reach, came,
  failed, turned, done, waited, here, next,
}
use eurus.Nats.Serving.Accounts.{
  malformed, refused, queued, Log, queued_for, refusals, messages, ack_of, acks_of, AllFit,
  serve_message-Served,
}

module _ {W : Type 0} where
  module _ (k : String) where
    queued_for-append : (l m : Log W) → queued_for k (l ++ m) ≡ queued_for k l ++ queued_for k m
    queued_for-append [] m = refl
    queued_for-append ((msg, malformed) ∷ l) m = queued_for-append l m
    queued_for-append ((msg, refused j) ∷ l) m = queued_for-append l m
    queued_for-append ((msg, queued j b w) ∷ l) m = ground (arith, queued_for-append l m)

  refusals-append : (l m : Log W) → refusals (l ++ m) ≡ refusals l ++ refusals m
  refusals-append [] m = refl
  refusals-append ((msg, malformed) ∷ l) m = refusals-append l m
  refusals-append ((msg, refused j) ∷ l) m = ap (λ r. j ∷ r) (refusals-append l m)
  refusals-append ((msg, queued j b w) ∷ l) m = refusals-append l m

  messages-append : (l m : Log W) → messages (l ++ m) ≡ messages l ++ messages m
  messages-append [] m = refl
  messages-append ((msg, v) ∷ l) m = ap (λ r. msg ∷ r) (messages-append l m)

module _ {W : Type 0} (acks : Codec MessageAck) (decode : Msg → Option (String × Bool × W)) where
  acks_of-append :
      (l m : Log W) → acks_of acks decode (l ++ m) ≡ acks_of acks decode l ++ acks_of acks decode m
  acks_of-append [] m = refl
  acks_of-append ((msg, v) ∷ l) m =
      ap (λ r. ack_of acks decode msg v ++ r) (acks_of-append l m)
      ∙ sym
          (append_assoc (ack_of acks decode msg v) (acks_of acks decode l) (acks_of acks decode m))

  AllFit-append :
      (l m : Log W) → AllFit acks decode l → AllFit acks decode m → AllFit acks decode (l ++ m)
  AllFit-append [] m a b = b
  AllFit-append ((msg, v) ∷ l) m a b = (a.0, AllFit-append l m a.1 b)

turned_same :
    {W : Type 0} (k : String) (d : Dispatcher W)
    → ((run_turn k d).accepted ≡ d.accepted) × ((run_turn k d).overflowed ≡ d.overflowed)
unfolding run_turn
turned_same k d = (ground arith, ground arith)

-- The phase that a call is in when it has come back.
abbrev pub is_returned : {E : Type 0} → Phase E → Bool
is_returned (returned e) = true
is_returned p = false

module _ {E W : Type 0} (acks : Codec MessageAck) (decode : Msg → Option (String × Bool × W))
    (size : ℕ) where
  pub record IsServed (s : Serving E W) : Type 0 where
    -- One verdict for each message that was taken, in order, and each fits its message.
    pub log : Log W
    pub arrived : s.arrived ≡ messages log
    pub fits : AllFit acks decode log
    -- The acks are those of the verdicts, and nothing else is published.
    pub published : s.pump.published ≡ acks_of acks decode log
    -- The works that were accepted, and the overflows that were reported, are those of the verdicts.
    pub accepted : (k : String) → of_socket k s.pump.dispatcher.accepted ≡ queued_for k log
    pub overflowed : s.pump.dispatcher.overflowed ≡ refusals log
    -- The dispatcher has been used as its own steps allow.
    pub reached : Dispatch.Reach (new_dispatcher size) s.pump.dispatcher
    -- The subscription ends with the call, and by then no worker is left.
    pub subscribed : s.subscribed ≡ (if is_returned s.phase then false else true)
    pub idle : is_returned s.phase ≡ true → s.pump.dispatcher.workers ≡ []

  start-IsServed : IsServed (start_serving size)
  unfolding start_serving
  start-IsServed = record {
    log = [];
    arrived = refl;
    fits = tt;
    published = refl;
    accepted = λ k. unfold new_dispatcher in refl;
    overflowed = unfold new_dispatcher in refl;
    reached = Dispatch.Reach.here;
    subscribed = refl;
    idle = λ e. cc;
  }

  receive-IsServed :
      (msg : Msg) (s : Serving E W)
      → s.phase ≡ receiving
      → IsServed s
      → IsServed (receive acks decode msg s)
  unfolding receive
  receive-IsServed msg s open_ i =
      let one = serve_message-Served acks decode msg s.pump in
      record {
        log = i.log ++ (msg, one.verdict) ∷ [];
        arrived =
            ap (◌++ msg ∷ []) i.arrived ∙ sym (messages-append i.log ((msg, one.verdict) ∷ []));
        fits = AllFit-append acks decode i.log ((msg, one.verdict) ∷ []) i.fits (one.fits, tt);
        published =
            one.published
            ∙ ap (◌++ ack_of acks decode msg one.verdict) i.published
            ∙ ap (acks_of acks decode i.log ++◌)
                (sym (append-nil (ack_of acks decode msg one.verdict)))
            ∙ sym (acks_of-append acks decode i.log ((msg, one.verdict) ∷ []));
        accepted = λ k.
            one.accepted k
            ∙ ap (◌++ queued_for k ((msg, one.verdict) ∷ [])) (i.accepted k)
            ∙ sym (queued_for-append k i.log ((msg, one.verdict) ∷ []));
        overflowed =
            one.overflowed
            ∙ ap (◌++ refusals ((msg, one.verdict) ∷ [])) i.overflowed
            ∙ sym (refusals-append i.log ((msg, one.verdict) ∷ []));
        reached = one.reached i.reached;
        subscribed = i.subscribed;
        idle = λ e. ground (arith, open_, e);
      }

  -- A step of a worker, after which the queues may be other ones.
  worked-IsServed :
      (d : Dispatcher W) (s : Serving E W)
      → d.accepted ≡ s.pump.dispatcher.accepted
      → d.overflowed ≡ s.pump.dispatcher.overflowed
      → Dispatch.Step s.pump.dispatcher d
      → is_returned s.phase ≡ false
      → IsServed s
      → IsServed (with_dispatcher d s)
  worked-IsServed d s same_accepted same_overflowed st running i = record {
    log = i.log;
    arrived = i.arrived;
    fits = i.fits;
    published = i.published;
    accepted = λ k. ap (of_socket k) same_accepted ∙ i.accepted k;
    overflowed = same_overflowed ∙ i.overflowed;
    reached = Dispatch.Reach.next i.reached st;
    subscribed = i.subscribed;
    idle = λ e. ground (arith, running, e);
  }

  -- A worker at work means that the call is not back.
  still_running :
      (k : String) (o : Option W) (s : Serving E W)
      → lookup k s.pump.dispatcher.workers ≡ some o
      → IsServed s
      → is_returned s.phase ≡ false
  still_running k o s busy i = ground (arith, busy, i.idle)

  Step-IsServed : {s t : Serving E W} → Step acks decode s t → IsServed s → IsServed t
  Step-IsServed {s} (came msg now) i = receive-IsServed msg s now i
  Step-IsServed {s} (failed e now) i = record {
    log = i.log;
    arrived = i.arrived;
    fits = i.fits;
    published = i.published;
    accepted = i.accepted;
    overflowed = i.overflowed;
    reached = i.reached;
    subscribed = ground (arith, i.subscribed, now);
    idle = λ e. cc;
  }
  Step-IsServed {s} (turned k at_head) i =
      let (a, o) = turned_same k s.pump.dispatcher in
      worked-IsServed (run_turn k s.pump.dispatcher) s a o (Dispatch.Step.turned k at_head)
        (still_running k none s at_head i) i
  Step-IsServed {s} (done k w busy) i =
      worked-IsServed (run_done k w s.pump.dispatcher) s (unfold run_done in refl)
        (unfold run_done in refl) (Dispatch.Step.done k w busy) (still_running k (some w) s busy i)
        i
  Step-IsServed {s} (waited e now idle) i = record {
    log = i.log;
    arrived = i.arrived;
    fits = i.fits;
    published = i.published;
    accepted = i.accepted;
    overflowed = i.overflowed;
    reached = i.reached;
    subscribed = refl;
    idle = λ e. idle;
  }

  -- However the rounds of serveMessages, the turns and works of its workers, the failure of the
  -- subscription and the deferred wait follow one another, each message that was taken has one
  -- verdict that fits what it decodes to (malformed, refused or queued for its socket); the acks
  -- published, the overflows reported and the works accepted of each socket are those of the
  -- verdicts in their order; the queues are reached by steps of the dispatcher; the subscription
  -- lasts until the call is back, and then no worker is left.
  pub Reach-IsServed : {s : Serving E W} → Reach acks decode (start_serving size) s → IsServed s
  Reach-IsServed here = start-IsServed
  Reach-IsServed (next r st) = Step-IsServed st (Reach-IsServed r)

  -- When serveMessages has returned, each message that it took has one verdict that fits what it
  -- decodes to; it has published exactly the acks of the verdicts, reported exactly the overflows
  -- of the refused messages, and finished the queued works of each socket, all of them and in
  -- their order; the subscription has ended.
  pub returned_lem :
      (e : Option E) {s : Serving E W}
      → Reach acks decode (start_serving size) s
      → s.phase ≡ returned e
      → (log : Log W) × (s.arrived ≡ messages log)
        × AllFit acks decode log
        × (s.pump.published ≡ acks_of acks decode log)
        × (s.pump.dispatcher.overflowed ≡ refusals log)
        × ((k : String) → of_socket k s.pump.dispatcher.finished ≡ queued_for k log)
        × (s.subscribed ≡ false)
  returned_lem e {s} r back =
      let i = Reach-IsServed r in
      let idle = i.idle (ground (arith, back)) in
      (
        i.log,
        i.arrived,
        i.fits,
        i.published,
        i.overflowed,
        λ k. sym (wait_lem size i.reached idle k) ∙ i.accepted k,
        ground (arith, i.subscribed, back),
      )
