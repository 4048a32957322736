-- ===== src/Startup.antt =====
-- What Gateway.Connect of gateway.go and Service.Listen of service.go do alike: they begin a run of
-- their lifecycle, subscribe their streams in order, announce themselves, mark the run ready, wait for
-- the group, and run what they have deferred. `E` is the type of errors of a transport.
--
-- The transport's answers are arguments: the error of a subscription by the name of its stream, that of
-- the announcement, and the first error of the group, which Wait returns each time. `early` and `live`
-- are what the handlers and the loops do to the state before the announcement and after it.
pub mod Runs
pub mod Connect
pub mod Listen
pub mod Stops
mod Tests
use eurus.Prelude.{ℕ, String, List, [], ◌∷◌, Option, none, some, Bool, true, false}
use eurus.Lifecycle.{World, begin, mark_ready, interrupt, end}

-- `already` is ErrGatewayAlreadyConnected or ErrServiceAlreadyListening; the error of a stream is
-- wrapped with its name.
pub data StartError (E : Type 0) : Type 0 where
  no_transport already : StartError E
  stream_failed : String → E → StartError E
  announce_failed : E → StartError E

pub record Answers (E : Type 0) : Type 0 where
  pub subscribe : String → Option E
  pub announce : Option E
  pub group : Option (String × E)

module _ {E : Type 0} where
  -- The loop over the streams: the first that cannot be subscribed.
  abbrev pub subscribe_all : (String → Option E) → List String → Option (StartError E)
  subscribe_all subscribe [] = none
  subscribe_all subscribe (name ∷ names) = elim (subscribe name) [
    | some e ↦ some (stream_failed name e)
    | none ↦ subscribe_all subscribe names
  ]

  abbrev pub group_error : Option (String × E) → Option (StartError E)
  group_error none = none
  group_error (some (name, e)) = some (stream_failed name e)

  abbrev pub or_else : Option (StartError E) → Option (StartError E) → Option (StartError E)
  or_else (some e) later = some e
  or_else none later = later

  -- The closure `finish`: the run is interrupted, and the group's error counts if there is no other.
  abbrev pub finish : Answers E → Option (StartError E) → World → World × Option (StartError E)
  unfolding interrupt
  finish answers err w = (interrupt w, or_else err (group_error answers.group))

  abbrev pub announced : Answers E → Option (StartError E)
  announced answers = elim answers.announce [ none ↦ none | some e ↦ some (announce_failed e) ]

  -- From the subscriptions to the end of the group.
  unfoldable pub serve : Answers E → List String → World → World × Option (StartError E)
  unfolding interrupt mark_ready
  serve answers names w = elim (subscribe_all answers.subscribe names) [
    | some e ↦ finish answers (some e) w
    | none ↦ elim (announced answers) [
      | some e ↦ finish answers (some e) w
      | none ↦ finish answers (group_error answers.group) (mark_ready w)
    ]
  ]
