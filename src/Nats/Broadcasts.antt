-- ===== src/Nats/Broadcasts.antt =====
-- The announcements of transport/natstransport (announce-service.go, announce-gateway.go,
-- socket-closed.go) and the msgpack forms of route-descriptor.go, service-descriptor.go and
-- gateway-descriptor.go. `to_text` and `parse` are Pattern.String and velaros.NewPattern.
pub mod RoundTrip
use eurus.Prelude.{
  ◌==◌, nat_eq, if◌then◌else◌, ℕ, String, List, [], ◌∷◌, Option, none, some, Bool, true, false, map,
}
use eurus.Nats.Subjects.{namespace}
use eurus.Descriptor.{RouteDescriptor, ServiceDescriptor}
use eurus.Gateway.{Status}
use eurus.Nats.Codec.{Bytes, Codec}

-- The fields of a ServiceDescriptor that msgpack writes; LastSeenAt and socketIDs are left out.
pub record WireService : Type 0 where
  pub name : String
  pub id : String
  pub gateway_names : List String
  pub route_descriptors : List String

pub record WireGateway : Type 0 where
  pub name : String
  pub service_descriptors : List WireService

-- A GatewayDescriptor with what its pointers lead to.
pub record Announced (P : Type 0) : Type 0 where
  pub name : String
  pub service_descriptors : List (ServiceDescriptor P)

pub record SocketClosedEnvelope : Type 0 where
  pub socket_id : String
  pub status : Status
  pub reason : String

-- `bad_subject` is the panic of namespace.
pub data PublishError : Type 0 where
  marshal_failed publish_failed bad_subject : PublishError

-- The subject and the bytes that were published, and the error.
abbrev pub Published : Type 0
Published = Option (List ℕ × Bytes) × Option PublishError

-- Publish; `sent` is false if it returns an error.
abbrev pub publish_on : Option (List ℕ) → Bool → Bytes → Published
publish_on none sent bytes = (none, some bad_subject)
publish_on (some subject) true bytes = (some (subject, bytes), none)
publish_on (some subject) false bytes = (none, some publish_failed)

abbrev pub publish : {A : Type 0} → Codec A → Option (List ℕ) → Bool → A → Published
publish c subject sent a = elim (c.marshal a) [
  | none ↦ (none, some marshal_failed)
  | some bytes ↦ publish_on subject sent bytes
]

-- "gateway.announce", "service.announce", "socket" and "closed"
abbrev pub gateway_announce : List ℕ
gateway_announce =
    103 ∷ 97 ∷ 116 ∷ 101 ∷ 119 ∷ 97 ∷ 121 ∷ 46 ∷ 97 ∷ 110 ∷ 110 ∷ 111 ∷ 117 ∷ 110 ∷ 99 ∷ 101 ∷ []

abbrev pub service_announce : List ℕ
service_announce =
    115 ∷ 101 ∷ 114 ∷ 118 ∷ 105 ∷ 99 ∷ 101 ∷ 46 ∷ 97 ∷ 110 ∷ 110 ∷ 111 ∷ 117 ∷ 110 ∷ 99 ∷ 101 ∷ []

abbrev pub socket_text : List ℕ
socket_text = 115 ∷ 111 ∷ 99 ∷ 107 ∷ 101 ∷ 116 ∷ []

abbrev pub closed_text : List ℕ
closed_text = 99 ∷ 108 ∷ 111 ∷ 115 ∷ 101 ∷ 100 ∷ []

module _ {P : Type 0} (to_text : P → String) where
  unfoldable pub marshal_route : RouteDescriptor P → String
  marshal_route r = to_text r.pattern

  unfoldable pub wire_service : ServiceDescriptor P → WireService
  unfolding marshal_route
  wire_service d = record {
    name = d.name;
    id = d.id;
    gateway_names = d.gateway_names;
    route_descriptors = map marshal_route d.route_descriptors;
  }

  unfoldable pub wire_gateway : Announced P → WireGateway
  unfolding wire_service
  wire_gateway d = record {
    name = d.name;
    service_descriptors = map wire_service d.service_descriptors;
  }

  unfoldable pub announce_service : Codec WireService → Bool → ServiceDescriptor P → Published
  unfolding wire_service namespace
  announce_service c sent d = publish c (namespace (service_announce ∷ [])) sent (wire_service d)

  unfoldable pub announce_gateway : Codec WireGateway → Bool → Announced P → Published
  unfolding wire_gateway namespace
  announce_gateway c sent d = publish c (namespace (gateway_announce ∷ [])) sent (wire_gateway d)

unfoldable pub closed_socket :
    Codec SocketClosedEnvelope → Bool → String → Status → String → Published
unfolding namespace
closed_socket c sent socket_id status reason =
    publish c (namespace (socket_text ∷ closed_text ∷ [])) sent
      (record { socket_id = socket_id; status = status; reason = reason })

module _ {P : Type 0} (parse : String → Option P) where
  unfoldable pub new_route_descriptor : String → Option (RouteDescriptor P)
  new_route_descriptor text = elim (parse text) [
    | none ↦ none
    | some pattern ↦ some (record { pattern = pattern })
  ]

  -- UnmarshalMsgpack of each route: one that fails fails the whole.
  abbrev pub prepend : {A : Type 0} → Option A → Option (List A) → Option (List A)
  prepend none rest = none
  prepend (some a) none = none
  prepend (some a) (some rest) = some (a ∷ rest)

  unfoldable pub unmarshal_routes : List String → Option (List (RouteDescriptor P))
  unfolding new_route_descriptor
  unmarshal_routes [] = some []
  unmarshal_routes (text ∷ texts) = prepend (new_route_descriptor text) (unmarshal_routes texts)

  unfoldable pub read_service : WireService → Option (ServiceDescriptor P)
  unfolding unmarshal_routes
  read_service w = elim (unmarshal_routes w.route_descriptors) [
    | none ↦ none
    | some routes ↦ some (record {
      name = w.name;
      id = w.id;
      gateway_names = w.gateway_names;
      route_descriptors = routes;
      last_seen_at = none;
      socket_ids = [];
    })
  ]

  unfoldable pub read_services : List WireService → Option (List (ServiceDescriptor P))
  unfolding read_service
  read_services [] = some []
  read_services (w ∷ ws) = prepend (read_service w) (read_services ws)

  -- The callback of SubscribeServiceAnnouncements: what the handler is called with, if it is called.
  unfoldable pub on_service_announcement : Codec WireService → Bytes → Option (ServiceDescriptor P)
  unfolding read_service
  on_service_announcement c bytes = elim (c.unmarshal bytes) [
    | none ↦ none
    | some w ↦ read_service w
  ]

  abbrev pub read_gateway : WireGateway → Option (Announced P)
  unfolding read_services
  read_gateway w = elim (read_services w.service_descriptors) [
    | none ↦ none
    | some services ↦ some (record { name = w.name; service_descriptors = services })
  ]

  unfoldable pub on_gateway_announcement : Codec WireGateway → Bytes → Option (Announced P)
  unfolding read_services
  on_gateway_announcement c bytes = elim (c.unmarshal bytes) [
    | none ↦ none
    | some w ↦ read_gateway w
  ]

unfoldable pub on_socket_closed : Codec SocketClosedEnvelope → Bytes → Option SocketClosedEnvelope
on_socket_closed c bytes = c.unmarshal bytes

-- The subjects that the subscriptions are to.
unfoldable pub gateway_announcements_subject : Option (List ℕ)
unfolding namespace
gateway_announcements_subject = namespace (gateway_announce ∷ [])

unfoldable pub service_announcements_subject : Option (List ℕ)
unfolding namespace
service_announcements_subject = namespace (service_announce ∷ [])

unfoldable pub socket_closures_subject : Option (List ℕ)
unfolding namespace
socket_closures_subject = namespace (socket_text ∷ closed_text ∷ [])
