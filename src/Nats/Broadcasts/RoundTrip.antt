-- ===== src/Nats/Broadcasts/RoundTrip.antt =====
-- What is announced over NATS is what the subscribers' handlers are called with.
use eurus.Prelude.{
  ℕ, ◌++◌, ◌≢◌, String, List, [], ◌∷◌, Option, none, some, true, false, ◌≡◌, refl, arith, map,
}
use eurus.Descriptor.{RouteDescriptor, ServiceDescriptor}
use eurus.Gateway.{Status}
use eurus.Nats.Codec.{Codec, Keeps}
use eurus.Nats.Broadcasts.{
  WireService, WireGateway, Announced, SocketClosedEnvelope, marshal_route, wire_service,
  wire_gateway, announce_service, announce_gateway, closed_socket, new_route_descriptor,
  unmarshal_routes, read_service, read_services, on_service_announcement, on_gateway_announcement,
  on_socket_closed, gateway_announce, service_announce, socket_text, closed_text, publish_failed,
  gateway_announcements_subject, service_announcements_subject, socket_closures_subject,
}
use eurus.Nats.Subjects.{
  nats_subject_namespace, namespace, join_from, format_for_namespace, format_from,
}

module _ {P : Type 0} (to_text : P → String) (parse : String → Option P) where
  -- The texts of these patterns are parsed to them.
  abbrev pub AreKept : List (RouteDescriptor P) → Type 0
  AreKept [] = Unit
  AreKept (r ∷ rs) = (parse (to_text r.pattern) ≡ some r.pattern) × AreKept rs

  abbrev pub AllKept : List (ServiceDescriptor P) → Type 0
  AllKept [] = Unit
  AllKept (d ∷ ds) = AreKept d.route_descriptors × AllKept ds

  -- A descriptor as it arrives: never seen, and with no sockets.
  abbrev pub as_new : ServiceDescriptor P → ServiceDescriptor P
  as_new d = record d { last_seen_at = none; socket_ids = [] }

  unmarshal_routes-map :
      (rs : List (RouteDescriptor P))
      → AreKept rs
      → unmarshal_routes parse (map (marshal_route to_text) rs) ≡ some rs
  unfolding unmarshal_routes new_route_descriptor marshal_route
  unmarshal_routes-map [] kept = refl
  unmarshal_routes-map (r ∷ rs) kept = ground (arith, kept.0, unmarshal_routes-map rs kept.1)

  read_service-wire :
      (d : ServiceDescriptor P)
      → AreKept d.route_descriptors
      → read_service parse (wire_service to_text d) ≡ some (as_new d)
  unfolding read_service wire_service
  read_service-wire d kept = ground (arith, unmarshal_routes-map d.route_descriptors kept)

  read_services-map :
      (ds : List (ServiceDescriptor P))
      → AllKept ds
      → read_services parse (map (wire_service to_text) ds) ≡ some (map as_new ds)
  unfolding read_services
  read_services-map [] kept = refl
  read_services-map (d ∷ ds) kept =
      ground (arith, read_service-wire d kept.0, read_services-map ds kept.1)

  -- If the codec keeps the announcement, the patterns are parsed back and NATS accepts the message,
  -- the handler of a subscriber is called with the descriptor that was announced, with no time and
  -- no sockets.
  pub announce_service_arrives :
      (c : Codec WireService) (d : ServiceDescriptor P) (k : Keeps c (wire_service to_text d))
      → AreKept d.route_descriptors
      → (subject : List ℕ) × (announce_service to_text c true d ≡ (some (subject, k.bytes), none))
        × (service_announcements_subject ≡ some subject)
        × (on_service_announcement parse c k.bytes ≡ some (as_new d))
  unfolding announce_service on_service_announcement namespace join_from format_for_namespace
      format_from service_announcements_subject
  announce_service_arrives c d k kept = (
    nats_subject_namespace ++ 46 ∷ service_announce,
    ground (arith, k.marshals),
    refl,
    ground (arith, k.unmarshals, read_service-wire d kept),
  )

  -- If the codec keeps the announcement and the patterns of the routes are parsed back from their
  -- texts, then AnnounceGateway, if NATS accepts what it publishes, returns no error; what it
  -- publishes is on the subject that SubscribeGatewayAnnouncements subscribes to, and not on those
  -- of service announcements and socket closures; and the handler of a subscriber is called with
  -- the same descriptor, the services in it with no time and no sockets. If NATS does not accept
  -- it, AnnounceGateway returns that error.
  pub announce_gateway_arrives :
      (c : Codec WireGateway) (d : Announced P) (k : Keeps c (wire_gateway to_text d))
      → AllKept d.service_descriptors
      → (subject : List ℕ) × (announce_gateway to_text c true d ≡ (some (subject, k.bytes), none))
        × (gateway_announcements_subject ≡ some subject)
        × (service_announcements_subject ≢ some subject)
        × (socket_closures_subject ≢ some subject)
        × (on_gateway_announcement parse c k.bytes
            ≡ some (record d { service_descriptors = map as_new d.service_descriptors }))
        × (announce_gateway to_text c false d ≡ (none, some publish_failed))
  unfolding announce_gateway on_gateway_announcement wire_gateway namespace join_from
      format_for_namespace format_from gateway_announcements_subject service_announcements_subject
      socket_closures_subject
  announce_gateway_arrives c d k kept = (
    nats_subject_namespace ++ 46 ∷ gateway_announce,
    ground (arith, k.marshals),
    refl,
    (λ same. ground (arith, same)),
    (λ same. ground (arith, same)),
    ground (arith, k.unmarshals, read_services-map d.service_descriptors kept),
    ground (arith, k.marshals),
  )

-- If the codec keeps the envelope and NATS accepts the message, a closing that is broadcast arrives
-- with its status and reason.
pub closed_socket_arrives :
    (c : Codec SocketClosedEnvelope) (socket_id : String) (status : Status) (reason : String)
    (k : Keeps c (record { socket_id = socket_id; status = status; reason = reason }))
    → (subject : List ℕ) × (closed_socket c true socket_id status reason
        ≡ (some (subject, k.bytes), none))
      × (socket_closures_subject ≡ some subject)
      × (on_socket_closed c k.bytes
          ≡ some (record { socket_id = socket_id; status = status; reason = reason }))
unfolding closed_socket on_socket_closed namespace join_from format_for_namespace format_from
    socket_closures_subject
closed_socket_arrives c socket_id status reason k = (
  nats_subject_namespace ++ 46 ∷ (socket_text ++ 46 ∷ closed_text),
  ground (arith, k.marshals),
  refl,
  ground (arith, k.unmarshals),
)
