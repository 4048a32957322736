-- ===== src/Nats/Tests.antt =====
-- Runs of the chunk protocol and of batched heartbeats, and the theorems at them.
use eurus.Prelude.{
  List, ◌≢◌, ℕ, String, [], ◌∷◌, some, Bool, true, false, ◌≡◌, refl, ◌==◌, nat_eq, if◌then◌else◌,
  arith, none,
}
use eurus.Gateway.{Gateway, new_gateway, handle_socket_heartbeats}
use eurus.Nats.Chunks.{stream_from, stream_chunks, receive_from, receive_chunks}
use eurus.Nats.Heartbeats.{heartbeat_from, heartbeat_sockets}
use eurus.Descriptor.{ServiceDescriptor}
use eurus.Nats.Codec.{Codec}
use eurus.Nats.Broadcasts.{
  WireGateway, Announced, wire_gateway, announce_gateway, on_gateway_announcement, publish_failed,
  gateway_announcements_subject, service_announcements_subject, socket_closures_subject,
}
use eurus.Nats.Broadcasts.RoundTrip.{announce_gateway_arrives}
use eurus.Nats.Subjects.{
  format_from, format_for_namespace, format_after, IsAllowed, join_from, namespace,
  format_for_namespace_ascii, format_for_namespace_panics,
}

program : Unit {0}
unfolding stream_from stream_chunks receive_from receive_chunks new_gateway handle_socket_heartbeats
    heartbeat_from heartbeat_sockets format_from format_for_namespace join_from namespace
program = tt

abbrev first_only : ℕ → Bool
first_only index = if index == 0 then true else false

abbrev gateway : Gateway String ℕ ℕ
gateway = record (new_gateway "edge" "g1" 4) { sockets = ("k1", 1) ∷ [] }

two_chunks :
    stream_chunks first_only (7 ∷ 8 ∷ [])
    ≡ some (
      record { index = 0; bytes = 7 ∷ 8 ∷ []; is_eof = false }
          ∷ record { index = 1; bytes = []; is_eof = true }
          ∷ [],
      false,
    )
unfolding program
two_chunks = refl

-- "aB_c" becomes "a-b-c".
formatted : format_for_namespace (97 ∷ 66 ∷ 95 ∷ 99 ∷ []) ≡ some (97 ∷ 45 ∷ 98 ∷ 45 ∷ 99 ∷ [])
unfolding program
formatted = refl

format_for_namespace_ascii_example :
    (format_for_namespace (97 ∷ 66 ∷ []) ≡ some (format_after 0 (97 ∷ 66 ∷ [])))
    × IsAllowed (format_after 0 (97 ∷ 66 ∷ []))
format_for_namespace_ascii_example =
    format_for_namespace_ascii (97 ∷ 66 ∷ []) (omega arith, (omega arith, tt))

format_for_namespace_panics_example : format_for_namespace (233 ∷ 233 ∷ 233 ∷ []) ≡ none
format_for_namespace_panics_example =
    format_for_namespace_panics 233 233 233 [] (omega arith, (omega arith, (omega arith, tt)))

-- Patterns are their own texts. The codec knows one announcement.
abbrev chat : ServiceDescriptor String
chat = record {
  name = "chat";
  id = "a1";
  gateway_names = [];
  route_descriptors = record { pattern = "/chat" } ∷ [];
  last_seen_at = some 5;
  socket_ids = "k1" ∷ [];
}

abbrev announcement : Announced String
announcement = record { name = "edge"; service_descriptors = chat ∷ [] }

abbrev one_gateway : Codec WireGateway
one_gateway = record {
  marshal = λ w. some (1 ∷ []);
  unmarshal = λ b. some (wire_gateway (λ p. p) announcement);
}

announce_gateway_arrives_example :
    (subject : List ℕ) × (announce_gateway (λ p. p) one_gateway true announcement
      ≡ (some (subject, 1 ∷ []), none))
    × (gateway_announcements_subject ≡ some subject)
    × (service_announcements_subject ≢ some subject)
    × (socket_closures_subject ≢ some subject)
    × (on_gateway_announcement (λ text. some text) one_gateway (1 ∷ [])
        ≡ some (record announcement {
          service_descriptors = record chat { last_seen_at = none; socket_ids = [] } ∷ [];
        }))
    × (announce_gateway (λ p. p) one_gateway false announcement ≡ (none, some publish_failed))
unfolding program
announce_gateway_arrives_example =
    announce_gateway_arrives (λ p. p) (λ text. some text) one_gateway announcement
      (record { bytes = 1 ∷ []; marshals = refl; unmarshals = refl }) ((refl, tt), tt)
