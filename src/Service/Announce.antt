-- ===== src/Service/Announce.antt =====
-- handleGatewayAnnounce of service.go against the announcements of a gateway: registration settles.
use eurus.Prelude.{ℕ, String, nat_eq, string_eq}
use eurus.Descriptor.{Ref, GatewayDescriptor}
use eurus.Indexer.{State, set_service_descriptor, fresh_service_descriptors}
use eurus.Service.{Service}

-- What a gateway announces.
abbrev pub announcement : {P : Type 0} → String → ℕ → ℕ → State P → GatewayDescriptor
announcement name threshold now t = record {
  name = name;
  service_descriptors = fresh_service_descriptors threshold now t;
}

module _ {P I M : Type 0} (name : String) (threshold now later : ℕ) (p : Ref) (t : State P)
    (s : Service P I M) where
  abbrev after : State P
  after = set_service_descriptor now p t
