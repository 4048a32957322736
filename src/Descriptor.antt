-- ===== src/Descriptor.antt =====
-- service-descriptor.go, route-descriptor.go and gateway-descriptor.go. A `velaros.Pattern` is not
-- code of this repository: its type is the parameter `P`. A pointer to a descriptor is a `Ref`, and
-- a heap tells what each pointer points to. Times are nanoseconds.
use eurus.Prelude.{ℕ, String, List, Option, ◌==◌, nat_eq, if◌then◌else◌}

pub record RouteDescriptor (P : Type 0) : Type 0 where
  pub pattern : P

pub record ServiceDescriptor (P : Type 0) : Type 0 where
  pub name : String
  pub id : String
  pub gateway_names : List String
  pub route_descriptors : List (RouteDescriptor P)
  pub last_seen_at : Option ℕ
  pub socket_ids : List String

abbrev pub Ref : Type 0
Ref = ℕ

pub record GatewayDescriptor : Type 0 where
  pub name : String
  pub service_descriptors : List Ref

abbrev pub Heap : Type 0 → Type 0
Heap P = Ref → ServiceDescriptor P

-- *p = d
abbrev pub store : {P : Type 0} → Heap P → Ref → ServiceDescriptor P → Heap P
store h p d q = if p == q then d else h q
