-- ===== src/Indexer.antt =====
-- gateway-service-indexer.go. Each method takes the state before it and returns the state after it;
-- the mutex makes a method one step. The clock's reading is an argument.
pub mod Sockets
pub mod Instances
pub mod Tables
pub mod Valid
pub mod Unset
pub mod Registered
pub mod Announce
pub mod Least
pub mod Pinning
pub mod Balance
pub mod Unmap
pub mod Affected
pub mod Prune
pub mod Resolve
pub mod Histories
pub mod Groups
pub mod Spec
pub mod Views
pub mod Refines
pub mod Silence
mod Tests
use eurus.Prelude.{
  ℕ, ◌-◌, String, List, [], ◌∷◌, ◌++◌, Option, none, some, Bool, true, false, ltb, leb, ◌==◌,
  string_eq, if◌then◌else◌, contains, is_empty, Map, lookup, insert, delete,
}
use eurus.Descriptor.{RouteDescriptor, ServiceDescriptor, Ref, Heap, store}

pub record GatewayServiceIndexer : Type 0 where
  pub closed : Bool
  pub descriptors : List Ref
  pub services_by_name : Map String (List Ref)
  pub socket_to_instance : Map String (Map String String)

-- The indexer together with the memory that its pointers lead to.
pub record State (P : Type 0) : Type 0 where
  pub heap : Heap P
  pub indexer : GatewayServiceIndexer
  pub open indexer use *

unfoldable pub new : GatewayServiceIndexer
new = record { closed = false; descriptors = []; services_by_name = []; socket_to_instance = [] }

-- m[k] of a map of slices: a missing key reads as the empty slice.
abbrev pub slice_at : String → Map String (List Ref) → List Ref
slice_at k m = elim (lookup k m) [ none ↦ [] | some ps ↦ ps ]

module _ {P : Type 0} where
  unfoldable pub close : State P → State P
  close s = record s {
    indexer = record {
      closed = true;
      descriptors = [];
      services_by_name = [];
      socket_to_instance = [];
    };
  }

  abbrev pub is_closed : State P → Bool
  is_closed s = s.closed

  -- The first instance of a slice that has the id.
  abbrev pub find_id : Heap P → String → List Ref → Option Ref
  find_id h id [] = none
  find_id h id (p ∷ ps) = if (h p).id == id then some p else find_id h id ps

  -- slices.IndexFunc by id and slices.Delete at the index found.
  abbrev pub delete_id : Heap P → String → List Ref → List Ref
  delete_id h id [] = []
  delete_id h id (p ∷ ps) = if (h p).id == id then ps else p ∷ delete_id h id ps

  unfoldable pub set_service_descriptor : ℕ → Ref → State P → State P
  set_service_descriptor now p s =
      if s.closed
      then s
      else (let descriptor = s.heap p in
          let instances = slice_at descriptor.name s.services_by_name in
          elim (find_id s.heap descriptor.id instances) [
            | some existing ↦ record s {
              heap = store s.heap existing (record (s.heap existing) {
                route_descriptors = descriptor.route_descriptors;
                last_seen_at = some now;
              });
            }
            | none ↦ record s {
              heap = store s.heap p (record descriptor { last_seen_at = some now });
              indexer = record s.indexer {
                services_by_name = insert descriptor.name (instances ++ p ∷ []) s.services_by_name;
                descriptors = s.descriptors ++ p ∷ [];
              };
            }
          ])

  -- The first service, in the order of `range`, with an instance of that id; "" if there is none.
  abbrev pub owner : Heap P → String → Map String (List Ref) → String
  owner h id [] = ""
  owner h id ((name, ps) ∷ m) = elim (find_id h id ps) [ none ↦ owner h id m | some _ ↦ name ]

  -- The loop over `servicesByName`, with its `break`.
  abbrev pub drop_instance : Heap P → String → Map String (List Ref) → Map String (List Ref)
  drop_instance h id [] = []
  drop_instance h id ((name, ps) ∷ m) = elim (find_id h id ps) [
    | none ↦ (name, ps) ∷ drop_instance h id m
    | some _ ↦ let left = delete_id h id ps in if is_empty left then m else (name, left) ∷ m
  ]

-- services[serviceName] == instanceID
abbrev pub is_mapped : String → String → Map String String → Bool
is_mapped name id services = elim (lookup name services) [ none ↦ false | some i ↦ i == id ]

-- The loop over `socketToInstance` of unsetServiceLocked.
abbrev pub forget_instance :
    String → String → Map String (Map String String) → Map String (Map String String)
forget_instance name id [] = []
forget_instance name id ((socket_id, services) ∷ m) =
    let rest = forget_instance name id m in
    if is_mapped name id services
    then (let left = delete name services in
        if is_empty left then rest else (socket_id, left) ∷ rest)
    else (socket_id, services) ∷ rest

module _ {P : Type 0} where
  unfoldable pub unset_service : String → State P → State P
  unset_service id s =
      if s.closed
      then s
      else (let service_name = owner s.heap id s.services_by_name in
          record s {
            indexer = record s.indexer {
              services_by_name = drop_instance s.heap id s.services_by_name;
              descriptors = delete_id s.heap id s.descriptors;
              socket_to_instance =
                  if service_name == ""
                  then s.socket_to_instance
                  else forget_instance service_name id s.socket_to_instance;
            };
          })

  unfoldable pub service_descriptors : State P → List Ref
  service_descriptors s = if s.closed then [] else s.descriptors

  -- d.LastSeenAt != nil && now.Sub(*d.LastSeenAt) <= threshold
  abbrev pub is_fresh : ℕ → ℕ → ServiceDescriptor P → Bool
  is_fresh threshold now d = elim d.last_seen_at [
    | none ↦ false
    | some seen ↦ leb (now - seen) threshold
  ]

  -- d.LastSeenAt == nil || now.Sub(*d.LastSeenAt) > threshold
  abbrev pub is_stale : ℕ → ℕ → ServiceDescriptor P → Bool
  is_stale threshold now d = elim d.last_seen_at [
    | none ↦ true
    | some seen ↦ ltb threshold (now - seen)
  ]

  abbrev pub fresh_of : ℕ → ℕ → Heap P → List Ref → List Ref
  fresh_of threshold now h [] = []
  fresh_of threshold now h (p ∷ ps) =
      let rest = fresh_of threshold now h ps in
      if is_fresh threshold now (h p) then p ∷ rest else rest

  unfoldable pub fresh_service_descriptors : ℕ → ℕ → State P → List Ref
  fresh_service_descriptors threshold now s =
      if s.closed then [] else fresh_of threshold now s.heap s.descriptors

  abbrev pub stale_ids : ℕ → ℕ → Heap P → List Ref → List String
  stale_ids threshold now h [] = []
  stale_ids threshold now h (p ∷ ps) =
      let rest = stale_ids threshold now h ps in
      if is_stale threshold now (h p) then (h p).id ∷ rest else rest

-- One of the services of a socket is mapped to the instance.
abbrev pub has_value : String → Map String String → Bool
has_value id [] = false
has_value id ((name, i) ∷ m) = if i == id then true else has_value id m

-- The sockets found so far are both `seen` and `affectedSocketIDs`: the loop adds to them together.
abbrev pub affected_by : String → Map String (Map String String) → List String → List String
affected_by stale_id [] found = found
affected_by stale_id ((socket_id, services) ∷ m) found = affected_by stale_id m (
    if has_value stale_id services
    then if contains socket_id found then found else found ++ socket_id ∷ []
    else found)

abbrev pub affected : List String → Map String (Map String String) → List String → List String
affected [] m found = found
affected (stale_id ∷ ids) m found = affected ids m (affected_by stale_id m found)

module _ {P : Type 0} where
  unfoldable pub unset_all : List String → State P → State P
  unset_all [] s = s
  unset_all (id ∷ ids) s = unset_all ids (unset_service id s)

  -- The new state, the stale ids, and the sockets that were mapped to them.
  unfoldable pub prune_stale_services : ℕ → ℕ → State P → State P × List String × List String
  prune_stale_services threshold now s =
      if s.closed
      then (s, [], [])
      else (let stale = stale_ids threshold now s.heap s.descriptors in
          (unset_all stale s, stale, affected stale s.socket_to_instance []))

  module _ (matches : P → String → Bool) where
    abbrev pub routes_match : String → List (RouteDescriptor P) → Bool
    routes_match path [] = false
    routes_match path (r ∷ rs) = if matches r.pattern path then true else routes_match path rs

    abbrev pub instances_match : String → Heap P → List Ref → Bool
    instances_match path h [] = false
    instances_match path h (p ∷ ps) =
        if routes_match path (h p).route_descriptors then true else instances_match path h ps

    abbrev pub resolve_in : String → Heap P → Map String (List Ref) → String × Bool
    resolve_in path h [] = ("", false)
    resolve_in path h ((name, ps) ∷ m) =
        if instances_match path h ps then (name, true) else resolve_in path h m

    unfoldable pub resolve_service : String → State P → String × Bool
    resolve_service path s =
        if s.closed then ("", false) else resolve_in path s.heap s.services_by_name
