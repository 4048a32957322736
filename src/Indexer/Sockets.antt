-- ===== src/Indexer/Sockets.antt =====
-- gateway-service-indexer.go, MapSocket to UnmapSocket: which instance a socket is pinned to.
use eurus.Prelude.{
  String, List, [], ◌∷◌, ◌++◌, Option, none, some, Bool, true, false, length, ltb, string_eq,
  if◌then◌else◌, erase, is_empty, Map, lookup, insert, delete,
}
use eurus.Descriptor.{ServiceDescriptor, Ref, Heap, store}
use eurus.Indexer.{State, slice_at, find_id}

pub data Error : Type 0 where
  no_reachable_instances : String → Error

-- The instance that `services[serviceName]` of a socket names, if any.
abbrev pub pin : String → String → Map String (Map String String) → Option String
pin service_name socket_id m = elim (lookup socket_id m) [
  | none ↦ none
  | some services ↦ lookup service_name services
]

-- r.socketToInstance[socketID][serviceName] = id, with a new inner map where there is none.
abbrev pub add_pin :
    String → String → String → Map String (Map String String) → Map String (Map String String)
add_pin service_name socket_id id m =
    insert socket_id
      (insert service_name id (elim (lookup socket_id m) [ none ↦ [] | some services ↦ services ]))
      m

module _ {P : Type 0} where
  -- The loop that looks for the instance with the fewest sockets.
  abbrev pub better : Heap P → Option Ref → Ref → Ref
  better h none p = p
  better h (some target) p =
      if ltb (length (h p).socket_ids) (length (h target).socket_ids) then p else target

  abbrev pub least : Heap P → Option Ref → List Ref → Option Ref
  least h target [] = target
  least h target (p ∷ ps) = least h (some (better h target p)) ps

  -- targetInstance.socketIDs = append(targetInstance.socketIDs, socketID)
  abbrev pub add_socket : String → ServiceDescriptor P → ServiceDescriptor P
  add_socket socket_id d = record d { socket_ids = d.socket_ids ++ socket_id ∷ [] }

  -- The state, the instance's id, whether the mapping is new, and the error.
  unfoldable pub map_socket : String → String → State P → State P × String × Bool × Option Error
  map_socket service_name socket_id s =
      if s.closed
      then (s, "", false, none)
      else elim (pin service_name socket_id s.socket_to_instance) [
        | some id ↦ (s, id, false, none)
        | none ↦
            let instances = slice_at service_name s.services_by_name in
            if is_empty instances
            then (s, "", false, none)
            else elim (least s.heap none instances) [
              | none ↦ (s, "", false, some (no_reachable_instances service_name))
              | some target ↦ (
                record s {
                  heap = store s.heap target (add_socket socket_id (s.heap target));
                  indexer = record s.indexer {
                    socket_to_instance =
                        add_pin service_name socket_id (s.heap target).id s.socket_to_instance;
                  };
                },
                (s.heap target).id,
                true,
                none,
              )
            ]
      ]

  -- The inner loop of UnmapSocket: the first instance of the service with the id.
  abbrev pub remove_socket : String → String → List Ref → Heap P → Heap P
  remove_socket socket_id id instances h = elim (find_id h id instances) [
    | none ↦ h
    | some p ↦ store h p (record (h p) { socket_ids = erase socket_id (h p).socket_ids })
  ]

  abbrev pub remove_everywhere :
      String → Map String (List Ref) → Map String String → Heap P → Heap P
  remove_everywhere socket_id by_name [] h = h
  remove_everywhere socket_id by_name ((name, id) ∷ services) h =
      remove_everywhere socket_id by_name services
        (remove_socket socket_id id (slice_at name by_name) h)

  unfoldable pub unmap_socket : String → State P → State P
  unmap_socket socket_id s = if s.closed then s else elim (lookup socket_id s.socket_to_instance) [
    | none ↦ s
    | some services ↦ record s {
      heap = remove_everywhere socket_id s.services_by_name services s.heap;
      indexer = record s.indexer { socket_to_instance = delete socket_id s.socket_to_instance };
    }
  ]

-- result[instanceID] = append(result[instanceID], socketID)
abbrev pub add_to : String → String → Map String (List String) → Map String (List String)
add_to id socket_id m =
    insert id (elim (lookup id m) [ none ↦ [] | some l ↦ l ] ++ socket_id ∷ []) m

abbrev pub group_services :
    String → Map String String → Map String (List String) → Map String (List String)
group_services socket_id [] m = m
group_services socket_id ((name, id) ∷ services) m =
    group_services socket_id services (add_to id socket_id m)

abbrev pub group_sockets :
    Map String (Map String String) → Map String (List String) → Map String (List String)
group_sockets [] m = m
group_sockets ((socket_id, services) ∷ rest) m =
    group_sockets rest (group_services socket_id services m)

unfoldable pub socket_ids_by_service_instance : {P : Type 0} → State P → Map String (List String)
socket_ids_by_service_instance s = if s.closed then [] else group_sockets s.socket_to_instance []
