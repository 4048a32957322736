-- ===== src/Indexer/Groups.antt =====
-- SocketIDsByServiceInstance: the mappings, turned round.
use eurus.Prelude.{
  String, List, [], ◌∷◌, ◌++◌, none, some, ◌≡◌, arith, ◌==◌, ◌&&◌, ◌||◌, not, ◌∙◌, string_eq,
  if◌then◌else◌, contains, contains-append, Map, lookup, Distinct, lookup-insert,
}
use text.Mathlib.TextEquality.{eq_iff}
use eurus.Indexer.{State, has_value}
use eurus.Indexer.Sockets.{add_to, group_services, group_sockets, socket_ids_by_service_instance}
use eurus.Indexer.Affected.{names}

-- The sockets that the result lists for an instance.
abbrev pub list_at : String → Map String (List String) → List String
list_at id m = elim (lookup id m) [ none ↦ [] | some l ↦ l ]

list_at-add_to :
    (id socket i : String) (m : Map String (List String))
    → list_at i (add_to id socket m) ≡ (if id == i then list_at i m ++ socket ∷ [] else list_at i m)
list_at-add_to id socket i m =
    ground (arith, eq_iff id i, lookup-insert id i (list_at id m ++ socket ∷ []) m)

contains-group_services :
    (socket k i : String) (services : Map String String) (m : Map String (List String))
    → contains k (list_at i (group_services socket services m))
      ≡ (contains k (list_at i m) || (socket == k && has_value i services))
contains-group_services socket k i [] m = ground arith
contains-group_services socket k i ((n, id) ∷ services) m =
    contains-group_services socket k i services (add_to id socket m)
    ∙ ground (arith, list_at-add_to id socket i m, contains-append k (list_at i m) (socket ∷ []))

contains-group_sockets :
    (k i : String) (sockets : Map String (Map String String)) (m : Map String (List String))
    → Distinct sockets
    → contains k (list_at i (group_sockets sockets m))
      ≡ (contains k (list_at i m) || names i k sockets)
contains-group_sockets k i [] m d = ground arith
contains-group_sockets k i ((j, services) ∷ sockets) m d =
    contains-group_sockets k i sockets (group_services j services m) d.1
    ∙ ground (arith, contains-group_services j k i services m, eq_iff j k, d.0)

-- If the table of mappings holds each socket once, an open indexer lists a socket for an instance
-- exactly when a service of the socket is mapped to the instance; a closed one lists nothing.
pub socket_ids_by_service_instance_lem :
    {P : Type 0} (k i : String) (s : State P)
    → Distinct s.socket_to_instance
    → contains k (list_at i (socket_ids_by_service_instance s))
      ≡ (not s.closed && names i k s.socket_to_instance)
unfolding socket_ids_by_service_instance
socket_ids_by_service_instance_lem k i s d =
    ground (arith, contains-group_sockets k i s.socket_to_instance [] d)
