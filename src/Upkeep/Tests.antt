-- ===== src/Upkeep/Tests.antt =====
-- A service and the indexer of a gateway over some intervals of four units.
use eurus.Prelude.{ℕ, String, [], ◌∷◌, none, string_eq}
use eurus.Descriptor.{Heap}
use eurus.Indexer.{
  State, new, set_service_descriptor, fresh_service_descriptors, prune_stale_services, unset_all,
}
use eurus.Indexer.Histories.{start, here as no_calls}
use eurus.Service.{Service, do_announce, handle_gateway_announce}
use eurus.Upkeep.{Watch, here}

program : Unit {0}
unfolding start new set_service_descriptor fresh_service_descriptors prune_stale_services unset_all
    do_announce handle_gateway_announce
program = tt

abbrev service : Service String ℕ ℕ
service = record {
  gateway_names = "edge" ∷ [];
  name = "chat";
  id = "a1";
  route_descriptors = none;
  provided = none;
  closed_socket_ttl = 20;
  connections = [];
  closed_sockets = [];
  next_handle = 0;
  calls = [];
}

abbrev memory : Heap String
memory p = record {
  name = "chat";
  id = "a1";
  gateway_names = "edge" ∷ [];
  route_descriptors = [];
  last_seen_at = none;
  socket_ids = [];
}

abbrev unknown : State String
unknown = start memory

abbrev known : State String
known = set_service_descriptor 10 0 unknown

abbrev begun : Watch String
begun = record { indexer = known; announced_at = 10 }

-- A tick at 20 finds the instance fresh; one at 40 does not, and the service answers by 45.
abbrev refreshed : State String
refreshed = (prune_stale_services 20 27 known).0

abbrev later : State String
later = set_service_descriptor 45 0 refreshed

abbrev ended : Watch String
ended = record { indexer = (prune_stale_services 20 48 later).0; announced_at = 40 }
