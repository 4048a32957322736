-- ===== src/Upkeep.antt =====
-- A service that runs keeps its place in the indexer of a gateway: announceLoop and pruneLoop of
-- gateway.go, handleGatewayAnnounce of service.go and gateway-service-indexer.go together. The indexer
-- prunes what it has not seen for five intervals, and announces what it has seen within three. An
-- announcement that is lost changes nothing.
pub mod Fresh
pub mod Registered
mod Tests
use eurus.Prelude.{ℕ, ◌+◌, ◌*◌, ◌≤◌, String, List, [], ◌∷◌, Bool, true, false, ◌≡◌, ◌≢◌}
use eurus.Descriptor.{Ref}
use eurus.Indexer.{State, set_service_descriptor, unset_service, prune_stale_services}
use eurus.Indexer.Sockets.{map_socket, unmap_socket}
use eurus.Indexer.Announce.{IsAnnounceable}
use eurus.Service.{Service, do_announce, handle_gateway_announce}
use eurus.Service.Announce.{announcement}

-- `announced_at` is the time of the last announcement of the gateway that the service has dealt with.
pub record Watch (P : Type 0) : Type 0 where
  pub indexer : State P
  pub announced_at : ℕ

module _ {P I M : Type 0} (gateway_name : String) (interval : ℕ) (service : Service P I M) where
  -- The pointer leads to a descriptor of the service.
  pub record IsOf (s : State P) (p : Ref) : Type 0 where
    pub name : (s.heap p).name ≡ service.name
    pub id : (s.heap p).id ≡ service.id
    pub announceable : IsAnnounceable s p

  pub data Step (w : Watch P) : Watch P → Type 0 where
    -- A tick of announceLoop, after which the service says nothing.
    heard :
        (now : ℕ)
        → handle_gateway_announce w.indexer.heap
            (announcement gateway_name (3 * interval) now w.indexer)
            service
          ≡ service
        → Step w (record w { announced_at = now })
    -- A tick after which the service announces itself, and the gateway has that at a later time.
    answered :
        (now later : ℕ) (p : Ref)
        → handle_gateway_announce w.indexer.heap
            (announcement gateway_name (3 * interval) now w.indexer)
            service
          ≡ do_announce service
        → now ≤ later
        → IsOf w.indexer p
        → Step w (record { indexer = set_service_descriptor later p w.indexer; announced_at = now })
    -- A tick of pruneLoop, within two intervals of the last announcement. The sockets that it closes are
    -- unmapped in steps of their own.
    pruned :
        (now : ℕ)
        → now ≤ w.announced_at + 2 * interval
        → Step w (record w { indexer = (prune_stale_services (5 * interval) now w.indexer).0 })
    -- What other services and the sockets do.
    announced :
        (now : ℕ) (p : Ref)
        → IsAnnounceable w.indexer p
        → (w.indexer.heap p).id ≢ service.id
        → Step w (record w { indexer = set_service_descriptor now p w.indexer })
    unset :
        (id : String) → id ≢ service.id → Step w (record w { indexer = unset_service id w.indexer })
    mapped :
        (name socket : String)
        → Step w (record w { indexer = (map_socket name socket w.indexer).0 })
    unmapped : (socket : String) → Step w (record w { indexer = unmap_socket socket w.indexer })

  pub data Reach (w : Watch P) : Watch P → Type 0 where
    here : Reach w w
    next : {u v : Watch P} → Reach w u → Step u v → Reach w v
