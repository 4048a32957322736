-- ===== src/Upkeep/Registered.antt =====
-- A service that answers the announcements of a gateway is not pruned from its indexer.
use eurus.Prelude.{ℕ, ◌+◌, ◌*◌, ◌≤◌, String, Option, some, false, ◌≡◌, string_eq, nat_eq}
use eurus.Indexer.Valid.{IsValid}
use eurus.Indexer.Histories as Histories
use eurus.Indexer.Spec.{Entry, Registry}
use eurus.Indexer.Views.{entry_at}
use eurus.Service.{Service}
use eurus.Upkeep.{Watch}

module _ {P I M : Type 0} (gateway_name : String) (interval : ℕ) (service : Service P I M) where
  -- The service has an entry, seen no more than three intervals before the last announcement.
  pub record IsKept (w : Watch P) : Type 0 where
    pub valid : IsValid w.indexer
    pub opened : w.indexer.closed ≡ false
    pub entry : Entry P
    pub seen : ℕ
    pub known : entry_at w.indexer service.name service.id ≡ some entry
    pub seen_at : entry.seen ≡ some seen
    pub lately : w.announced_at ≤ seen + 3 * interval

  module _ (w : Watch P) (i : IsKept w) where
    abbrev at : Registry P → Option (Entry P)
    at r = r.entries service.name service.id
