-- ===== src/Indexer/Valid.antt =====
-- What the tables of an open GatewayServiceIndexer say together.
use eurus.Prelude.{
  String, List, some, true, ◌≡◌, arith, nat_eq, string_eq, contains, NoDup, Distinct,
}
use eurus.Descriptor.{Ref}
use eurus.Indexer.{State, slice_at, find_id}
use eurus.Indexer.Sockets.{pin}
use eurus.Indexer.Instances.{DistinctIds, find_id_sound, find_id_self}

-- `descriptors` and `servicesByName` hold the same instances, each under its own name; an id
-- belongs to one instance.
pub record IsIndexed {P : Type 0} (s : State P) : Type 0 where
  pub names : Distinct s.services_by_name
  pub ids : DistinctIds s.heap s.descriptors
  pub ids_by_name : (n : String) → DistinctIds s.heap (slice_at n s.services_by_name)
  pub named :
      (n : String) (p : Ref)
      → contains p (slice_at n s.services_by_name) ≡ true
      → (s.heap p).name ≡ n
  pub indexed :
      (p : Ref)
      → contains p s.descriptors ≡ contains p (slice_at (s.heap p).name s.services_by_name)
  pub no_empty_name : slice_at "" s.services_by_name ≡ List.[]

-- The sockets listed at an instance are those that are mapped to it, each listed once.
pub record IsPinned {P : Type 0} (s : State P) : Type 0 where
  pub sockets : Distinct s.socket_to_instance
  pub live :
      (n k i : String)
      → pin n k s.socket_to_instance ≡ some i
      → (p : Ref) × (find_id s.heap i (slice_at n s.services_by_name) ≡ some p)
        × (contains k (s.heap p).socket_ids ≡ true)
  pub assigned :
      (n k : String) (p : Ref)
      → contains p (slice_at n s.services_by_name) ≡ true
      → contains k (s.heap p).socket_ids ≡ true
      → pin n k s.socket_to_instance ≡ some (s.heap p).id
  pub once :
      (n : String) (p : Ref)
      → contains p (slice_at n s.services_by_name) ≡ true
      → NoDup (s.heap p).socket_ids

pub record IsValid {P : Type 0} (s : State P) : Type 0 where
  pub registry : IsIndexed s
  pub pins : IsPinned s

module _ {P : Type 0} (s : State P) (v : IsIndexed s) where
  -- An instance of a service is among the descriptors.
  pub listed :
      (n : String) (p : Ref)
      → contains p (slice_at n s.services_by_name) ≡ true
      → contains p s.descriptors ≡ true
  listed n p c = ground (arith, v.named n p c, v.indexed p)

  -- An id belongs to one service.
  pub one_service :
      (i n m : String) (p q : Ref)
      → find_id s.heap i (slice_at n s.services_by_name) ≡ some p
      → find_id s.heap i (slice_at m s.services_by_name) ≡ some q
      → n ≡ m
  one_service i n m p q e f = ground (
    arith,
    find_id_sound s.heap i (slice_at n s.services_by_name) p e,
    find_id_sound s.heap i (slice_at m s.services_by_name) q f,
    listed n p,
    listed m q,
    find_id_self s.heap s.descriptors p v.ids,
    find_id_self s.heap s.descriptors q v.ids,
    v.named n p,
    v.named m q,
  )
