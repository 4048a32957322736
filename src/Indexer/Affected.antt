-- ===== src/Indexer/Affected.antt =====
-- The sockets that PruneStaleServices reports.
use eurus.Prelude.{
  String, List, [], ◌∷◌, ◌++◌, none, some, Bool, true, false, ◌≡◌, arith, inl, inr, Option-cases,
  ◌||◌, string_eq, if◌then◌else◌, contains, contains-append, NoDup, NoDup-snoc, Map, lookup,
  Distinct,
}
use text.Mathlib.TextEquality.{eq_iff}
use eurus.Indexer.{has_value, affected_by, affected}
use eurus.Indexer.Sockets.{pin}

-- The socket has a service that is mapped to the instance.
abbrev pub names : String → String → Map String (Map String String) → Bool
names id k m = elim (lookup k m) [ none ↦ false | some services ↦ has_value id services ]

abbrev pub names_any : List String → String → Map String (Map String String) → Bool
names_any [] k m = false
names_any (id ∷ ids) k m = if names id k m then true else names_any ids k m

contains-affected_by :
    (id k : String) (m : Map String (Map String String)) (found : List String)
    → Distinct m
    → contains k (affected_by id m found) ≡ (contains k found || names id k m)
contains-affected_by id k [] found d = ground arith
contains-affected_by id k ((j, services) ∷ m) found d = ground (
  arith,
  eq_iff j k,
  contains-append k found (j ∷ []),
  contains-affected_by id k m found d.1,
  contains-affected_by id k m (found ++ j ∷ []) d.1,
)

NoDup-affected_by :
    (id : String) (m : Map String (Map String String)) (found : List String)
    → NoDup found
    → NoDup (affected_by id m found)
NoDup-affected_by id [] found d = d
NoDup-affected_by id ((j, services) ∷ m) found d =
    NoDup-affected_by id m
      (if has_value id services then if contains j found then found else found ++ j ∷ [] else found)
      (ground (arith, d, NoDup-snoc j found d))

-- A socket is reported exactly when it is mapped to one of the instances.
pub contains-affected :
    (ids : List String) (k : String) (m : Map String (Map String String)) (found : List String)
    → Distinct m
    → contains k (affected ids m found) ≡ (contains k found || names_any ids k m)
contains-affected [] k m found d = ground arith
contains-affected (id ∷ ids) k m found d = ground (
  arith,
  contains-affected ids k m (affected_by id m found) d,
  contains-affected_by id k m found d,
)

pub NoDup-affected :
    (ids : List String) (m : Map String (Map String String)) (found : List String)
    → NoDup found
    → NoDup (affected ids m found)
NoDup-affected [] m found d = d
NoDup-affected (id ∷ ids) m found d =
    NoDup-affected ids m (affected_by id m found) (NoDup-affected_by id m found d)

has_value-lookup :
    (n i : String) (m : Map String String) → lookup n m ≡ some i → has_value i m ≡ true
has_value-lookup n i [] e = cc
has_value-lookup n i ((j, v) ∷ m) e = ground (arith, eq_iff i i, has_value-lookup n i m)

-- A mapping of a socket shows in `names_any`.
pub names_any-pin :
    (ids : List String) (n k i : String) (m : Map String (Map String String))
    → pin n k m ≡ some i
    → contains i ids ≡ true
    → names_any ids k m ≡ true
names_any-pin [] n k i m e c = cc
names_any-pin (id ∷ ids) n k i m e c = elim (Option-cases (lookup k m)) [
  | inl unmapped ↦ ground arith
  | inr (services, mapped) ↦
      ground
        (arith, mapped, eq_iff id i, has_value-lookup n i services, names_any-pin ids n k i m e)
]
