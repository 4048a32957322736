-- ===== src/Upkeep/Fresh.antt =====
-- What an announcement of a gateway lists was seen lately, and a service that is not listed speaks.
use eurus.Prelude.{
  ℕ, ◌+◌, ◌*◌, ◌≤◌, String, List, [], ◌∷◌, ◌++◌, some, true, false, ◌≡◌, ◌≢◌, inl, inr, arith, ap,
  sym, ◌∙◌, Option-cases, Bool-cases, ◌==◌, ◌&&◌, ◌||◌, string_eq, nat_eq, nat_eq_iff, not,
  contains, is_empty, length, length-append,
}
use text.Mathlib.TextEquality.{eq_iff}
use eurus.Descriptor.{Ref, Heap}
use eurus.Indexer.{State, slice_at, find_id, fresh_service_descriptors, is_stale}
use eurus.Indexer.Instances.{find_id_sound, find_id_self}
use eurus.Indexer.Valid.{IsValid, listed}
use eurus.Indexer.Prune.{fresh_service_descriptors_lem}
use eurus.Indexer.Spec.{Entry}
use eurus.Indexer.Views.{entry_at}
use eurus.Service.{Service, lists_id, do_announce, handle_gateway_announce}
use eurus.Service.Announce.{announcement}

append_grows : {A : Type 0} (x : A) (l : List A) → l ++ x ∷ [] ≢ l
append_grows x l e = omega (arith, length-append l (x ∷ []), ap length e)

module _ {P : Type 0} (h : Heap P) (id : String) where
  lists_id_sound :
      (ps : List Ref)
      → lists_id h id ps ≡ true
      → (q : Ref) × (contains q ps ≡ true) × ((h q).id ≡ id)
  lists_id_sound [] e = absurd (cc e)
  lists_id_sound (p ∷ ps) e = elim (Bool-cases ((h p).id == id)) [
    | inl same ↦ (p, ground (arith, nat_eq_iff p p), ground (arith, same, eq_iff (h p).id id))
    | inr other ↦
        let (q, c, same) = lists_id_sound ps (ground (arith, e, other)) in
        (q, ground (arith, c), same)
  ]

-- An entry that is announced was seen lately.
pub listed_is_fresh :
    {P : Type 0} (threshold now : ℕ) (n id : String) (e : Entry P) (s : State P)
    → IsValid s
    → entry_at s n id ≡ some e
    → lists_id s.heap id (fresh_service_descriptors threshold now s) ≡ true
    → (seen : ℕ) × (e.seen ≡ some seen) × (now ≤ seen + threshold)
listed_is_fresh threshold now n id e s v known announced_ =
    elim (Option-cases (find_id s.heap id (slice_at n s.services_by_name))) [
      | inl absent ↦ absurd (ground (arith, known, absent))
      | inr (p, found) ↦
          let (q, fresh, of) =
            lists_id_sound s.heap id (fresh_service_descriptors threshold now s) announced_ in
          let (c, of') = find_id_sound s.heap id (slice_at n s.services_by_name) p found in
          let (in_descriptors, lately) =
            fresh_cases q (fresh_service_descriptors_lem threshold now s q) fresh in
          let same = one_ref p q (listed s v.registry n p c) in_descriptors (of' ∙ sym of) in
          seen_lately p (ground (arith, known, found)) (rw same lately)
    ]
  where
    fresh_cases :
        (q : Ref)
        → contains q (fresh_service_descriptors threshold now s)
          ≡ (not s.closed && (contains q s.descriptors && not (is_stale threshold now (s.heap q))))
        → contains q (fresh_service_descriptors threshold now s) ≡ true
        → (contains q s.descriptors ≡ true) × (is_stale threshold now (s.heap q) ≡ false)
    fresh_cases q l fresh = (ground (arith, l, fresh), ground (arith, l, fresh))

    one_ref :
        (p q : Ref)
        → contains p s.descriptors ≡ true
        → contains q s.descriptors ≡ true
        → (s.heap p).id ≡ (s.heap q).id
        → p ≡ q
    one_ref p q in_p in_q same = ground (
      arith,
      find_id_self s.heap s.descriptors p v.registry.ids in_p,
      find_id_self s.heap s.descriptors q v.registry.ids in_q,
      same,
    )

    seen_lately :
        (p : Ref)
        → e.seen ≡ (s.heap p).last_seen_at
        → is_stale threshold now (s.heap p) ≡ false
        → (seen : ℕ) × (e.seen ≡ some seen) × (now ≤ seen + threshold)
    seen_lately p at lately = elim (Option-cases (s.heap p).last_seen_at) [
      | inl never ↦ absurd (ground (arith, never, lately))
      | inr (t, then_) ↦ (t, at ∙ then_, ground (arith, then_, lately))
    ]

module _ {P I M : Type 0} (gateway_name : String) (interval : ℕ) (service : Service P I M) where
  -- The service says nothing only if the announcement lists it.
  pub silent_is_listed :
      (now : ℕ) (s : State P)
      → (is_empty service.gateway_names || contains gateway_name service.gateway_names) ≡ true
      → handle_gateway_announce s.heap (announcement gateway_name (3 * interval) now s) service
        ≡ service
      → lists_id s.heap service.id (fresh_service_descriptors (3 * interval) now s) ≡ true
  unfolding handle_gateway_announce do_announce
  silent_is_listed now s wanted silent =
      elim (Bool-cases
        (lists_id s.heap service.id (fresh_service_descriptors (3 * interval) now s))) [
          | inl found ↦ found
          | inr missing ↦
              absurd (append_grows _ service.calls (ap (λ t. t.calls) (spoken missing ∙ silent)))
        ]
    where
      spoken :
          lists_id s.heap service.id (fresh_service_descriptors (3 * interval) now s) ≡ false
          → do_announce service
            ≡ handle_gateway_announce s.heap
                (announcement gateway_name (3 * interval) now s)
                service
      spoken missing = unfold handle_gateway_announce in ground (arith, wanted, missing)
