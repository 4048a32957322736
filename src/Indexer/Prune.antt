-- ===== src/Indexer/Prune.antt =====
-- PruneStaleServices and FreshServiceDescriptors: which instances go and which sockets they leave.
use eurus.Prelude.{
  ℕ, String, List, [], ◌∷◌, Option, none, some, true, false, ◌≡◌, ◌≢◌, refl, arith, ◌==◌, inl, inr,
  Option-cases, Bool-cases, sym, ◌∙◌, ◌&&◌, not, nat_eq, string_eq, nat_eq_iff, if◌then◌else◌,
  contains, NoDup, Distinct,
}
use text.Mathlib.TextEquality.{eq_iff}
use eurus.Descriptor.{Ref, Heap}
use eurus.Indexer.{
  State, slice_at, find_id, unset_service, unset_all, is_fresh, is_stale, fresh_of, stale_ids,
  affected, prune_stale_services, fresh_service_descriptors,
}
use eurus.Indexer.Sockets.{pin}
use eurus.Indexer.Instances.{DistinctIds, find_id-none, contains-delete_id}
use eurus.Indexer.Valid.{IsValid}
use eurus.Indexer.Affected.{names_any, contains-affected, NoDup-affected, names_any-pin}
use eurus.Indexer.Unset.{unset_service-IsValid, unset_service-instances, unset_service-pins}

-- The mapping that is left when the instances `ids` go.
abbrev pub without_all : List String → Option String → Option String
without_all ids none = none
without_all ids (some i) = if contains i ids then none else some i

module _ {P : Type 0} where
  unset_frame :
      (id : String) (s : State P)
      → s.closed ≡ false
      → ((unset_service id s).closed ≡ false) × ((unset_service id s).heap ≡ s.heap)
  unfolding unset_service
  unset_frame id s opened = ground arith

  unset_descriptors :
      (id : String) (s : State P) (p : Ref)
      → IsValid s
      → s.closed ≡ false
      → contains p (unset_service id s).descriptors
        ≡ (contains p s.descriptors && not ((s.heap p).id == id))
  unfolding unset_service
  unset_descriptors id s p v opened =
      ground (arith, contains-delete_id s.heap id s.descriptors p v.registry.ids)

  -- What the loop of removals leaves.
  pub record Unsets (ids : List String) (s t : State P) : Type 0 where
    pub valid : IsValid t
    pub opened : t.closed ≡ false
    pub heap : t.heap ≡ s.heap
    pub instances :
        (n i : String)
        → find_id t.heap i (slice_at n t.services_by_name)
          ≡ (if contains i ids then none else find_id s.heap i (slice_at n s.services_by_name))
    pub descriptors :
        (p : Ref)
        → contains p t.descriptors ≡ (contains p s.descriptors && not (contains (s.heap p).id ids))
    pub pins :
        (n k : String)
        → pin n k t.socket_to_instance ≡ without_all ids (pin n k s.socket_to_instance)

  pub unset_all-Unsets :
      (ids : List String) (s : State P)
      → IsValid s
      → s.closed ≡ false
      → Unsets ids s (unset_all ids s)
  unfolding unset_all
  unset_all-Unsets [] s v opened = record {
    valid = v;
    opened = opened;
    heap = refl;
    instances = λ n i. refl;
    descriptors = λ p. ground arith;
    pins = λ n k. ground arith;
  }
  unset_all-Unsets (id ∷ ids) s v opened =
      let (opened', same) = unset_frame id s opened in
      let rest = unset_all-Unsets ids (unset_service id s) (unset_service-IsValid id s v) opened' in
      record {
        valid = rest.valid;
        opened = rest.opened;
        heap = rest.heap ∙ same;
        instances = λ n i. ground (
          arith,
          rest.instances n i,
          unset_service-instances s id v.registry opened n i,
          eq_iff i id,
          eq_iff id i,
        );
        descriptors = λ p. ground (
          arith,
          rest.descriptors p,
          unset_descriptors id s p v opened,
          same,
          eq_iff id (s.heap p).id,
          eq_iff (s.heap p).id id,
        );
        pins = λ n k. elim (Option-cases (pin n k s.socket_to_instance)) [
          | inl unmapped ↦
              ground (arith, rest.pins n k, unset_service-pins s id v.registry opened v.pins n k)
          | inr (i, mapped) ↦ ground (
            arith,
            mapped,
            rest.pins n k,
            unset_service-pins s id v.registry opened v.pins n k,
            eq_iff i id,
            eq_iff id i,
          )
        ];
      }

  module _ (threshold now : ℕ) (h : Heap P) where
    contains-stale_ids_other :
        (id : String) (ps : List Ref)
        → find_id h id ps ≡ none
        → contains id (stale_ids threshold now h ps) ≡ false
    contains-stale_ids_other id [] e = refl
    contains-stale_ids_other id (q ∷ ps) e = ground (arith, contains-stale_ids_other id ps)

    -- Of the instances listed, the ids collected are those of the stale ones.
    pub contains-stale_ids :
        (ps : List Ref) (p : Ref)
        → DistinctIds h ps
        → contains p ps ≡ true
        → contains (h p).id (stale_ids threshold now h ps) ≡ is_stale threshold now (h p)
    contains-stale_ids [] p d c = cc
    contains-stale_ids (q ∷ ps) p d c = elim (Bool-cases (q == p)) [
      | inl here ↦ ground (
        arith,
        nat_eq_iff q p,
        eq_iff (h p).id (h p).id,
        contains-stale_ids_other (h q).id ps d.0,
      )
      | inr elsewhere ↦ ground (
        arith,
        find_id-none h (h q).id ps p d.0,
        eq_iff (h q).id (h p).id,
        contains-stale_ids ps p d.1,
      )
    ]

    contains-fresh_of :
        (ps : List Ref) (p : Ref)
        → contains p (fresh_of threshold now h ps) ≡ (contains p ps && is_fresh threshold now (h p))
    contains-fresh_of [] p = refl
    contains-fresh_of (q ∷ ps) p = ground (arith, nat_eq_iff q p, contains-fresh_of ps p)

    not_stale_iff_fresh :
        (p : Ref) → is_fresh threshold now (h p) ≡ not (is_stale threshold now (h p))
    not_stale_iff_fresh p = ground arith

module _ {P : Type 0} (threshold now : ℕ) (s : State P) where
  open s use {heap, descriptors, services_by_name, socket_to_instance}

  abbrev stale : List String
  stale = stale_ids threshold now heap descriptors

  -- What a round of pruning does, `t` being the state after it and `reported` its sockets.
  pub record Prunes (t : State P) (reported : List String) : Type 0 where
    -- The tables stay consistent.
    pub valid : IsValid t
    -- Exactly the instances that are not stale are left, and each of them is fresh.
    pub left :
        (p : Ref)
        → contains p t.descriptors ≡ (contains p descriptors && is_fresh threshold now (heap p))
    -- A mapping stays unless its instance is gone.
    pub pins :
        (n k : String)
        → pin n k t.socket_to_instance ≡ without_all stale (pin n k socket_to_instance)
    -- Every socket that loses a mapping is reported, and none is reported twice.
    pub complete :
        (n k : String)
        → pin n k t.socket_to_instance ≢ pin n k socket_to_instance
        → contains k reported ≡ true
    pub once : NoDup reported
    -- A reported socket was mapped to an instance that is gone.
    pub sound :
        (k : String) → contains k reported ≡ true → names_any stale k socket_to_instance ≡ true

  pub prune_open :
      s.closed ≡ false
      → prune_stale_services threshold now s
        ≡ (unset_all stale s, stale, affected stale socket_to_instance [])
  unfolding prune_stale_services
  prune_open opened = ground arith

  loses :
      Distinct socket_to_instance
      → (n k : String) → without_all stale (pin n k socket_to_instance) ≢ pin n k socket_to_instance
      → contains k (affected stale socket_to_instance []) ≡ true
  loses d n k changed = elim (Option-cases (pin n k socket_to_instance)) [
    | inl unmapped ↦ absurd (changed (rw unmapped refl))
    | inr (i, mapped) ↦ elim (Bool-cases (contains i stale)) [
      | inl gone ↦
          contains-affected stale k socket_to_instance [] d
          ∙ names_any-pin stale n k i socket_to_instance mapped gone
      | inr stays ↦ absurd (changed (ground (arith, mapped, stays)))
    ]
  ]

  -- In a valid open indexer PruneStaleServices keeps the indexer valid, removes exactly the stale
  -- instances and the mappings to them, and returns the affected sockets, each once.
  pub prune_stale_services-Prunes :
      IsValid s
      → s.closed ≡ false
      → Prunes (prune_stale_services threshold now s).0 (prune_stale_services threshold now s).2
  prune_stale_services-Prunes v opened =
      let all = unset_all-Unsets stale s v opened in
      rw (prune_open opened) (record {
        valid = all.valid;
        left = λ p. ground (
          arith,
          all.descriptors p,
          contains-stale_ids threshold now heap descriptors p v.registry.ids,
          not_stale_iff_fresh threshold now heap p,
        );
        pins = all.pins;
        complete = λ n k changed. loses v.pins.sockets n k (λ e. changed (all.pins n k ∙ e));
        once = NoDup-affected stale socket_to_instance [] tt;
        sound = λ k c. sym (contains-affected stale k socket_to_instance [] v.pins.sockets) ∙ c;
      })

  -- FreshServiceDescriptors lists the descriptors that a round of pruning with the same threshold
  -- would leave, and none if the indexer is closed.
  pub fresh_service_descriptors_lem :
      (p : Ref)
      → contains p (fresh_service_descriptors threshold now s)
        ≡ (not s.closed && (contains p descriptors && not (is_stale threshold now (heap p))))
  unfolding fresh_service_descriptors
  fresh_service_descriptors_lem p = ground (
    arith,
    contains-fresh_of threshold now heap descriptors p,
    not_stale_iff_fresh threshold now heap p,
  )
