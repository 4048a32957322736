-- ===== src/Indexer/Silence.antt =====
-- An instance that does not announce itself any more: PruneStaleServices removes it, and no other call
-- brings it back.
use eurus.Prelude.{
  ℕ, ◌+◌, ◌<◌, String, Option, none, some, false, ◌≡◌, ◌≢◌, ◌⊎◌, inl, inr, refl, arith, ap, ◌∙◌,
  string_eq,
}
use text.Mathlib.TextEquality.{eq_iff}
use eurus.Indexer.{State, close, prune_stale_services}
use eurus.Indexer.Sockets.{pin, map_socket}
use eurus.Indexer.Valid.{IsValid}
use eurus.Indexer.Balance.{map_socket_cases}
use eurus.Indexer.Histories.{Step, announced, unset, pruned, mapped, unmapped, closed, Step-IsValid}
use eurus.Indexer.Spec.{Entry, Registry, keep_fresh}
use eurus.Indexer.Views.{
  entry_at, view-unset_service, view-prune_stale_services, view-unmap_socket, view-assigned_to,
}
use eurus.Indexer.Refines.{view-set_service_descriptor}

module _ {P : Type 0} (id : String) where
  -- The call is not an announcement of the instance.
  abbrev pub IsSilent : {s t : State P} → Step s t → Type 0
  IsSilent {s} (announced now p a) = (s.heap p).id ≢ id
  IsSilent (unset i) = Unit
  IsSilent (pruned threshold now) = Unit
  IsSilent (mapped name socket) = Unit
  IsSilent (unmapped socket) = Unit
  IsSilent closed = Unit

  -- Calls among which the instance is not announced.
  pub data Quiet (s : State P) : State P → Type 0 where
    here : Quiet s s
    next : {t u : State P} → Quiet s t → (st : Step t u) → IsSilent st → Quiet s u

  Quiet-IsValid : {s t : State P} → Quiet s t → IsValid s → IsValid t
  Quiet-IsValid here v = v
  Quiet-IsValid (next q st silent) v = Step-IsValid st (Quiet-IsValid q v)

  -- What is left of an entry: itself or nothing.
  abbrev IsLeft : Option (Entry P) → Option (Entry P) → Type 0
  IsLeft before after = (after ≡ before) ⊎ (after ≡ none)

  module _ (n : String) where
    abbrev at : Registry P → Option (Entry P)
    at r = r.entries n id

    fresh_or_gone :
        (threshold now : ℕ) (o : Option (Entry P)) → IsLeft o (keep_fresh threshold now id o)
    fresh_or_gone threshold now none = inl refl
    fresh_or_gone threshold now (some e) = ground arith

    mapped_entry :
        (name socket : String) (s : State P)
        → IsValid s
        → entry_at (map_socket name socket s).0 n id ≡ entry_at s n id
    mapped_entry name socket s v = elim (map_socket_cases name socket s) [
      | inl e ↦ rw e refl
      | inr (inl kept) ↦ rw kept.outcome refl
      | inr (inr a) ↦ rw a.outcome (ap at (view-assigned_to s v name socket a.target))
    ]

    Step-IsLeft :
        {s t : State P} (st : Step s t)
        → IsSilent st
        → IsValid s
        → IsLeft (entry_at s n id) (entry_at t n id)
    unfolding close
    Step-IsLeft {s} (announced now p a) silent v = inl (
        ap at (view-set_service_descriptor now p s v a)
        ∙ ground (arith, silent, eq_iff id (s.heap p).id))
    Step-IsLeft {s} (unset i) silent v =
        rw (ap at (view-unset_service s v i)) (ground (arith, eq_iff id i))
    Step-IsLeft {s} (pruned threshold now) silent v =
        rw (ap at (view-prune_stale_services s v threshold now))
          (ground (arith, fresh_or_gone threshold now (entry_at s n id)))
    Step-IsLeft {s} (mapped name socket) silent v = inl (mapped_entry name socket s v)
    Step-IsLeft {s} (unmapped socket) silent v =
        inl (ap at (view-unmap_socket s v socket) ∙ ground arith)
    Step-IsLeft {s} closed silent v = inr refl

    Quiet-IsLeft :
        {s t : State P} → Quiet s t → IsValid s → IsLeft (entry_at s n id) (entry_at t n id)
    Quiet-IsLeft here v = inl refl
    Quiet-IsLeft (next q st silent) v =
        both (Quiet-IsLeft q v) (Step-IsLeft st silent (Quiet-IsValid q v))
      where
        both : {a b c : Option (Entry P)} → IsLeft a b → IsLeft b c → IsLeft a c
        both (inl e) (inl f) = inl (f ∙ e)
        both (inr e) (inl f) = inr (f ∙ e)
        both x (inr f) = inr f

    stays_gone :
        {s t : State P} → Quiet s t → IsValid s → entry_at s n id ≡ none → entry_at t n id ≡ none
    stays_gone q v gone = ground (arith, Quiet-IsLeft q v, gone)

    -- A socket is pinned to entries only.
    unlisted_unpinned :
        (s : State P) (k : String)
        → IsValid s
        → entry_at s n id ≡ none
        → pin n k s.socket_to_instance ≢ some id
    unlisted_unpinned s k v gone e =
        let (p, found, has) = v.pins.live n k id e in ground (arith, gone, found)

    pruned_away :
        (threshold now seen : ℕ) (e : Entry P) (t : State P)
        → IsValid t
        → t.closed ≡ false
        → e.seen ≡ some seen
        → seen + threshold < now
        → (entry_at t n id ≡ some e) ⊎ (entry_at t n id ≡ none)
        → entry_at (prune_stale_services threshold now t).0 n id ≡ none
    pruned_away threshold now seen e t v opened then_ late left =
        ap at (view-prune_stale_services t v threshold now)
        ∙ ground (arith, opened, then_, late, left)

    -- From a valid indexer that has an entry for an instance under a name with the time it was
    -- seen at: if after calls that do not announce the instance a pruning runs later than that
    -- time and the threshold, while the indexer is open, then, whatever further calls follow that
    -- do not announce it, there is no entry of the instance under that name and no socket is
    -- pinned to it for that name.
    pub silent_instance_goes :
        (threshold now seen : ℕ) (e : Entry P) {s t u : State P}
        → IsValid s
        → entry_at s n id ≡ some e
        → e.seen ≡ some seen
        → Quiet s t
        → t.closed ≡ false
        → seen + threshold < now
        → Quiet (prune_stale_services threshold now t).0 u
        → (entry_at u n id ≡ none) × ((k : String) → pin n k u.socket_to_instance ≢ some id)
    silent_instance_goes threshold now seen e {s} {t} {u} v known then_ before opened late after =
        let w = Quiet-IsValid before v in
        let x = Step-IsValid (pruned threshold now) w in
        let left =
          pruned_away threshold now seen e t w opened then_ late
            (ground (arith, Quiet-IsLeft before v, known)) in
        let gone = stays_gone after x left in
        (gone, λ k. unlisted_unpinned u k (Quiet-IsValid after x) gone)
