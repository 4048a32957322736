-- ===== src/Ids/Bounds.antt =====
-- What generate_id makes: 32 runes of the alphabet, one text for each row of random numbers.
use eurus.Prelude.{
  ℕ, zero, suc, ◌+◌, ◌<◌, ◌≤◌, List, [], ◌∷◌, Option, none, some, true, ◌≡◌, refl, arith, ◌==◌,
  nat_eq, nat_eq_iff, Bool, not, ◌&&◌, Bool-cases, inl, inr, sym, ◌∙◌, ◌↔◌, length, contains, NoDup,
}
use eurus.Ids.{id_length, id_chars, char_at, cons_rune, fill_from, generate_id}

-- Every rune is one of the alphabet.
abbrev pub IsOfAlphabet : List ℕ → Type 0
IsOfAlphabet [] = Unit
IsOfAlphabet (r ∷ rs) = (contains r id_chars ≡ true) × IsOfAlphabet rs

char_at-contains :
    (rs : List ℕ) (i : ℕ)
    → i < length rs
    → (r : ℕ) × (char_at rs i ≡ some r) × (contains r rs ≡ true)
char_at-contains [] i h = absurd (omega arith)
char_at-contains (r ∷ rs) zero h = (r, refl, ground (arith, nat_eq_iff r r))
char_at-contains (r ∷ rs) (suc i) h =
    let (q, found, c) = char_at-contains rs i (omega arith) in (q, found, ground (arith, c))

char_at-listed : (rs : List ℕ) (i r : ℕ) → char_at rs i ≡ some r → contains r rs ≡ true
char_at-listed [] i r e = cc
char_at-listed (q ∷ rs) zero r e = ground (arith, nat_eq_iff q r)
char_at-listed (q ∷ rs) (suc i) r e = ground (arith, char_at-listed rs i r e)

-- Different places of a list without repetition hold different runes.
char_at_injective :
    (rs : List ℕ) (i j r : ℕ) → NoDup rs → char_at rs i ≡ some r → char_at rs j ≡ some r → i ≡ j
char_at_injective [] i j r d e f = cc
char_at_injective (q ∷ rs) zero zero r d e f = refl
char_at_injective (q ∷ rs) zero (suc j) r d e f = ground (arith, char_at-listed rs j r f, d.0)
char_at_injective (q ∷ rs) (suc i) zero r d e f = ground (arith, char_at-listed rs i r e, d.0)
char_at_injective (q ∷ rs) (suc i) (suc j) r d e f =
    omega (arith, char_at_injective rs i j r d.1 e f)

abbrev has_no_dup : List ℕ → Bool
has_no_dup [] = true
has_no_dup (r ∷ rs) = not (contains r rs) && has_no_dup rs

has_no_dup_sound : (rs : List ℕ) → has_no_dup rs ≡ true → NoDup rs
has_no_dup_sound [] e = tt
has_no_dup_sound (r ∷ rs) e = ground (arith, has_no_dup_sound rs)

id_chars-NoDup : NoDup id_chars
id_chars-NoDup = has_no_dup_sound id_chars refl

fill_from_lem :
    (pick : ℕ → ℕ) (i left : ℕ)
    → ((k : ℕ) → pick k < length id_chars)
    → (id : List ℕ) × (fill_from pick i left ≡ some id) × (length id ≡ left) × IsOfAlphabet id
unfolding fill_from
fill_from_lem pick i zero bounded = ([], refl, refl, tt)
fill_from_lem pick i (suc left) bounded =
    let (r, found, c) = char_at-contains id_chars (pick i) (bounded i) in
    let (rs, e, l, a) = fill_from_lem pick (suc i) left bounded in
    (r ∷ rs, rw (found, e) refl, omega (arith, l), (c, a))

cons_rune-some :
    (o : Option ℕ) (l : Option (List ℕ)) (id : List ℕ)
    → cons_rune o l ≡ some id
    → (r : ℕ) × (rs : List ℕ) × (o ≡ some r) × (l ≡ some rs) × (id ≡ r ∷ rs)
cons_rune-some none l id e = cc
cons_rune-some (some r) none id e = cc
cons_rune-some (some r) (some rs) id e = (r, rs, refl, refl, cc)

module _ (p q : ℕ → ℕ) where
  fill_from_injective :
      (i left : ℕ) (id : List ℕ)
      → fill_from p i left ≡ some id
      → fill_from q i left ≡ some id
      → (j : ℕ) → i ≤ j
      → j < i + left
      → p j ≡ q j
  unfolding fill_from
  fill_from_injective i zero id e f j low high = absurd (omega arith)
  fill_from_injective i (suc left) id e f j low high =
      let (a, more, at_p, more_p, same_p) = cons_rune-some _ _ id e in
      let (b, rest, at_q, rest_q, same_q) = cons_rune-some _ _ id f in
      elim (Bool-cases (i == j)) [
        | inl here ↦ ground (
          arith,
          nat_eq_iff i j,
          same_p,
          same_q,
          char_at_injective id_chars (p i) (q i) a id_chars-NoDup at_p,
          at_q,
        )
        | inr later ↦
            fill_from_injective (suc i) left more more_p (ground (arith, rest_q, same_p, same_q)) j
              (ground (arith, low, later, nat_eq_iff i j)) (omega (arith, high))
      ]

  fill_from_same :
      (i left : ℕ)
      → ((j : ℕ) → i ≤ j → j < i + left → p j ≡ q j)
      → fill_from p i left ≡ fill_from q i left
  unfolding fill_from
  fill_from_same i zero same = refl
  fill_from_same i (suc left) same =
      rw
        (
          same i (omega arith) (omega arith),
          fill_from_same (suc i) left
              (λ j low high. same j (omega (arith, low)) (omega (arith, high))),
        )
        refl

  -- If each random number is below the size of the alphabet, generateID does not panic and makes a
  -- text of 32 runes, all of the alphabet, and two rows of random numbers that make the same text
  -- are the same in all 32 places.
  pub generate_id_bounds :
      ((k : ℕ) → p k < length id_chars)
      → (id : List ℕ) × (generate_id p ≡ some id)
        × (length id ≡ id_length)
        × IsOfAlphabet id
        × ((generate_id q ≡ some id) ↔ ((k : ℕ) → k < id_length → p k ≡ q k))
  unfolding generate_id
  generate_id_bounds bounded =
      let (id, e, l, a) = fill_from_lem p 0 id_length bounded in
      (
        id,
        e,
        l,
        a,
        (
          (λ f k below. fill_from_injective 0 id_length id e f k (omega arith) below),
          (λ same. sym (fill_from_same 0 id_length (λ j low high. same j high)) ∙ e),
        ),
      )
