-- ===== src/Prelude/Maps.antt =====
-- Go maps: an association list, whose order stands for the order that `range` happens to take.
use mathlib.Core.Path.{◌≡◌, refl}
use mathlib.Core.List.{List, [], ◌∷◌}
use mathlib.Core.Option.{Option, none, some}
use native.Mathlib.Omega.{arith}
use eurus.Prelude.Compare.{Eq, ◌==◌, if◌then◌else◌}

abbrev pub Map {ℓ} : Type ℓ → Type ℓ → Type ℓ
Map K V = List (K × V)

module _ {ℓ} {K V : Type ℓ} ⦃keys : Eq K⦄ where
  -- value, ok := entries[key]
  abbrev pub lookup : K → Map K V → Option V
  lookup key [] = none
  lookup key ((other, value) ∷ entries) = if other == key then some value else lookup key entries

  -- entries[key] = value
  abbrev pub insert : K → V → Map K V → Map K V
  insert key value [] = (key, value) ∷ []
  insert key value ((other, old) ∷ entries) =
      let rest = insert key value entries in
      if other == key then (key, value) ∷ entries else (other, old) ∷ rest

  -- delete(entries, key)
  abbrev pub delete : K → Map K V → Map K V
  delete key [] = []
  delete key ((other, value) ∷ entries) =
      let rest = delete key entries in if other == key then rest else (other, value) ∷ rest

  -- A Go map holds a key once.
  abbrev pub Distinct : Map K V → Type ℓ
  Distinct [] = Unit
  Distinct ((key, value) ∷ entries) = (lookup key entries ≡ none) × Distinct entries

  pub lookup-insert :
      (key wanted : K) (value : V) (entries : Map K V)
      → lookup wanted (insert key value entries)
        ≡ (if key == wanted then some value else lookup wanted entries)
  lookup-insert key wanted value [] = refl
  lookup-insert key wanted value ((other, old) ∷ entries) = ground (
    arith,
    keys.is_same_iff key wanted,
    keys.is_same_iff other key,
    keys.is_same_iff other wanted,
    lookup-insert key wanted value entries,
  )

  pub lookup-delete :
      (key wanted : K) (entries : Map K V)
      → lookup wanted (delete key entries) ≡ (if key == wanted then none else lookup wanted entries)
  lookup-delete key wanted [] = ground arith
  lookup-delete key wanted ((other, old) ∷ entries) = ground (
    arith,
    keys.is_same_iff key wanted,
    keys.is_same_iff other key,
    keys.is_same_iff other wanted,
    lookup-delete key wanted entries,
  )

  pub Distinct-insert :
      (key : K) (value : V) (entries : Map K V)
      → Distinct entries
      → Distinct (insert key value entries)
  Distinct-insert key value [] d = (refl, tt)
  Distinct-insert key value ((other, old) ∷ entries) d = ground (
    arith,
    keys.is_same_iff other key,
    keys.is_same_iff key other,
    lookup-insert key other value entries,
    Distinct-insert key value entries d.1,
  )

  pub Distinct-delete :
      (key : K) (entries : Map K V) → Distinct entries → Distinct (delete key entries)
  Distinct-delete key [] d = tt
  Distinct-delete key ((other, old) ∷ entries) d =
      ground (arith, lookup-delete key other entries, Distinct-delete key entries d.1)
