-- ===== src/Prelude/Lists.antt =====
-- Lists: native lengths, membership, and Go's slices.Index and slices.Delete.
use Prim.Native.Nat.{ℕ, zero, suc, ◌+◌}
use mathlib.Core.Path.{◌≡◌, refl}
use mathlib.Core.Logic.{◌≢◌}
use mathlib.Core.Bool.{Bool, true, false, ◌||◌}
use mathlib.Core.List.{List, [], ◌∷◌, ◌++◌}
use native.Mathlib.Omega.{arith}
use eurus.Prelude.Compare.{Eq, ◌==◌, if◌then◌else◌}

module _ {ℓ} {A : Type ℓ} where
  abbrev pub length : List A → ℕ
  length [] = 0
  length (x ∷ xs) = suc (length xs)

  abbrev pub take : ℕ → List A → List A
  take zero xs = []
  take (suc n) [] = []
  take (suc n) (x ∷ xs) = x ∷ take n xs

  abbrev pub drop : ℕ → List A → List A
  drop zero xs = xs
  drop (suc n) [] = []
  drop (suc n) (x ∷ xs) = drop n xs

  abbrev pub is_empty : List A → Bool
  is_empty [] = true
  is_empty (x ∷ xs) = false

  pub length-append : (xs ys : List A) → length (xs ++ ys) ≡ length xs + length ys
  length-append [] ys = omega arith
  length-append (x ∷ xs) ys = omega (arith, length-append xs ys)

module _ {ℓ} {A : Type ℓ} ⦃e : Eq A⦄ where
  -- slices.Contains
  abbrev pub contains : A → List A → Bool
  contains a [] = false
  contains a (x ∷ xs) = if x == a then true else contains a xs

  -- i := slices.Index(xs, a); if i != -1 { xs = slices.Delete(xs, i, i+1) }
  abbrev pub erase : A → List A → List A
  erase a [] = []
  erase a (x ∷ xs) = if x == a then xs else x ∷ erase a xs

  -- No element occurs twice.
  abbrev pub NoDup : List A → Type 0
  NoDup [] = Unit {0}
  NoDup (x ∷ xs) = (contains x xs ≡ false) × NoDup xs

  pub contains-append :
      (a : A) (xs ys : List A) → contains a (xs ++ ys) ≡ (contains a xs || contains a ys)
  contains-append a [] ys = refl
  contains-append a (x ∷ xs) ys = ground (arith, contains-append a xs ys)

  pub NoDup-snoc : (a : A) (xs : List A) → NoDup xs → contains a xs ≡ false → NoDup (xs ++ a ∷ [])
  NoDup-snoc a [] d n = (refl, tt)
  NoDup-snoc a (x ∷ xs) d n = ground (
    arith,
    contains-append x xs (a ∷ []),
    e.is_same_iff a x,
    e.is_same_iff x a,
    NoDup-snoc a xs d.1,
  )

  pub contains-erase_ne : (a b : A) (xs : List A) → a ≢ b → contains b (erase a xs) ≡ contains b xs
  contains-erase_ne a b [] h = refl
  contains-erase_ne a b (x ∷ xs) h =
      ground (arith, e.is_same_iff x a, e.is_same_iff x b, contains-erase_ne a b xs h)

  pub contains-erase_self : (a : A) (xs : List A) → NoDup xs → contains a (erase a xs) ≡ false
  contains-erase_self a [] d = refl
  contains-erase_self a (x ∷ xs) d = ground (arith, e.is_same_iff x a, contains-erase_self a xs d.1)

  pub contains-erase-le :
      (a b : A) (xs : List A) → contains b xs ≡ false → contains b (erase a xs) ≡ false
  contains-erase-le a b [] h = refl
  contains-erase-le a b (x ∷ xs) h = ground (arith, contains-erase-le a b xs)

  pub NoDup-erase : (a : A) (xs : List A) → NoDup xs → NoDup (erase a xs)
  NoDup-erase a [] d = tt
  NoDup-erase a (x ∷ xs) d = ground (arith, NoDup-erase a xs d.1, contains-erase-le a x xs d.0)
