-- ===== src/Nats/Slices.antt =====
-- The slices of Go that chunks and batches are cut by.
use eurus.Prelude.{
  ℕ, zero, suc, ◌-◌, ◌≤◌, List, [], ◌∷◌, ◌++◌, ◌≡◌, refl, arith, leb, length, take, drop,
  if◌then◌else◌, ap, ◌∙◌,
}

abbrev pub min : ℕ → ℕ → ℕ
min a b = if leb a b then a else b

module _ {ℓ} {A : Type ℓ} where
  -- xs[start:stop]
  abbrev pub slice : ℕ → ℕ → List A → List A
  slice start stop xs = take (stop - start) (drop start xs)

  length-take : (n : ℕ) (xs : List A) → length (take n xs) ≤ n
  length-take zero xs = omega arith
  length-take (suc n) [] = omega arith
  length-take (suc n) (x ∷ xs) = omega (arith, length-take n xs)

  -- A slice is no longer than its bounds are apart.
  pub length-slice : (start stop : ℕ) (xs : List A) → length (slice start stop xs) ≤ stop - start
  length-slice start stop xs = length-take (stop - start) (drop start xs)

  take-drop_lem : (n : ℕ) (xs : List A) → take n xs ++ drop n xs ≡ xs
  take-drop_lem zero xs = refl
  take-drop_lem (suc n) [] = refl
  take-drop_lem (suc n) (x ∷ xs) = ap (◌∷◌ x) (take-drop_lem n xs)

  take-nil : (n : ℕ) → take {A = A} n [] ≡ []
  take-nil zero = refl
  take-nil (suc n) = refl

  -- A slice and what comes after it are what comes after its start.
  pub slice-drop :
      (start stop : ℕ) (xs : List A)
      → start ≤ stop
      → slice start stop xs ++ drop stop xs ≡ drop start xs
  slice-drop zero stop xs h =
      ap (λ n. take n xs ++ drop stop xs) (stop_lem stop) ∙ take-drop_lem stop xs
    where
      stop_lem : (n : ℕ) → n - 0 ≡ n
      stop_lem n = omega arith
  slice-drop (suc start) zero xs h = absurd (omega arith)
  slice-drop (suc start) (suc stop) [] h = ground (arith, take-nil (suc stop - suc start))
  slice-drop (suc start) (suc stop) (x ∷ xs) h =
      ap (λ n. take n (drop start xs) ++ drop stop xs) (difference start stop)
      ∙ slice-drop start stop xs (omega arith)
    where
      difference : (a b : ℕ) → suc b - suc a ≡ b - a
      difference a b = omega arith

  pub drop_all : (n : ℕ) (xs : List A) → length xs ≤ n → drop n xs ≡ []
  drop_all zero [] h = refl
  drop_all zero (x ∷ xs) h = absurd (omega arith)
  drop_all (suc n) [] h = refl
  drop_all (suc n) (x ∷ xs) h = drop_all n xs (omega arith)
