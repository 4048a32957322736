-- ===== src/Ids/Tests.antt =====
-- Identifiers from concrete rows of random numbers.
use eurus.Prelude.{ℕ, ◌<◌, List, [], ◌∷◌, some, ◌≡◌, ◌↔◌, arith, length, refl}
use eurus.Ids.{fill_from, generate_id}
use eurus.Ids.Bounds.{IsOfAlphabet, generate_id_bounds}

program : Unit {0}
unfolding fill_from generate_id
program = tt

-- The last rune of the alphabet in each place.
abbrev highest : ℕ → ℕ
highest k = 63

abbrev counted : ℕ → ℕ
counted k = k

first_runes : fill_from counted 0 3 ≡ some (97 ∷ 98 ∷ 99 ∷ [])
unfolding program
first_runes = refl

generate_id_bounds_example :
    (id : List ℕ) × (generate_id highest ≡ some id)
    × (length id ≡ 32)
    × IsOfAlphabet id
    × ((generate_id counted ≡ some id) ↔ ((k : ℕ) → k < 32 → 63 ≡ k))
generate_id_bounds_example = generate_id_bounds highest counted (λ k. omega arith)
