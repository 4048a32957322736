-- ===== src/Ids.antt =====
-- generate-id.go: the identifiers of gateways and services. `pick i` is what the call of rand.N for
-- place i returns; a text is the list of its runes, and `none` is the panic of an index that is out of
-- range.
pub mod Bounds
mod Tests
use eurus.Prelude.{ℕ, zero, suc, List, [], ◌∷◌, Option, none, some}

abbrev pub id_length : ℕ
id_length = 32

abbrev pub id_chars : List ℕ
id_chars =
    97 ∷ 98 ∷ 99 ∷ 100 ∷ 101 ∷ 102 ∷ 103 ∷ 104 ∷ 105 ∷ 106 ∷ 107 ∷ 108 ∷ 109 ∷ 110 ∷ 111 ∷ 112 ∷ 113
    ∷ 114 ∷ 115 ∷ 116 ∷ 117 ∷ 118 ∷ 119 ∷ 120 ∷ 121 ∷ 122 ∷ 65 ∷ 66 ∷ 67 ∷ 68 ∷ 69 ∷ 70 ∷ 71 ∷ 72
    ∷ 73 ∷ 74 ∷ 75 ∷ 76 ∷ 77 ∷ 78 ∷ 79 ∷ 80 ∷ 81 ∷ 82 ∷ 83 ∷ 84 ∷ 85 ∷ 86 ∷ 87 ∷ 88 ∷ 89 ∷ 90 ∷ 48
    ∷ 49 ∷ 50 ∷ 51 ∷ 52 ∷ 53 ∷ 54 ∷ 55 ∷ 56 ∷ 57 ∷ 45 ∷ 95 ∷ []

-- idChars[i]
abbrev pub char_at : List ℕ → ℕ → Option ℕ
char_at [] i = none
char_at (r ∷ rs) zero = some r
char_at (r ∷ rs) (suc i) = char_at rs i

-- The rune for a place before the runes for the later places.
abbrev pub cons_rune : Option ℕ → Option (List ℕ) → Option (List ℕ)
cons_rune none later = none
cons_rune (some r) none = none
cons_rune (some r) (some rs) = some (r ∷ rs)

-- The loop, with the places that are left.
unfoldable pub fill_from : (ℕ → ℕ) → ℕ → ℕ → Option (List ℕ)
fill_from pick i zero = some []
fill_from pick i (suc left) = cons_rune (char_at id_chars (pick i)) (fill_from pick (suc i) left)

unfoldable pub generate_id : (ℕ → ℕ) → Option (List ℕ)
unfolding fill_from
generate_id pick = fill_from pick 0 id_length
