-- ===== src/Nats/Subjects.antt =====
-- namespace and formatForNamespace of transport/natstransport/namespace.go. A text is the list of its
-- runes, and a rune is its code point; `none` is the panic of an index that is out of range.
use eurus.Prelude.{
  ℕ, zero, suc, ◌+◌, ◌-◌, ◌≤◌, ◌<◌, ◌*◌, List, [], ◌∷◌, ◌++◌, Option, none, some, Bool, true, ◌≡◌,
  ◌&&◌, ◌||◌, refl, arith, ltb, leb, ◌==◌, nat_eq, length, if◌then◌else◌, ap, sym, ◌∙◌,
}

-- The bytes of a rune in a Go string, which `range` counts by.
abbrev pub rune_len : ℕ → ℕ
rune_len r = if ltb r 128 then 1 else if ltb r 2048 then 2 else if ltb r 65536 then 3 else 4

abbrev pub get_elem? : List ℕ → ℕ → Option ℕ
get_elem? [] i = none
get_elem? (r ∷ rs) zero = some r
get_elem? (r ∷ rs) (suc i) = get_elem? rs i

abbrev pub is_within : ℕ → ℕ → ℕ → Bool
is_within low high r = leb low r && leb r high

-- The cases of the switch; `pr` is the rune before.
abbrev pub format_rune : ℕ → ℕ → List ℕ
format_rune pr r =
    if is_within 65 90 r
    then if is_within 97 122 pr then 45 ∷ (r + 32) ∷ [] else r ∷ []
    else if is_within 97 122 r
    then r ∷ []
    else if is_within 48 57 r
    then r ∷ []
    else if r == 45 || r == 95
    then 45 ∷ []
    else if r == 46
    then 46 ∷ []
    else if r == 42
    then 42 ∷ []
    else []

-- []rune(str)[i-1], or 0 at the start
abbrev pub previous : List ℕ → ℕ → Option ℕ
previous str i = if i == 0 then some 0 else get_elem? str (i - 1)

abbrev pub emit_rune : Option ℕ → ℕ → Option (List ℕ) → Option (List ℕ)
emit_rune none r rest = none
emit_rune (some pr) r none = none
emit_rune (some pr) r (some out) = some (format_rune pr r ++ out)

-- The loop at the byte `i`, with the runes that are left.
unfoldable pub format_from : List ℕ → ℕ → List ℕ → Option (List ℕ)
format_from str i [] = some []
format_from str i (r ∷ rs) = emit_rune (previous str i) r (format_from str (i + rune_len r) rs)

unfoldable pub format_for_namespace : List ℕ → Option (List ℕ)
unfolding format_from
format_for_namespace str = format_from str 0 str

-- "eurus"
abbrev pub nats_subject_namespace : List ℕ
nats_subject_namespace = 101 ∷ 117 ∷ 114 ∷ 117 ∷ 115 ∷ []

-- The subject that is joined so far, and the next value; an empty value is left out.
abbrev pub join_chunk : Option (List ℕ) → Option (List ℕ) → Option (List ℕ)
join_chunk none chunk = none
join_chunk (some subject) none = none
join_chunk (some subject) (some chunk) = some (subject ++ 46 ∷ chunk)

unfoldable pub join_from : Option (List ℕ) → List (List ℕ) → Option (List ℕ)
unfolding format_for_namespace
join_from subject [] = subject
join_from subject ([] ∷ values) = join_from subject values
join_from subject ((r ∷ rs) ∷ values) =
    join_from (join_chunk subject (format_for_namespace (r ∷ rs))) values

unfoldable pub namespace : List (List ℕ) → Option (List ℕ)
unfolding join_from
namespace values = join_from (some nats_subject_namespace) values

abbrev pub IsAscii : List ℕ → Type 0
IsAscii [] = Unit
IsAscii (r ∷ rs) = (r < 128) × IsAscii rs

abbrev pub IsWide : List ℕ → Type 0
IsWide [] = Unit
IsWide (r ∷ rs) = (128 ≤ r) × IsWide rs

-- Letters, digits, and the three signs that stay.
abbrev pub is_allowed : ℕ → Bool
is_allowed r =
    (is_within 65 90 r || is_within 97 122 r)
    || (is_within 48 57 r || (r == 45 || (r == 46 || r == 42)))

abbrev pub IsAllowed : List ℕ → Type 0
IsAllowed [] = Unit
IsAllowed (r ∷ rs) = (is_allowed r ≡ true) × IsAllowed rs

-- Each rune with the one before it.
abbrev pub format_after : ℕ → List ℕ → List ℕ
format_after pr [] = []
format_after pr (r ∷ rs) = format_rune pr r ++ format_after r rs

-- On ASCII the byte at which a rune starts is its index: `rs` is what `str` has from `i` on.
format_from_ascii :
    (str : List ℕ) (i pr : ℕ) (rs : List ℕ)
    → ((k : ℕ) → get_elem? str (i + k) ≡ get_elem? rs k)
    → previous str i ≡ some pr
    → IsAscii rs
    → format_from str i rs ≡ some (format_after pr rs)
unfolding format_from
format_from_ascii str i pr [] suffix before a = refl
format_from_ascii str i pr (r ∷ rs) suffix before a =
    ground (arith, a.0, before, format_from_ascii str (i + 1) r rs rest this a.1)
  where
    index_lem : (k : ℕ) → i + suc k ≡ i + 1 + k
    index_lem k = omega arith

    rest : (k : ℕ) → get_elem? str (i + 1 + k) ≡ get_elem? rs k
    rest k = ap (get_elem? str) (sym (index_lem k)) ∙ suffix (suc k)

    start_lem : (j : ℕ) → j + 1 - 1 ≡ j + 0
    start_lem j = omega arith

    this : previous str (i + 1) ≡ some r
    this = ground (arith, ap (get_elem? str) (start_lem i), suffix 0)

IsAllowed-append : (xs ys : List ℕ) → IsAllowed xs → IsAllowed ys → IsAllowed (xs ++ ys)
IsAllowed-append [] ys a b = b
IsAllowed-append (x ∷ xs) ys a b = (a.0, IsAllowed-append xs ys a.1 b)

format_rune-IsAllowed : (pr r : ℕ) → IsAllowed (format_rune pr r)
format_rune-IsAllowed pr r = ground arith

format_after-IsAllowed : (pr : ℕ) (rs : List ℕ) → IsAllowed (format_after pr rs)
format_after-IsAllowed pr [] = tt
format_after-IsAllowed pr (r ∷ rs) =
    IsAllowed-append (format_rune pr r) (format_after r rs) (format_rune-IsAllowed pr r)
      (format_after-IsAllowed r rs)

-- On an ASCII text formatForNamespace does not panic, it formats each rune by the rune before it,
-- and its result has letters, digits, dashes, dots and stars only.
pub format_for_namespace_ascii :
    (str : List ℕ)
    → IsAscii str
    → (format_for_namespace str ≡ some (format_after 0 str)) × IsAllowed (format_after 0 str)
unfolding format_for_namespace
format_for_namespace_ascii str a = (
  format_from_ascii str 0 0 str (λ k. ap (get_elem? str) (index_lem k)) refl a,
  format_after-IsAllowed 0 str,
)
  where
    index_lem : (k : ℕ) → 0 + k ≡ k
    index_lem k = omega arith

get_elem?_beyond : (str : List ℕ) (i : ℕ) → length str ≤ i → get_elem? str i ≡ none
get_elem?_beyond [] i h = refl
get_elem?_beyond (r ∷ str) zero h = absurd (omega arith)
get_elem?_beyond (r ∷ str) (suc i) h = get_elem?_beyond str i (omega arith)

format_from_wide :
    (str : List ℕ) (i r : ℕ) (rs : List ℕ)
    → IsWide (r ∷ rs)
    → length str + 1 ≤ i + 2 * length rs
    → 1 ≤ i
    → format_from str i (r ∷ rs) ≡ none
unfolding format_from
format_from_wide str i r [] w h positive =
    ground (arith, get_elem?_beyond str (i - 1) (omega arith), positive)
format_from_wide str i r (q ∷ rs) w h positive = ground (
  arith,
  w.0,
  format_from_wide str (i + rune_len r) q rs w.1 (ground (arith, w.0, h)) (omega arith),
)

-- On a text of three or more runes, none of them ASCII, formatForNamespace panics.
pub format_for_namespace_panics :
    (a b c : ℕ) (rs : List ℕ)
    → IsWide (a ∷ b ∷ c ∷ rs)
    → format_for_namespace (a ∷ b ∷ c ∷ rs) ≡ none
unfolding format_for_namespace format_from
format_for_namespace_panics a b c rs w = ground (
  arith,
  w.0,
  format_from_wide (a ∷ b ∷ c ∷ rs) (0 + rune_len a) b (c ∷ rs) w.1 (ground (arith, w.0))
      (ground (arith, w.0)),
)

abbrev pub AllAscii : List (List ℕ) → Type 0
AllAscii [] = Unit
AllAscii (v ∷ vs) = IsAscii v × AllAscii vs

join_from_ascii :
    (subject : List ℕ) (values : List (List ℕ))
    → IsAllowed subject
    → AllAscii values
    → (out : List ℕ) × (join_from (some subject) values ≡ some out) × IsAllowed out
unfolding join_from
join_from_ascii subject [] s a = (subject, refl, s)
join_from_ascii subject ([] ∷ values) s a = join_from_ascii subject values s a.1
join_from_ascii subject ((r ∷ rs) ∷ values) s a =
    let (formatted, allowed) = format_for_namespace_ascii (r ∷ rs) a.0 in
    let longer = subject ++ 46 ∷ format_after 0 (r ∷ rs) in
    rw formatted (
      join_from_ascii longer values
        (IsAllowed-append subject (46 ∷ format_after 0 (r ∷ rs)) s (refl, allowed)) a.1)

-- From ASCII values namespace makes a subject without a panic, of letters, digits, dashes, dots
-- and stars only.
pub namespace_ascii :
    (values : List (List ℕ))
    → AllAscii values
    → (out : List ℕ) × (namespace values ≡ some out) × IsAllowed out
unfolding namespace
namespace_ascii values a = join_from_ascii nats_subject_namespace values (ground arith) a
