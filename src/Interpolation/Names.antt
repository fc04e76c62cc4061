-- ===== src/Interpolation/Names.antt =====
-- `reference_names`: the variables that a text interpolates, defaults and alternates included.
pub mod Lengths
pub mod Wanted
pub mod Fuel
use compose_lint.Prelude.{
  Char, List, Option, String, [], if◌then◌else◌, ltb, none, some, suc, zero, ℕ, ◌++◌, ◌+◌, ◌-◌, ◌∷◌,
}
use compose_lint.Text.{len, slice}
use compose_lint.Interpolation.{
  Turn, alternate_of, bare_dollar, bare_name, default_of, escaped, in_braces, literal,
  matching_brace, max_scan_len, ref_head, turn,
}

-- The name at the head of an interior.
unfoldable pub head_name : String → List String
unfolding ref_head
head_name interior = elim (ref_head interior) [ none ↦ [] | some h ↦ h.name ∷ [] ]

names_in : (String → List String) → Option String → List String
names_in inner none = []
names_in inner (some text) = inner text

interior_names : (String → List String) → String → List String
unfolding head_name names_in default_of alternate_of
interior_names inner interior =
    head_name interior
    ++ (names_in inner (default_of interior) ++ names_in inner (alternate_of interior))

bare_names : Option (String × String) → List String × ℕ
bare_names none = ([], 0)
bare_names (some (name, rest)) = (name ∷ [], len name)

braced_names : (String → List String) → String → ℕ → Option ℕ → List String × ℕ
unfolding interior_names slice
braced_names inner value i none = ([], 0)
braced_names inner value i (some close) =
    (interior_names inner (slice (i + 2) close value), close - i)

names_turn : (String → List String) → String → ℕ → String → Turn → List String × ℕ
unfolding bare_names braced_names matching_brace bare_name
names_turn inner value i s literal = ([], 0)
names_turn inner value i s escaped = ([], 1)
names_turn inner value i s in_braces = braced_names inner value i (matching_brace value (i + 1))
names_turn inner value i s bare_dollar = bare_names (bare_name s)

-- The names at index `i`, and the number of characters behind it that they take.
unfoldable pub names_at : (String → List String) → String → ℕ → Char → String → List String × ℕ
unfolding names_turn turn
names_at inner value i c String.[] = ([], 0)
names_at inner value i c (String.◌∷◌ d s) = names_turn inner value i (String.◌∷◌ d s) (turn c d)

unfoldable pub names_from : (String → List String) → String → ℕ → ℕ → String → List String
unfolding names_at
names_from inner value skip i String.[] = []
names_from inner value (suc skip) i (String.◌∷◌ c s) = names_from inner value skip (i + 1) s
names_from inner value zero i (String.◌∷◌ c s) =
    let (found, skip) = names_at inner value i c s in found ++ names_from inner value skip (i + 1) s

-- The recursion into an interior, which is shorter than its text; the fuel is one more than the
-- length of the text.
unfoldable pub names_within : ℕ → String → List String
unfolding names_from
names_within zero value = []
names_within (suc fuel) value =
    if ltb max_scan_len (len value) then [] else names_from (names_within fuel) value 0 0 value

-- reference_names, where the interpreter's stack holds: the program recurses into each default and
-- alternate without a bound on their nesting, and raises where that is deeper.
unfoldable pub reference_names : String → List String
unfolding names_within
reference_names value = names_within (suc (len value)) value
