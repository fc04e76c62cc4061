-- ===== src/EnvFile/Resolve.antt =====
-- `_expand` and `_resolve`: the values that a `.env` supplies.
pub mod Disjoint
pub mod Fuel
use compose_lint.Prelude.{
  Bool, Char, List, Option, String, [], if◌then◌else◌, ltb, none, not, select, some, str_eq, suc,
  true, zero, ℕ, ◌&&◌, ◌+◌, ◌-◌, ◌∷◌,
}
use compose_lint.Text.{len, mem_text, slice}
use compose_lint.Dict.{Dict, lookup, put, remove}
use compose_lint.Interpolation.{
  Turn, bare_dollar, bare_name, default_of, escaped, in_braces, literal, matching_brace,
  max_substituted_len, turn,
}
use compose_lint.Interpolation.Resolve.{and_rest}
use compose_lint.EnvFile.{EnvEntry}

-- _substitute, given how a default is expanded.
substitute_interior : (String → Option String) → Dict String → String → Option String
unfolding bare_name lookup default_of
substitute_interior inner defined interior = elim (bare_name interior) [
  | none ↦ none
  | some (key, rest) ↦ elim (lookup key defined) [
    | some value ↦ some value
    | none ↦ elim (default_of interior) [ none ↦ none | some default ↦ inner default ]
  ]
]

expand_braced :
    (String → Option String) → Dict String → String → ℕ → Char → Option ℕ → Option (String × ℕ)
unfolding substitute_interior slice
expand_braced inner defined value i c none = some (String.◌∷◌ c "", 0)
expand_braced inner defined value i c (some close) =
    elim (substitute_interior inner defined (slice (i + 2) close value)) [
      | none ↦ none
      | some substituted ↦ some (substituted, close - i)
    ]

expand_bare : Dict String → Char → Option (String × String) → Option (String × ℕ)
unfolding lookup
expand_bare defined c none = some (String.◌∷◌ c "", 0)
expand_bare defined c (some (name, rest)) = elim (lookup name defined) [
  | none ↦ none
  | some value ↦ some (value, len name)
]

expand_turn :
    (String → Option String) → Dict String → String → ℕ → Char → String → Turn → Option (String × ℕ)
unfolding expand_braced expand_bare matching_brace bare_name
expand_turn inner defined value i c s literal = some (String.◌∷◌ c "", 0)
expand_turn inner defined value i c s escaped = some ("$", 1)
expand_turn inner defined value i c s in_braces =
    expand_braced inner defined value i c (matching_brace value (i + 1))
expand_turn inner defined value i c s bare_dollar = expand_bare defined c (bare_name s)

expand_at :
    (String → Option String) → Dict String → String → ℕ → Char → String → Option (String × ℕ)
unfolding expand_turn turn
expand_at inner defined value i c String.[] = some (String.◌∷◌ c "", 0)
expand_at inner defined value i c (String.◌∷◌ d s) =
    expand_turn inner defined value i c (String.◌∷◌ d s) (turn c d)

-- The loop of _expand: `skip` characters belong to the last reference.
unfoldable pub expand_from :
    (String → Option String) → Dict String → String → ℕ → ℕ → ℕ → String → Option String
unfolding expand_at and_rest
expand_from inner defined value skip i produced String.[] =
    if ltb max_substituted_len produced then none else some ""
expand_from inner defined value (suc skip) i produced (String.◌∷◌ c s) =
    expand_from inner defined value skip (i + 1) produced s
expand_from inner defined value zero i produced (String.◌∷◌ c s) =
    and_rest
      (if ltb max_substituted_len produced then none else expand_at inner defined value i c s)
      λ skip n. expand_from inner defined value skip (i + 1) (produced + n) s

-- A default is shorter than its text: the fuel is one more than the length of the text.
unfoldable pub expand_within : ℕ → Dict String → String → Option String
unfolding expand_from
expand_within zero defined value = none
expand_within (suc fuel) defined value =
    expand_from (expand_within fuel defined) defined value 0 0 0 value

-- _expand, where the interpreter's stack holds: the program recurses into each default without a
-- bound on their nesting.
unfoldable pub expand : Dict String → String → Option String
unfolding expand_within
expand defined value = expand_within (suc (len value)) defined value

-- `values` and `unresolved`.
pub record Resolution : Type 0 where
  pub values : Dict String
  pub unresolved : List String

-- `s.discard(k)`
unfoldable pub discard : String → List String → List String
discard k [] = []
discard k (j ∷ js) = let rest = discard k js in if str_eq k j then rest else j ∷ rest

unfoldable pub fails : String → Resolution → Resolution
unfolding remove
fails key r = record { values = remove key r.values; unresolved = key ∷ r.unresolved }

unfoldable pub binds : String → String → Resolution → Resolution
unfolding put discard
binds key value r = record {
  values = put key value r.values;
  unresolved = discard key r.unresolved;
}

unfoldable pub resolve_entry : Option String → String → Resolution → Resolution
unfolding fails binds
resolve_entry none key r = fails key r
resolve_entry (some value) key r = binds key value r

-- What an entry is resolved to: a bare key is a lookup in the process environment, or empty.
entry_value : Bool → EnvEntry → Dict String → Option String
unfolding expand
entry_value bare_is_empty e values =
    if e.bare && not bare_is_empty
    then none
    else if not e.expands
    then some e.raw
    else expand values e.raw

is_needed : Option (List String) → String → Bool
unfolding mem_text
is_needed none key = true
is_needed (some names) key = mem_text key names

unfoldable pub resolve_entries :
    Option (List String) → Bool → List EnvEntry → Resolution → Resolution
unfolding resolve_entry entry_value is_needed
resolve_entries needed bare_is_empty [] r = r
resolve_entries needed bare_is_empty (e ∷ es) r = resolve_entries needed bare_is_empty es (
    if is_needed needed e.key
    then resolve_entry (entry_value bare_is_empty e r.values) e.key r
    else r)

needed_values : Option (List String) → Dict String → Dict String
unfolding is_needed
needed_values needed [] = []
needed_values needed ((k, v) ∷ d) =
    let rest = needed_values needed d in if is_needed needed k then (k, v) ∷ rest else rest

-- _resolve
unfoldable pub resolve : Option (List String) → Bool → Dict String → List EnvEntry → Resolution
unfolding resolve_entries needed_values is_needed
resolve needed bare_is_empty initial es =
    let r =
      resolve_entries needed bare_is_empty es (record { values = initial; unresolved = [] }) in
    record {
      values = needed_values needed r.values;
      unresolved = select (is_needed needed) r.unresolved;
    }
