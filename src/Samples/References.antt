-- ===== src/Samples/References.antt =====
-- Interpolation at small texts.
use compose_lint.Prelude.{
  All, String, [], false, map, none, refl, some, subst, sym, true, ◌∷◌, ◌≡◌, ◌≤◌, ◌⊎◌,
}
use compose_lint.Dict.{Dict, lookup}
use compose_lint.Text.{len}
use compose_lint.Interpolation.{
  Head, colon_dash, default_of, matching_brace, max_substituted_len, ref_head, supplied,
}
use compose_lint.Interpolation.Braces.{closing, matching_brace-eq-closing}
use compose_lint.Interpolation.Table.{outcome, presence, resolved_to, supplied-table}
use compose_lint.Interpolation.Resolve.{
  drop_escapes, exceeds_limits, has_reference, max_levels, resolve_defaults, ships_no_literal,
  substitute_defaults,
}
use compose_lint.Interpolation.Resolve.Limits.{
  LeavesReference, exceeds_limits-substitute_defaults, len-resolve_defaults,
}
use compose_lint.Interpolation.Names.{reference_names}
use compose_lint.Interpolation.Names.Wanted.{Same, reference_names-substitute_defaults}

abbrev nested : String
nested = "${A:-front-${B:-back}-tail}"

nested_default : substitute_defaults nested [] ≡ some "front-back-tail"
unfolding substitute_defaults
nested_default = refl

brace_default : substitute_defaults "${CONF:-{\"a\":1}}" [] ≡ some "{\"a\":1}"
unfolding substitute_defaults
brace_default = refl

no_default : substitute_defaults "u:${PW}@db" [] ≡ none
unfolding substitute_defaults
no_default = refl

supplied_first : substitute_defaults "${B:-x}/$$A/$B" (("B", "back") ∷ []) ≡ some "back/$$A/back"
unfolding substitute_defaults
supplied_first = refl

names_of_nested : reference_names "${A:-${B}}$C/${D:+$E}" ≡ "A" ∷ "B" ∷ "C" ∷ "D" ∷ "E" ∷ []
unfolding reference_names
names_of_nested = refl

literal_of :
    map ships_no_literal ("${PW}" ∷ "\"${PW:?set it}\"" ∷ "hunter2$X" ∷ "${PW:-x}" ∷ [])
    ≡ true ∷ true ∷ false ∷ false ∷ []
unfolding ships_no_literal
literal_of = refl

matching_brace-eq-closing_example : matching_brace "${A:-{x}}" 1 ≡ closing 0 2 "A:-{x}}"
matching_brace-eq-closing_example = matching_brace-eq-closing "$" "A:-{x}}" "{" refl

abbrev env : Dict String
env = ("V", "") ∷ []

abbrev head : Head
head = record { name = "V"; op = some colon_dash; rest = "DEF" }

head_of : ref_head "V:-DEF" ≡ some head
unfolding ref_head
head_of = refl

supplied-table_example :
    outcome (supplied "V:-DEF" env) (default_of "V:-DEF")
    ≡ resolved_to head.op head.rest (presence (lookup head.name env))
supplied-table_example = supplied-table "V:-DEF" env head head_of

has_nested_reference : has_reference (drop_escapes "u:${PW}") ≡ true
unfolding has_reference drop_escapes
has_nested_reference = refl

exceeds_limits-substitute_defaults_example :
    (exceeds_limits "u:${PW}" [] ≡ true → substitute_defaults "u:${PW}" [] ≡ none)
    × (substitute_defaults "u:${PW}" [] ≡ none
        → (exceeds_limits "u:${PW}" [] ≡ true)
          ⊎ LeavesReference (resolve_defaults max_levels [] "u:${PW}"))
exceeds_limits-substitute_defaults_example =
    exceeds_limits-substitute_defaults "u:${PW}" [] has_nested_reference

nested_resolved : resolve_defaults 3 [] nested ≡ some "front-back-tail"
unfolding resolve_defaults
nested_resolved = refl

len-resolve_defaults_example : len "front-back-tail" ≤ max_substituted_len
len-resolve_defaults_example = len-resolve_defaults 3 [] nested "front-back-tail" nested_resolved

names_of_default : reference_names nested ≡ "A" ∷ "B" ∷ []
unfolding reference_names
names_of_default = refl

abbrev wide : Dict String
wide = ("B", "back") ∷ ("X", "1") ∷ []

abbrev narrow : Dict String
narrow = ("B", "back") ∷ []

same_a : lookup "A" wide ≡ lookup "A" narrow
unfolding lookup
same_a = refl

same_b : lookup "B" wide ≡ lookup "B" narrow
unfolding lookup
same_b = refl

-- The two differ in a name that the text does not read.
agreement : All (Same wide narrow) (reference_names nested)
agreement = subst (All (Same wide narrow)) (sym names_of_default) (same_a, (same_b, tt))

reference_names-substitute_defaults_example :
    substitute_defaults nested wide ≡ substitute_defaults nested narrow
reference_names-substitute_defaults_example =
    reference_names-substitute_defaults wide narrow nested agreement
