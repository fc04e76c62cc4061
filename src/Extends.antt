-- ===== src/Extends.antt =====
-- `_resolve_in_file_extends` of src/compose_lint/parser.py, on the values of the services: which
-- service each one inherits from, and what is refused. The loop puts each value back where it read
-- it; a merge of mappings is a mapping, so the test of a target's form reads the same either way. The
-- memo only saves work: it holds the merge of the same two objects. The line map, the count of
-- repeats that bounds it, and the texts of the gaps are left out.
pub mod Chain
pub mod Resolved
pub mod Ended
use compose_lint.Prelude.{
  Bool, List, Option, String, [], false, if◌then◌else◌, length, map, none, some, str_eq, suc, true,
  zero, ℕ, ◌++◌, ◌||◌, ◌∷◌,
}
use compose_lint.Text.{append, mem_text}
use compose_lint.Dict.{Dict, has_key, lookup, put}
use compose_lint.Value.{Value, dict, entries, get, null, str}
use compose_lint.Merge.Record.{Document, child, empty_recorder}
use compose_lint.Merge.Values.{merge_values}

-- _in_file_target
unfoldable pub in_file_target : Value → Option String
unfolding get has_key
in_file_target (dict e) = elim (get "extends" (entries e)) [
  | str s ↦ some s
  | dict ext ↦
      if has_key "file" (entries ext)
      then none
      else elim (get "service" (entries ext)) [ str s ↦ some s | _ ↦ none ]
  | _ ↦ none
]
in_file_target _ = none

-- `_this_document`, without lines.
abbrev this_document : List String → List String → Document
this_document resets overrides = record {
  path = "\0this-document";
  data' = [];
  lines = [];
  resets = resets;
  overrides = overrides;
  sources = none;
  gaps = [];
  env_values = [];
}

-- The `extends:` of one file: its services, those that came resolved, and its tagged paths.
pub record Family : Type 0 where
  pub services : Dict Value
  pub skip : List String
  pub resets : List String
  pub overrides : List String

-- The value of `merge_extended`.
unfoldable pub merge_extended : Family → String → String → Value → Value → Value
unfolding merge_values
merge_extended family target name parent config =
    (merge_values parent config ""
      (record { doc = this_document [] []; path = append "services." target })
      (record {
        doc = this_document family.resets family.overrides;
        path = append "services." name;
      })
      (append "services." name) empty_recorder).0

-- What a service asks for: nothing, a service that is not there, or one to inherit from.
pub data Plea : Type 0 where
  stays : Plea
  missing : String → Plea
  follows : String → Plea

unfoldable pub plea_for : Dict Value → Option String → Plea
unfolding has_key
plea_for services none = stays
plea_for services (some target) = if has_key target services then follows target else missing target

unfoldable pub plea : Family → String → Value → Plea
unfolding mem_text plea_for in_file_target
plea family name config =
    if mem_text name family.skip then stays else plea_for family.services (in_file_target config)

-- A refusal: the target, the reason, and the service that asked.
pub record Refusal : Type 0 where
  pub target : String
  pub reason : String
  pub child : String

pub record Resolving : Type 0 where
  pub resolved : Dict Value
  pub refused : List Refusal

unfoldable pub settle_as : String → Value → Resolving → Value × Resolving
unfolding put
settle_as name v s = (v, record s { resolved = put name v s.resolved })

unfoldable pub refuse : String → String → String → Resolving → Resolving
refuse target reason name s = record s {
  refused = s.refused ++ record { target = target; reason = reason; child = name } ∷ [];
}

unfoldable pub is_mapping : Value → Bool
is_mapping (dict _) = true
is_mapping _ = false

-- The parent's value, merged under the child's.
unfoldable pub inherit_from :
    Family → String → String → Value → Value × Resolving → Value × Resolving
unfolding merge_extended settle_as
inherit_from family target name config (parent, s) =
    settle_as name (merge_extended family target name parent config) s

-- One service that asks, given how to resolve its target.
unfoldable pub answer :
    Family
    → String
    → List String
    → Value
    → Plea
    → Resolving
    → (String → Value × Resolving)
    → Value × Resolving
unfolding settle_as refuse mem_text is_mapping get inherit_from
answer family name stack config stays s go = settle_as name config s
answer family name stack config (missing target) s go =
    settle_as name config
      (refuse target (append "this file declares no service '" (append target "'")) name s)
answer family name stack config (follows target) s go =
    if str_eq target name || mem_text target stack
    then settle_as name config
        (refuse target "the chain returns to a service it already inherited" name s)
    else if is_mapping (get target family.services)
    then inherit_from family target name config (go target)
    else settle_as name config s

-- _resolve, on fuel: the services that the stack can still take.
unfoldable pub resolve : ℕ → Family → String → List String → Resolving → Value × Resolving
unfolding answer plea lookup get
resolve zero family name stack s = (null, s)
resolve (suc fuel) family name stack s = elim (lookup name s.resolved) [
  | some v ↦ (v, s)
  | none ↦
      let config = get name family.services in
      answer family name stack config (plea family name config) s
        λ target. resolve fuel family target (name ∷ stack) s
]

abbrev pub family_fuel : Family → ℕ
family_fuel family = suc (length family.services)

-- The loop over the services: each with its value.
unfoldable pub resolve_each : Family → List String → Resolving → Dict Value × Resolving
unfolding resolve
resolve_each family [] s = ([], s)
resolve_each family (name ∷ names) s =
    let (v, s') = resolve (family_fuel family) family name [] s in
    let (rest, s'') = resolve_each family names s' in ((name, v) ∷ rest, s'')

-- _resolve_in_file_extends
unfoldable pub resolve_extends : Family → Dict Value × List Refusal
unfolding resolve_each
resolve_extends family =
    let (services, s) =
      resolve_each family (map (λ e. e.0) family.services)
        (record { resolved = []; refused = [] }) in
    (services, s.refused)
