-- ===== src/Edits/Security.antt =====
-- `security_opt`: normalize_security_opt, the entries that disable a profile, and the services that
-- another one extends.
use compose_lint.Prelude.{
  Bool, Char, List, Option, String, [], false, if◌then◌else◌, map, none, or_else, some, str_eq,
  true, ℕ, ◌&&◌, ◌+◌, ◌||◌, ◌∷◌,
}
use compose_lint.Text.{lower, mem_text, partition, replace_first, strip}
use compose_lint.Dict.{Dict, lookup, put}
use compose_lint.Value.{Value, as_dict, as_scalar_text, dict, entries, get, is_truthy, str}

abbrev pub disabled_security_profiles : List String
disabled_security_profiles = "seccomp:unconfined" ∷ "apparmor:unconfined" ∷ "label:disable" ∷ []

abbrev colon : Char
colon = ":"

unfoldable pub normalize_security_opt : Value → String
unfolding as_scalar_text strip lower replace_first
normalize_security_opt opt = elim (as_scalar_text opt) [
  | none ↦ ""
  | some text ↦ replace_first b'=' colon (lower (strip text))
]

unfoldable pub is_disabled_profile : String → Bool
unfolding mem_text
is_disabled_profile opt = mem_text opt disabled_security_profiles

abbrev parse_bool_true : List String
parse_bool_true = "1" ∷ "t" ∷ "true" ∷ []

abbrev parse_bool_false : List String
parse_bool_false = "0" ∷ "f" ∷ "false" ∷ []

-- One entry: what it sets the flag to, if it names it.
unfoldable pub flag_of : String × Option String → Option Bool
unfolding mem_text
flag_of (key, value) =
    if str_eq key "no-new-privileges"
    then elim value [
      | none ↦ some true
      | some text ↦
          if mem_text text parse_bool_true
          then some true
          else if mem_text text parse_bool_false
          then some false
          else none
    ]
    else none

set_flags : Bool → List Value → Bool
unfolding flag_of partition normalize_security_opt
set_flags effective [] = effective
set_flags effective (opt ∷ opts) =
    set_flags (or_else (flag_of (partition b':' (normalize_security_opt opt))) effective) opts

-- no_new_privileges_effective
unfoldable pub no_new_privileges_effective : List Value → Bool
unfolding set_flags
no_new_privileges_effective security_opt = set_flags false security_opt

-- The profile that each key ends up with: `last[key] = opt`.
note_last : Dict String → String → String × Option String → Dict String
unfolding put
note_last last opt (key, none) = last
note_last last opt (key, some _) =
    if str_eq key "seccomp" || str_eq key "apparmor" then put key opt last else last

unfoldable pub last_profiles : Dict String → List String → Dict String
unfolding note_last partition
last_profiles last [] = last
last_profiles last (opt ∷ opts) = last_profiles (note_last last opt (partition b':' opt)) opts

-- The entry leaves its profile disabled, given the profiles that the keys end up with.
unfoldable pub stays_disabled : Dict String → String → Bool
unfolding partition is_disabled_profile lookup
stays_disabled last opt =
    let key = (partition b':' opt).0 in
    is_disabled_profile opt
    && (str_eq key "label" || is_disabled_profile (or_else (lookup key last) ""))

indexes_from : Dict String → ℕ → List String → List ℕ
unfolding stays_disabled
indexes_from last i [] = []
indexes_from last i (opt ∷ opts) =
    let rest = indexes_from last (i + 1) opts in if stays_disabled last opt then i ∷ rest else rest

-- disabled_profile_indexes
unfoldable pub disabled_profile_indexes : List Value → List ℕ
unfolding normalize_security_opt last_profiles indexes_from
disabled_profile_indexes security_opt =
    let normalized = map normalize_security_opt security_opt in
    indexes_from (last_profiles [] normalized) 0 normalized

-- The service in this file that a configuration extends.
unfoldable pub text_value : Value → Option String
text_value (str s) = some s
text_value _ = none

extended_by : Value → Option String
unfolding text_value get
extended_by (str s) = some s
extended_by (dict e) =
    if is_truthy (get "file" (entries e)) then none else text_value (get "service" (entries e))
extended_by _ = none

targets_in : Dict Value → List String
unfolding extended_by get
targets_in [] = []
targets_in ((name, dict config) ∷ services) =
    let rest = targets_in services in
    elim (extended_by (get "extends" (entries config))) [
      | none ↦ rest
      | some target ↦ target ∷ rest
    ]
targets_in ((name, _) ∷ services) = targets_in services

-- extends_targets: a set, as the list of its members.
unfoldable pub extends_targets : Dict Value → List String
unfolding targets_in get
extends_targets document = elim (as_dict (get "services" document)) [
  | none ↦ []
  | some services ↦ targets_in services
]
