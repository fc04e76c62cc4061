-- ===== src/Rules.antt =====
-- What the rules of src/compose_lint/rules/ share: the paths they look up, and the mapping that they
-- take a unit's configuration for.
pub mod Caps
pub mod Image
pub mod Settings
pub mod Registry
use compose_lint.Prelude.{
  Bool, List, String, [], code, if◌then◌else◌, length, none, some, ℕ, ◌==◌, ◌∷◌,
}
use compose_lint.Text.{append}
use compose_lint.Dict.{Dict}
use compose_lint.Value.{Value, as_dict}
use compose_lint.Models.{Finding}
use compose_lint.Engine.{EnvFileKey, Result, ok, raised}

-- `f"services.{service_name}"` and `f"services.{service_name}.{key}"`
unfoldable pub service_path : String → String
service_path service_name = append "services." service_name

unfoldable pub field_path : String → String → String
unfolding service_path
field_path service_name key = append (service_path service_name) (append "." key)

-- `service_config.get(...)` on what is no mapping raises.
unfoldable pub on_mapping : Value → (Dict Value → List Finding) → Result (List Finding)
on_mapping v check = elim (as_dict v) [
  | none ↦ raised "AttributeError"
  | some config ↦ ok (check config)
]

-- A rule that yields one finding, when its setting is there, or when it is not.
abbrev pub when_set : Bool → Finding → List Finding
when_set b f = if b then f ∷ [] else []

abbrev pub when_absent : Bool → Finding → List Finding
when_absent b f = if b then [] else f ∷ []

-- BaseRule.check_env_file_keys: the default yields nothing.
abbrev pub no_env_file_keys : String → List EnvFileKey → Value → Result (List Finding)
no_env_file_keys service_name keys service_config = ok []

-- `inline` of src/compose_lint/_output.py
unfoldable pub inline : String → String
inline String.[] = ""
inline (String.◌∷◌ c s) =
    let rest = inline s in if code c == 10 then append "\\u000a" rest else String.◌∷◌ c rest

-- How many findings a check yields.
abbrev pub yield_count : Result (List Finding) → ℕ
yield_count (ok fs) = length fs
yield_count (raised e) = 0
