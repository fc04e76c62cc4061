-- ===== src/Engine.antt =====
-- src/compose_lint/engine.py: what the engine asks of a rule, and how one rule's findings on one
-- unit are graded against the configuration.
pub mod Quote
pub mod Order
pub mod Cached
pub mod Run
use compose_lint.Prelude.{
  Bool, List, Option, String, [], if◌then◌else◌, is_some, map, none, not, or_else, or_text, select,
  some, true, ℕ, ◌++◌, ◌==◌, ◌∷◌,
}
use compose_lint.Text.{append, mem_text}
use compose_lint.Dict.{Dict, has_key, lookup}
use compose_lint.Value.{Value}
use compose_lint.Models.{Finding, Severity, severity_eq}
use compose_lint.Lines.{LineView}
use compose_lint.Units.{Unit', kind_name}

-- What a call returns, or the text of the exception that it raises.
pub data Result {ℓ} (A : Type ℓ) : Type ℓ where
  ok : A → Result A
  raised : String → Result A

-- A key that an `env_file:` target contributes.
pub record EnvFileKey : Type 0 where
  pub key : String
  pub value : String
  pub source_file : String
  pub line : ℕ
  pub path : String

-- ServiceEnvFiles. `ident` is the identity of the `available` tuple, which services share.
pub record ServiceEnvFiles : Type 0 where
  pub ident : ℕ
  pub available : List EnvFileKey
  pub shadowed : List String

-- ServiceEnvFiles.keys
unfoldable pub contributed_keys : ServiceEnvFiles → List EnvFileKey
unfolding mem_text
contributed_keys c = elim c.shadowed [
  | [] ↦ c.available
  | _ ∷ _ ↦ select (λ k. not (mem_text k.key c.shadowed)) c.available
]

-- BaseRule: the two methods that the engine calls, each from the unit's name on.
pub record Rule : Type 0 where
  pub id : String
  pub check : String → Value → Dict Value → LineView → Result (List Finding)
  pub check_env_file_keys : String → List EnvFileKey → Value → Result (List Finding)

-- The `.compose-lint.yml` settings of a run, and the name of the file that they were read from.
pub record Settings : Type 0 where
  pub disabled : Dict (Option String)
  pub overrides : Dict Severity
  pub excluded : Dict (Dict (Option String))
  pub config_name : String

abbrev pub no_settings : Settings
no_settings = record {
  disabled = [];
  overrides = [];
  excluded = [];
  config_name = ".compose-lint.yml";
}

-- _excluded_as
unfoldable pub excluded_as : Unit' → Dict (Option String) → Option String
unfolding has_key kind_name
excluded_as u rule_excluded =
    if has_key u.name rule_excluded then some u.name else elim (kind_name u) [
      | none ↦ none
      | some kind ↦ if has_key kind rule_excluded then some kind else none
    ]

-- `d[k] or None`
abbrev pub reason_of : String → Dict (Option String) → Option String
reason_of k d = or_text (or_else (lookup k d) none) none

-- The severity override: recorded where it changes the finding's own severity.
override_severity : Option Severity → Finding → Finding
override_severity none f = f
override_severity (some s) f =
    if severity_eq s f.severity
    then record f { severity = s }
    else record f { severity = s; severity_overridden_from = some f.severity }

suppress : Option String → String → Finding → Finding
suppress reason by f = record f {
  suppressed = true;
  suppression_reason = reason;
  suppressed_by = some by;
}

unfoldable pub exclude : Option String → Dict (Option String) → String → Finding → Finding
unfolding suppress lookup
exclude none rule_excluded config_name f = f
exclude (some name) rule_excluded config_name f =
    suppress (reason_of name rule_excluded)
      (append "excluded for service '" (append name (append "' in " config_name))) f

-- The body of the loop over one unit's findings.
unfoldable pub regrade : Settings → String → Unit' → Finding → Finding
unfolding has_key lookup excluded_as override_severity suppress exclude
regrade s rule_id u f =
    if has_key rule_id s.disabled
    then suppress (reason_of rule_id s.disabled) (append "disabled in " s.config_name) f
    else let rule_excluded = or_else (lookup rule_id s.excluded) [] in
      exclude (excluded_as u rule_excluded) rule_excluded s.config_name
        (override_severity (lookup rule_id s.overrides) f)

-- `graded`: one rule's findings on each shared key set, by the identity of the set.
abbrev pub Cache : Type 0
Cache = List (ℕ × List Finding)

unfoldable pub cached : ℕ → Cache → Option (List Finding)
cached i [] = none
cached i ((j, fs) ∷ c) = if i == j then some fs else cached i c

-- `finding.evidence not in shadowed`
not_shadowed : List String → Finding → Bool
unfolding mem_text
not_shadowed shadowed f = elim f.evidence [ none ↦ true | some e ↦ not (mem_text e shadowed) ]

abbrev rename : String → Finding → Finding
rename service_name f = record f { service = service_name }

own_findings : String → List String → List Finding → List Finding
unfolding not_shadowed
own_findings service_name shadowed template =
    map (rename service_name) (select (not_shadowed shadowed) template)

grade_template :
    String → ServiceEnvFiles → Cache → Result (List Finding) → Result (List Finding) × Cache
unfolding own_findings
grade_template service_name contributed graded (ok template) = (
  ok (own_findings service_name contributed.shadowed template),
  (contributed.ident, template) ∷ graded,
)
grade_template service_name contributed graded (raised e) = (raised e, graded)

-- _env_file_findings
unfoldable pub env_file_findings :
    Rule → String → ServiceEnvFiles → Value → Cache → Result (List Finding) × Cache
unfolding grade_template own_findings cached
env_file_findings rule service_name contributed service_config graded =
    elim (cached contributed.ident graded) [
      | some template ↦ (ok (own_findings service_name contributed.shadowed template), graded)
      | none ↦
          grade_template service_name contributed graded
            (rule.check_env_file_keys "" contributed.available service_config)
    ]

abbrev also : List Finding → Result (List Finding) × Cache → Result (List Finding) × Cache
also fs (ok gs, graded) = (ok (fs ++ gs), graded)
also fs (raised e, graded) = (raised e, graded)

-- `(env_files or {}).get(unit.env_key)` and the test that it contributes a key.
contribution : Dict ServiceEnvFiles → Option String → Option ServiceEnvFiles
unfolding lookup contributed_keys
contribution env_files none = none
contribution env_files (some key) = elim (lookup key env_files) [
  | none ↦ none
  | some c ↦ elim (contributed_keys c) [ [] ↦ none | _ ∷ _ ↦ some c ]
]

with_env_files :
    Rule
    → Dict ServiceEnvFiles
    → Unit'
    → Cache
    → Result (List Finding)
    → Result (List Finding) × Cache
unfolding contribution env_file_findings
with_env_files rule env_files u graded (raised e) = (raised e, graded)
with_env_files rule env_files u graded (ok fs) = elim (contribution env_files u.env_key) [
  | none ↦ (ok fs, graded)
  | some c ↦ also fs (env_file_findings rule u.name c u.config graded)
]

-- The `try` of the loop over the units.
unfoldable pub check_unit :
    Rule → Dict Value → Dict ServiceEnvFiles → Unit' → Cache → Result (List Finding) × Cache
unfolding with_env_files
check_unit rule data' env_files u graded =
    with_env_files rule env_files u graded (rule.check u.name u.config data' u.lines)

-- A hook's finding with no line belongs to its parent.
unfoldable pub attributed : Unit' → List Finding → List Finding
attributed u fs = if u.hook then select (λ f. is_some f.line) fs else fs
