-- ===== src/Samples/Runs.antt =====
-- The engine and the units at the sample documents.
use compose_lint.Prelude.{
  All, Bool, List, Option, String, [], false, if◌then◌else◌, length, map, none, refl, some, str_eq,
  subst, sym, true, ℕ, ◌∙◌, ◌∷◌, ◌≡◌, ◌≤◌,
}
use compose_lint.Dict.{lookup}
use compose_lint.Models.{Finding, Severity, critical, finding, high, low, medium}
use compose_lint.Lines.{document}
use compose_lint.Units.{Unit', hook_name, kind_name}
use compose_lint.Units.Names.{kind_name-hook_name}
use compose_lint.Units.Listing.{count_units, units}
use compose_lint.Units.Listing.Bounds.{length-units-le}
use compose_lint.Engine.{ServiceEnvFiles, no_settings}
use compose_lint.Engine.Order.{filter_findings, sort_findings}
use compose_lint.Engine.Order.Stable.{IsSorted}
use compose_lint.Engine.Cached.{KeysOnly, Shared}
use compose_lint.Engine.Run.{Report, findings_of, grade_units, nothing_graded, run_rules}
use compose_lint.Engine.Run.Erase.{erase_report, run_rules-settings}
use compose_lint.Engine.Run.Suppress.{Passes, filter_findings-disabled}
use compose_lint.Engine.Run.Isolation.{drop_crashes, run_rules-isolation}
use compose_lint.Engine.Run.Limits.{WithinLimit, run_rules-ordered}
use compose_lint.Engine.Run.Once.{direct_units, grade_units-eq-direct}
use compose_lint.Rules.Registry.{modelled_rules, modelled_rules-Labelled, modelled_rules-disabled}
use compose_lint.Rules.Settings.{check_privileged, privileged_rule}
use compose_lint.Rules.Image.{check_image_not_pinned, image_not_pinned_rule}
use compose_lint.Samples.{
  broken_rule, document', env_input, env_keys, input, key_rule, line_map, mapping, strict,
}
use compose_lint.Text.{decimal}

abbrev names_of : List Unit' → List String
names_of us = map (λ u. u.name) us

sample_units :
    names_of (units document' line_map) ≡ "web" ∷ "web.pre_start[0]" ∷ "db" ∷ "jobs.seed" ∷ []
unfolding units decimal
sample_units = refl

sample_count : count_units document' ≡ 4
unfolding count_units
sample_count = refl

-- The rule and the line of each finding of a report, and whether it is suppressed.
abbrev summary : Report → List (String × Option ℕ × Bool)
summary r = map (λ f. (f.rule_id, f.line, f.suppressed)) (findings_of r)

sample_run :
    summary (run_rules (privileged_rule ∷ image_not_pinned_rule ∷ []) input)
    ≡ ("CL-0004", some 3, false) ∷ ("CL-0002", some 4, true) ∷ ("CL-0004", some 12, true) ∷ []
unfolding run_rules check_privileged check_image_not_pinned decimal
sample_run = refl

abbrev hook_unit : Unit'
hook_unit = record {
  name = "web.post_start[12]";
  config = mapping [];
  lines = document line_map;
  hook = true;
  env_key = none;
}

hook_unit_name : hook_unit.name ≡ hook_name "web" "post_start" 12
unfolding hook_name decimal
hook_unit_name = refl

kind_name-hook_name_example : kind_name hook_unit ≡ some "web.post_start"
kind_name-hook_name_example =
    kind_name-hook_name "web" "post_start" 12 hook_unit refl hook_unit_name

length-units-le_example : length (units document' line_map) ≤ count_units document'
length-units-le_example = length-units-le document' line_map

run_rules-settings_example :
    erase_report (run_rules modelled_rules input)
    ≡ erase_report (run_rules modelled_rules (record input { settings = no_settings }))
run_rules-settings_example = run_rules-settings modelled_rules input no_settings

run_rules-isolation_example :
    drop_crashes (run_rules (privileged_rule ∷ broken_rule ∷ image_not_pinned_rule ∷ []) input)
    ≡ drop_crashes (run_rules (privileged_rule ∷ image_not_pinned_rule ∷ []) input)
run_rules-isolation_example =
    run_rules-isolation (privileged_rule ∷ []) (image_not_pinned_rule ∷ []) broken_rule
      (λ name config. "KeyError: 'image'") input (λ name config data' lines. refl)

run_rules-ordered_example :
    IsSorted (findings_of (run_rules modelled_rules input))
    × WithinLimit (run_rules modelled_rules input)
run_rules-ordered_example = run_rules-ordered modelled_rules input

modelled_rules-disabled_example :
    All (Passes strict) (filter_findings (findings_of (run_rules modelled_rules input)) low)
modelled_rules-disabled_example = modelled_rules-disabled input low

filter_findings-disabled_example :
    All (Passes strict) (filter_findings (findings_of (run_rules modelled_rules input)) medium)
filter_findings-disabled_example =
    filter_findings-disabled modelled_rules input medium modelled_rules-Labelled

abbrev at : Severity → Option ℕ → Finding
at s line = finding "CL-0001" s "web" none "" line "" []

abbrev unsorted : List Finding
unsorted = at low none ∷ at high (some 9) ∷ at medium (some 2) ∷ at critical (some 9) ∷ []

sorted_sample :
    sort_findings unsorted
    ≡ at medium (some 2) ∷ at high (some 9) ∷ at critical (some 9) ∷ at low none ∷ []
unfolding sort_findings
sorted_sample = refl

key_rule-KeysOnly : KeysOnly key_rule
key_rule-KeysOnly ks c d = refl

abbrev IsEnvKeys : Option ServiceEnvFiles → Type 0
IsEnvKeys none = Unit
IsEnvKeys (some c) = c.available ≡ env_keys.available

env_input-IsEnvKeys : (k : String) → IsEnvKeys (lookup k env_input.env_files)
unfolding lookup
env_input-IsEnvKeys k = go (str_eq "web" k) (str_eq "db" k)
  where
    go : (a b : Bool) → IsEnvKeys (if a then some env_keys else if b then some env_keys else none)
    go true b = refl
    go false true = refl
    go false false = tt

env_input-Shared : Shared env_input.env_files
env_input-Shared j k c d h i same =
    let p : c.available ≡ env_keys.available = subst IsEnvKeys h (env_input-IsEnvKeys j) in
    let q : d.available ≡ env_keys.available = subst IsEnvKeys i (env_input-IsEnvKeys k) in
    p ∙ sym q

grade_units-eq-direct_example :
    grade_units env_input key_rule (units document' line_map) [] nothing_graded
    ≡ direct_units env_input key_rule (units document' line_map) nothing_graded
grade_units-eq-direct_example =
    grade_units-eq-direct env_input key_rule (units document' line_map) nothing_graded
      key_rule-KeysOnly env_input-Shared
