-- ===== src/Engine/Run.antt =====
-- `run_rules` of src/compose_lint/engine.py.
pub mod Erase
pub mod Invariant
pub mod Suppress
pub mod Isolation
pub mod Limits
pub mod Once
use compose_lint.Prelude.{
  Bool, List, String, [], if◌then◌else◌, length, ltb, map, none, some, ℕ, ◌++◌, ◌∷◌,
}
use compose_lint.Dict.{Dict, lookup, put}
use compose_lint.Value.{Value, of_items, seq}
use compose_lint.Models.{Finding}
use compose_lint.Units.{Unit'}
use compose_lint.Units.Listing.{units}
use compose_lint.Engine.{
  Cache, Result, Rule, ServiceEnvFiles, Settings, attributed, check_unit, ok, raised, regrade,
}
use compose_lint.Engine.Quote.{EnvValues, quote_references}
use compose_lint.Engine.Order.{sort_findings}

abbrev pub max_findings : ℕ
max_findings = 20000

-- A crash as `on_error` receives it: the rule, the unit and the exception.
abbrev pub Crash : Type 0
Crash = String × String × String

pub record Grading : Type 0 where
  pub findings : List Finding
  pub crashes : List Crash

-- The grading goes on, or has passed the limit.
pub data Outcome : Type 0 where
  going : Grading → Outcome
  stopped : Grading → Outcome

-- Everything about a run but its rules.
pub record Input : Type 0 where
  pub data' : Dict Value
  pub lines : Dict ℕ
  pub settings : Settings
  pub env_files : Dict ServiceEnvFiles
  pub env_values : EnvValues

-- One rule on the units that are left; `result` is what it returned for the unit at hand.
abbrev limit_reached : Grading → Bool
limit_reached g = ltb max_findings (length g.findings)

add_findings : Settings → String → Unit' → List Finding → Grading → Grading
unfolding attributed regrade
add_findings settings rule_id u fs g = record g {
  findings = g.findings ++ map (regrade settings rule_id u) (attributed u fs);
}

abbrev add_crash : String → String → String → Grading → Grading
add_crash rule_id service_name e g = record g {
  crashes = g.crashes ++ (rule_id, service_name, e) ∷ [];
}

-- The test behind each unit's findings.
bounded : Grading → Outcome
bounded g = if limit_reached g then stopped g else going g

-- What one unit's result does to the state: whether the loop stops, and the state after it.
unfoldable pub step : Settings → String → Unit' → Result (List Finding) → Grading → Outcome
unfolding add_findings bounded
step settings rule_id u (raised e) g = going (add_crash rule_id u.name e g)
step settings rule_id u (ok fs) g = bounded (add_findings settings rule_id u fs g)

unfoldable pub and_then : Outcome → (Grading → Outcome) → Outcome
and_then (going g) k = k g
and_then (stopped g) k = stopped g

unfoldable pub grade_units : Input → Rule → List Unit' → Cache → Grading → Outcome
unfolding check_unit step and_then
grade_units input rule [] graded g = going g
grade_units input rule (u ∷ us) graded g =
    let (result, graded') = check_unit rule input.data' input.env_files u graded in
    and_then (step input.settings rule.id u result g) (grade_units input rule us graded')

unfoldable pub grade_rules : Input → List Rule → List Unit' → Grading → Outcome
unfolding grade_units and_then
grade_rules input [] us g = going g
grade_rules input (rule ∷ rules) us g =
    and_then (grade_units input rule us [] g) (grade_rules input rules us)

-- `by_name`: the mapping of each unit, or of all the units that share the name.
unfoldable pub by_name : List Unit' → Dict Value → Dict Value
unfolding lookup put
by_name [] d = d
by_name (u ∷ us) d = by_name us (
    put u.name
      (elim (lookup u.name d) [ none ↦ u.config | some v ↦ seq (of_items (v ∷ u.config ∷ [])) ]) d)

-- What `run_rules` returns, or the `FindingLimitError` that it raises, with the crashes reported.
pub data Report : Type 0 where
  graded_all : List Finding → List Crash → Report
  limit_error : List Finding → List Crash → Report

abbrev pub findings_of : Report → List Finding
findings_of (graded_all fs cs) = fs
findings_of (limit_error fs cs) = fs

abbrev pub crashes_of : Report → List Crash
crashes_of (graded_all fs cs) = cs
crashes_of (limit_error fs cs) = cs

-- `if env_values:` before the sort.
finish : EnvValues → List Unit' → List Finding → List Finding
unfolding quote_references by_name sort_findings
finish [] us fs = sort_findings fs
finish (e ∷ es) us fs = sort_findings (quote_references (by_name us []) (e ∷ es) fs)

report : EnvValues → List Unit' → Outcome → Report
unfolding finish
report env us (going g) = graded_all (finish env us g.findings) g.crashes
report env us (stopped g) = limit_error (finish env us g.findings) g.crashes

abbrev pub nothing_graded : Grading
nothing_graded = record { findings = []; crashes = [] }

-- run_rules, over the registered rules.
unfoldable pub run_rules : List Rule → Input → Report
unfolding report grade_rules units
run_rules rules input =
    let us = units input.data' input.lines in
    report input.env_values us (grade_rules input rules us nothing_graded)
