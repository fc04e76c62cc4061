-- ===== src/Engine/Run/Limits.antt =====
-- The reports of a run are in order, and the limit error is raised exactly past the limit.
use compose_lint.Prelude.{
  Bool-cases, List, String, [], ap, arith, inl, inr, length, ltb→lt, not-ltb→le, refl, suc, ◌+◌,
  ◌<◌, ◌∙◌, ◌∷◌, ◌≡◌, ◌≤◌,
}
use compose_lint.Value.{Value}
use compose_lint.Dict.{Dict}
use compose_lint.Models.{Finding}
use compose_lint.Units.{Unit'}
use compose_lint.Units.Listing.{units}
use compose_lint.Engine.{Cache, Result, Rule, Settings, check_unit, ok, raised}
use compose_lint.Engine.Quote.{EnvValues, quote_references}
use compose_lint.Engine.Order.{insert_finding, line_le, sort_findings}
use compose_lint.Engine.Order.Stable.{IsSorted, sort_findings-IsSorted}
use compose_lint.Engine.Run.{
  Grading, Input, Outcome, Report, add_findings, and_then, bounded, by_name, findings_of, finish,
  going, grade_rules, grade_units, graded_all, limit_error, limit_reached, max_findings,
  nothing_graded, report, run_rules, step, stopped,
}

finish-IsSorted :
    (env : EnvValues) (us : List Unit') (fs : List Finding) → IsSorted (finish env us fs)
unfolding finish
finish-IsSorted [] us fs = sort_findings-IsSorted fs
finish-IsSorted (e ∷ es) us fs =
    sort_findings-IsSorted (quote_references (by_name us []) (e ∷ es) fs)

report-IsSorted :
    (env : EnvValues) (us : List Unit') (o : Outcome) → IsSorted (findings_of (report env us o))
unfolding report
report-IsSorted env us (going g) = finish-IsSorted env us g.findings
report-IsSorted env us (stopped g) = finish-IsSorted env us g.findings

length-insert_finding :
    (f : Finding) (gs : List Finding) → length (insert_finding f gs) ≡ length gs + 1
unfolding insert_finding
length-insert_finding f [] = omega arith
length-insert_finding f (g ∷ gs) = elim (Bool-cases (line_le f.line g.line)) [
  | inl e ↦ rw e (omega arith)
  | inr e ↦ rw e (omega (arith, length-insert_finding f gs))
]

length-sort_findings : (fs : List Finding) → length (sort_findings fs) ≡ length fs
unfolding sort_findings
length-sort_findings [] = refl
length-sort_findings (f ∷ fs) =
    omega (arith, length-insert_finding f (sort_findings fs), length-sort_findings fs)

length-quote_references :
    (services : Dict Value) (env : EnvValues) (fs : List Finding)
    → length (quote_references services env fs) ≡ length fs
unfolding quote_references
length-quote_references services env [] = refl
length-quote_references services env (f ∷ fs) = ap suc (length-quote_references services env fs)

length-finish :
    (env : EnvValues) (us : List Unit') (fs : List Finding) → length (finish env us fs) ≡ length fs
unfolding finish
length-finish [] us fs = length-sort_findings fs
length-finish (e ∷ es) us fs =
    let quoted = quote_references (by_name us []) (e ∷ es) fs in
    length-sort_findings quoted ∙ length-quote_references (by_name us []) (e ∷ es) fs

-- A state within the limit, or one just past it.
abbrev Fits : Outcome → Type 0
Fits (going g) = length g.findings ≤ max_findings
Fits (stopped g) = max_findings < length g.findings

bounded-Fits : (g : Grading) → Fits (bounded g)
unfolding bounded
bounded-Fits g = elim (Bool-cases (limit_reached g)) [
  | inl e ↦ rw e (ltb→lt max_findings (length g.findings) e)
  | inr e ↦ rw e (not-ltb→le max_findings (length g.findings) e)
]

step-Fits :
    (s : Settings) (id : String) (u : Unit') (r : Result (List Finding)) (g : Grading)
    → length g.findings ≤ max_findings
    → Fits (step s id u r g)
unfolding step
step-Fits s id u (raised e) g h = h
step-Fits s id u (ok fs) g h = bounded-Fits (add_findings s id u fs g)

and_then-Fits :
    (o : Outcome) (k : Grading → Outcome)
    → Fits o
    → ((g : Grading) → length g.findings ≤ max_findings → Fits (k g))
    → Fits (and_then o k)
unfolding and_then
and_then-Fits (going g) k h next = next g h
and_then-Fits (stopped g) k h next = h

grade_units-Fits :
    (input : Input) (rule : Rule) (us : List Unit') (graded : Cache) (g : Grading)
    → length g.findings ≤ max_findings
    → Fits (grade_units input rule us graded g)
unfolding grade_units
grade_units-Fits input rule [] graded g h = h
grade_units-Fits input rule (u ∷ us) graded g h =
    let (result, graded') = check_unit rule input.data' input.env_files u graded in
    and_then-Fits (step input.settings rule.id u result g) (grade_units input rule us graded')
      (step-Fits input.settings rule.id u result g h)
      λ g' h'. grade_units-Fits input rule us graded' g' h'

grade_rules-Fits :
    (input : Input) (rules : List Rule) (us : List Unit') (g : Grading)
    → length g.findings ≤ max_findings
    → Fits (grade_rules input rules us g)
unfolding grade_rules
grade_rules-Fits input [] us g h = h
grade_rules-Fits input (rule ∷ rules) us g h =
    and_then-Fits (grade_units input rule us [] g) (grade_rules input rules us)
      (grade_units-Fits input rule us [] g h) λ g' h'. grade_rules-Fits input rules us g' h'

-- What the kind of a report says of the number of its findings.
abbrev pub WithinLimit : Report → Type 0
WithinLimit (graded_all fs cs) = length fs ≤ max_findings
WithinLimit (limit_error fs cs) = max_findings < length fs

report-WithinLimit :
    (env : EnvValues) (us : List Unit') (o : Outcome) → Fits o → WithinLimit (report env us o)
unfolding report
report-WithinLimit env us (going g) h = rw (length-finish env us g.findings) h
report-WithinLimit env us (stopped g) h = rw (length-finish env us g.findings) h

-- A run's findings stand in the order of their lines, those without one last; a run that returns
-- has `max_findings` of them at most, and one that raises the limit error carries more than that.
pub run_rules-ordered :
    (rules : List Rule) (input : Input)
    → IsSorted (findings_of (run_rules rules input)) × WithinLimit (run_rules rules input)
unfolding run_rules
run_rules-ordered rules input =
    let us = units input.data' input.lines in
    let o = grade_rules input rules us nothing_graded in
    (
      report-IsSorted input.env_values us o,
      report-WithinLimit input.env_values us o
          (grade_rules-Fits input rules us nothing_graded (omega arith)),
    )
