-- ===== src/Engine/Run/Erase.antt =====
-- The settings of a run label findings and re-grade them; they add, drop and reorder none.
use compose_lint.Value.{Value}
use compose_lint.Units.Listing.{units}
use compose_lint.Prelude.{
  Bool-cases, List, Option, String, [], ap, ap₂, false, inl, inr, length-map, map, map-append, none,
  refl, some, sym, ◌++◌, ◌∙◌, ◌∷◌, ◌≡◌,
}
use compose_lint.Dict.{Dict, has_key, lookup}
use compose_lint.Models.{Finding, Severity, low, severity_eq}
use compose_lint.Units.{Unit'}
use compose_lint.Engine.{
  Cache, Result, Rule, ServiceEnvFiles, Settings, attributed, check_unit, exclude, ok,
  override_severity, raised, regrade,
}
use compose_lint.Engine.Quote.{EnvValues, quote_finding, quote_references}
use compose_lint.Engine.Order.{insert_finding, line_le, sort_findings}
use compose_lint.Engine.Run.{
  Grading, Input, Outcome, Report, add_crash, add_findings, and_then, bounded, by_name, finish,
  going, grade_rules, grade_units, graded_all, limit_error, limit_reached, nothing_graded, report,
  run_rules, step, stopped,
}

-- A finding without what the settings write.
abbrev pub erase : Finding → Finding
erase f = record f {
  severity = low;
  suppressed = false;
  suppression_reason = none;
  suppressed_by = none;
  severity_overridden_from = none;
}

abbrev pub erase_report : Report → Report
erase_report (graded_all fs cs) = graded_all (map erase fs) cs
erase_report (limit_error fs cs) = limit_error (map erase fs) cs

abbrev erase_grading : Grading → Grading
erase_grading g = record g { findings = map erase g.findings }

abbrev erase_outcome : Outcome → Outcome
erase_outcome (going g) = going (erase_grading g)
erase_outcome (stopped g) = stopped (erase_grading g)

erase-override_severity :
    (o : Option Severity) (f : Finding) → erase (override_severity o f) ≡ erase f
unfolding override_severity
erase-override_severity none f = refl
erase-override_severity (some s) f = elim (Bool-cases (severity_eq s f.severity)) [
  | inl e ↦ rw e refl
  | inr e ↦ rw e refl
]

erase-exclude :
    (o : Option String) (d : Dict (Option String)) (c : String) (f : Finding)
    → erase (exclude o d c f) ≡ erase f
unfolding exclude
erase-exclude none d c f = refl
erase-exclude (some name) d c f = refl

pub erase-regrade :
    (s : Settings) (id : String) (u : Unit') (f : Finding) → erase (regrade s id u f) ≡ erase f
unfolding regrade
erase-regrade s id u f = elim (Bool-cases (has_key id s.disabled)) [
  | inl e ↦ rw e refl
  | inr e ↦ rw e (erase-exclude _ _ _ _ ∙ erase-override_severity (lookup id s.overrides) f)
]

map-erase-regrade :
    (s : Settings) (id : String) (u : Unit') (fs : List Finding)
    → map erase (map (regrade s id u) fs) ≡ map erase fs
map-erase-regrade s id u [] = refl
map-erase-regrade s id u (f ∷ fs) = ap₂ ◌∷◌ (erase-regrade s id u f) (map-erase-regrade s id u fs)

-- The loops again, with nothing of the settings in them.
plain_step : String → Unit' → Result (List Finding) → Grading → Outcome
plain_step id u (raised e) g = going (add_crash id u.name e g)
plain_step id u (ok fs) g =
    bounded (record g { findings = g.findings ++ map erase (attributed u fs) })

plain_units : Dict Value → Dict ServiceEnvFiles → Rule → List Unit' → Cache → Grading → Outcome
unfolding plain_step
plain_units data' env_files rule [] graded g = going g
plain_units data' env_files rule (u ∷ us) graded g =
    let (result, graded') = check_unit rule data' env_files u graded in
    and_then (plain_step rule.id u result g) (plain_units data' env_files rule us graded')

plain_rules : Dict Value → Dict ServiceEnvFiles → List Rule → List Unit' → Grading → Outcome
unfolding plain_units
plain_rules data' env_files [] us g = going g
plain_rules data' env_files (rule ∷ rules) us g =
    and_then (plain_units data' env_files rule us [] g) (plain_rules data' env_files rules us)

erase-add_findings :
    (s : Settings) (id : String) (u : Unit') (fs : List Finding) (g : Grading)
    → erase_grading (add_findings s id u fs g)
      ≡ record (erase_grading g) { findings = map erase g.findings ++ map erase (attributed u fs) }
unfolding add_findings
erase-add_findings s id u fs g =
    ap (λ (l : List Finding). record (erase_grading g) { findings = l })
      (map-append erase g.findings (map (regrade s id u) (attributed u fs))
        ∙ ap (λ (l : List Finding). map erase g.findings ++ l)
            (map-erase-regrade s id u (attributed u fs)))

erase-bounded : (g : Grading) → erase_outcome (bounded g) ≡ bounded (erase_grading g)
unfolding bounded
erase-bounded g =
    rw (length-map erase g.findings)
      (elim (Bool-cases (limit_reached g)) [ inl e ↦ rw e refl | inr e ↦ rw e refl ])

erase-step :
    (s : Settings) (id : String) (u : Unit') (r : Result (List Finding)) (g : Grading)
    → erase_outcome (step s id u r g) ≡ plain_step id u r (erase_grading g)
unfolding step plain_step
erase-step s id u (raised e) g = refl
erase-step s id u (ok fs) g =
    erase-bounded (add_findings s id u fs g) ∙ ap bounded (erase-add_findings s id u fs g)

erase-and_then :
    (o : Outcome) (k l : Grading → Outcome)
    → ((g : Grading) → erase_outcome (k g) ≡ l (erase_grading g))
    → erase_outcome (and_then o k) ≡ and_then (erase_outcome o) l
unfolding and_then
erase-and_then (going g) k l h = h g
erase-and_then (stopped g) k l h = refl

erase-grade_units :
    (input : Input) (rule : Rule) (us : List Unit') (graded : Cache) (g : Grading)
    → erase_outcome (grade_units input rule us graded g)
      ≡ plain_units input.data' input.env_files rule us graded (erase_grading g)
unfolding grade_units plain_units
erase-grade_units input rule [] graded g = refl
erase-grade_units input rule (u ∷ us) graded g =
    let (result, graded') = check_unit rule input.data' input.env_files u graded in
    erase-and_then (step input.settings rule.id u result g) (grade_units input rule us graded')
      (plain_units input.data' input.env_files rule us graded')
      (erase-grade_units input rule us graded')
    ∙ ap (λ (o : Outcome). and_then o (plain_units input.data' input.env_files rule us graded'))
        (erase-step input.settings rule.id u result g)

erase-grade_rules :
    (input : Input) (rules : List Rule) (us : List Unit') (g : Grading)
    → erase_outcome (grade_rules input rules us g)
      ≡ plain_rules input.data' input.env_files rules us (erase_grading g)
unfolding grade_rules plain_rules
erase-grade_rules input [] us g = refl
erase-grade_rules input (rule ∷ rules) us g =
    erase-and_then (grade_units input rule us [] g) (grade_rules input rules us)
      (plain_rules input.data' input.env_files rules us) (erase-grade_rules input rules us)
    ∙ ap (λ (o : Outcome). and_then o (plain_rules input.data' input.env_files rules us))
        (erase-grade_units input rule us [] g)

erase-insert_finding :
    (f : Finding) (gs : List Finding)
    → map erase (insert_finding f gs) ≡ insert_finding (erase f) (map erase gs)
unfolding insert_finding
erase-insert_finding f [] = refl
erase-insert_finding f (g ∷ gs) = elim (Bool-cases (line_le f.line g.line)) [
  | inl e ↦ rw e refl
  | inr e ↦ rw e (ap (λ (l : List Finding). erase g ∷ l) (erase-insert_finding f gs))
]

erase-sort_findings :
    (fs : List Finding) → map erase (sort_findings fs) ≡ sort_findings (map erase fs)
unfolding sort_findings
erase-sort_findings [] = refl
erase-sort_findings (f ∷ fs) =
    erase-insert_finding f (sort_findings fs)
    ∙ ap (insert_finding (erase f)) (erase-sort_findings fs)

erase-quote_finding :
    (p : Dict String) (f : Finding) → erase (quote_finding p f) ≡ quote_finding p (erase f)
unfolding quote_finding
erase-quote_finding [] f = refl
erase-quote_finding (n ∷ names) f = refl

erase-quote_references :
    (services : Dict Value) (env : EnvValues) (fs : List Finding)
    → map erase (quote_references services env fs) ≡ quote_references services env (map erase fs)
unfolding quote_references
erase-quote_references services env [] = refl
erase-quote_references services env (f ∷ fs) =
    ap₂ ◌∷◌ (erase-quote_finding _ f) (erase-quote_references services env fs)

erase-finish :
    (env : EnvValues) (us : List Unit') (fs : List Finding)
    → map erase (finish env us fs) ≡ finish env us (map erase fs)
unfolding finish
erase-finish [] us fs = erase-sort_findings fs
erase-finish (e ∷ es) us fs =
    let services = by_name us [] in
    erase-sort_findings (quote_references services (e ∷ es) fs)
    ∙ ap sort_findings (erase-quote_references services (e ∷ es) fs)

erase-report :
    (env : EnvValues) (us : List Unit') (o : Outcome)
    → erase_report (report env us o) ≡ report env us (erase_outcome o)
unfolding report
erase-report env us (going g) =
    ap (λ (l : List Finding). graded_all l g.crashes) (erase-finish env us g.findings)
erase-report env us (stopped g) =
    ap (λ (l : List Finding). limit_error l g.crashes) (erase-finish env us g.findings)

erase-run_rules :
    (rules : List Rule) (input : Input)
    → erase_report (run_rules rules input)
      ≡ report input.env_values (units input.data' input.lines) (
          plain_rules input.data' input.env_files rules
            (units input.data' input.lines)
            nothing_graded)
unfolding run_rules
erase-run_rules rules input =
    let us = units input.data' input.lines in
    erase-report input.env_values us (grade_rules input rules us nothing_graded)
    ∙ ap (report input.env_values us) (erase-grade_rules input rules us nothing_graded)

-- Two runs that differ in their settings alone report the same findings in the same order, up to
-- the severity and the suppression that the settings write, stop at the same limit and report the
-- same crashes: no setting hides, adds or moves a finding.
pub run_rules-settings :
    (rules : List Rule) (input : Input) (s : Settings)
    → erase_report (run_rules rules input)
      ≡ erase_report (run_rules rules (record input { settings = s }))
run_rules-settings rules input s =
    erase-run_rules rules input ∙ sym (erase-run_rules rules (record input { settings = s }))
