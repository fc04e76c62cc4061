-- ===== src/Engine/Run/Invariant.antt =====
-- A property that every rule's findings have, and that the grading, the quoting and the sort keep,
-- holds of every finding that a run reports.
use compose_lint.Prelude.{
  All, All-append, All-map, All-select, All-weaken, Bool-cases, List, Option-cases, String, [], inl,
  inr, is_some, map, select, some, subst, ℕ, ◌==◌, ◌∷◌, ◌≡◌,
}
use compose_lint.Value.{Value, get}
use compose_lint.Dict.{Dict}
use compose_lint.Models.{Finding}
use compose_lint.Lines.{LineView}
use compose_lint.Units.{Unit'}
use compose_lint.Engine.{
  Cache, EnvFileKey, Result, Rule, ServiceEnvFiles, also, attributed, cached, check_unit,
  contribution, env_file_findings, grade_template, not_shadowed, ok, own_findings, raised, regrade,
  rename, with_env_files,
}
use compose_lint.Engine.Order.{insert_finding, line_le, sort_findings}
use compose_lint.Engine.Quote.{EnvValues, quote_finding, quote_references, service_pattern}
use compose_lint.Engine.Run.{
  Grading, Input, Outcome, add_findings, and_then, bounded, by_name, findings_of, finish, going,
  grade_rules, grade_units, limit_reached, nothing_graded, report, run_rules, step, stopped,
}
use compose_lint.Units.Listing.{units}

module _ (R : Finding → Type 0) where
  abbrev pub ResultAll : Result (List Finding) → Type 0
  ResultAll (ok fs) = All R fs
  ResultAll (raised e) = Unit

  abbrev pub CacheAll : Cache → Type 0
  CacheAll [] = Unit
  CacheAll ((i, fs) ∷ c) = All R fs × CacheAll c

  abbrev CheckAll : Result (List Finding) × Cache → Type 0
  CheckAll (r, c) = ResultAll r × CacheAll c

-- `R` of all that a rule returns, from either method; renaming a finding keeps it.
pub record Returns (R : Finding → Type 0) (rule : Rule) : Type 0 where
  pub on_check :
      (name : String) (config : Value) (data' : Dict Value) (lines : LineView)
      → ResultAll R (rule.check name config data' lines)
  pub on_keys :
      (name : String) (ks : List EnvFileKey) (config : Value)
      → ResultAll R (rule.check_env_file_keys name ks config)
  pub on_rename : (name : String) (f : Finding) → R f → R (rename name f)

module _ {R : Finding → Type 0} {rule : Rule} (ret : Returns R rule) where
  cached-All :
      (i : ℕ) (c : Cache) (fs : List Finding) → CacheAll R c → cached i c ≡ some fs → All R fs
  unfolding cached
  cached-All i [] fs h e = absurd (cc)
  cached-All i ((j, gs) ∷ c) fs h e = elim (Bool-cases (i == j)) [
    | inl p ↦ let q : some gs ≡ some fs = rw p at e in subst (All R) (cc) h.0
    | inr p ↦ cached-All i c fs h.1 (rw p at e)
  ]

  own_findings-All :
      (name : String) (shadowed : List String) (fs : List Finding)
      → All R fs
      → All R (own_findings name shadowed fs)
  unfolding own_findings
  own_findings-All name shadowed fs h =
      All-map R (rename name) (select (not_shadowed shadowed) fs) (
        All-weaken R (λ f. R (rename name f)) (select (not_shadowed shadowed) fs)
          (ret.on_rename name) (All-select R (not_shadowed shadowed) fs h))

  grade_template-All :
      (name : String) (c : ServiceEnvFiles) (graded : Cache) (r : Result (List Finding))
      → CacheAll R graded
      → ResultAll R r
      → CheckAll R (grade_template name c graded r)
  unfolding grade_template
  grade_template-All name c graded (ok fs) h k = (own_findings-All name c.shadowed fs k, (k, h))
  grade_template-All name c graded (raised e) h k = (tt, h)

  env_file_findings-All :
      (name : String) (c : ServiceEnvFiles) (config : Value) (graded : Cache)
      → CacheAll R graded
      → CheckAll R (env_file_findings rule name c config graded)
  unfolding env_file_findings
  env_file_findings-All name c config graded h = elim (Option-cases (cached c.ident graded)) [
    | inl e ↦
        rw (e, env_file_findings)
          (grade_template-All name c graded _ h (ret.on_keys "" c.available config))
    | inr (fs, e) ↦
        rw (e, env_file_findings)
          (own_findings-All name c.shadowed fs (cached-All c.ident graded fs h e), h)
  ]

  also-All :
      (fs : List Finding) (p : Result (List Finding) × Cache)
      → All R fs
      → CheckAll R p
      → CheckAll R (also fs p)
  also-All fs (ok gs, c) h k = (All-append R fs gs h k.0, k.1)
  also-All fs (raised e, c) h k = k

  with_env_files-All :
      (env_files : Dict ServiceEnvFiles) (u : Unit') (graded : Cache) (r : Result (List Finding))
      → CacheAll R graded
      → ResultAll R r
      → CheckAll R (with_env_files rule env_files u graded r)
  unfolding with_env_files
  with_env_files-All env_files u graded (raised e) h k = (tt, h)
  with_env_files-All env_files u graded (ok fs) h k =
      elim (Option-cases (contribution env_files u.env_key)) [
        | inl e ↦ rw (e, with_env_files) (k, h)
        | inr (c, e) ↦
            rw (e, with_env_files)
              (also-All fs (env_file_findings rule u.name c u.config graded) k
                (env_file_findings-All u.name c u.config graded h))
      ]

  pub check_unit-All :
      (data' : Dict Value) (env_files : Dict ServiceEnvFiles) (u : Unit') (graded : Cache)
      → CacheAll R graded
      → CheckAll R (check_unit rule data' env_files u graded)
  unfolding check_unit
  check_unit-All data' env_files u graded h =
      with_env_files-All env_files u graded _ h (ret.on_check u.name u.config data' u.lines)

-- `R rule` of what the rule returns, `P` of what the run reports.
module _ (R : Rule → Finding → Type 0) (P : Finding → Type 0) (input : Input)
    (on_grade : (rule : Rule) (u : Unit') (f : Finding)
      → R rule f
      → P (regrade input.settings rule.id u f))
    (on_quote : (names : Dict String) (f : Finding) → P f → P (quote_finding names f)) where
  abbrev OutcomeAll : Outcome → Type 0
  OutcomeAll (going g) = All P g.findings
  OutcomeAll (stopped g) = All P g.findings

  attributed-All :
      (rule : Rule) (u : Unit') (fs : List Finding)
      → All (R rule) fs
      → All (R rule) (attributed u fs)
  unfolding attributed
  attributed-All rule u fs h = elim (Bool-cases u.hook) [
    | inl e ↦ rw e (All-select (R rule) (λ f. is_some f.line) fs h)
    | inr e ↦ rw e h
  ]

  bounded-All : (g : Grading) → All P g.findings → OutcomeAll (bounded g)
  unfolding bounded
  bounded-All g h = elim (Bool-cases (limit_reached g)) [ inl e ↦ rw e h | inr e ↦ rw e h ]

  step-All :
      (rule : Rule) (u : Unit') (r : Result (List Finding)) (g : Grading)
      → ResultAll (R rule) r
      → All P g.findings
      → OutcomeAll (step input.settings rule.id u r g)
  unfolding step add_findings
  step-All rule u (raised e) g h k = k
  step-All rule u (ok fs) g h k = bounded-All (add_findings input.settings rule.id u fs g) (
      All-append P g.findings (map (regrade input.settings rule.id u) (attributed u fs)) k (
        All-map P (regrade input.settings rule.id u) (attributed u fs) (
          All-weaken (R rule) (λ f. P (regrade input.settings rule.id u f)) (attributed u fs)
            (on_grade rule u) (attributed-All rule u fs h))))

  and_then-All :
      (o : Outcome) (k : Grading → Outcome)
      → OutcomeAll o
      → ((g : Grading) → All P g.findings → OutcomeAll (k g))
      → OutcomeAll (and_then o k)
  unfolding and_then
  and_then-All (going g) k h next = next g h
  and_then-All (stopped g) k h next = h

  grade_units-All :
      (rule : Rule)
      → Returns (R rule) rule
      → (us : List Unit') (graded : Cache) (g : Grading) → CacheAll (R rule) graded
      → All P g.findings
      → OutcomeAll (grade_units input rule us graded g)
  unfolding grade_units
  grade_units-All rule ret [] graded g c h = h
  grade_units-All rule ret (u ∷ us) graded g c h =
      let (result, graded') = check_unit rule input.data' input.env_files u graded in
      let (rh, ch) = check_unit-All ret input.data' input.env_files u graded c in
      and_then-All (step input.settings rule.id u result g) (grade_units input rule us graded')
        (step-All rule u result g rh h) λ g' h'. grade_units-All rule ret us graded' g' ch h'

  grade_rules-All :
      (rules : List Rule)
      → All (λ rule. Returns (R rule) rule) rules
      → (us : List Unit') (g : Grading) → All P g.findings
      → OutcomeAll (grade_rules input rules us g)
  unfolding grade_rules
  grade_rules-All [] ret us g h = h
  grade_rules-All (rule ∷ rules) ret us g h =
      and_then-All (grade_units input rule us [] g) (grade_rules input rules us)
        (grade_units-All rule ret.0 us [] g tt h) λ g' h'. grade_rules-All rules ret.1 us g' h'

  insert_finding-All :
      (f : Finding) (gs : List Finding) → P f → All P gs → All P (insert_finding f gs)
  unfolding insert_finding
  insert_finding-All f [] h k = (h, tt)
  insert_finding-All f (g ∷ gs) h k = elim (Bool-cases (line_le f.line g.line)) [
    | inl e ↦ rw e (h, k)
    | inr e ↦ rw e (k.0, insert_finding-All f gs h k.1)
  ]

  sort_findings-All : (fs : List Finding) → All P fs → All P (sort_findings fs)
  unfolding sort_findings
  sort_findings-All [] h = tt
  sort_findings-All (f ∷ fs) h =
      insert_finding-All f (sort_findings fs) h.0 (sort_findings-All fs h.1)

  quote_references-All :
      (services : Dict Value) (env : EnvValues) (fs : List Finding)
      → All P fs
      → All P (quote_references services env fs)
  unfolding quote_references
  quote_references-All services env [] h = tt
  quote_references-All services env (f ∷ fs) h = (
    on_quote (service_pattern (get f.service services) env) f h.0,
    quote_references-All services env fs h.1,
  )

  finish-All :
      (env : EnvValues) (us : List Unit') (fs : List Finding) → All P fs → All P (finish env us fs)
  unfolding finish
  finish-All [] us fs h = sort_findings-All fs h
  finish-All (e ∷ es) us fs h =
      sort_findings-All (quote_references (by_name us []) (e ∷ es) fs)
        (quote_references-All (by_name us []) (e ∷ es) fs h)

  report-All :
      (us : List Unit') (o : Outcome)
      → OutcomeAll o
      → All P (findings_of (report input.env_values us o))
  unfolding report
  report-All us (going g) h = finish-All input.env_values us g.findings h
  report-All us (stopped g) h = finish-All input.env_values us g.findings h

  pub run_rules-All :
      (rules : List Rule)
      → All (λ rule. Returns (R rule) rule) rules
      → All P (findings_of (run_rules rules input))
  unfolding run_rules
  run_rules-All rules ret =
      let us = units input.data' input.lines in
      report-All us (grade_rules input rules us nothing_graded)
        (grade_rules-All rules ret us nothing_graded tt)
