-- ===== src/Engine/Run/Isolation.antt =====
-- A rule that raises costs its own findings, and nothing else.
use compose_lint.Prelude.{
  Bool-cases, List, String, [], ap, append-nil, append_assoc, inl, inr, map, refl, sym, ◌++◌, ◌∙◌,
  ◌∷◌, ◌≡◌,
}
use compose_lint.Value.{Value}
use compose_lint.Dict.{Dict}
use compose_lint.Models.{Finding}
use compose_lint.Lines.{LineView}
use compose_lint.Units.{Unit'}
use compose_lint.Engine.{Cache, Result, Rule, Settings, check_unit, ok, raised, with_env_files}
use compose_lint.Engine.Run.{
  Crash, Grading, Input, Outcome, Report, add_crash, add_findings, and_then, bounded, going,
  grade_rules, grade_units, graded_all, limit_error, limit_reached, nothing_graded, report,
  run_rules, step, stopped,
}
use compose_lint.Engine.Quote.{EnvValues}
use compose_lint.Units.Listing.{units}

-- The rule raises on every unit, with this text.
abbrev pub Raises : Rule → (String → Value → String) → Type 0
Raises rule err =
    (name : String) (config : Value) (data' : Dict Value) (lines : LineView)
    → rule.check name config data' lines ≡ raised (err name config)

-- The crash that such a rule reports on one unit.
abbrev pub crash_of : Rule → (String → Value → String) → Unit' → Crash
crash_of rule err u = (rule.id, u.name, err u.name u.config)

abbrev pub drop_crashes : Report → Report
drop_crashes (graded_all fs cs) = graded_all fs []
drop_crashes (limit_error fs cs) = limit_error fs []

abbrev drop_grading : Grading → Grading
drop_grading g = record g { crashes = [] }

abbrev drop : Outcome → Outcome
drop (going g) = going (drop_grading g)
drop (stopped g) = stopped (drop_grading g)

-- The loop that goes on from a state ignores the crashes in it.
abbrev Ignores : (Grading → Outcome) → Type 0
Ignores k = (g : Grading) (cs : List Crash) → drop (k (record g { crashes = cs })) ≡ drop (k g)

drop-bounded : Ignores bounded
unfolding bounded
drop-bounded g cs = elim (Bool-cases (limit_reached g)) [ inl e ↦ rw e refl | inr e ↦ rw e refl ]

drop-step :
    (s : Settings) (id : String) (u : Unit') (r : Result (List Finding)) → Ignores (step s id u r)
unfolding step add_findings
drop-step s id u (raised e) g cs = refl
drop-step s id u (ok fs) g cs = drop-bounded (add_findings s id u fs g) cs

-- Two states that differ in their crashes, behind two outcomes that do.
drop-and_then :
    (o p : Outcome) (k : Grading → Outcome)
    → Ignores k
    → drop o ≡ drop p
    → drop (and_then o k) ≡ drop (and_then p k)
unfolding and_then
drop-and_then (going g) (going h) k ig e =
    let same : drop_grading g ≡ drop_grading h = cc in
    sym (ig g []) ∙ ap (λ (s : Grading). drop (k s)) same ∙ ig h []
drop-and_then (stopped g) (stopped h) k ig e = e
drop-and_then (going g) (stopped h) k ig e = absurd (cc)
drop-and_then (stopped g) (going h) k ig e = absurd (cc)

Ignores-and_then :
    (m : Grading → Outcome) (k : Grading → Outcome)
    → Ignores m
    → Ignores k
    → Ignores (λ g. and_then (m g) k)
Ignores-and_then m k im ik g cs = drop-and_then (m (record g { crashes = cs })) (m g) k ik (im g cs)

drop-grade_units :
    (input : Input) (rule : Rule) (us : List Unit') (graded : Cache)
    → Ignores (grade_units input rule us graded)
unfolding grade_units
drop-grade_units input rule [] graded g cs = refl
drop-grade_units input rule (u ∷ us) graded g cs =
    let (result, graded') = check_unit rule input.data' input.env_files u graded in
    Ignores-and_then (step input.settings rule.id u result) (grade_units input rule us graded')
      (drop-step input.settings rule.id u result) (drop-grade_units input rule us graded') g cs

drop-grade_rules :
    (input : Input) (rules : List Rule) (us : List Unit') → Ignores (grade_rules input rules us)
unfolding grade_rules
drop-grade_rules input [] us g cs = refl
drop-grade_rules input (rule ∷ rules) us g cs =
    Ignores-and_then (grade_units input rule us []) (grade_rules input rules us)
      (drop-grade_units input rule us []) (drop-grade_rules input rules us) g cs

-- A rule that raises leaves the findings alone and reports one crash for each unit.
grade_units-Raises :
    (input : Input) (rule : Rule) (err : String → Value → String) (us : List Unit') (graded : Cache)
    (g : Grading)
    → Raises rule err
    → grade_units input rule us graded g
      ≡ going (record g { crashes = g.crashes ++ map (crash_of rule err) us })
unfolding grade_units check_unit with_env_files step
grade_units-Raises input rule err [] graded g h =
    ap (λ (cs : List Crash). going (record g { crashes = cs })) (sym (append-nil g.crashes))
grade_units-Raises input rule err (u ∷ us) graded g h = rw (h u.name u.config input.data' u.lines) (
    grade_units-Raises input rule err us graded (add_crash rule.id u.name (err u.name u.config) g) h
    ∙ ap (λ (cs : List Crash). going (record g { crashes = cs }))
        (append_assoc g.crashes (crash_of rule err u ∷ []) (map (crash_of rule err) us)))

and_then-drop :
    (o : Outcome) (k l : Grading → Outcome)
    → ((g : Grading) → drop (k g) ≡ drop (l g))
    → drop (and_then o k) ≡ drop (and_then o l)
unfolding and_then
and_then-drop (going g) k l h = h g
and_then-drop (stopped g) k l h = refl

drop-report :
    (env : EnvValues) (us : List Unit') (o : Outcome)
    → drop_crashes (report env us o) ≡ report env us (drop o)
unfolding report
drop-report env us (going g) = refl
drop-report env us (stopped g) = refl

grade_rules-Raises :
    (input : Input) (rule : Rule) (err : String → Value → String) (before after : List Rule)
    (us : List Unit') (g : Grading)
    → Raises rule err
    → drop (grade_rules input (before ++ rule ∷ after) us g)
      ≡ drop (grade_rules input (before ++ after) us g)
unfolding grade_rules
grade_rules-Raises input rule err [] after us g h =
    rw (grade_units-Raises input rule err us [] g h)
      (drop-grade_rules input after us g (g.crashes ++ map (crash_of rule err) us))
grade_rules-Raises input rule err (r ∷ before) after us g h =
    and_then-drop (grade_units input r us [] g) (grade_rules input (before ++ rule ∷ after) us)
      (grade_rules input (before ++ after) us)
      λ g'. grade_rules-Raises input rule err before after us g' h

-- A rule that raises on every unit, wherever it is registered, costs a run none of the findings of
-- the other rules: the report is that of a run without it, up to the list of crashes.
pub run_rules-isolation :
    (before after : List Rule) (rule : Rule) (err : String → Value → String) (input : Input)
    → Raises rule err
    → drop_crashes (run_rules (before ++ rule ∷ after) input)
      ≡ drop_crashes (run_rules (before ++ after) input)
unfolding run_rules
run_rules-isolation before after rule err input h =
    let us = units input.data' input.lines in
    let env = input.env_values in
    drop-report env us (grade_rules input (before ++ rule ∷ after) us nothing_graded)
    ∙ ap (report env us) (grade_rules-Raises input rule err before after us nothing_graded h)
    ∙ sym (drop-report env us (grade_rules input (before ++ after) us nothing_graded))
