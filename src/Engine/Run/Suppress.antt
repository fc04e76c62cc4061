-- ===== src/Engine/Run/Suppress.antt =====
-- What the settings do to a run's verdict.
use compose_lint.Prelude.{
  All, All-select_test, Bool-cases, List, String, [], ap, arith, false, inl, inr, not, refl, sym,
  true, ◌&&◌, ◌∙◌, ◌∷◌, ◌≡◌,
}
use compose_lint.Dict.{Dict, has_key}
use compose_lint.Models.{Finding, Severity, severity_ge}
use compose_lint.Units.{Unit'}
use compose_lint.Engine.{Rule, Settings, regrade, suppress}
use compose_lint.Engine.Quote.{quote_finding}
use compose_lint.Engine.Order.{filter_findings}
use compose_lint.Engine.Run.{Input, findings_of, run_rules}
use compose_lint.Engine.Run.Erase.{erase-regrade}
use compose_lint.Engine.Run.Invariant.{Returns, run_rules-All}

-- A rule's findings carry its own id.
abbrev pub Labelled : Rule → Finding → Type 0
Labelled rule f = f.rule_id ≡ rule.id

-- A finding of a rule that the settings disable is suppressed.
abbrev IsSilenced : Settings → Finding → Type 0
IsSilenced s f = has_key f.rule_id s.disabled ≡ true → f.suppressed ≡ true

rule_id-regrade :
    (s : Settings) (id : String) (u : Unit') (f : Finding) → (regrade s id u f).rule_id ≡ f.rule_id
rule_id-regrade s id u f = ap (λ (g : Finding). g.rule_id) (erase-regrade s id u f)

regrade-IsSilenced :
    (s : Settings) (rule : Rule) (u : Unit') (f : Finding)
    → Labelled rule f
    → IsSilenced s (regrade s rule.id u f)
unfolding regrade suppress
regrade-IsSilenced s rule u f h d =
    let e : has_key rule.id s.disabled ≡ true =
      ap (λ (i : String). has_key i s.disabled) (sym h ∙ sym (rule_id-regrade s rule.id u f)) ∙ d in
    rw e refl

quote-IsSilenced :
    (s : Settings) (names : Dict String) (f : Finding)
    → IsSilenced s f
    → IsSilenced s (quote_finding names f)
unfolding quote_finding
quote-IsSilenced s [] f h = h
quote-IsSilenced s (n ∷ names) f h = h

abbrev pub Passes : Settings → Finding → Type 0
Passes s f = has_key f.rule_id s.disabled ≡ false

reports-Passes :
    (s : Settings) (threshold : Severity) (f : Finding)
    → IsSilenced s f
    → (severity_ge f.severity threshold && not f.suppressed) ≡ true
    → Passes s f
reports-Passes s threshold f h k = elim (Bool-cases (has_key f.rule_id s.disabled)) [
  | inl e ↦ absurd (let q : f.suppressed ≡ true = h e in ground (arith, q))
  | inr e ↦ e
]

-- Over the registered rules, whose findings carry their own ids: no finding of a disabled rule
-- passes the filter that decides the verdict, at any threshold.
pub filter_findings-disabled :
    (rules : List Rule) (input : Input) (threshold : Severity)
    → All (λ rule. Returns (Labelled rule) rule) rules
    → All (Passes input.settings) (filter_findings (findings_of (run_rules rules input)) threshold)
unfolding filter_findings
filter_findings-disabled rules input threshold ret =
    All-select_test (IsSilenced input.settings) (Passes input.settings) _
      (findings_of (run_rules rules input)) (reports-Passes input.settings threshold)
      (run_rules-All Labelled (IsSilenced input.settings) input (regrade-IsSilenced input.settings)
        (quote-IsSilenced input.settings) rules ret)
