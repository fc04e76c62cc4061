-- ===== src/Fix/Verify/Verified.antt =====
-- What `verify_apply` accepts.
use compose_lint.Prelude.{
  All, Bool, List, Option, String, [], any, false, if◌then◌else◌, none, not, refl, some, true, ℕ,
  ◌↔◌, ◌∷◌, ◌≡◌,
}
use compose_lint.Dict.{Dict}
use compose_lint.Value.{Value}
use compose_lint.Models.{Finding, TextEdit}
use compose_lint.Engine.{Result, ok, raised}
use compose_lint.Engine.Run.{Report, graded_all, limit_error}
use compose_lint.Fix.{FixResult, Fixer}
use compose_lint.Fix.Collect.{Request}
use compose_lint.Fix.Collect.Settle.{collect_edits}
use compose_lint.Fix.Drift.{or_some, structural_drift, with_inherited_claims}
use compose_lint.Fix.Drift.Preserved.{structural_drift_iff}
use compose_lint.Fix.Verify.Permitted.{Permitted, Preserves-Permitted}
use compose_lint.Fix.Verify.{
  Recheck, check_candidate, check_report, checked, claims_of, has_edits, new_finding_error,
  new_findings, same_report, to_converge, verify_apply,
}

module _ (fixers : List Fixer) (request : Request) (recheck : Recheck) (before : List Finding) where
  -- The claims of the fixed services, with those of their bases.
  abbrev pub all_claims : FixResult → Dict (List String)
  all_claims result = with_inherited_claims request.document (claims_of fixers result.fixed [])

  -- The request for a second pass, over the candidate.
  abbrev pub second_pass : String → Dict Value → Dict ℕ → Request
  second_pass patched document lines = record request {
    document = document;
    lines = lines;
    text = patched;
  }

  -- The findings of the candidate: a second pass edits nothing, and none is new.
  abbrev pub Settled : Request → Report → Type 0
  Settled candidate (limit_error fs cs) = ⊥
  Settled candidate (graded_all fs cs) =
      ((collect_edits fixers candidate (to_converge recheck.fixable fs)).edits ≡ [])
      × All (λ f. any (same_report f) before ≡ true) fs

  abbrev pub Accepts : FixResult → String → Result (Dict Value × Dict ℕ) → Type 0
  Accepts result patched (raised e) = ⊥
  Accepts result patched (ok (document, lines)) =
      Permitted fixers result.fixed request.document document
      × Settled (second_pass patched document lines) (recheck.rerun document lines)

  new_finding_error-none : (fs : List Finding) → (new_finding_error fs ≡ none) ↔ (fs ≡ [])
  unfolding new_finding_error
  new_finding_error-none [] = (λ h. refl, λ h. refl)
  new_finding_error-none (f ∷ fs) = (λ h. absurd (cc h), λ h. absurd (cc h))

  keep_none :
      (b : Bool) (f : Finding) (rest : List Finding) (P : Type 0)
      → ((rest ≡ []) ↔ P)
      → ((if not b then f ∷ rest else rest) ≡ []) ↔ ((b ≡ true) × P)
  keep_none true f rest P h = (λ e. (refl, h.0 e), λ p. h.1 p.1)
  keep_none false f rest P h = (λ e. absurd (cc e), λ p. absurd (cc (p.0)))

  new_findings-empty :
      (fs : List Finding)
      → (new_findings before fs ≡ []) ↔ All (λ f. any (same_report f) before ≡ true) fs
  unfolding new_findings
  new_findings-empty [] = (λ h. tt, λ h. refl)
  new_findings-empty (f ∷ fs) =
      keep_none (any (same_report f) before) f (new_findings before fs) _ (new_findings-empty fs)

  when_no_edits :
      (es : List TextEdit) (m : String) (rest : Option String)
      → ((if has_edits es then some m else rest) ≡ none) ↔ ((es ≡ []) × (rest ≡ none))
  when_no_edits [] m rest = (λ h. (refl, h), λ p. p.1)
  when_no_edits (e ∷ es) m rest = (λ h. absurd (cc h), λ p. absurd (cc (p.0)))

  check_report_iff :
      (candidate : Request) (r : Report)
      → (check_report fixers candidate recheck before r ≡ none) ↔ Settled candidate r
  unfolding check_report
  check_report_iff candidate (limit_error fs cs) = (λ h. absurd (cc h), λ h. absurd h)
  check_report_iff candidate (graded_all fs cs) =
      let edits = (collect_edits fixers candidate (to_converge recheck.fixable fs)).edits in
      let new = new_findings before fs in
      let split =
        when_no_edits edits "computed fix does not converge: a second pass would still edit it"
          (new_finding_error new) in
      (
        λ h.
            let both = split.0 h in
            (both.0, (new_findings-empty fs).0 ((new_finding_error-none new).0 both.1)),
        λ p. split.1 (p.0, (new_finding_error-none new).1 ((new_findings-empty fs).1 p.1)),
      )

  after_drift :
      (drift rest : Option String) → (or_some drift rest ≡ none) ↔ ((drift ≡ none) × (rest ≡ none))
  unfolding or_some
  after_drift none rest = (λ h. (refl, h), λ p. p.1)
  after_drift (some m) rest = (λ h. absurd (cc h), λ p. absurd (cc (p.0)))

  checked_iff :
      (result : FixResult) (patched : String) (r : Result (Dict Value × Dict ℕ))
      → (checked fixers request recheck before result patched r ≡ none) ↔ Accepts result patched r
  unfolding checked check_candidate
  checked_iff result patched (raised e) = (λ h. absurd (cc h), λ h. absurd h)
  checked_iff result patched (ok (document, lines)) =
      let drift = structural_drift request.document document (all_claims result) in
      let candidate = second_pass patched document lines in
      let rest = check_report fixers candidate recheck before (recheck.rerun document lines) in
      let split = after_drift drift rest in
      let same = structural_drift_iff request.document document (all_claims result) in
      let permitted = Preserves-Permitted fixers result.fixed request.document document in
      let settled = check_report_iff candidate (recheck.rerun document lines) in
      (
        λ h. let both = split.0 h in (permitted.0 (same.0 both.0), settled.0 both.1),
        λ p. split.1 (same.1 (permitted.1 p.0), settled.1 p.1),
      )

  -- A patched file passes the last check exactly when it parses again; the document that it parses
  -- to is the same outside the services, and has the same services; a service with no fixed finding
  -- is equal in both; one with some has, where it is a mapping in both, equal values at every key
  -- but those that a fixer of a fixed finding writes on it or on any of the services that it extends
  -- in the file, however far; the rules run on the document within the findings limit; a second pass
  -- over what this run would fix has no edit left; and every finding on it was there before, with
  -- its rule, service and message.
  pub verify_apply_iff :
      (result : FixResult) (patched : String)
      → (verify_apply fixers request recheck before result patched ≡ none)
        ↔ Accepts result patched (recheck.reload patched)
  unfolding verify_apply
  verify_apply_iff result patched = checked_iff result patched (recheck.reload patched)
