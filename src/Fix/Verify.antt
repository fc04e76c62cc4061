-- ===== src/Fix/Verify.antt =====
-- `verify_apply` of src/compose_lint/fix.py: what is checked of a patched file before it is written.
pub mod Permitted
pub mod Verified
use compose_lint.Prelude.{
  Bool, List, Option, String, [], any, false, if◌then◌else◌, none, not, or_else, select, some,
  str_eq, true, ℕ, ◌&&◌, ◌++◌, ◌∷◌,
}
use compose_lint.Text.{append}
use compose_lint.Dict.{Dict, lookup, put}
use compose_lint.Value.{Value}
use compose_lint.Models.{Finding, TextEdit}
use compose_lint.Sorting.{sort_by}
use compose_lint.Engine.{Result, ok, raised}
use compose_lint.Engine.Run.{Report, graded_all, limit_error}
use compose_lint.Fix.{FixResult, Fixer, edits}
use compose_lint.Fix.Splice.{text_le}
use compose_lint.Fix.Collect.{Request, fixer_of}
use compose_lint.Fix.Collect.Settle.{collect_edits}
use compose_lint.Fix.Drift.{or_some, structural_drift, with_inherited_claims}

-- `claimed[service] | writes.get(rule_id, frozenset())`
unfoldable pub claims_of : List Fixer → List Finding → Dict (List String) → Dict (List String)
unfolding fixer_of lookup put
claims_of fixers [] claimed = claimed
claims_of fixers (f ∷ fs) claimed = claims_of fixers fs (
    put f.service
      (or_else (lookup f.service claimed) []
        ++ elim (fixer_of f.rule_id fixers) [ none ↦ [] | some r ↦ r.writes ])
      claimed)

-- `(f.rule_id, f.service, f.message)`
abbrev pub same_report : Finding → Finding → Bool
same_report f g =
    str_eq f.rule_id g.rule_id && str_eq f.service g.service && str_eq f.message g.message

-- The findings that the file did not have before.
unfoldable pub new_findings : List Finding → List Finding → List Finding
new_findings before after = select (λ f. not (any (same_report f) before)) after

-- What a check of a candidate is given besides the original: the parser, and the run of the rules.
pub record Recheck : Type 0 where
  pub reload : String → Result (Dict Value × Dict ℕ)
  pub rerun : Dict Value → Dict ℕ → Report
  pub fixable : Option (Finding → Bool)

unfoldable pub to_converge : Option (Finding → Bool) → List Finding → List Finding
to_converge none fs = fs
to_converge (some fixable) fs = select fixable fs

abbrev has_edits : List TextEdit → Bool
has_edits [] = false
has_edits (_ ∷ _) = true

-- The pairs of rule and service, sorted, and the message that names the first two.
unfoldable pub pair_le : String × String → String × String → Bool
unfolding text_le
pair_le (a, b) (c, d) = if str_eq a c then text_le b d else text_le a c

unfoldable pub distinct_pairs : List Finding → List (String × String)
distinct_pairs [] = []
distinct_pairs (f ∷ fs) =
    let rest = distinct_pairs fs in
    if any (λ p. str_eq f.rule_id p.0 && str_eq f.service p.1) rest
    then rest
    else (f.rule_id, f.service) ∷ rest

named : String × String → String
named (rule_id, service) = append rule_id (append " on '" (append service "'"))

unfoldable pub sample : List (String × String) → String
unfolding named
sample [] = ""
sample (p ∷ []) = named p
sample (p ∷ q ∷ ps) = append (named p) (append ", " (named q))

unfoldable pub new_finding_error : List Finding → Option String
unfolding sample sort_by pair_le distinct_pairs
new_finding_error [] = none
new_finding_error (f ∷ fs) = some (
    append "computed fix introduces a new finding ("
      (append (sample (sort_by pair_le (distinct_pairs (f ∷ fs)))) ")"))

-- From the findings of the candidate on.
unfoldable pub check_report : List Fixer → Request → Recheck → List Finding → Report → Option String
unfolding to_converge collect_edits new_finding_error new_findings
check_report fixers candidate recheck before (limit_error fs cs) =
    some "computed fix could not be verified: it exceeds the findings limit"
check_report fixers candidate recheck before (graded_all fs cs) =
    if has_edits (collect_edits fixers candidate (to_converge recheck.fixable fs)).edits
    then some "computed fix does not converge: a second pass would still edit it"
    else new_finding_error (new_findings before fs)

-- From the parsed candidate on.
unfoldable pub check_candidate :
    List Fixer
    → Request
    → Recheck
    → List Finding
    → FixResult
    → String
    → Dict Value
    → Dict ℕ
    → Option String
unfolding structural_drift with_inherited_claims claims_of check_report or_some
check_candidate fixers request recheck before result patched document lines =
    let drift =
      structural_drift request.document document
        (with_inherited_claims request.document (claims_of fixers result.fixed [])) in
    or_some drift (
      check_report fixers (record request { document = document; lines = lines; text = patched })
        recheck before (recheck.rerun document lines))

checked :
    List Fixer
    → Request
    → Recheck
    → List Finding
    → FixResult
    → String
    → Result (Dict Value × Dict ℕ)
    → Option String
unfolding check_candidate
checked fixers request recheck before result patched (raised e) =
    some (append "computed fix does not parse as Compose (" (append e ")"))
checked fixers request recheck before result patched (ok (document, lines)) =
    check_candidate fixers request recheck before result patched document lines

-- verify_apply
unfoldable pub verify_apply :
    List Fixer → Request → Recheck → List Finding → FixResult → String → Option String
unfolding checked
verify_apply fixers request recheck before result patched =
    checked fixers request recheck before result patched (recheck.reload patched)
