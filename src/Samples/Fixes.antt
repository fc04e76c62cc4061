-- ===== src/Samples/Fixes.antt =====
-- The fixes that are gathered for a small file.
use compose_lint.Merge.Equal.{value_eq}
use compose_lint.Prelude.{
  All, List, String, [], arith, none, refl, some, subst, sym, true, ℕ, ◌+◌, ◌↔◌, ◌∷◌, ◌≡◌,
}
use compose_lint.Dict.{Dict}
use compose_lint.Value.{Value, bool, str}
use compose_lint.Models.{Finding, TextEdit, finding, medium}
use compose_lint.SourceLines.{line_starts, split_lines}
use compose_lint.Engine.{Result, ok, raised}
use compose_lint.Edits.Replace.{delete_lines}
use compose_lint.Fix.{Answer, FixUnit, Fixer, edits, unfixed}
use compose_lint.Fix.Splice.{Span, apply_edits, spans_of, spliced}
use compose_lint.Fix.Splice.Weave.{AllApart, IsWithin}
use compose_lint.Fix.Collect.{Request, collect_units, sort_findings_for}
use compose_lint.Fix.Collect.Placing.{IsSound}
use compose_lint.Fix.Collect.Settle.{collect_edits, own_units}
use compose_lint.Fix.Collect.Sound.{collect_edits-spliced}
use compose_lint.Samples.{mapping}
use compose_lint.Engine.Run.{graded_all}
use compose_lint.Fix.Verify.{Recheck, verify_apply}
use compose_lint.Fix.Verify.Verified.{Accepts, verify_apply_iff}

abbrev fixed_file : String
fixed_file =
    "services:\n  web:\n    privileged: true\n    pid: host\n    user: root\n  db:\n    image: redis\n"

abbrev fixed_document : Dict Value
fixed_document =
    (
      "services",
      mapping (
          (
            "web",
            mapping (("privileged", bool true) ∷ ("pid", str "host") ∷ ("user", str "root") ∷ []),
          )
          ∷ ("db", mapping (("image", str "redis") ∷ []))
          ∷ []),
    )
    ∷ []

abbrev request : Request
request = record {
  document = fixed_document;
  lines = ("services.web", 2) ∷ ("services.db", 6) ∷ [];
  text = fixed_file;
  only = none;
  resets = [];
}

-- A fixer that deletes the finding's line, and the next one where it is asked to.
delete_line : ℕ → Finding → Dict Value → Dict ℕ → String → Result Answer
unfolding delete_lines split_lines
delete_line more f document lines text = elim f.line [
  | none ↦ ok unfixed
  | some n ↦ ok (edits (delete_lines (split_lines text) n (n + more) none ∷ []))
]

abbrev fixers : List Fixer
fixers =
    record { id = "CL-0002"; fix = delete_line 0; writes = "privileged" ∷ [] }
    ∷ record { id = "CL-0010"; fix = delete_line 1; writes = "pid" ∷ [] }
    ∷ record { id = "CL-0018"; fix = delete_line 0; writes = "user" ∷ [] }
    ∷ record { id = "CL-0004"; fix = λ f d l t. raised "KeyError: 'image'"; writes = "image" ∷ [] }
    ∷ []

abbrev at : String → String → ℕ → Finding
at rule_id service n = finding rule_id medium service none "message" (some n) "fix" []

-- The edits of CL-0010 and CL-0018 overlap; the last finding inherits a line of another service.
abbrev findings : List Finding
findings =
    at "CL-0002" "web" 3
    ∷ at "CL-0010" "web" 4
    ∷ at "CL-0018" "web" 5
    ∷ at "CL-0004" "db" 7
    ∷ at "CL-0002" "db" 3
    ∷ []

unit_of : Finding → TextEdit → FixUnit
unit_of f e = record { findings = f ∷ []; edits = e ∷ []; caveat_rule_id = f.rule_id }

abbrev lines_edit : ℕ → ℕ → TextEdit
lines_edit first behind = record {
  start_line = first;
  start_col = 1;
  end_line = behind;
  end_col = 1;
  replacement = "";
  caveat = none;
}

abbrev gathered : List FixUnit
gathered =
    (own_units request
      (collect_units fixers request (sort_findings_for fixers request findings))).units

gathered_test :
    gathered
    ≡ unit_of (at "CL-0002" "web" 3) (lines_edit 3 4)
      ∷ unit_of (at "CL-0010" "web" 4) (lines_edit 4 6)
      ∷ unit_of (at "CL-0018" "web" 5) (lines_edit 5 6)
      ∷ []
unfolding own_units collect_units sort_findings_for delete_line unit_of
gathered_test = refl

edits_test : (collect_edits fixers request findings).edits ≡ lines_edit 3 4 ∷ []
unfolding collect_edits delete_line
edits_test = refl

crashes_test :
    (collect_edits fixers request findings).crashes
    ≡ "the CL-0004 fixer failed on service 'db': KeyError: 'image'" ∷ []
unfolding collect_edits delete_line
crashes_test = refl

manual_test :
    (collect_edits fixers request findings).manual
    ≡ at "CL-0010" "web" 4 ∷ at "CL-0018" "web" 5 ∷ at "CL-0004" "db" 7 ∷ at "CL-0002" "db" 3 ∷ []
unfolding collect_edits delete_line
manual_test = refl

-- A unit of one edit at known offsets.
IsSound-unit :
    (u : FixUnit) (s : Span)
    → spans_of (line_starts fixed_file) u.edits ≡ ok (s ∷ [])
    → IsWithin fixed_file s
    → IsSound fixed_file u
IsSound-unit u s e w ss h =
    let same : s ∷ [] ≡ ss = cc in
    subst (λ ts. All (IsWithin fixed_file) ts × AllApart ts) same ((w, tt), (tt, tt))

gathered-IsSound : All (IsSound fixed_file) gathered
unfolding unit_of spans_of line_starts
gathered-IsSound = subst (All (IsSound fixed_file)) (sym gathered_test) (
  IsSound-unit (unit_of (at "CL-0002" "web" 3) (lines_edit 3 4))
      (record { begin = 17; end = 38; replacement = "" }) refl (omega arith),
  (
    IsSound-unit (unit_of (at "CL-0010" "web" 4) (lines_edit 4 6))
        (record { begin = 38; end = 67; replacement = "" }) refl (omega arith),
    (
      IsSound-unit (unit_of (at "CL-0018" "web" 5) (lines_edit 5 6))
          (record { begin = 52; end = 67; replacement = "" }) refl (omega arith),
      tt,
    ),
  ),
)

collect_edits-spliced_example :
    (out : String) × (apply_edits request.text (collect_edits fixers request findings).edits
      ≡ spliced out)
collect_edits-spliced_example = collect_edits-spliced fixers request findings gathered-IsSound

-- The parser and the rules at the one candidate: `privileged:` is gone, and its finding with it.
abbrev recheck : Recheck
recheck = record {
  reload = λ text. ok (
    (
      "services",
      mapping (
          ("web", mapping (("pid", str "host") ∷ ("user", str "root") ∷ []))
          ∷ ("db", mapping (("image", str "redis") ∷ []))
          ∷ []),
    )
        ∷ [],
    ("services.web", 2) ∷ ("services.db", 5) ∷ [],
  );
  rerun = λ document lines. graded_all (at "CL-0010" "web" 3 ∷ at "CL-0018" "web" 4 ∷ []) [];
  fixable = none;
}

patched : String
patched = "services:\n  web:\n    pid: host\n    user: root\n  db:\n    image: redis\n"

patched_test :
    apply_edits fixed_file (collect_edits fixers request findings).edits ≡ spliced patched
unfolding apply_edits collect_edits delete_line patched
patched_test = refl

verified_test :
    verify_apply fixers request recheck findings (collect_edits fixers request findings) patched
    ≡ none
unfolding verify_apply collect_edits delete_line patched value_eq
verified_test = refl

verify_apply_iff_example :
    (verify_apply fixers request recheck findings (collect_edits fixers request findings) patched
      ≡ none)
    ↔ Accepts fixers request recheck findings
        (collect_edits fixers request findings)
        patched
        (recheck.reload patched)
verify_apply_iff_example =
    verify_apply_iff fixers request recheck findings (collect_edits fixers request findings) patched
