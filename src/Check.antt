-- ===== src/Check.antt =====
-- `_run_check` of src/compose_lint/cli.py from the loaded documents on: the channels of a run, and its
-- exit code. Reading the files and writing the reports is left out.
pub mod Verdict
use compose_lint.Prelude.{
  Bool, List, Option, String, [], false, if◌then◌else◌, length, map, none, not, select, some, true,
  ℕ, ◌++◌, ◌||◌, ◌∷◌,
}
use compose_lint.Text.{append, decimal}
use compose_lint.Models.{
  Diagnostic, DiagnosticKind, Finding, Severity, coverage_gap, parse, rule_crash, unread_input,
}
use compose_lint.Engine.{Rule}
use compose_lint.Engine.Order.{filter_findings}
use compose_lint.Engine.Run.{
  Crash, Input, Report, crashes_of, findings_of, graded_all, limit_error, max_findings, run_rules,
}

pub record CheckArgs : Type 0 where
  pub fail_on : Severity
  pub allow_partial_coverage : Bool
  pub skip_suppressed : Bool

-- A document that was read: what was not followed in it, what its notes say, what its rules see, the
-- other file, if any, that a finding's line is written in, and the failure of the second read that
-- SARIF needs.
pub record Graded : Type 0 where
  pub gaps : List String
  pub notes : List String
  pub input : Input
  pub other_source : Finding → Option String
  pub second_read : Option String

-- What comes of loading a file.
pub data Loaded : Type 0 where
  not_applicable : Loaded
  unreadable : String → Loaded
  loaded : Graded → Loaded

-- The channels of a run.
pub record Channels : Type 0 where
  pub parse_errors : List Diagnostic
  pub coverage_errors : List Diagnostic
  pub coverage_warnings : List Diagnostic
  pub rule_errors : List Diagnostic
  pub has_errors : Bool

abbrev pub diagnose : DiagnosticKind → String → String → Diagnostic
diagnose kind file message = record { file = file; message = message; kind = kind }

abbrev pub diagnose_all : DiagnosticKind → String → List String → List Diagnostic
diagnose_all kind file messages = map (diagnose kind file) messages

-- `gap_channel.extend(_report_coverage_gaps(...))`: a waived gap is a warning.
unfoldable pub report_gaps : Bool → String → List String → Channels → Channels
report_gaps true file gaps c = record c {
  coverage_warnings = c.coverage_warnings ++ diagnose_all coverage_gap file gaps;
}
report_gaps false file gaps c = record c {
  coverage_errors = c.coverage_errors ++ diagnose_all coverage_gap file gaps;
}

-- `_record_rule_error` of each crash.
pub crash_message : Crash → String
crash_message (rule_id, service_name, e) =
    append "rule "
      (append rule_id (append " failed on service '" (append service_name (append "': " e))))

-- `str(limit)` of a FindingLimitError, the gap that it becomes.
unfoldable pub limit_gaps : Report → List String
unfolding decimal
limit_gaps (graded_all fs cs) = []
limit_gaps (limit_error fs cs) =
    append "grading stopped after " (
      append (decimal (length fs)) (
        append " findings (the limit is " (
          append (decimal max_findings)
            "), so the rest of this document was not graded. That many findings means a shared list multiplied by the services that use it; lint the document with fewer aliases of it, or split the stack.")))
    ∷ []

-- _attribute_sources, of one finding: _written_in compares absolute paths.
unfoldable pub attribute_source : (Finding → Option String) → Finding → Finding
attribute_source other_source f = elim (other_source f) [
  | none ↦ f
  | some source ↦ record f { source_file = some source }
]

-- `if args.skip_suppressed:`
unfoldable pub kept_findings : Bool → List Finding → List Finding
kept_findings true fs = select (λ f. not f.suppressed) fs
kept_findings false fs = fs

abbrev pub is_empty {ℓ} : {A : Type ℓ} → List A → Bool
is_empty [] = true
is_empty (x ∷ xs) = false

-- `failing = filter_findings(findings, args.fail_on)` and what it sets, unless the second read fails.
unfoldable pub judge : CheckArgs → String → Option String → List Finding → Channels → Channels
unfolding filter_findings
judge args file (some e) findings c = record c {
  parse_errors = c.parse_errors ++ diagnose parse file e ∷ [];
}
judge args file none findings c = record c {
  has_errors = c.has_errors || not (is_empty (filter_findings findings args.fail_on));
}

-- The findings of a file's report as the run shows them.
unfoldable pub shown_findings : CheckArgs → String → Graded → Report → List Finding
unfolding kept_findings attribute_source
shown_findings args file g report =
    kept_findings args.skip_suppressed (map (attribute_source g.other_source) (findings_of report))

unfoldable pub grade_file : CheckArgs → String → Graded → Report → Channels → Channels
unfolding report_gaps judge crash_message limit_gaps shown_findings
grade_file args file g report c =
    let c1 = report_gaps args.allow_partial_coverage file g.gaps c in
    let c2 = record c1 {
      coverage_warnings = c1.coverage_warnings ++ diagnose_all unread_input file g.notes;
    } in
    let c3 = record c2 {
      rule_errors =
          c2.rule_errors ++ diagnose_all rule_crash file (map crash_message (crashes_of report));
    } in
    let c4 = report_gaps args.allow_partial_coverage file (limit_gaps report) c3 in
    judge args file g.second_read (shown_findings args file g report) c4

-- The body of the loop over the files.
unfoldable pub check_file : List Rule → CheckArgs → String × Loaded → Channels → Channels
unfolding grade_file run_rules
check_file rules args (file, not_applicable) c = c
check_file rules args (file, unreadable e) c = record c {
  parse_errors = c.parse_errors ++ diagnose parse file e ∷ [];
}
check_file rules args (file, loaded g) c = grade_file args file g (run_rules rules g.input) c

unfoldable pub check_files : List Rule → CheckArgs → List (String × Loaded) → Channels → Channels
unfolding check_file
check_files rules args [] c = c
check_files rules args (f ∷ fs) c = check_files rules args fs (check_file rules args f c)

unfoldable pub selection_gaps : Bool → List (String × String) → Channels → Channels
unfolding report_gaps
selection_gaps waived [] c = c
selection_gaps waived ((path, message) ∷ gaps) c =
    selection_gaps waived gaps (report_gaps waived path (message ∷ []) c)

abbrev pub no_diagnostics : Channels
no_diagnostics = record {
  parse_errors = [];
  coverage_errors = [];
  coverage_warnings = [];
  rule_errors = [];
  has_errors = false;
}

-- `sys.exit(...)`
unfoldable pub exit_code : Channels → List Diagnostic → ℕ
exit_code c config_errors =
    if not (is_empty (c.parse_errors ++ (c.coverage_errors ++ (c.rule_errors ++ config_errors))))
    then 2
    else if c.has_errors
    then 1
    else 0

-- The run over the selected documents, with what the selection could not read and the strict errors of
-- the configuration.
unfoldable pub run_check :
    List Rule → CheckArgs → List (String × String) → List (String × Loaded) → List Diagnostic → ℕ
unfolding check_files selection_gaps exit_code
run_check rules args gaps files config_errors =
    exit_code
      (check_files rules args files
        (selection_gaps args.allow_partial_coverage gaps no_diagnostics))
      config_errors
