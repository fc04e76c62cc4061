-- ===== src/Models.antt =====
-- src/compose_lint/models.py: severities, findings and run-level diagnostics.
use compose_lint.Prelude.{Bool, List, Option, String, false, leb, ltb, none, some, true, ℕ}

pub data Severity : Type 0 where
  low medium high critical : Severity

unfoldable pub rank : Severity → ℕ
rank low = 0
rank medium = 1
rank high = 2
rank critical = 3

-- `a >= b`, `a > b`
unfoldable pub severity_ge : Severity → Severity → Bool
unfolding rank
severity_ge a b = leb (rank b) (rank a)

unfoldable pub severity_gt : Severity → Severity → Bool
unfolding rank
severity_gt a b = ltb (rank b) (rank a)

-- `a <= b`, `a < b`
unfoldable pub severity_le : Severity → Severity → Bool
unfolding rank
severity_le a b = leb (rank a) (rank b)

unfoldable pub severity_lt : Severity → Severity → Bool
unfolding rank
severity_lt a b = ltb (rank a) (rank b)

-- `a == b` on the enumeration.
abbrev pub severity_eq : Severity → Severity → Bool
severity_eq low low = true
severity_eq medium medium = true
severity_eq high high = true
severity_eq critical critical = true
severity_eq _ _ = false

pub record Finding : Type 0 where
  pub rule_id : String
  pub severity : Severity
  pub service : String
  pub message : String
  pub line : Option ℕ
  pub fix : Option String
  pub references : List String
  pub suppressed : Bool
  pub suppression_reason : Option String
  pub suppressed_by : Option String
  pub severity_overridden_from : Option Severity
  pub evidence : Option String
  pub source_file : Option String
  pub source_is_document : Bool

-- `Finding(...)` with the dataclass defaults for what a rule leaves out.
abbrev pub finding :
    String → Severity → String → Option String → String → Option ℕ → String → List String → Finding
finding rule_id severity service evidence message line fix references = record {
  rule_id = rule_id;
  severity = severity;
  service = service;
  message = message;
  line = line;
  fix = some fix;
  references = references;
  suppressed = false;
  suppression_reason = none;
  suppressed_by = none;
  severity_overridden_from = none;
  evidence = evidence;
  source_file = none;
  source_is_document = true;
}

pub data DiagnosticKind : Type 0 where
  parse coverage_gap rule_crash run unread_input : DiagnosticKind

pub record Diagnostic : Type 0 where
  pub file : String
  pub message : String
  pub kind : DiagnosticKind

-- A replacement of the text from one 1-indexed position to another.
pub record TextEdit : Type 0 where
  pub start_line : ℕ
  pub start_col : ℕ
  pub end_line : ℕ
  pub end_col : ℕ
  pub replacement : String
  pub caveat : Option String

pub record FixRefusal : Type 0 where
  pub reason : String
