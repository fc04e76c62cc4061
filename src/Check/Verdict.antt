-- ===== src/Check/Verdict.antt =====
-- When a run exits with 0.
use compose_lint.Prelude.{
  Bool, List, Option, String, [], ap, ap₂, arith, false, if◌then◌else◌, map, none, not, refl,
  select-select, some, true, ◌&&◌, ◌++◌, ◌==◌, ◌||◌, ◌∙◌, ◌∷◌, ◌≡◌,
}
use compose_lint.Models.{
  Diagnostic, Finding, Severity, coverage_gap, parse, rule_crash, severity_ge, unread_input,
}
use compose_lint.Engine.{Rule}
use compose_lint.Engine.Order.{filter_findings}
use compose_lint.Engine.Run.{Report, crashes_of, findings_of, graded_all, limit_error, run_rules}
use compose_lint.Check.{
  Channels, CheckArgs, Graded, Loaded, attribute_source, check_file, check_files, crash_message,
  diagnose, diagnose_all, exit_code, grade_file, is_empty, judge, kept_findings, limit_gaps, loaded,
  no_diagnostics, not_applicable, report_gaps, run_check, selection_gaps, shown_findings,
  unreadable,
}

-- Nothing on the channels that fail a run.
abbrev pub is_clean : Channels → Bool
is_clean c =
    is_empty c.parse_errors
    && is_empty c.coverage_errors
    && is_empty c.rule_errors
    && not c.has_errors

is_limit : Report → Bool
is_limit (graded_all fs cs) = false
is_limit (limit_error fs cs) = true

abbrev no_error : Option String → Bool
no_error none = true
no_error (some e) = false

-- A file that does not fail the run: it does not apply; or it was read, nothing of it was left out
-- unless that is waived, no rule crashed on it, and nothing unsuppressed in its report is as severe as
-- the threshold.
unfoldable pub passes : List Rule → CheckArgs → Loaded → Bool
unfolding is_limit filter_findings run_rules
passes rules args not_applicable = true
passes rules args (unreadable e) = false
passes rules args (loaded g) =
    let report = run_rules rules g.input in
    (args.allow_partial_coverage || (is_empty g.gaps && not (is_limit report)))
    && is_empty (crashes_of report)
    && no_error g.second_read
    && is_empty (filter_findings (findings_of report) args.fail_on)

is_empty-append {ℓ} :
    {A : Type ℓ} (xs ys : List A) → is_empty (xs ++ ys) ≡ (is_empty xs && is_empty ys)
is_empty-append [] ys = refl
is_empty-append (x ∷ xs) ys = refl

is_empty-map {ℓ κ} :
    {A : Type ℓ} {B : Type κ} (f : A → B) (xs : List A) → is_empty (map f xs) ≡ is_empty xs
is_empty-map f [] = refl
is_empty-map f (x ∷ xs) = refl

severity-attribute_source :
    (o : Finding → Option String) (f : Finding) → (attribute_source o f).severity ≡ f.severity
unfolding attribute_source
severity-attribute_source o f = go (o f)
  where
    go :
        (s : Option String)
        → (elim s as (λ _. Finding) [
          | none ↦ f
          | some source ↦ record f { source_file = some source }
        ]).severity
          ≡ f.severity
    go none = refl
    go (some source) = refl

suppressed-attribute_source :
    (o : Finding → Option String) (f : Finding) → (attribute_source o f).suppressed ≡ f.suppressed
unfolding attribute_source
suppressed-attribute_source o f = go (o f)
  where
    go :
        (s : Option String)
        → (elim s as (λ _. Finding) [
          | none ↦ f
          | some source ↦ record f { source_file = some source }
        ]).suppressed
          ≡ f.suppressed
    go none = refl
    go (some source) = refl

-- The verdict does not read what the attribution writes.
is_empty-attributed :
    (o : Finding → Option String) (threshold : Severity) (fs : List Finding)
    → is_empty (filter_findings (map (attribute_source o) fs) threshold)
      ≡ is_empty (filter_findings fs threshold)
unfolding filter_findings attribute_source
is_empty-attributed o threshold [] = refl
is_empty-attributed o threshold (f ∷ fs) = rw (severity-attribute_source o f) (
    rw (suppressed-attribute_source o f) (
      go (severity_ge f.severity threshold && not f.suppressed)
        (filter_findings (map (attribute_source o) fs) threshold) (filter_findings fs threshold)
        (is_empty-attributed o threshold fs)))
  where
    go :
        (b : Bool) (xs ys : List Finding)
        → is_empty xs ≡ is_empty ys
        → is_empty (if b then attribute_source o f ∷ xs else xs)
          ≡ is_empty (if b then f ∷ ys else ys)
    go true xs ys h = refl
    go false xs ys h = h

-- Nor the suppressed findings.
is_empty-kept_findings :
    (skip : Bool) (threshold : Severity) (fs : List Finding)
    → is_empty (filter_findings (kept_findings skip fs) threshold)
      ≡ is_empty (filter_findings fs threshold)
unfolding filter_findings kept_findings
is_empty-kept_findings false threshold fs = refl
is_empty-kept_findings true threshold fs = ap is_empty (
    select-select (λ f. severity_ge f.severity threshold && not f.suppressed)
      (λ f. not f.suppressed) fs λ f h. ground arith)

and_second : (p c x r h : Bool) → (p && (c && x) && r && h) ≡ ((p && c && r && h) && x)
and_second p c x r h = ground arith

and_third : (p c r x h : Bool) → (p && c && (r && x) && h) ≡ ((p && c && r && h) && x)
and_third p c r x h = ground arith

and_first : (p x c r h : Bool) → ((p && x) && c && r && h) ≡ ((p && c && r && h) && x)
and_first p x c r h = ground arith

and_last : (p c r h x : Bool) → (p && c && r && not (h || not x)) ≡ ((p && c && r && not h) && x)
and_last p c r h x = ground arith

is_clean-coverage :
    (c : Channels) (xs : List Diagnostic)
    → is_clean (record c { coverage_errors = c.coverage_errors ++ xs })
      ≡ (is_clean c && is_empty xs)
is_clean-coverage c xs = rw (is_empty-append c.coverage_errors xs) (
    and_second (is_empty c.parse_errors) (is_empty c.coverage_errors) (is_empty xs)
      (is_empty c.rule_errors) (not c.has_errors))

is_clean-rule :
    (c : Channels) (xs : List Diagnostic)
    → is_clean (record c { rule_errors = c.rule_errors ++ xs }) ≡ (is_clean c && is_empty xs)
is_clean-rule c xs = rw (is_empty-append c.rule_errors xs) (
    and_third (is_empty c.parse_errors) (is_empty c.coverage_errors) (is_empty c.rule_errors)
      (is_empty xs) (not c.has_errors))

is_clean-parse :
    (c : Channels) (xs : List Diagnostic)
    → is_clean (record c { parse_errors = c.parse_errors ++ xs }) ≡ (is_clean c && is_empty xs)
is_clean-parse c xs = rw (is_empty-append c.parse_errors xs) (
    and_first (is_empty c.parse_errors) (is_empty xs) (is_empty c.coverage_errors)
      (is_empty c.rule_errors) (not c.has_errors))

and_true : (a : Bool) → a ≡ (a && true)
and_true true = refl
and_true false = refl

is_clean-report_gaps :
    (waived : Bool) (file : String) (gaps : List String) (c : Channels)
    → is_clean (report_gaps waived file gaps c) ≡ (is_clean c && (waived || is_empty gaps))
unfolding report_gaps
is_clean-report_gaps true file gaps c = and_true (is_clean c)
is_clean-report_gaps false file gaps c =
    is_clean-coverage c (diagnose_all coverage_gap file gaps)
    ∙ ap (λ b. is_clean c && b) (is_empty-map (diagnose coverage_gap file) gaps)

and_false : (a b : Bool) → (a && false) ≡ (a && (false && b))
and_false true b = refl
and_false false b = refl

is_clean-judge :
    (args : CheckArgs) (file : String) (second_read : Option String) (fs : List Finding)
    (c : Channels)
    → is_clean (judge args file second_read fs c)
      ≡ (is_clean c && (no_error second_read && is_empty (filter_findings fs args.fail_on)))
unfolding judge
is_clean-judge args file (some e) fs c =
    is_clean-parse c (diagnose parse file e ∷ [])
    ∙ and_false (is_clean c) (is_empty (filter_findings fs args.fail_on))
is_clean-judge args file none fs c =
    and_last (is_empty c.parse_errors) (is_empty c.coverage_errors) (is_empty c.rule_errors)
      c.has_errors (is_empty (filter_findings fs args.fail_on))

is_empty-shown_findings :
    (args : CheckArgs) (g : Graded) (report : Report) (file : String)
    → is_empty (filter_findings (shown_findings args file g report) args.fail_on)
      ≡ is_empty (filter_findings (findings_of report) args.fail_on)
unfolding shown_findings
is_empty-shown_findings args g report file =
    is_empty-kept_findings args.skip_suppressed args.fail_on
      (map (attribute_source g.other_source) (findings_of report))
    ∙ is_empty-attributed g.other_source args.fail_on (findings_of report)

is_empty-limit_gaps : (r : Report) → is_empty (limit_gaps r) ≡ not (is_limit r)
unfolding limit_gaps is_limit
is_empty-limit_gaps (graded_all fs cs) = refl
is_empty-limit_gaps (limit_error fs cs) = refl

grade_law :
    (a w g r l n f : Bool)
    → ((((a && (w || g)) && r) && (w || l)) && (n && f)) ≡ (a && ((w || (g && l)) && r && n && f))
grade_law a w g r l n f = ground arith

-- What one graded file does to the channels.
is_clean-grade_file :
    (args : CheckArgs) (file : String) (g : Graded) (report : Report) (c : Channels)
    → is_clean (grade_file args file g report c) ≡ (
        is_clean c
        && ((args.allow_partial_coverage || (is_empty g.gaps && not (is_limit report)))
            && is_empty (crashes_of report)
            && no_error g.second_read
            && is_empty (filter_findings (findings_of report) args.fail_on)))
unfolding grade_file
is_clean-grade_file args file g report c =
    let w = args.allow_partial_coverage in
    let c1 = report_gaps w file g.gaps c in
    let c2 = record c1 {
      coverage_warnings = c1.coverage_warnings ++ diagnose_all unread_input file g.notes;
    } in
    let messages = map crash_message (crashes_of report) in
    let c3 = record c2 { rule_errors = c2.rule_errors ++ diagnose_all rule_crash file messages } in
    let c4 = report_gaps w file (limit_gaps report) c3 in
    let shown = shown_findings args file g report in
    let a = is_clean-report_gaps w file g.gaps c in
    let b =
      is_clean-rule c2 (diagnose_all rule_crash file messages)
      ∙ ap (λ t. is_clean c2 && t)
          (is_empty-map (diagnose rule_crash file) messages
            ∙ is_empty-map crash_message (crashes_of report)) in
    let d = is_clean-report_gaps w file (limit_gaps report) c3 in
    let e = is_clean-judge args file g.second_read shown c4 in
    e
    ∙ ap₂ (λ (x y : Bool). x && (no_error g.second_read && y))
        (d
          ∙ ap₂ (λ (x y : Bool). x && (w || y)) (b ∙ ap (λ x. x && is_empty (crashes_of report)) a)
              (is_empty-limit_gaps report))
        (is_empty-shown_findings args g report file)
    ∙ grade_law (is_clean c) w (is_empty g.gaps) (is_empty (crashes_of report))
        (not (is_limit report)) (no_error g.second_read)
        (is_empty (filter_findings (findings_of report) args.fail_on))

is_clean-check_file :
    (rules : List Rule) (args : CheckArgs) (file : String) (l : Loaded) (c : Channels)
    → is_clean (check_file rules args (file, l) c) ≡ (is_clean c && passes rules args l)
unfolding check_file passes
is_clean-check_file rules args file not_applicable c = and_true (is_clean c)
is_clean-check_file rules args file (unreadable e) c = is_clean-parse c (diagnose parse file e ∷ [])
is_clean-check_file rules args file (loaded g) c =
    is_clean-grade_file args file g (run_rules rules g.input) c

-- Every file passes.
abbrev pub all_pass : List Rule → CheckArgs → List (String × Loaded) → Bool
all_pass rules args [] = true
all_pass rules args (f ∷ fs) = passes rules args f.1 && all_pass rules args fs

and_assoc : (a b c : Bool) → ((a && b) && c) ≡ (a && (b && c))
and_assoc true b c = refl
and_assoc false b c = refl

is_clean-check_files :
    (rules : List Rule) (args : CheckArgs) (files : List (String × Loaded)) (c : Channels)
    → is_clean (check_files rules args files c) ≡ (is_clean c && all_pass rules args files)
unfolding check_files
is_clean-check_files rules args [] c = and_true (is_clean c)
is_clean-check_files rules args ((file, l) ∷ files) c =
    is_clean-check_files rules args files (check_file rules args (file, l) c)
    ∙ ap (λ b. b && all_pass rules args files) (is_clean-check_file rules args file l c)
    ∙ and_assoc (is_clean c) (passes rules args l) (all_pass rules args files)

is_clean-selection_gaps :
    (waived : Bool) (gaps : List (String × String)) (c : Channels)
    → is_clean (selection_gaps waived gaps c) ≡ (is_clean c && (waived || is_empty gaps))
unfolding selection_gaps
is_clean-selection_gaps waived [] c = no_gap waived (is_clean c)
  where
    no_gap : (w a : Bool) → a ≡ (a && (w || true))
    no_gap w a = ground arith
is_clean-selection_gaps waived ((path, message) ∷ gaps) c =
    is_clean-selection_gaps waived gaps (report_gaps waived path (message ∷ []) c)
    ∙ ap (λ b. b && (waived || is_empty gaps)) (is_clean-report_gaps waived path (message ∷ []) c)
    ∙ one_gap waived (is_clean c) (is_empty gaps)
  where
    one_gap : (w a e : Bool) → ((a && (w || false)) && (w || e)) ≡ (a && (w || false))
    one_gap w a e = ground arith

exit_code-zero :
    (c : Channels) (config_errors : List Diagnostic)
    → (exit_code c config_errors == 0) ≡ (is_clean c && is_empty config_errors)
unfolding exit_code
exit_code-zero c config_errors =
    let e =
      is_empty-append c.parse_errors (c.coverage_errors ++ (c.rule_errors ++ config_errors))
      ∙ ap (λ b. is_empty c.parse_errors && b)
          (is_empty-append c.coverage_errors (c.rule_errors ++ config_errors)
            ∙ ap (λ b. is_empty c.coverage_errors && b)
                (is_empty-append c.rule_errors config_errors)) in
    rw e (
      go (is_empty c.parse_errors) (is_empty c.coverage_errors) (is_empty c.rule_errors)
        (is_empty config_errors) c.has_errors)
  where
    go :
        (p g r n h : Bool)
        → ((if not (p && (g && (r && n))) then 2 else if h then 1 else 0) == 0)
          ≡ ((p && g && r && not h) && n)
    go p g r n h = ground arith

-- A run exits with 0 exactly when the configuration raises no strict error, no gap of the selection
-- is left unwaived, and every file passes: it does not apply, or it was read, what was not read of it
-- is waived, no rule crashed on it, and no unsuppressed finding of its report reaches the threshold.
-- Hiding the suppressed findings and naming their files changes none of it.
pub run_check-zero :
    (rules : List Rule) (args : CheckArgs) (gaps : List (String × String))
    (files : List (String × Loaded)) (config_errors : List Diagnostic)
    → (run_check rules args gaps files config_errors == 0) ≡ (
        ((args.allow_partial_coverage || is_empty gaps) && all_pass rules args files)
        && is_empty config_errors)
unfolding run_check
run_check-zero rules args gaps files config_errors =
    let start = selection_gaps args.allow_partial_coverage gaps no_diagnostics in
    exit_code-zero (check_files rules args files start) config_errors
    ∙ ap (λ b. b && is_empty config_errors)
        (is_clean-check_files rules args files start
          ∙ ap (λ b. b && all_pass rules args files)
              (is_clean-selection_gaps args.allow_partial_coverage gaps no_diagnostics))
