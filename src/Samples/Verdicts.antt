-- ===== src/Samples/Verdicts.antt =====
-- The exit code of small runs.
use compose_lint.Prelude.{List, String, [], false, none, refl, ◌&&◌, ◌==◌, ◌||◌, ◌∷◌, ◌≡◌}
use compose_lint.Text.{decimal}
use compose_lint.Models.{Diagnostic, medium}
use compose_lint.Rules.Settings.{check_privileged, privileged_rule}
use compose_lint.Rules.Image.{check_image_not_pinned, image_not_pinned_rule}
use compose_lint.Engine.{Rule}
use compose_lint.Check.{CheckArgs, Graded, Loaded, is_empty, loaded, not_applicable, run_check}
use compose_lint.Check.Verdict.{all_pass, run_check-zero}
use compose_lint.Samples.{broken_rule, input}

abbrev strict_args : CheckArgs
strict_args = record { fail_on = medium; allow_partial_coverage = false; skip_suppressed = false }

abbrev read_document : Graded
read_document = record {
  gaps = [];
  notes = [];
  input = input;
  other_source = λ f. none;
  second_read = none;
}

abbrev rules : List Rule
rules = privileged_rule ∷ image_not_pinned_rule ∷ []

abbrev files : List (String × Loaded)
files = ("compose.yml", loaded read_document) ∷ ("fragment.yml", not_applicable) ∷ []

-- One finding stands; with a rule that crashes, the run has failed.
exit_one : run_check rules strict_args [] files [] ≡ 1
unfolding run_check check_privileged check_image_not_pinned decimal
exit_one = refl

exit_two : run_check (privileged_rule ∷ broken_rule ∷ []) strict_args [] files [] ≡ 2
unfolding run_check check_privileged decimal
exit_two = refl

exit_zero : run_check (privileged_rule ∷ []) strict_args [] files [] ≡ 0
unfolding run_check check_privileged decimal
exit_zero = refl

run_check-zero_example : (run_check rules strict_args [] files [] == 0) ≡ (
    ((strict_args.allow_partial_coverage || is_empty {A = String × String} [])
      && all_pass rules strict_args files)
    && is_empty {A = Diagnostic} [])
run_check-zero_example = run_check-zero rules strict_args [] files []
