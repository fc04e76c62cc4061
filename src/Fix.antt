-- ===== src/Fix.antt =====
-- src/compose_lint/fix.py: the edits of the fixers, gathered for a file and spliced into it.
pub mod Splice
pub mod Conflict
pub mod Coordinate
pub mod Collect
pub mod Drift
pub mod Verify
use compose_lint.Prelude.{
  Bool, List, String, [], code, false, if◌then◌else◌, ltb, not, str_eq, ℕ, ◌&&◌, ◌++◌, ◌+◌, ◌-◌,
  ◌==◌, ◌∷◌,
}
use compose_lint.Text.{append, mem_text, starts_with}
use compose_lint.Dict.{Dict}
use compose_lint.Value.{Value}
use compose_lint.Models.{Finding, FixRefusal, TextEdit}
use compose_lint.Engine.{Result}

-- What a fixer answers: nothing that it can fix, a refusal with a reason, or edits.
pub data Answer : Type 0 where
  unfixed : Answer
  refused : FixRefusal → Answer
  edits : List TextEdit → Answer

-- The part of a rule that fixes: `fix`, from the finding on, and `fix_writes_keys`.
pub record Fixer : Type 0 where
  pub id : String
  pub fix : Finding → Dict Value → Dict ℕ → String → Result Answer
  pub writes : List String

-- _FixUnit
pub record FixUnit : Type 0 where
  pub findings : List Finding
  pub edits : List TextEdit
  pub caveat_rule_id : String

-- FixResult
pub record FixResult : Type 0 where
  pub edits : List TextEdit
  pub fixed : List Finding
  pub manual : List Finding
  pub caveats : Dict String
  pub fixed_edits : List (Finding × List TextEdit)
  pub notes : List String
  pub crashes : List String

-- `if note not in notes: notes.append(note)`
unfoldable pub add_note : String → List String → List String
unfolding mem_text
add_note note notes = if mem_text note notes then notes else notes ++ note ∷ []

-- `"\r\n"`
abbrev pub crlf : String
crlf = "\r\n"

-- `text.count("\r\n")` and `text.count("\n")`
unfoldable pub count_crlf : String → ℕ
unfolding starts_with
count_crlf String.[] = 0
count_crlf (String.◌∷◌ c s) = (if starts_with crlf (String.◌∷◌ c s) then 1 else 0) + count_crlf s

unfoldable pub count_lf : String → ℕ
count_lf String.[] = 0
count_lf (String.◌∷◌ c s) = (if code c == 10 then 1 else 0) + count_lf s

-- _dominant_newline
unfoldable pub dominant_newline : String → String
unfolding count_crlf count_lf
dominant_newline text =
    if ltb (count_lf text - count_crlf text) (count_crlf text) then crlf else "\n"

-- `re.sub("(?<!\r)\n", newline, text)`, behind a carriage return or not.
unfoldable pub adapt_from : Bool → String → String → String
adapt_from after_cr newline String.[] = ""
adapt_from after_cr newline (String.◌∷◌ c s) =
    let rest = adapt_from (code c == 13) newline s in
    if code c == 10 && not after_cr then append newline rest else String.◌∷◌ c rest

-- _adapted_to_newline
unfoldable pub adapted_to_newline : String → TextEdit → TextEdit
unfolding adapt_from
adapted_to_newline newline edit =
    if str_eq newline "\n"
    then edit
    else record edit { replacement = adapt_from false newline edit.replacement }
