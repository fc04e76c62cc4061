-- ===== src/Edits/Scalars.antt =====
-- sequence_scalar_span and mapping_scalar_span: the scalar that a line shows, and its column.
use compose_lint.Prelude.{Option, String, code, if◌then◌else◌, none, some, ℕ, ◌+◌, ◌-◌, ◌==◌, ◌||◌}
use compose_lint.Text.{
  append, has_char, len, lstrip_char, partition, rstrip, rstrip_char, starts_with, strip_prefix,
}

-- The text before the first ` #`, a trailing comment.
without_comment : String → String
unfolding starts_with
without_comment String.[] = ""
without_comment (String.◌∷◌ c s) =
    let rest = without_comment s in
    if starts_with " #" (String.◌∷◌ c s) then "" else String.◌∷◌ c rest

-- Inside the quote, where the quote is closed.
quoted : ℕ → String × Option String → Option (String × ℕ)
quoted col (inner, none) = none
quoted col (inner, some _) = some (inner, col)

-- The value at the 0-based column `idx`. `refused` are the characters that no plain scalar of the
-- caller's begins with.
scalar_at : String → ℕ → String → Option (String × ℕ)
unfolding has_char quoted partition without_comment rstrip
scalar_at refused idx String.[] = none
scalar_at refused idx (String.◌∷◌ c s) =
    if code c == b'\'' || code c == b'"'
    then quoted (idx + 2) (partition (code c) s)
    else if has_char (code c) refused
    then none
    else some (rstrip (without_comment (String.◌∷◌ c s)), idx + 1)

-- What follows the dash or the colon of a line: at least one space, then the value.
value_after : String → String → String → Option (String × ℕ)
unfolding starts_with lstrip_char scalar_at
value_after refused line after =
    if starts_with " " after
    then (let value = lstrip_char 32 after in scalar_at refused (len line - len value) value)
    else none

unfoldable pub sequence_scalar_span : String → Option (String × ℕ)
unfolding rstrip_char lstrip_char strip_prefix value_after
sequence_scalar_span raw_line =
    let line = rstrip_char 10 raw_line in
    elim (strip_prefix "-" (lstrip_char 32 line)) [
      | none ↦ none
      | some after ↦ value_after "" line after
    ]

unfoldable pub mapping_scalar_span : String → String → Option (String × ℕ)
unfolding rstrip_char lstrip_char strip_prefix value_after
mapping_scalar_span raw_line key =
    let line = rstrip_char 10 raw_line in
    elim (strip_prefix (append key ":") (lstrip_char 32 line)) [
      | none ↦ none
      | some after ↦ value_after "[{&*|>" line after
    ]
