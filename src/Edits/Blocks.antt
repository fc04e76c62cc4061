-- ===== src/Edits/Blocks.antt =====
-- The block under a key: its first child, its extent, and what makes a fixer refuse it.
pub mod Span
use compose_lint.Prelude.{
  Bool, List, Option, String, [], drop, false, if◌then◌else◌, leb, ltb, none, not, or_else, some, ℕ,
  ◌&&◌, ◌+◌, ◌==◌, ◌||◌, ◌∷◌,
}
use compose_lint.Text.{starts_with, strip}
use compose_lint.Edits.{is_blank_or_comment, is_seq_item, line_at, line_indent, opens_block_body}

-- first_child_indent, of a key at an indent and the lines below it.
unfoldable pub first_child : ℕ → List String → Option ℕ
unfolding is_blank_or_comment line_indent is_seq_item
first_child key_indent [] = none
first_child key_indent (raw ∷ rest) =
    let more = first_child key_indent rest in
    if is_blank_or_comment raw
    then more
    else if ltb key_indent (line_indent raw) || (line_indent raw == key_indent && is_seq_item raw)
    then some (line_indent raw)
    else none

unfoldable pub first_child_indent : List String → ℕ → Option ℕ
unfolding first_child line_indent line_at
first_child_indent source_lines key_line =
    first_child (line_indent (line_at source_lines key_line)) (drop key_line source_lines)

-- The loop that has_merge_key_child and has_anchor_child share: a line at the indent of the first
-- child passes the test, before the block ends.
unfoldable pub any_child : (String → Bool) → ℕ → Option ℕ → List String → Bool
unfolding is_blank_or_comment line_indent
any_child test key_indent child_indent [] = false
any_child test key_indent child_indent (raw ∷ rest) =
    let blank = is_blank_or_comment raw in
    let indent = or_else child_indent (line_indent raw) in
    let more = any_child test key_indent (if blank then child_indent else some indent) rest in
    if blank
    then more
    else if leb (line_indent raw) key_indent
    then false
    else (line_indent raw == indent && test (strip raw)) || more

unfoldable pub has_merge_key_child : List String → ℕ → Bool
unfolding any_child line_indent line_at starts_with
has_merge_key_child source_lines key_line =
    any_child (starts_with "<<") (line_indent (line_at source_lines key_line)) none
      (drop key_line source_lines)

unfoldable pub has_anchor_child : List String → ℕ → Bool
unfolding any_child line_indent line_at starts_with
has_anchor_child source_lines key_line =
    any_child (λ s. starts_with "&" s || starts_with "*" s)
      (line_indent (line_at source_lines key_line)) none (drop key_line source_lines)

-- is_anchored_or_merged
unfoldable pub is_anchored_or_merged : List String → ℕ → Bool
unfolding opens_block_body line_at has_merge_key_child has_anchor_child
is_anchored_or_merged source_lines key_line =
    not (opens_block_body (line_at source_lines key_line))
    || has_merge_key_child source_lines key_line
    || has_anchor_child source_lines key_line

-- A line inside the block: deeper than its key, or an item of a compact sequence.
unfoldable pub is_inside : Bool → ℕ → String → Bool
unfolding line_indent is_seq_item
is_inside compact key_indent line =
    ltb key_indent (line_indent line)
    || (compact && line_indent line == key_indent && is_seq_item line)

-- The loop of block_span, at the line behind line `at`.
unfoldable pub last_inside : Bool → ℕ → ℕ → ℕ → List String → ℕ
unfolding is_blank_or_comment is_inside
last_inside compact key_indent at last [] = last
last_inside compact key_indent at last (line ∷ rest) =
    let blank = is_blank_or_comment line in
    let more = last_inside compact key_indent (at + 1) (if blank then last else at + 1) rest in
    if blank || is_inside compact key_indent line then more else last

indent_eq : Option ℕ → ℕ → Bool
indent_eq none k = false
indent_eq (some n) k = n == k

-- A sequence whose items stand at the indent of its key.
unfoldable pub is_compact : List String → ℕ → Bool
unfolding line_indent line_at first_child_indent indent_eq
is_compact source_lines key_line =
    indent_eq (first_child_indent source_lines key_line)
      (line_indent (line_at source_lines key_line))

-- block_span
unfoldable pub block_span : List String → ℕ → ℕ × ℕ
unfolding line_indent line_at is_compact last_inside
block_span source_lines key_line = (
  key_line,
  last_inside (is_compact source_lines key_line) (line_indent (line_at source_lines key_line))
      key_line key_line (drop key_line source_lines),
)
