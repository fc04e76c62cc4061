-- ===== src/Edits.antt =====
-- src/compose_lint/_yaml_edit.py: how the fixers read the lines of a file. A line is known by its
-- number, from 1; the callers pass numbers of lines that are there.
pub mod Blocks
pub mod Replace
pub mod Scalars
pub mod Security
use compose_lint.Prelude.{
  Bool, List, Option, String, [], false, get_elem?, if◌then◌else◌, none, or_else, some, str_eq, ℕ,
  ◌-◌, ◌||◌, ◌∷◌,
}
use compose_lint.Text.{len, lstrip, lstrip_char, partition, rstrip_char, starts_with, strip, words}

-- `source_lines[n - 1]`
unfoldable pub line_at : List String → ℕ → String
line_at source_lines n = or_else (get_elem? source_lines (n - 1)) ""

-- line_indent
unfoldable pub line_indent : String → ℕ
unfolding rstrip_char lstrip_char
line_indent line = let body = rstrip_char 10 line in len body - len (lstrip_char 32 body)

-- What follows the first colon of a line, without the line's end.
unfoldable pub after_colon : String → Option String
unfolding rstrip_char partition
after_colon line = (partition b':' (rstrip_char 10 line)).1

-- opens_block_body
unfoldable pub opens_block_body : String → Bool
unfolding after_colon strip starts_with
opens_block_body line = elim (after_colon line) [
  | none ↦ false
  | some value ↦ let trailing = strip value in str_eq trailing "" || starts_with "#" trailing
]

-- value_is_shared: the first word that decides.
shared_in : List String → Bool
unfolding starts_with
shared_in [] = false
shared_in (w ∷ ws) =
    let rest = shared_in ws in
    if starts_with "#" w then false else (starts_with "&" w || starts_with "*" w) || rest

unfoldable pub value_is_shared : String → Bool
unfolding after_colon words shared_in
value_is_shared line = elim (after_colon line) [
  | none ↦ false
  | some value ↦ shared_in (words value)
]

-- _is_seq_item
unfoldable pub is_seq_item : String → Bool
unfolding lstrip starts_with
is_seq_item line = let stripped = lstrip line in str_eq stripped "-" || starts_with "- " stripped

-- _is_blank_or_comment
unfoldable pub is_blank_or_comment : String → Bool
unfolding strip starts_with
is_blank_or_comment line =
    let stripped = strip line in str_eq stripped "" || starts_with "#" stripped
