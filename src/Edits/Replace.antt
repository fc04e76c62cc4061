-- ===== src/Edits/Replace.antt =====
-- replace_lines and delete_lines.
use compose_lint.Prelude.{List, Option, String, if◌then◌else◌, length, ltb, not, ℕ, ◌&&◌, ◌+◌}
use compose_lint.Text.{ends_with_char, len, without_last}
use compose_lint.Models.{TextEdit}
use compose_lint.Edits.{line_at}

-- The replacement of the file's last line does not end in a line feed that the line lacked.
unfoldable pub trimmed : String → String → String
unfolding ends_with_char without_last
trimmed replacement last_line =
    if ends_with_char 10 replacement && not (ends_with_char 10 last_line)
    then without_last replacement
    else replacement

unfoldable pub replace_lines : List String → ℕ → ℕ → String → Option String → TextEdit
unfolding line_at trimmed
replace_lines source_lines first last replacement caveat =
    let last_line = line_at source_lines last in
    if ltb last (length source_lines)
    then record {
      start_line = first;
      start_col = 1;
      end_line = last + 1;
      end_col = 1;
      replacement = replacement;
      caveat = caveat;
    }
    else record {
      start_line = first;
      start_col = 1;
      end_line = last;
      end_col = len last_line + 1;
      replacement = trimmed replacement last_line;
      caveat = caveat;
    }

unfoldable pub delete_lines : List String → ℕ → ℕ → Option String → TextEdit
unfolding replace_lines
delete_lines source_lines first last caveat = replace_lines source_lines first last "" caveat
