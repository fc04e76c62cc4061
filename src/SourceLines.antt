-- ===== src/SourceLines.antt =====
-- src/compose_lint/_lines.py: what a line of a document is, and where each line begins.
-- The break characters are those of the YAML reader; the cache of `split_lines` only saves work.
pub mod Laws
use compose_lint.Prelude.{
  Bool, Char, List, Option, String, [], code, false, if◌then◌else◌, none, not, some, ℕ, ◌&&◌, ◌+◌,
  ◌==◌, ◌||◌, ◌∷◌,
}
use compose_lint.Text.{append, len}

-- `_BREAKS`: line feed, carriage return, U+0085, U+2028 and U+2029.
unfoldable pub is_break : ℕ → Bool
is_break k = k == 10 || k == 13 || k == 0x85 || k == 0x2028 || k == 0x2029

unfoldable pub starts_with_lf : String → Bool
starts_with_lf String.[] = false
starts_with_lf (String.◌∷◌ c s) = code c == 10

-- The line goes on behind this character: it is no break, or the first half of a CRLF.
unfoldable pub continues : ℕ → String → Bool
unfolding is_break starts_with_lf
continues k s = not (is_break k) || (k == 13 && starts_with_lf s)

-- A character before the first line.
unfoldable pub glue : Char → List String → List String
glue c [] = String.◌∷◌ c "" ∷ []
glue c (l ∷ ls) = String.◌∷◌ c l ∷ ls

-- split_lines
unfoldable pub split_lines : String → List String
unfolding continues glue
split_lines String.[] = []
split_lines (String.◌∷◌ c s) =
    let rest = split_lines s in if continues (code c) s then glue c rest else String.◌∷◌ c "" ∷ rest

-- line_starts
unfoldable pub starts_from : ℕ → List String → List ℕ
starts_from offset [] = offset ∷ []
starts_from offset (l ∷ ls) = offset ∷ starts_from (offset + len l) ls

unfoldable pub line_starts : String → List ℕ
unfolding split_lines starts_from
line_starts text = starts_from 0 (split_lines text)

-- AMBIGUOUS_BREAKS
unfoldable pub ambiguous_break : ℕ → Option String
ambiguous_break k =
    if k == 13
    then some "U+000D CARRIAGE RETURN outside a CRLF pair"
    else if k == 0x85
    then some "U+0085 NEXT LINE"
    else if k == 0x2028
    then some "U+2028 LINE SEPARATOR"
    else if k == 0x2029
    then some "U+2029 PARAGRAPH SEPARATOR"
    else none

-- find_ambiguous_break, from a line on. The line feed of a CRLF is what counts its line.
unfoldable pub find_ambiguous : ℕ → String → Option (ℕ × String)
unfolding ambiguous_break starts_with_lf
find_ambiguous line String.[] = none
find_ambiguous line (String.◌∷◌ c s) =
    let rest = find_ambiguous (if code c == 10 then line + 1 else line) s in
    if code c == 13 && starts_with_lf s then rest else elim (ambiguous_break (code c)) [
      | none ↦ rest
      | some description ↦ some (line, description)
    ]

unfoldable pub find_ambiguous_break : String → Option (ℕ × String)
unfolding find_ambiguous
find_ambiguous_break text = find_ambiguous 1 text

-- `"".join(lines)`
abbrev pub joined : List String → String
joined [] = ""
joined (l ∷ ls) = append l (joined ls)
