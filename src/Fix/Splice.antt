-- ===== src/Fix/Splice.antt =====
-- `_offset` and `apply_edits` of src/compose_lint/fix.py.
pub mod Order
pub mod Weave
pub mod Lines
use compose_lint.Prelude.{
  Bool, List, Option, String, [], code, false, get_elem?, if◌then◌else◌, length, ltb, none, some,
  true, ℕ, ◌+◌, ◌-◌, ◌==◌, ◌∷◌,
}
use compose_lint.Text.{append, decimal, drop_text, take_text}
use compose_lint.Models.{TextEdit}
use compose_lint.Sorting.{sort_by}
use compose_lint.SourceLines.{line_starts}
use compose_lint.Engine.{Result, ok, raised}

-- `LineOutOfRangeError`, with its message.
line_error : ℕ → List ℕ → String
unfolding decimal
line_error line starts = append "edit names line " (
    append (decimal line)
      (append ", outside the file's " (append (decimal (length starts - 1)) " line(s)")))

-- _offset. The table has an entry for each line and one for the end.
offset_at : Option ℕ → ℕ → List ℕ → ℕ → Result ℕ
unfolding line_error
offset_at none line starts col = raised (line_error line starts)
offset_at (some start) line starts col =
    if col == 0
    then raised (append "edit names column " (append (decimal col) ", which is below 1"))
    else ok (start + (col - 1))

unfoldable pub offset : List ℕ → ℕ → ℕ → Result ℕ
unfolding offset_at line_error
offset starts line col =
    if line == 0
    then raised (line_error line starts)
    else offset_at (get_elem? starts (line - 1)) line starts col

-- An edit at its offsets: of the edit, the splice reads its replacement only.
pub record Span : Type 0 where
  pub begin : ℕ
  pub end : ℕ
  pub replacement : String

unfoldable pub placed : Result ℕ → Result ℕ → String → Result Span
placed (raised e) _ r = raised e
placed (ok b) (raised e) r = raised e
placed (ok b) (ok e) r = ok (record { begin = b; end = e; replacement = r })

unfoldable pub span_of : List ℕ → TextEdit → Result Span
unfolding placed offset
span_of starts e =
    placed (offset starts e.start_line e.start_col) (offset starts e.end_line e.end_col)
      e.replacement

unfoldable pub add_span : Result Span → Result (List Span) → Result (List Span)
add_span (raised e) _ = raised e
add_span (ok s) (raised e) = raised e
add_span (ok s) (ok ss) = ok (s ∷ ss)

unfoldable pub spans_of : List ℕ → List TextEdit → Result (List Span)
unfolding span_of add_span
spans_of starts [] = ok []
spans_of starts (e ∷ es) = add_span (span_of starts e) (spans_of starts es)

-- Python's order of texts: by the codes of their characters.
unfoldable pub text_le : String → String → Bool
text_le String.[] t = true
text_le (String.◌∷◌ c s) String.[] = false
text_le (String.◌∷◌ c s) (String.◌∷◌ d t) =
    let rest = text_le s t in
    if ltb (code c) (code d) then true else if ltb (code d) (code c) then false else rest

-- `key=lambda span: (span[0], span[1], span[2].replacement)`
unfoldable pub span_le : Span → Span → Bool
unfolding text_le
span_le a b =
    if a.begin == b.begin
    then if a.end == b.end then text_le a.replacement b.replacement else ltb a.end b.end
    else ltb a.begin b.begin

-- The first span that begins before the one in front of it ends.
unfoldable pub first_overlap : ℕ → List Span → Option (ℕ × ℕ)
first_overlap prev_end [] = none
first_overlap prev_end (s ∷ ss) =
    let rest = first_overlap s.end ss in
    if ltb s.begin prev_end then some (s.begin, prev_end) else rest

-- `result[:begin] + edit.replacement + result[end:]`
unfoldable pub splice : Span → String → String
unfolding take_text drop_text
splice s text = append (take_text s.begin text) (append s.replacement (drop_text s.end text))

-- `for ... in reversed(spans)`: the last span first.
unfoldable pub splice_all : List Span → String → String
unfolding splice
splice_all [] text = text
splice_all (s ∷ ss) text = splice s (splice_all ss text)

pub data Spliced : Type 0 where
  spliced : String → Spliced
  overlapping : ℕ → ℕ → Spliced
  out_of_range : String → Spliced

unfoldable pub splice_checked : String → List Span → Option (ℕ × ℕ) → Spliced
unfolding splice_all
splice_checked text ss (some (begin, prev_end)) = overlapping begin prev_end
splice_checked text ss none = spliced (splice_all ss text)

unfoldable pub splice_sorted : String → List Span → Spliced
unfolding splice_checked first_overlap
splice_sorted text ss = splice_checked text ss (first_overlap 0 ss)

unfoldable pub splice_spans : String → Result (List Span) → Spliced
unfolding splice_sorted sort_by span_le
splice_spans text (raised e) = out_of_range e
splice_spans text (ok ss) = splice_sorted text (sort_by span_le ss)

-- apply_edits
unfoldable pub apply_edits : String → List TextEdit → Spliced
unfolding splice_spans spans_of line_starts
apply_edits text edits = splice_spans text (spans_of (line_starts text) edits)

-- What a caller goes on with.
abbrev pub text_of : Spliced → Option String
text_of (spliced text) = some text
text_of _ = none
