-- ===== src/Fix/Splice/Lines.antt =====
-- Replacing whole lines of a file by one edit: `replace_lines` under `apply_edits`.
use compose_lint.Prelude.{
  Bool-cases, List, Option, String, [], ap, arith, drop, false, get_elem?, if◌then◌else◌, inl, inr,
  length, ltb, not-ltb→le, or_else, refl, suc, take, zero, ℕ, ◌+◌, ◌-◌, ◌∙◌, ◌∷◌, ◌≡◌, ◌≤◌,
}
use compose_lint.Text.{append, drop_text, len, take_text}
use compose_lint.Text.Laws.{len-append}
use compose_lint.Models.{TextEdit}
use compose_lint.Sorting.{insert_by, sort_by}
use compose_lint.SourceLines.{joined, line_starts, split_lines}
use compose_lint.SourceLines.Laws.{drop_text-lines, starts_from-at, take_text-lines}
use compose_lint.Engine.{ok}
use compose_lint.Edits.Replace.{replace_lines, trimmed}
use compose_lint.Fix.Splice.{
  add_span, apply_edits, first_overlap, offset, offset_at, placed, span_of, spans_of, splice,
  splice_all, splice_checked, splice_sorted, splice_spans, spliced,
}
use compose_lint.Edits.{line_at}

-- A position in a line of the file, or behind its last line.
offset-line :
    (text : String) (line col : ℕ)
    → 1 ≤ line
    → line ≤ length (split_lines text) + 1
    → 1 ≤ col
    → offset (line_starts text) line col
      ≡ ok (len (joined (take (line - 1) (split_lines text))) + (col - 1))
unfolding offset offset_at line_starts
offset-line text line col h k c = ground (arith, starts_from-at 0 (line - 1) (split_lines text))

-- A single edit, by what is left before and behind it.
apply_edits-one :
    (text before behind : String) (e : TextEdit) (b f : ℕ)
    → offset (line_starts text) e.start_line e.start_col ≡ ok b
    → offset (line_starts text) e.end_line e.end_col ≡ ok f
    → take_text b text ≡ before
    → drop_text f text ≡ behind
    → apply_edits text (e ∷ []) ≡ spliced (append before (append e.replacement behind))
unfolding apply_edits spans_of span_of placed add_span splice_spans sort_by insert_by splice_sorted
    splice_checked first_overlap splice_all splice
apply_edits-one text before behind e b f p q t d = rw (p, q) (rw (not-ltb-zero b) (rw (t, d) refl))
  where
    not-ltb-zero : (b : ℕ) → ltb b 0 ≡ false
    not-ltb-zero b = ground arith

last_joined :
    (ls : List String) (n : ℕ)
    → length ls ≡ suc n
    → len (joined (take n ls)) + len (or_else (get_elem? ls n) "") ≡ len (joined ls)
last_joined [] n h = absurd (omega arith)
last_joined (l ∷ []) zero h = omega (arith, len-append l "")
last_joined (l ∷ m ∷ ls) zero h = absurd (omega arith)
last_joined (l ∷ ls) (suc n) h = omega (
  arith,
  last_joined ls n (omega arith),
  len-append l (joined (take n ls)),
  len-append l (joined ls),
)

take-all : (ls : List String) → take (length ls) ls ≡ ls
take-all [] = refl
take-all (l ∷ ls) = ap (λ r. l ∷ r) (take-all ls)

-- The end of the edit: the beginning of the line behind the last one, or the end of the file.
offset-end :
    (text : String) (first last : ℕ) (replacement : String) (caveat : Option String)
    → 1 ≤ last
    → last ≤ length (split_lines text)
    → let e = replace_lines (split_lines text) first last replacement caveat in
      offset (line_starts text) e.end_line e.end_col
      ≡ ok (len (joined (take last (split_lines text))))
unfolding replace_lines
offset-end text first last replacement caveat h k =
    let ls = split_lines text in
    elim (Bool-cases (ltb last (length ls))) [
      | inl e ↦ rw e (
          offset-line text (last + 1) 1 (omega arith) (omega arith) (omega arith)
          ∙ ap (λ n. ok (len (joined (take n ls)) + (1 - 1))) {y = last} (omega arith)
          ∙ ap ok (omega arith))
      | inr e ↦ rw e (
          offset-line text last (len (line_at ls last) + 1) h (omega arith) (omega arith)
          ∙ ap ok (to_the_end e))
    ]
  where
    to_the_end :
        ltb last (length (split_lines text)) ≡ false
        → len (joined (take (last - 1) (split_lines text)))
            + (len (line_at (split_lines text) last) + 1 - 1)
          ≡ len (joined (take last (split_lines text)))
    to_the_end e =
        let all : last ≡ length (split_lines text) = omega (arith, not-ltb→le) in
        omega (
          arith,
          last_joined (split_lines text) (last - 1) (omega arith),
          ap (λ n. len (joined (take n (split_lines text)))) all,
          ap (λ ls. len (joined ls)) (take-all (split_lines text)),
        )

-- Replacing whole lines `first` to `last` of a file leaves the lines before and behind them as they
-- were, byte for byte, and puts the replacement between them; at the end of a file that does not
-- end in a line feed, the replacement gives up its own.
pub apply_edits-replace_lines :
    (text : String) (first last : ℕ) (replacement : String) (caveat : Option String)
    → 1 ≤ first
    → first ≤ last
    → last ≤ length (split_lines text)
    → apply_edits text (replace_lines (split_lines text) first last replacement caveat ∷ [])
      ≡ spliced (
          append (joined (take (first - 1) (split_lines text))) (
            append
              (if ltb last (length (split_lines text))
                then replacement
                else trimmed replacement (line_at (split_lines text) last))
              (joined (drop last (split_lines text)))))
unfolding replace_lines
apply_edits-replace_lines text first last replacement caveat h k m =
    let ls = split_lines text in
    let e = replace_lines ls first last replacement caveat in
    apply_edits-one text (joined (take (first - 1) ls)) (joined (drop last ls)) e
      (len (joined (take (first - 1) ls))) (len (joined (take last ls)))
      (elim (Bool-cases (ltb last (length ls))) [
        | inl p ↦
            rw p (offset-line text first 1 h (omega arith) (omega arith) ∙ ap ok (omega arith))
        | inr p ↦
            rw p (offset-line text first 1 h (omega arith) (omega arith) ∙ ap ok (omega arith))
      ])
      (offset-end text first last replacement caveat (omega arith) m)
      (take_text-lines (first - 1) text) (drop_text-lines last text)
    ∙ elim (Bool-cases (ltb last (length ls))) [ inl p ↦ rw p refl | inr p ↦ rw p refl ]
