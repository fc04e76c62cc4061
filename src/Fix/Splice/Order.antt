-- ===== src/Fix/Splice/Order.antt =====
-- The order of the spans is total, so the result of a splice does not depend on that of the edits.
use mathlib.Core.List.{Permᴰ}
use compose_lint.Prelude.{
  Char-path, List, String, ap, ap₂, arith, code, false, refl, subst, true, ℕ, ◌≡◌,
}
use compose_lint.Sorting.{TotalOrder, sort_by-perm}
use compose_lint.Fix.Splice.{
  Span, Spliced, add_span, apply_edits, out_of_range, span_le, span_of, spans_of, splice_sorted,
  splice_spans, text_le,
}
use compose_lint.Engine.{Result, ok, raised}
use compose_lint.Models.{TextEdit}
use compose_lint.SourceLines.{line_starts}

pub text_le_total : (s t : String) → text_le s t ≡ false → text_le t s ≡ true
unfolding text_le
text_le_total String.[] t h = absurd (cc)
text_le_total (String.◌∷◌ c s) String.[] h = refl
text_le_total (String.◌∷◌ c s) (String.◌∷◌ d t) h = ground (arith, text_le_total s t)

pub text_le_trans : (s t u : String) → text_le s t ≡ true → text_le t u ≡ true → text_le s u ≡ true
unfolding text_le
text_le_trans String.[] t u h k = refl
text_le_trans (String.◌∷◌ c s) String.[] u h k = absurd (cc)
text_le_trans (String.◌∷◌ c s) (String.◌∷◌ d t) String.[] h k = absurd (cc)
text_le_trans (String.◌∷◌ c s) (String.◌∷◌ d t) (String.◌∷◌ e u) h k =
    ground (arith, text_le_trans s t u)

pub text_le_antisym : (s t : String) → text_le s t ≡ true → text_le t s ≡ true → s ≡ t
unfolding text_le
text_le_antisym String.[] String.[] h k = refl
text_le_antisym String.[] (String.◌∷◌ d t) h k = absurd (cc)
text_le_antisym (String.◌∷◌ c s) String.[] h k = absurd (cc)
text_le_antisym (String.◌∷◌ c s) (String.◌∷◌ d t) h k =
    let e : code c ≡ code d = ground arith in
    ap₂ (λ x y. String.◌∷◌ x y) (Char-path c d e)
      (text_le_antisym s t (ground arith) (ground arith))

span_le_total : (a b : Span) → span_le a b ≡ false → span_le b a ≡ true
unfolding span_le
span_le_total a b h = ground (arith, text_le_total a.replacement b.replacement)

span_le_trans : (a b c : Span) → span_le a b ≡ true → span_le b c ≡ true → span_le a c ≡ true
unfolding span_le
span_le_trans a b c h k = ground (arith, text_le_trans a.replacement b.replacement c.replacement)

span_le_antisym : (a b : Span) → span_le a b ≡ true → span_le b a ≡ true → a ≡ b
unfolding span_le
span_le_antisym a b h k = ground (arith, text_le_antisym a.replacement b.replacement)

pub span_le-TotalOrder : TotalOrder span_le
span_le-TotalOrder = record {
  total = span_le_total;
  transitive = span_le_trans;
  antisym = span_le_antisym;
}

-- Both misplaced, or the same spans in some order.
abbrev SameSpans : Result (List Span) → Result (List Span) → Type 0
SameSpans (raised _) (raised _) = Unit
SameSpans (ok ss) (ok ts) = Permᴰ ss ts
SameSpans _ _ = ⊥

SameSpans-trans : (q r s : Result (List Span)) → SameSpans q r → SameSpans r s → SameSpans q s
SameSpans-trans (raised _) (raised _) (raised _) h k = tt
SameSpans-trans (ok ss) (ok ts) (ok us) h k = Permᴰ.trans h k
SameSpans-trans (raised _) (raised _) (ok us) h k = k
SameSpans-trans (raised _) (ok ts) s h k = absurd h
SameSpans-trans (ok ss) (raised _) s h k = absurd h
SameSpans-trans (ok ss) (ok ts) (raised _) h k = k

add_span-SameSpans :
    (s : Result Span) (q r : Result (List Span))
    → SameSpans q r
    → SameSpans (add_span s q) (add_span s r)
unfolding add_span
add_span-SameSpans (raised _) q r h = tt
add_span-SameSpans (ok s) (raised _) (raised _) h = tt
add_span-SameSpans (ok s) (ok ss) (ok ts) h = Permᴰ.cons refl h
add_span-SameSpans (ok s) (raised _) (ok ts) h = h
add_span-SameSpans (ok s) (ok ss) (raised _) h = h

add_span_comm :
    (s t : Result Span) (r : Result (List Span))
    → SameSpans (add_span s (add_span t r)) (add_span t (add_span s r))
unfolding add_span
add_span_comm (raised _) (raised _) r = tt
add_span_comm (raised _) (ok t) (raised _) = tt
add_span_comm (raised _) (ok t) (ok ss) = tt
add_span_comm (ok s) (raised _) (raised _) = tt
add_span_comm (ok s) (raised _) (ok ss) = tt
add_span_comm (ok s) (ok t) (raised _) = tt
add_span_comm (ok s) (ok t) (ok ss) = Permᴰ.swap refl refl

spans_of-SameSpans :
    (starts : List ℕ) {es fs : List TextEdit}
    → Permᴰ es fs
    → SameSpans (spans_of starts es) (spans_of starts fs)
unfolding spans_of
spans_of-SameSpans starts Permᴰ.nil = Permᴰ.nil
spans_of-SameSpans starts (Permᴰ.cons {a = a} {l₁ = es} {l₂ = fs} e d) =
    subst
      (λ b.
        SameSpans (add_span (span_of starts a) (spans_of starts es))
          (add_span (span_of starts b) (spans_of starts fs)))
      e
      (add_span-SameSpans (span_of starts a) (spans_of starts es) (spans_of starts fs)
        (spans_of-SameSpans starts d))
spans_of-SameSpans starts (Permᴰ.swap {a = a} {b = b} {a' = c} {b' = d} {l = l} e f) =
    subst
      (λ x.
        SameSpans (add_span (span_of starts a) (add_span (span_of starts b) (spans_of starts l)))
          (add_span (span_of starts c) (add_span (span_of starts x) (spans_of starts l))))
      e
      (subst
        (λ x.
          SameSpans (add_span (span_of starts a) (add_span (span_of starts b) (spans_of starts l)))
            (add_span (span_of starts x) (add_span (span_of starts a) (spans_of starts l))))
        f (add_span_comm (span_of starts a) (span_of starts b) (spans_of starts l)))
spans_of-SameSpans starts (Permᴰ.trans {l₁ = es} {l₂ = fs} {l₃ = gs} d e) =
    SameSpans-trans (spans_of starts es) (spans_of starts fs) (spans_of starts gs)
      (spans_of-SameSpans starts d) (spans_of-SameSpans starts e)

-- An outcome without the message that names the first misplaced edit.
abbrev pub without_message : Spliced → Spliced
without_message (out_of_range _) = out_of_range ""
without_message s = s

splice_spans-SameSpans :
    (text : String) (q r : Result (List Span))
    → SameSpans q r
    → without_message (splice_spans text q) ≡ without_message (splice_spans text r)
unfolding splice_spans
splice_spans-SameSpans text (raised _) (raised _) h = refl
splice_spans-SameSpans text (ok ss) (ok ts) h =
    ap (λ us. without_message (splice_sorted text us)) (sort_by-perm span_le span_le-TotalOrder h)
splice_spans-SameSpans text (raised _) (ok ts) h = absurd h
splice_spans-SameSpans text (ok ss) (raised _) h = absurd h

-- The outcome of splicing edits into a file does not depend on the order in which they are given:
-- the same text, the same overlap, or a misplaced edit in both orders.
pub apply_edits-perm :
    (text : String) {edits others : List TextEdit}
    → Permᴰ edits others
    → without_message (apply_edits text edits) ≡ without_message (apply_edits text others)
unfolding apply_edits
apply_edits-perm text {edits = es} {others = fs} p =
    splice_spans-SameSpans text (spans_of (line_starts text) es) (spans_of (line_starts text) fs)
      (spans_of-SameSpans (line_starts text) p)
