-- ===== src/Fix/Conflict.antt =====
-- `_spans_conflict`, and the sweep of `collect_edits` over the sorted spans.
pub mod Sweep
use compose_lint.Prelude.{
  Bool, List, String, [], false, if◌then◌else◌, leb, ltb, not, str_eq, ℕ, ◌&&◌, ◌++◌, ◌==◌, ◌||◌,
  ◌∷◌,
}
use compose_lint.Sorting.{sort_by}
use compose_lint.Fix.Splice.{text_le}

-- _spans_conflict
unfoldable pub spans_conflict : ℕ → ℕ → ℕ → ℕ → Bool
spans_conflict a_begin a_end b_begin b_end =
    if a_begin == a_end
    then if b_begin == b_end then false else ltb b_begin a_begin && leb a_begin b_end
    else if b_begin == b_end
    then ltb a_begin b_begin && leb b_begin a_end
    else ltb a_begin b_end && ltb b_begin a_end

-- An edit of the numbered unit, at its offsets.
pub record FlatSpan : Type 0 where
  pub begin : ℕ
  pub end : ℕ
  pub unit : ℕ
  pub replacement : String

-- The order of the tuples `(start, end, index, replacement)`.
unfoldable pub flat_le : FlatSpan → FlatSpan → Bool
unfolding text_le
flat_le a b =
    if a.begin == b.begin
    then if a.end == b.end
      then if a.unit == b.unit then text_le a.replacement b.replacement else ltb a.unit b.unit
      else ltb a.end b.end
    else ltb a.begin b.begin

-- Two units insert the same text at one point.
unfoldable pub same_insertion : FlatSpan → FlatSpan → Bool
same_insertion a b =
    a.begin == a.end && a.end == b.begin && b.begin == b.end && str_eq a.replacement b.replacement

-- The test of the inner loop: spans of two units that cannot both be applied.
unfoldable pub clashes : FlatSpan → FlatSpan → Bool
unfolding spans_conflict same_insertion
clashes a b =
    not (a.unit == b.unit) && (spans_conflict a.begin a.end b.begin b.end || same_insertion a b)

-- The inner loop: the units refused for the span, up to the first one that begins behind it.
unfoldable pub refused_by : FlatSpan → List FlatSpan → List ℕ
unfolding clashes
refused_by a [] = []
refused_by a (b ∷ flat) =
    let rest = refused_by a flat in
    if ltb a.end b.begin then [] else if clashes a b then a.unit ∷ b.unit ∷ rest else rest

-- The outer loop.
unfoldable pub sweep : List FlatSpan → List ℕ
unfolding refused_by
sweep [] = []
sweep (a ∷ flat) = refused_by a flat ++ sweep flat

unfoldable pub refused_units : List FlatSpan → List ℕ
unfolding sweep sort_by flat_le
refused_units flat = sweep (sort_by flat_le flat)

-- `index in refused`
unfoldable pub is_refused : ℕ → List ℕ → Bool
is_refused u [] = false
is_refused u (v ∷ vs) = v == u || is_refused u vs
