-- ===== src/Fix/Collect/Sound.antt =====
-- The edits that survive the conflicts are spliced.
use compose_lint.Prelude.{
  All, Bool-cases, List, String, [], ap, append-nil, append_assoc, false, if◌then◌else◌, inl, inr,
  map, map-append, refl, str_eq, sym, ℕ, ◌++◌, ◌∙◌, ◌∷◌, ◌≡◌,
}
use compose_lint.Models.{Finding, TextEdit}
use compose_lint.Sorting.{sort_by}
use compose_lint.SourceLines.{line_starts}
use compose_lint.Engine.{Result, ok, raised}
use compose_lint.Fix.{FixResult, Fixer, adapt_from, adapted_to_newline, dominant_newline}
use compose_lint.Fix.Splice.{
  Span, add_span, apply_edits, offset, placed, span_le, span_of, spans_of, spliced,
}
use compose_lint.Fix.Splice.Weave.{AllApart, Apart, IsWithin, apply_edits_lem, weave}
use compose_lint.Fix.Conflict.{is_refused, refused_units}
use compose_lint.Fix.Collect.{Request, collect_units, sort_findings_for}
use compose_lint.Fix.Collect.Settle.{
  Placed, collect_edits, flatten, no_result, own_units, place, settle, settle_all, settle_unit,
}
use compose_lint.Fix.Collect.Placing.{IsPlaced, IsSound, place_all-IsPlaced}
use compose_lint.Fix.Collect.Survivors.{survivors, survivors-AllApart}

-- The file's line ending in the replacement of a span.
respan : String → Span → Span
respan newline s = record s {
  replacement =
      if str_eq newline "\n" then s.replacement else adapt_from false newline s.replacement;
}

add_span-ok :
    (r : Result Span) (q : Result (List Span)) (ss : List Span)
    → add_span r q ≡ ok ss
    → (s : Span) × (ts : List Span) × (r ≡ ok s) × (q ≡ ok ts) × (s ∷ ts ≡ ss)
unfolding add_span
add_span-ok (raised e) q ss h = absurd (cc)
add_span-ok (ok s) (raised e) ss h = absurd (cc)
add_span-ok (ok s) (ok ts) ss h = (s, ts, refl, refl, cc)

spans_of-append :
    (starts : List ℕ) (es fs : List TextEdit) (ss ts : List Span)
    → spans_of starts es ≡ ok ss
    → spans_of starts fs ≡ ok ts
    → spans_of starts (es ++ fs) ≡ ok (ss ++ ts)
unfolding spans_of add_span
spans_of-append starts [] fs ss ts h k = let e : [] ≡ ss = cc in rw (← e) k
spans_of-append starts (e ∷ es) fs ss ts h k =
    let (s, us, at, more, eq) = add_span-ok (span_of starts e) (spans_of starts es) ss h in
    rw (at, spans_of-append starts es fs us ts more k) (ap (λ r. ok (r ++ ts)) eq)

-- Another replacement at the same offsets.
placed-replacement :
    (b f : Result ℕ) (r t : String) (s : Span)
    → placed b f r ≡ ok s
    → (placed b f t ≡ ok (record s { replacement = t })) × (s.replacement ≡ r)
unfolding placed
placed-replacement (raised e) f r t s h = absurd (cc)
placed-replacement (ok b) (raised e) r t s h = absurd (cc)
placed-replacement (ok b) (ok e) r t s h =
    let same : record { begin = b; end = e; replacement = r } ≡ s = cc in
    let put : Span → Result Span = λ u. ok (record u { replacement = t }) in
    (ap put same, ap (λ (u : Span). u.replacement) (sym same))

span_of-adapted :
    (newline : String) (starts : List ℕ) (e : TextEdit) (s : Span)
    → span_of starts e ≡ ok s
    → span_of starts (adapted_to_newline newline e) ≡ ok (respan newline s)
unfolding span_of adapted_to_newline respan
span_of-adapted newline starts e s h =
    let b = offset starts e.start_line e.start_col in
    let f = offset starts e.end_line e.end_col in
    let other = placed-replacement b f e.replacement (adapt_from false newline e.replacement) s h in
    elim (Bool-cases (str_eq newline "\n")) [ inl p ↦ rw p h | inr p ↦ rw p (rw other.1 other.0) ]

spans_of-adapted :
    (newline : String) (starts : List ℕ) (es : List TextEdit) (ss : List Span)
    → spans_of starts es ≡ ok ss
    → spans_of starts (map (adapted_to_newline newline) es) ≡ ok (map (respan newline) ss)
unfolding spans_of add_span
spans_of-adapted newline starts [] ss h = let e : [] ≡ ss = cc in rw (← e) refl
spans_of-adapted newline starts (e ∷ es) ss h =
    let (s, us, at, more, eq) = add_span-ok (span_of starts e) (spans_of starts es) ss h in
    rw (span_of-adapted newline starts e s at, spans_of-adapted newline starts es us more)
      (ap (λ r. ok (map (respan newline) r)) eq)

module _ (newline : String) where
  respan-Apart :
      (s : Span) (ss : List Span)
      → All (Apart s) ss
      → All (Apart (respan newline s)) (map (respan newline) ss)
  unfolding respan
  respan-Apart s [] h = tt
  respan-Apart s (t ∷ ss) h = (h.0, respan-Apart s ss h.1)

  respan-AllApart :
      (text : String) (ss : List Span)
      → All (IsWithin text) ss × AllApart ss
      → All (IsWithin text) (map (respan newline) ss) × AllApart (map (respan newline) ss)
  unfolding respan
  respan-AllApart text [] h = h
  respan-AllApart text (s ∷ ss) h =
      let rest = respan-AllApart text ss (h.0.1, h.1.1) in
      ((h.0.0, rest.0), (respan-Apart s ss h.1.0, rest.1))

  surviving_edits : List ℕ → List Placed → List TextEdit
  surviving_edits losers [] = []
  surviving_edits losers (p ∷ ps) =
      let rest = surviving_edits losers ps in
      if is_refused p.index losers
      then rest
      else map (adapted_to_newline newline) p.unit.edits ++ rest

  settle_all-edits :
      (losers : List ℕ) (ps : List Placed) (r : FixResult)
      → (settle_all newline losers ps r).edits ≡ r.edits ++ surviving_edits losers ps
  unfolding settle_all settle_unit surviving_edits
  settle_all-edits losers [] r = sym (append-nil r.edits)
  settle_all-edits losers (p ∷ ps) r = elim (Bool-cases (is_refused p.index losers)) [
    | inl e ↦ settle_all-edits losers ps (settle_unit newline losers r p) ∙ rw e refl
    | inr e ↦
        settle_all-edits losers ps (settle_unit newline losers r p)
        ∙ rw e (
            append_assoc r.edits (map (adapted_to_newline newline) p.unit.edits)
              (surviving_edits losers ps))
  ]

  surviving_edits-survivors :
      (text : String) (losers : List ℕ) (ps : List Placed)
      → All (IsPlaced text) ps
      → spans_of (line_starts text) (surviving_edits losers ps)
        ≡ ok (map (respan newline) (survivors losers ps))
  unfolding surviving_edits survivors spans_of
  surviving_edits-survivors text losers [] h = refl
  surviving_edits-survivors text losers (p ∷ ps) h =
      let rest = surviving_edits-survivors text losers ps h.1 in
      elim (Bool-cases (is_refused p.index losers)) [
        | inl e ↦ rw e rest
        | inr e ↦ rw e (
            spans_of-append (line_starts text) (map (adapted_to_newline newline) p.unit.edits)
              (surviving_edits losers ps) (map (respan newline) p.spans)
              (map (respan newline) (survivors losers ps))
              (spans_of-adapted newline (line_starts text) p.unit.edits p.spans h.0.0) rest
            ∙ ap ok (sym (map-append (respan newline) p.spans (survivors losers ps))))
      ]

-- The edits that `collect_edits` returns are spliced into the file without an overlap, whatever the
-- findings, the rules and the lines, as long as each unit keeps its own contract: of the units that
-- lie in their services' blocks, the edits of one unit that can be placed lie in the file and do
-- not overlap each other. The edits of different units are this function's to separate.
pub collect_edits-spliced :
    (fixers : List Fixer) (request : Request) (findings : List Finding)
    → All
        (IsSound request.text)
        (own_units request
          (collect_units fixers request (sort_findings_for fixers request findings))).units
    → (out : String) × (apply_edits request.text (collect_edits fixers request findings).edits
        ≡ spliced out)
unfolding collect_edits place settle
collect_edits-spliced fixers request findings sound =
    let c =
      own_units request
        (collect_units fixers request (sort_findings_for fixers request findings)) in
    let p = place request c in
    let text = request.text in
    let newline = dominant_newline text in
    let losers = refused_units (flatten p.placed) in
    let (placed, numbered) =
      place_all-IsPlaced text c.units
        (record { placed = []; manual = c.manual; crashes = c.crashes }) sound (tt, tt) in
    let fine =
      respan-AllApart newline text (survivors losers p.placed)
        (survivors-AllApart text (flatten p.placed) 0 p.placed (λ P h. h) placed numbered) in
    let ss = map (respan newline) (survivors losers p.placed) in
    let es = settle_all-edits newline losers p.placed no_result in
    (
      weave 0 text (sort_by span_le ss),
      ap (apply_edits text) es
          ∙ (apply_edits_lem text (surviving_edits newline losers p.placed) ss
                (surviving_edits-survivors newline text losers p.placed placed) fine.0).0
              fine.1,
    )
