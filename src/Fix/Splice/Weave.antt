-- ===== src/Fix/Splice/Weave.antt =====
-- Splicing from the last span to the first is one pass over the text from its beginning.
use compose_lint.Prelude.{
  All, All-weaken, Bool-cases, List, Option, String, [], ap, arith, inl, inr, le_trans, none, refl,
  some, suc, sym, true, zero, ℕ, ◌-◌, ◌∙◌, ◌∷◌, ◌≡◌, ◌≤◌, ◌⊎◌,
}
use compose_lint.Text.{append, drop_text, len, take_text}
use compose_lint.Text.Laws.{append-append}
use compose_lint.Fix.Splice.{
  Span, apply_edits, first_overlap, placed, span_le, spans_of, splice_all, splice_checked,
  splice_sorted, splice_spans, spliced,
}
use compose_lint.Sorting.{
  All-insert_by, All-of-insert_by, All-of-sort_by, All-sort_by, IsSortedBy, insert_by, sort_by,
  sort_by-IsSortedBy,
}
use compose_lint.Engine.{ok}
use compose_lint.Fix.Splice.Order.{span_le-TotalOrder}
use compose_lint.Models.{TextEdit}
use compose_lint.SourceLines.{line_starts}

-- The text from `pos` on, `rest`, with each span's replacement in its place.
unfoldable pub weave : ℕ → String → List Span → String
unfolding take_text drop_text
weave pos rest [] = rest
weave pos rest (s ∷ ss) =
    append (take_text (s.begin - pos) rest)
      (append s.replacement (weave s.end (drop_text (s.end - pos) rest) ss))

-- A span of this text.
abbrev pub IsWithin : String → Span → Type 0
IsWithin text s = (s.begin ≤ s.end) × (s.end ≤ len text)

-- Spans in order, each behind the one before it.
abbrev Follows : String → ℕ → List Span → Type 0
Follows text pos [] = pos ≤ len text
Follows text pos (s ∷ ss) = (pos ≤ s.begin) × IsWithin text s × Follows text s.end ss

take-append-take :
    (b e : ℕ) (t w : String)
    → b ≤ e
    → e ≤ len t
    → take_text b (append (take_text e t) w) ≡ take_text b t
unfolding take_text
take-append-take zero e t w h k = refl
take-append-take (suc b) zero t w h k = absurd (omega arith)
take-append-take (suc b) (suc e) String.[] w h k = absurd (omega arith)
take-append-take (suc b) (suc e) (String.◌∷◌ c t) w h k =
    ap (λ s. String.◌∷◌ c s) (take-append-take b e t w (omega arith) (omega arith))

drop-append-take : (e : ℕ) (t w : String) → e ≤ len t → drop_text e (append (take_text e t) w) ≡ w
unfolding take_text drop_text
drop-append-take zero t w k = refl
drop-append-take (suc e) String.[] w k = absurd (omega arith)
drop-append-take (suc e) (String.◌∷◌ c t) w k = drop-append-take e t w (omega arith)

take-drop : (p : ℕ) (t : String) → append (take_text p t) (drop_text p t) ≡ t
unfolding take_text drop_text
take-drop zero t = refl
take-drop (suc p) String.[] = refl
take-drop (suc p) (String.◌∷◌ c t) = ap (λ s. String.◌∷◌ c s) (take-drop p t)

take-take_drop :
    (p b : ℕ) (t : String)
    → p ≤ b
    → append (take_text p t) (take_text (b - p) (drop_text p t)) ≡ take_text b t
unfolding take_text drop_text
take-take_drop zero b t h = ap (λ k. take_text k t) (omega arith)
take-take_drop (suc p) zero t h = absurd (omega arith)
take-take_drop (suc p) (suc b) String.[] h = rw (take_text-empty (suc b - suc p)) refl
  where
    take_text-empty : (k : ℕ) → take_text k "" ≡ ""
    take_text-empty zero = refl
    take_text-empty (suc k) = refl
take-take_drop (suc p) (suc b) (String.◌∷◌ c t) h =
    ap (λ k. String.◌∷◌ c (append (take_text p t) (take_text k (drop_text p t)))) (omega arith)
    ∙ ap (λ s. String.◌∷◌ c s) (take-take_drop p b t (omega arith))

drop-drop : (p e : ℕ) (t : String) → p ≤ e → drop_text (e - p) (drop_text p t) ≡ drop_text e t
unfolding drop_text
drop-drop zero e t h = ap (λ k. drop_text k t) (omega arith)
drop-drop (suc p) zero t h = absurd (omega arith)
drop-drop (suc p) (suc e) String.[] h = drop_text-empty (suc e - suc p)
  where
    drop_text-empty : (k : ℕ) → drop_text k "" ≡ ""
    drop_text-empty zero = refl
    drop_text-empty (suc k) = refl
drop-drop (suc p) (suc e) (String.◌∷◌ c t) h =
    ap (λ k. drop_text k (drop_text p t)) (omega arith) ∙ drop-drop p e t (omega arith)

-- The pass from `pos` on, behind the text before it.
splice_all-weave :
    (text : String) (pos : ℕ) (ss : List Span)
    → Follows text pos ss
    → splice_all ss text ≡ append (take_text pos text) (weave pos (drop_text pos text) ss)
unfolding splice_all weave
splice_all-weave text pos [] h = sym (take-drop pos text)
splice_all-weave text pos (s ∷ ss) (after, (order, inside), more) =
    let w = weave s.end (drop_text s.end text) ss in
    rw (splice_all-weave text s.end ss more) (
      rw (take-append-take s.begin s.end text w order inside) (
        rw (drop-append-take s.end text w inside) (
          rw (drop-drop pos s.end text (le_trans after order)) (
            rw (← take-take_drop pos s.begin text after) (
              append-append (take_text pos text) (take_text (s.begin - pos) (drop_text pos text))
                (append s.replacement w))))))

abbrev pub Apart : Span → Span → Type 0
Apart a b = (a.end ≤ b.begin) ⊎ (b.end ≤ a.begin)

-- No two spans overlap; they may touch, and several may stand at one point.
abbrev pub AllApart : List Span → Type 0
AllApart [] = Unit
AllApart (s ∷ ss) = All (Apart s) ss × AllApart ss

Apart-symm : (a b : Span) → Apart a b → Apart b a
Apart-symm a b (inl h) = inr h
Apart-symm a b (inr h) = inl h

insert_by-AllApart :
    (s : Span) (ss : List Span) → All (Apart s) ss → AllApart ss → AllApart (insert_by span_le s ss)
unfolding insert_by
insert_by-AllApart s [] h k = (tt, tt)
insert_by-AllApart s (t ∷ ss) h k = elim (Bool-cases (span_le s t)) [
  | inl e ↦ rw e (h, k)
  | inr e ↦ rw e (
    All-insert_by span_le (Apart t) s ss (Apart-symm s t h.0) k.0,
    insert_by-AllApart s ss h.1 k.1,
  )
]

sort_by-AllApart : (ss : List Span) → AllApart ss → AllApart (sort_by span_le ss)
unfolding sort_by
sort_by-AllApart [] k = tt
sort_by-AllApart (s ∷ ss) k =
    insert_by-AllApart s (sort_by span_le ss) (All-sort_by span_le (Apart s) ss k.0)
      (sort_by-AllApart ss k.1)

-- Of two spans apart, the one that sorts first ends where the other begins, or before.
end-le-begin :
    (text : String) (s t : Span)
    → IsWithin text s
    → IsWithin text t
    → span_le s t ≡ true
    → Apart s t
    → s.end ≤ t.begin
unfolding span_le
end-le-begin text s t h k le (inl a) = a
end-le-begin text s t h k le (inr a) = ground arith

no_overlap :
    (text : String) (pos : ℕ) (ss : List Span)
    → All (λ s. pos ≤ s.begin) ss
    → All (IsWithin text) ss
    → IsSortedBy span_le ss
    → AllApart ss
    → first_overlap pos ss ≡ none
unfolding first_overlap
no_overlap text pos [] h w s a = refl
no_overlap text pos (s ∷ ss) h w o a =
    ground (arith, no_overlap text s.end ss (starts_behind s ss w.0 w.1 o.0 a.0) w.1 o.1 a.1)
  where
    starts_behind :
        (s : Span) (ss : List Span)
        → IsWithin text s
        → All (IsWithin text) ss
        → All (λ t. span_le s t ≡ true) ss
        → All (Apart s) ss
        → All (λ t. s.end ≤ t.begin) ss
    starts_behind s [] h w o a = tt
    starts_behind s (t ∷ ss) h w o a =
        (end-le-begin text s t h w.0 o.0 a.0, starts_behind s ss h w.1 o.1 a.1)

Follows-of_none :
    (text : String) (pos : ℕ) (ss : List Span)
    → pos ≤ len text
    → All (IsWithin text) ss
    → first_overlap pos ss ≡ none
    → Follows text pos ss
unfolding first_overlap
Follows-of_none text pos [] p w h = p
Follows-of_none text pos (s ∷ ss) p w h =
    (ground arith, w.0, Follows-of_none text s.end ss w.0.1 w.1 (ground arith))

-- Spans in order are apart.
Follows-AllApart :
    (text : String) (pos : ℕ) (ss : List Span)
    → Follows text pos ss
    → All (λ s. pos ≤ s.begin) ss × AllApart ss
Follows-AllApart text pos [] h = (tt, tt)
Follows-AllApart text pos (s ∷ ss) h =
    let (begins, apart) = Follows-AllApart text s.end ss h.2 in
    (
      (
        h.0,
        All-weaken (λ t. s.end ≤ t.begin) (λ t. pos ≤ t.begin) ss
            (λ t b. le_trans h.0 (le_trans h.1.0 b)) begins,
      ),
      (All-weaken (λ t. s.end ≤ t.begin) (Apart s) ss (λ t b. inl b) begins, apart),
    )

AllApart-of-insert_by :
    (s : Span) (ss : List Span) → AllApart (insert_by span_le s ss) → All (Apart s) ss × AllApart ss
unfolding insert_by
AllApart-of-insert_by s [] = λ h. h
AllApart-of-insert_by s (t ∷ ss) = elim (Bool-cases (span_le s t)) [
  | inl e ↦ rw e (λ h. h)
  | inr e ↦ rw e λ h.
      let (far, others) = All-of-insert_by span_le (Apart t) s ss h.0 in
      let (apart, rest) = AllApart-of-insert_by s ss h.1 in
      ((Apart-symm t s far, apart), (others, rest))
]

AllApart-of-sort_by : (ss : List Span) → AllApart (sort_by span_le ss) → AllApart ss
unfolding sort_by
AllApart-of-sort_by [] h = tt
AllApart-of-sort_by (s ∷ ss) h =
    let (apart, rest) = AllApart-of-insert_by s (sort_by span_le ss) h in
    (All-of-sort_by span_le (Apart s) ss apart, AllApart-of-sort_by ss rest)

module _ (text : String) (ss : List Span) (within : All (IsWithin text) ss) where
  sorted-IsWithin : All (IsWithin text) (sort_by span_le ss)
  sorted-IsWithin = All-sort_by span_le (IsWithin text) ss within

  from_start : (ts : List Span) → All (λ s. 0 ≤ s.begin) ts
  from_start [] = tt
  from_start (t ∷ ts) = (omega arith, from_start ts)

  splice_spans-apart :
      AllApart ss → splice_spans text (ok ss) ≡ spliced (weave 0 text (sort_by span_le ss))
  unfolding splice_spans splice_sorted take_text drop_text
  splice_spans-apart apart =
      let free =
        no_overlap text 0 (sort_by span_le ss) (from_start (sort_by span_le ss)) sorted-IsWithin
          (sort_by-IsSortedBy span_le span_le-TotalOrder ss) (sort_by-AllApart ss apart) in
      ap (splice_checked text (sort_by span_le ss)) free
      ∙ (ap spliced (
          splice_all-weave text 0 (sort_by span_le ss)
            (Follows-of_none text 0 (sort_by span_le ss) (omega arith) sorted-IsWithin free)))

  AllApart-of_spliced :
      (o : Option (ℕ × ℕ)) (out : String)
      → first_overlap 0 (sort_by span_le ss) ≡ o
      → splice_checked text (sort_by span_le ss) o ≡ spliced out
      → AllApart ss
  unfolding splice_checked
  AllApart-of_spliced none out e h =
      AllApart-of-sort_by ss
        (Follows-AllApart text 0 (sort_by span_le ss)
          (Follows-of_none text 0 (sort_by span_le ss) (omega arith) sorted-IsWithin e)).1
  AllApart-of_spliced (some (b, p)) out e h = absurd (cc)

-- Edits that all lie within the file, none ending before it begins, are spliced exactly when no two
-- of them overlap. The text is then what one pass over the file gives, from its beginning on: the
-- text between the edits as it was, and in the place of each edit its replacement, in the order of
-- the edits' positions.
pub apply_edits_lem :
    (text : String) (edits : List TextEdit) (ss : List Span)
    → spans_of (line_starts text) edits ≡ ok ss
    → All (IsWithin text) ss
    → (AllApart ss → apply_edits text edits ≡ spliced (weave 0 text (sort_by span_le ss)))
      × ((out : String) → apply_edits text edits ≡ spliced out → AllApart ss)
unfolding apply_edits splice_spans splice_sorted
apply_edits_lem text edits ss placed within = (
  λ apart. rw placed (splice_spans-apart text ss within apart),
  λ out.
      rw placed
        (AllApart-of_spliced text ss within (first_overlap 0 (sort_by span_le ss)) out refl),
)
