-- ===== src/Merge/Values/Sources.antt =====
-- A merge of two values names no file but those of its two sides.
use compose_lint.Prelude.{
  All, All-append, Bool-cases, List, Option, String, [], if◌then◌else◌, inl, inr, none, or_else,
  some, str_eq, suc, zero, ℕ, ◌++◌, ◌+◌, ◌∷◌,
}
use compose_lint.Text.{indexed, mem_text}
use compose_lint.Value.{Value, of_items, seq}
use compose_lint.Merge.Keys.{kv_name}
use compose_lint.Merge.Record.{Recorder, Side, index, leaf, take_subtree}
use compose_lint.Merge.Record.Origin.{AllFrom, FromDocument, take_subtree-AllFrom}
use compose_lint.Merge.Sequences.{
  Placed, append_new, consumed, entry_at, enumerate, is_seen, key_value_seq, keyed_seq, mem_index,
  merge_appended, merge_keyed, merge_sequences, place, record_items, remaining, replace_seq,
  replaced, seq_keyer, successor, with_items,
}

module _ (P : String → Type 0) where
  -- The entries of a result come from documents with `P`.
  abbrev AllPlaced : List Placed → Type 0
  AllPlaced ps = All (λ (p : Placed). FromDocument P p.1.doc) ps

  enumerate-AllPlaced :
      (side : Side) (i : ℕ) (vs : List Value)
      → FromDocument P side.doc
      → AllPlaced (enumerate side i vs)
  unfolding index
  enumerate-AllPlaced side i [] h = tt
  enumerate-AllPlaced side i (v ∷ vs) h = (h, enumerate-AllPlaced side (i + 1) vs h)

  record_items-AllFrom :
      (out_path : String) (i : ℕ) (ps : List Placed) (rec : Recorder)
      → AllPlaced ps
      → AllFrom P rec
      → AllFrom P (record_items out_path i ps rec)
  unfolding record_items
  record_items-AllFrom out_path i [] rec h a = a
  record_items-AllFrom out_path i ((v, side) ∷ ps) rec h a =
      record_items-AllFrom out_path (i + 1) ps (take_subtree (indexed out_path i) side rec) h.1
        (take_subtree-AllFrom P (indexed out_path i) side rec h.0 a)

  entry_at-AllPlaced :
      (j : ℕ) (ps : List Placed) (d : Placed)
      → AllPlaced ps
      → FromDocument P d.1.doc
      → FromDocument P (or_else (entry_at j ps) d).1.doc
  unfolding entry_at
  entry_at-AllPlaced j [] d h k = k
  entry_at-AllPlaced zero (p ∷ ps) d h k = h.0
  entry_at-AllPlaced (suc j) (p ∷ ps) d h k = entry_at-AllPlaced j ps d h.1 k

  place-AllPlaced :
      (ps : List Placed) (d : Placed) (o : Option ℕ)
      → AllPlaced ps
      → FromDocument P d.1.doc
      → FromDocument P (place ps d o).1.doc
  unfolding place
  place-AllPlaced ps d none h k = k
  place-AllPlaced ps d (some j) h k = entry_at-AllPlaced j ps d h k

  replaced-AllPlaced :
      (keyer : Value → Option String) (over : List Value) (ps base : List Placed)
      → AllPlaced ps
      → AllPlaced base
      → AllPlaced (replaced keyer over ps base)
  unfolding replaced
  replaced-AllPlaced keyer over ps [] h k = tt
  replaced-AllPlaced keyer over ps ((v, side) ∷ base) h k = (
    place-AllPlaced ps (v, side) (successor keyer over v) h k.0,
    replaced-AllPlaced keyer over ps base h k.1,
  )

  remaining-AllPlaced :
      (taken : List ℕ) (j : ℕ) (ps : List Placed) → AllPlaced ps → AllPlaced (remaining taken j ps)
  unfolding remaining
  remaining-AllPlaced taken j [] h = tt
  remaining-AllPlaced taken j (p ∷ ps) h = elim (Bool-cases (mem_index j taken)) [
    | inl e ↦ rw e (remaining-AllPlaced taken (j + 1) ps h.1)
    | inr e ↦ rw e (h.0, remaining-AllPlaced taken (j + 1) ps h.1)
  ]

  append_new-AllPlaced :
      (seen : List Value) (ps : List Placed) → AllPlaced ps → AllPlaced (append_new seen ps)
  unfolding append_new
  append_new-AllPlaced seen [] h = tt
  append_new-AllPlaced seen ((v, side) ∷ ps) h = elim (Bool-cases (is_seen v seen)) [
    | inl e ↦ rw e (append_new-AllPlaced seen ps h.1)
    | inr e ↦ rw e (h.0, append_new-AllPlaced (v ∷ seen) ps h.1)
  ]

  module _ (base_side over_side : Side) (from_base : FromDocument P base_side.doc)
      (from_over : FromDocument P over_side.doc) where
    merge_keyed-AllPlaced :
        (keyer : Value → Option String) (base over : List Value)
        → AllPlaced (merge_keyed keyer base over base_side over_side)
    unfolding merge_keyed
    merge_keyed-AllPlaced keyer base over =
        let placed = enumerate-AllPlaced over_side 0 over from_over in
        All-append (λ (p : Placed). FromDocument P p.1.doc)
          (replaced keyer over (enumerate over_side 0 over) (enumerate base_side 0 base)) _
          (replaced-AllPlaced keyer over (enumerate over_side 0 over) (enumerate base_side 0 base)
            placed (enumerate-AllPlaced base_side 0 base from_base))
          (remaining-AllPlaced (consumed keyer over base) 0 (enumerate over_side 0 over) placed)

    merge_appended-AllPlaced :
        (base over : List Value) → AllPlaced (merge_appended base over base_side over_side)
    unfolding merge_appended
    merge_appended-AllPlaced base over =
        append_new-AllPlaced [] (enumerate base_side 0 base ++ enumerate over_side 0 over) (
          All-append (λ (p : Placed). FromDocument P p.1.doc) (enumerate base_side 0 base)
            (enumerate over_side 0 over) (enumerate-AllPlaced base_side 0 base from_base)
            (enumerate-AllPlaced over_side 0 over from_over))

    with_items-AllFrom :
        (out_path : String) (ps : List Placed) (rec : Recorder)
        → AllPlaced ps
        → AllFrom P rec
        → AllFrom P (with_items out_path ps rec).1
    unfolding with_items
    with_items-AllFrom out_path ps rec h a = record_items-AllFrom out_path 0 ps rec h a

    pub merge_sequences-AllFrom :
        (base over : List Value) (field_name out_path : String) (rec : Recorder)
        → AllFrom P rec
        → AllFrom P (merge_sequences base over field_name base_side over_side out_path rec).1
    unfolding merge_sequences
    merge_sequences-AllFrom base over field_name out_path rec a =
        go (if str_eq field_name "" then leaf out_path else field_name)
      where
        go :
            (name : String)
            → AllFrom P
                (if mem_text name replace_seq
                  then (seq (of_items over), take_subtree out_path over_side rec)
                  else if mem_text name keyed_seq
                  then with_items out_path
                      (merge_keyed (seq_keyer name) base over base_side over_side)
                      rec
                  else if mem_text name key_value_seq
                  then with_items out_path (merge_keyed kv_name base over base_side over_side) rec
                  else with_items out_path (merge_appended base over base_side over_side) rec).1
        go name = elim (Bool-cases (mem_text name replace_seq)) [
          | inl e ↦ rw e (take_subtree-AllFrom P out_path over_side rec from_over a)
          | inr e ↦ elim (Bool-cases (mem_text name keyed_seq)) [
            | inl f ↦ rw e (
                rw f (
                  with_items-AllFrom out_path _ rec
                    (merge_keyed-AllPlaced (seq_keyer name) base over) a))
            | inr f ↦ elim (Bool-cases (mem_text name key_value_seq)) [
              | inl g ↦ rw e (
                  rw f (
                    rw g (
                      with_items-AllFrom out_path _ rec (merge_keyed-AllPlaced kv_name base over)
                        a)))
              | inr g ↦ rw e (
                  rw f (
                    rw g
                      (with_items-AllFrom out_path _ rec (merge_appended-AllPlaced base over) a)))
            ]
          ]
        ]
