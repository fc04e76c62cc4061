-- ===== src/Merge/Values/Provenance.antt =====
-- The same of `merge_values` as a whole.
use compose_lint.Prelude.{
  Bool, Bool-cases, String, [], false, if◌then◌else◌, inl, inr, not, str_eq, true, ◌&&◌, ◌||◌, ◌∷◌,
}
use compose_lint.Text.{mem_text}
use compose_lint.Dict.{Dict, has_key, put}
use compose_lint.Value.{
  Entries, Items, Value, bool, date, dict, end, entries, entry, float, get, int, items, null, seq,
  str,
}
use compose_lint.Merge.Record.{Recorder, Side, child, join, leaf, take, take_subtree}
use compose_lint.Merge.Record.Origin.{AllFrom, FromDocument, take-AllFrom, take_subtree-AllFrom}
use compose_lint.Merge.Sequences.{key_value_seq}
use compose_lint.Merge.Forms.Sources.{merge_kv_forms-AllFrom}
use compose_lint.Merge.Values.{
  after_base, as_mapping, choose, is_dropped, is_overridden, kept_entries, merge_entries,
  merge_mappings, merge_values, mixed_forms, over_list, over_null, take_inherited, wins,
}
use compose_lint.Merge.Values.Sources.{merge_sequences-AllFrom}

module _ (P : String → Type 0) where
  take_inherited-AllFrom :
      (dropped : String → Bool) (base over : Dict Value) (base_side : Side) (out_path : String)
      (rec : Recorder)
      → FromDocument P base_side.doc
      → AllFrom P rec
      → AllFrom P (take_inherited dropped base over base_side out_path rec)
  unfolding take_inherited child
  take_inherited-AllFrom dropped [] over base_side out_path rec h a = a
  take_inherited-AllFrom dropped ((k, v) ∷ base) over base_side out_path rec h a =
      take_inherited-AllFrom dropped base over base_side out_path _ h
        (go (dropped k || has_key k over))
    where
      go :
          (b : Bool)
          → AllFrom P (if b then rec else take_subtree (join out_path k) (child base_side k) rec)
      go true = a
      go false = take_subtree-AllFrom P (join out_path k) (child base_side k) rec h a

  mixed_forms-AllFrom :
      (base over : Value) (field_name : String) (base_side over_side : Side) (out_path : String)
      (rec : Recorder)
      → FromDocument P base_side.doc
      → FromDocument P over_side.doc
      → AllFrom P rec
      → AllFrom P (mixed_forms base over field_name base_side over_side out_path rec).1
  unfolding mixed_forms wins
  mixed_forms-AllFrom base over field_name base_side over_side out_path rec h k a =
      elim (Bool-cases (mem_text field_name key_value_seq)) [
        | inl e ↦
            rw e
              (merge_kv_forms-AllFrom P base over field_name base_side over_side out_path rec h k a)
        | inr e ↦ rw e (take_subtree-AllFrom P out_path over_side rec k a)
      ]

  over_null-AllFrom :
      (base : Value) (over_side : Side) (out_path : String) (rec : Recorder)
      → FromDocument P over_side.doc
      → AllFrom P rec
      → AllFrom P (over_null base over_side out_path rec).1
  unfolding over_null wins
  over_null-AllFrom base over_side out_path rec k a =
      go base (take_subtree-AllFrom P out_path over_side rec k a)
    where
      go :
          (b : Value)
          → AllFrom P (take_subtree out_path over_side rec)
          → AllFrom P (over_null b over_side out_path rec).1
      go (dict e) t = elim (Bool-cases (str_eq (leaf out_path) "")) [
        | inl q ↦ rw q t
        | inr q ↦ rw q a
      ]
      go (seq vs) t = t
      go null t = t
      go (bool b) t = t
      go (int n) t = t
      go (float s) t = t
      go (str s) t = t
      go (date s) t = t

  over_list-AllFrom :
      (base : Value) (ws : Items) (field_name : String) (base_side over_side : Side)
      (out_path : String) (rec : Recorder)
      → FromDocument P base_side.doc
      → FromDocument P over_side.doc
      → AllFrom P rec
      → AllFrom P (over_list base ws field_name base_side over_side out_path rec).1
  unfolding over_list wins
  over_list-AllFrom (seq vs) ws field_name base_side over_side out_path rec h k a =
      merge_sequences-AllFrom P base_side over_side h k (items vs) (items ws) field_name out_path
        rec a
  over_list-AllFrom (dict e) ws field_name base_side over_side out_path rec h k a =
      mixed_forms-AllFrom (dict e) (seq ws) field_name base_side over_side out_path rec h k a
  over_list-AllFrom null ws field_name base_side over_side out_path rec h k a =
      take_subtree-AllFrom P out_path over_side rec k a
  over_list-AllFrom (bool b) ws field_name base_side over_side out_path rec h k a =
      take_subtree-AllFrom P out_path over_side rec k a
  over_list-AllFrom (int n) ws field_name base_side over_side out_path rec h k a =
      take_subtree-AllFrom P out_path over_side rec k a
  over_list-AllFrom (float s) ws field_name base_side over_side out_path rec h k a =
      take_subtree-AllFrom P out_path over_side rec k a
  over_list-AllFrom (str s) ws field_name base_side over_side out_path rec h k a =
      take_subtree-AllFrom P out_path over_side rec k a
  over_list-AllFrom (date s) ws field_name base_side over_side out_path rec h k a =
      take_subtree-AllFrom P out_path over_side rec k a

  choose-AllFrom :
      (b : Bool) (p q : Value × Recorder)
      → AllFrom P p.1
      → AllFrom P q.1
      → AllFrom P (choose b p q).1
  unfolding choose
  choose-AllFrom true p q h k = h
  choose-AllFrom false p q h k = k

  mutual
    unfolding merge_values merge_entries child as_mapping after_base wins

    merge_values-AllFrom :
        (base over : Value) (field_name : String) (base_side over_side : Side) (out_path : String)
        (rec : Recorder)
        → FromDocument P base_side.doc
        → FromDocument P over_side.doc
        → AllFrom P rec
        → AllFrom P (merge_values base over field_name base_side over_side out_path rec).1
    merge_values-AllFrom base (seq ws) field_name base_side over_side out_path rec h k a =
        over_list-AllFrom base ws field_name base_side over_side out_path rec h k a
    merge_values-AllFrom base null field_name base_side over_side out_path rec h k a =
        over_null-AllFrom base over_side out_path rec k a
    merge_values-AllFrom base (bool b) field_name base_side over_side out_path rec h k a =
        take_subtree-AllFrom P out_path over_side rec k a
    merge_values-AllFrom base (int n) field_name base_side over_side out_path rec h k a =
        take_subtree-AllFrom P out_path over_side rec k a
    merge_values-AllFrom base (float s) field_name base_side over_side out_path rec h k a =
        take_subtree-AllFrom P out_path over_side rec k a
    merge_values-AllFrom base (str s) field_name base_side over_side out_path rec h k a =
        take_subtree-AllFrom P out_path over_side rec k a
    merge_values-AllFrom base (date s) field_name base_side over_side out_path rec h k a =
        take_subtree-AllFrom P out_path over_side rec k a
    merge_values-AllFrom (dict e) (dict d) field_name base_side over_side out_path rec h k a =
        let dropped = is_dropped (entries e) (entries d) over_side out_path in
        merge_entries-AllFrom (entries e) dropped d base_side over_side out_path
          (kept_entries dropped (entries e))
          (take_inherited dropped (entries e) (entries d) base_side out_path rec) h k
          (take_inherited-AllFrom dropped (entries e) (entries d) base_side out_path rec h a)
    merge_values-AllFrom null (dict d) field_name base_side over_side out_path rec h k a =
        let dropped = is_dropped [] (entries d) over_side out_path in
        merge_entries-AllFrom [] dropped d base_side over_side out_path (kept_entries dropped [])
          (take_inherited dropped [] (entries d) base_side out_path rec) h k
          (take_inherited-AllFrom dropped [] (entries d) base_side out_path rec h a)
    merge_values-AllFrom (seq vs) (dict d) field_name base_side over_side out_path rec h k a =
        mixed_forms-AllFrom (seq vs) (dict d) field_name base_side over_side out_path rec h k a
    merge_values-AllFrom (bool b) (dict d) field_name base_side over_side out_path rec h k a =
        take_subtree-AllFrom P out_path over_side rec k a
    merge_values-AllFrom (int n) (dict d) field_name base_side over_side out_path rec h k a =
        take_subtree-AllFrom P out_path over_side rec k a
    merge_values-AllFrom (float s) (dict d) field_name base_side over_side out_path rec h k a =
        take_subtree-AllFrom P out_path over_side rec k a
    merge_values-AllFrom (str s) (dict d) field_name base_side over_side out_path rec h k a =
        take_subtree-AllFrom P out_path over_side rec k a
    merge_values-AllFrom (date s) (dict d) field_name base_side over_side out_path rec h k a =
        take_subtree-AllFrom P out_path over_side rec k a

    merge_entries-AllFrom :
        (base : Dict Value) (dropped : String → Bool) (d : Entries) (base_side over_side : Side)
        (out_path : String) (merged : Dict Value) (rec : Recorder)
        → FromDocument P base_side.doc
        → FromDocument P over_side.doc
        → AllFrom P rec
        → AllFrom P (merge_entries base dropped d base_side over_side out_path merged rec).1
    merge_entries-AllFrom base dropped end base_side over_side out_path merged rec h k a = a
    merge_entries-AllFrom base dropped (entry key value d) base_side over_side out_path merged rec h
          k a =
        let both =
          merge_values (get key base) value key (child base_side key) (child over_side key)
            (join out_path key) (take (join out_path key) (child base_side key) rec) in
        let over = wins value (join out_path key) (child over_side key) rec in
        let b = has_key key base && not (dropped key) && not (is_overridden over_side key) in
        merge_entries-AllFrom base dropped d base_side over_side out_path
          (put key (choose b both over).0 merged) (choose b both over).1 h k
          (choose-AllFrom b both over
            (merge_values-AllFrom (get key base) value key (child base_side key)
              (child over_side key) (join out_path key)
              (take (join out_path key) (child base_side key) rec) h k
              (take-AllFrom P (join out_path key) (child base_side key) rec h a))
            (take_subtree-AllFrom P (join out_path key) (child over_side key) rec k a))

  pub merge_mappings-AllFrom :
      (base : Dict Value) (d : Entries) (base_side over_side : Side) (out_path : String)
      (rec : Recorder)
      → FromDocument P base_side.doc
      → FromDocument P over_side.doc
      → AllFrom P rec
      → AllFrom P (merge_mappings base d base_side over_side out_path rec).1
  unfolding merge_mappings after_base
  merge_mappings-AllFrom base d base_side over_side out_path rec h k a =
      let dropped = is_dropped base (entries d) over_side out_path in
      merge_entries-AllFrom base dropped d base_side over_side out_path (kept_entries dropped base)
        (take_inherited dropped base (entries d) base_side out_path rec) h k
        (take_inherited-AllFrom dropped base (entries d) base_side out_path rec h a)
