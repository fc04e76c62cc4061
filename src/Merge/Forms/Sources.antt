-- ===== src/Merge/Forms/Sources.antt =====
-- Merging a list with a mapping names no file but those of the two sides.
use compose_lint.Prelude.{List, Option, Option-cases, String, [], inl, inr, none, some, ℕ, ◌+◌, ◌∷◌}
use compose_lint.Dict.{Dict, lookup, put}
use compose_lint.Value.{Value, bool, date, dict, entries, float, int, items, null, seq, str}
use compose_lint.Merge.Record.{Recorder, Side, child, index, join}
use compose_lint.Merge.Record.Origin.{
  AllFrom, AllValues, FromDocument, lookup-AllValues, put-AllValues, take_subtree-AllFrom,
}
use compose_lint.Merge.Forms.{
  kv_short_value, kv_sides, list_sides, map_sides, merge_kv_forms, named, put_over, record_names,
  take_from, values_in,
}

module _ (P : String → Type 0) where
  abbrev IsFrom : Value × Side → Type 0
  IsFrom p = FromDocument P p.1.doc

  abbrev AllSides : Dict (Value × Side) → Type 0
  AllSides d = AllValues IsFrom d

  index-IsFrom : (side : Side) (i : ℕ) → FromDocument P side.doc → FromDocument P (index side i).doc
  unfolding index
  index-IsFrom side i h = h

  map_sides-AllSides :
      (side : Side) (d : Dict Value) → FromDocument P side.doc → AllSides (map_sides side d)
  unfolding map_sides child
  map_sides-AllSides side [] h = tt
  map_sides-AllSides side ((k, v) ∷ d) h = (h, map_sides-AllSides side d h)

  list_sides-AllSides :
      (field_name : String) (side : Side) (i : ℕ) (vs : List Value) (done : Dict (Value × Side))
      → FromDocument P side.doc
      → AllSides done
      → AllSides (list_sides field_name side i vs done)
  unfolding list_sides
  list_sides-AllSides field_name side i [] done h a = a
  list_sides-AllSides field_name side i (v ∷ vs) done h a =
      list_sides-AllSides field_name side (i + 1) vs
        (elim (named v) [
          | none ↦ done
          | some (name, text) ↦ put name (kv_short_value field_name text, index side i) done
        ])
        h (go (named v))
    where
      go :
          (o : Option (String × String))
          → AllSides (elim o [
            | none ↦ done
            | some (name, text) ↦ put name (kv_short_value field_name text, index side i) done
          ])
      go none = a
      go (some (name, text)) =
          put-AllValues IsFrom name (kv_short_value field_name text, index side i) done
            (index-IsFrom side i h) a

  kv_sides-AllSides :
      (v : Value) (field_name : String) (side : Side)
      → FromDocument P side.doc
      → AllSides (kv_sides v field_name side)
  unfolding kv_sides
  kv_sides-AllSides (dict e) field_name side h = map_sides-AllSides side (entries e) h
  kv_sides-AllSides (seq vs) field_name side h =
      list_sides-AllSides field_name side 0 (items vs) [] h tt
  kv_sides-AllSides null field_name side h = tt
  kv_sides-AllSides (bool b) field_name side h = tt
  kv_sides-AllSides (int n) field_name side h = tt
  kv_sides-AllSides (float s) field_name side h = tt
  kv_sides-AllSides (str s) field_name side h = tt
  kv_sides-AllSides (date s) field_name side h = tt

  take_found-AllFrom :
      (path name : String) (d : Dict (Value × Side)) (rec : Recorder)
      → AllSides d
      → AllFrom P rec
      → AllFrom P (take_from path (lookup name d) rec)
  unfolding take_from
  take_found-AllFrom path name d rec h a = elim (Option-cases (lookup name d)) [
    | inl e ↦ rw (e, take_from) a
    | inr (p, e) ↦
        rw (e, take_from)
          (take_subtree-AllFrom P path p.1 rec (lookup-AllValues IsFrom name p d h e) a)
  ]

  record_names-AllFrom :
      (out_path : String) (base_map over_map : Dict (Value × Side)) (merged : Dict Value)
      (rec : Recorder)
      → AllSides base_map
      → AllSides over_map
      → AllFrom P rec
      → AllFrom P (record_names out_path base_map over_map merged rec)
  unfolding record_names
  record_names-AllFrom out_path base_map over_map [] rec h k a = a
  record_names-AllFrom out_path base_map over_map ((name, v) ∷ merged) rec h k a =
      let path = join out_path name in
      record_names-AllFrom out_path base_map over_map merged _ h k (
        take_found-AllFrom path name over_map (take_from path (lookup name base_map) rec) k
          (take_found-AllFrom path name base_map rec h a))

  pub merge_kv_forms-AllFrom :
      (base over : Value) (field_name : String) (base_side over_side : Side) (out_path : String)
      (rec : Recorder)
      → FromDocument P base_side.doc
      → FromDocument P over_side.doc
      → AllFrom P rec
      → AllFrom P (merge_kv_forms base over field_name base_side over_side out_path rec).1
  unfolding merge_kv_forms
  merge_kv_forms-AllFrom base over field_name base_side over_side out_path rec h k a =
      record_names-AllFrom out_path (kv_sides base field_name base_side)
        (kv_sides over field_name over_side)
        (put_over (kv_sides over field_name over_side)
          (values_in (kv_sides base field_name base_side)))
        rec (kv_sides-AllSides base field_name base_side h)
        (kv_sides-AllSides over field_name over_side k) a
