-- ===== src/Merge/Values.antt =====
-- `merge_values` and `_merge_mappings`. The `memo` only saves work on shared values, and is left out.
pub mod Mappings
pub mod Sources
pub mod Provenance
use compose_lint.Prelude.{
  Bool, String, [], false, if◌then◌else◌, not, str_eq, true, ◌&&◌, ◌||◌, ◌∷◌,
}
use compose_lint.Text.{mem_text}
use compose_lint.Dict.{Dict, has_key, put}
use compose_lint.Value.{
  Entries, Items, Value, dict, end, entries, entry, get, is_null, items, null, of_entries, seq,
}
use compose_lint.Merge.Equal.{value_eq}
use compose_lint.Merge.Record.{Recorder, Side, child, join, leaf, take, take_subtree}
use compose_lint.Merge.Sequences.{key_value_seq, merge_sequences}
use compose_lint.Merge.Forms.{merge_kv_forms}

-- `new_driver is not None and new_driver != base.get("driver")`, of a `logging` mapping.
unfoldable pub changes_driver : Dict Value → Dict Value → String → Bool
unfolding leaf get value_eq
changes_driver base over out_path =
    str_eq (leaf out_path) "logging"
    && not (is_null (get "driver" over))
    && not (value_eq (get "driver" over) (get "driver" base))

-- `key in drop_keys`
unfoldable pub is_dropped : Dict Value → Dict Value → Side → String → String → Bool
unfolding changes_driver has_key mem_text join
is_dropped base over over_side out_path key =
    (has_key key base && mem_text (join over_side.path key) over_side.doc.resets)
    || (str_eq key "options" && changes_driver base over out_path)

unfoldable pub is_overridden : Side → String → Bool
unfolding mem_text join
is_overridden over_side key = mem_text (join over_side.path key) over_side.doc.overrides

-- `merged` when the loop over the base is done.
unfoldable pub kept_entries : (String → Bool) → Dict Value → Dict Value
kept_entries dropped [] = []
kept_entries dropped ((k, v) ∷ base) =
    let rest = kept_entries dropped base in if dropped k then rest else (k, v) ∷ rest

-- What that loop records: the entries that only the base has.
unfoldable pub take_inherited :
    (String → Bool) → Dict Value → Dict Value → Side → String → Recorder → Recorder
unfolding has_key take_subtree join child
take_inherited dropped [] over base_side out_path rec = rec
take_inherited dropped ((k, v) ∷ base) over base_side out_path rec =
    take_inherited dropped base over base_side out_path (
      if dropped k || has_key k over
      then rec
      else take_subtree (join out_path k) (child base_side k) rec)

unfoldable pub wins : Value → String → Side → Recorder → Value × Recorder
unfolding take_subtree
wins over out_path over_side rec = (over, take_subtree out_path over_side rec)

-- A list against a mapping.
unfoldable pub mixed_forms :
    Value → Value → String → Side → Side → String → Recorder → Value × Recorder
unfolding mem_text merge_kv_forms wins
mixed_forms base over field_name base_side over_side out_path rec =
    if mem_text field_name key_value_seq
    then merge_kv_forms base over field_name base_side over_side out_path rec
    else wins over out_path over_side rec

-- A null on top of a value: of a mapping at a path with a key, nothing changes.
unfoldable pub over_null : Value → Side → String → Recorder → Value × Recorder
unfolding leaf wins
over_null (dict e) over_side out_path rec =
    if str_eq (leaf out_path) "" then wins null out_path over_side rec else (dict e, rec)
over_null base over_side out_path rec = wins null out_path over_side rec

unfoldable pub over_list :
    Value → Items → String → Side → Side → String → Recorder → Value × Recorder
unfolding merge_sequences mixed_forms wins
over_list (seq vs) ws field_name base_side over_side out_path rec =
    merge_sequences (items vs) (items ws) field_name base_side over_side out_path rec
over_list (dict e) ws field_name base_side over_side out_path rec =
    mixed_forms (dict e) (seq ws) field_name base_side over_side out_path rec
over_list base ws field_name base_side over_side out_path rec = wins (seq ws) out_path over_side rec

unfoldable pub as_mapping : Dict Value × Recorder → Value × Recorder
as_mapping (d, rec) = (dict (of_entries d), rec)

-- The two values of a key, merged, or the overriding one.
unfoldable pub choose : Bool → Value × Recorder → Value × Recorder → Value × Recorder
choose true both over = both
choose false both over = over

-- The loop over the base, and what goes on from it.
unfoldable pub after_base :
    Dict Value
    → Entries
    → Side
    → Side
    → String
    → Recorder
    → (Dict Value → Recorder → Dict Value × Recorder)
    → Dict Value × Recorder
unfolding kept_entries take_inherited is_dropped
after_base base d base_side over_side out_path rec loop =
    let dropped = is_dropped base (entries d) over_side out_path in
    loop (kept_entries dropped base)
      (take_inherited dropped base (entries d) base_side out_path rec)

unfoldable mutual
  unfolding take after_base is_dropped is_overridden has_key get put join child take_subtree
      over_list over_null mixed_forms wins as_mapping choose

  -- _merge_uncached
  pub merge_values : Value → Value → String → Side → Side → String → Recorder → Value × Recorder
  merge_values base (dict d) field_name base_side over_side out_path rec = elim base [
    | dict e ↦ as_mapping (
        after_base (entries e) d base_side over_side out_path rec (
          merge_entries (entries e) (is_dropped (entries e) (entries d) over_side out_path) d
            base_side over_side out_path))
    | null ↦ as_mapping (
        after_base [] d base_side over_side out_path rec (
          merge_entries [] (is_dropped [] (entries d) over_side out_path) d base_side over_side
            out_path))
    | seq vs ↦ mixed_forms (seq vs) (dict d) field_name base_side over_side out_path rec
    | _ ↦ wins (dict d) out_path over_side rec
  ]
  merge_values base (seq ws) field_name base_side over_side out_path rec =
      over_list base ws field_name base_side over_side out_path rec
  merge_values base null field_name base_side over_side out_path rec =
      over_null base over_side out_path rec
  merge_values base over field_name base_side over_side out_path rec =
      wins over out_path over_side rec

  -- The loop of _merge_mappings over the overriding entries.
  pub merge_entries :
      Dict Value
      → (String → Bool)
      → Entries
      → Side
      → Side
      → String
      → Dict Value
      → Recorder
      → Dict Value × Recorder
  merge_entries base dropped end base_side over_side out_path merged rec = (merged, rec)
  merge_entries base dropped (entry key value d) base_side over_side out_path merged rec =
      let both =
        merge_values (get key base) value key (child base_side key) (child over_side key)
          (join out_path key) (take (join out_path key) (child base_side key) rec) in
      let (result, rec') =
        choose (has_key key base && not (dropped key) && not (is_overridden over_side key)) both
          (wins value (join out_path key) (child over_side key) rec) in
      merge_entries base dropped d base_side over_side out_path (put key result merged) rec'

-- _merge_mappings
unfoldable pub merge_mappings :
    Dict Value → Entries → Side → Side → String → Recorder → Dict Value × Recorder
unfolding after_base merge_entries is_dropped
merge_mappings base d base_side over_side out_path rec =
    after_base base d base_side over_side out_path rec (
      merge_entries base (is_dropped base (entries d) over_side out_path) d base_side over_side
        out_path)
