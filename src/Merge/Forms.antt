-- ===== src/Merge/Forms.antt =====
-- `_merge_kv_forms`: one side a list of `K=V` texts, the other a mapping.
pub mod Sources
use compose_lint.Prelude.{
  List, Option, String, [], if◌then◌else◌, map, none, some, str_eq, true, ℕ, ◌+◌, ◌∷◌,
}
use compose_lint.Text.{partition}
use compose_lint.Dict.{Dict, lookup, put, update}
use compose_lint.Value.{Value, bool, dict, entries, items, null, of_entries, seq, str}
use compose_lint.Merge.Keys.{kv_name}
use compose_lint.Merge.Record.{Recorder, Side, child, index, join, take_subtree}

-- `{"condition": "service_started", "required": True}`
abbrev started : Value
started = dict (of_entries (("condition", str "service_started") ∷ ("required", bool true) ∷ []))

after_equals : Option String → Value
after_equals none = null
after_equals (some text) = str text

-- _kv_short_value
unfoldable pub kv_short_value : String → String → Value
unfolding partition after_equals
kv_short_value field_name text =
    if str_eq field_name "depends_on" then started else after_equals (partition b'=' text).1

-- The text of an entry that has a name, with the name.
unfoldable pub named : Value → Option (String × String)
unfolding kv_name
named (str s) = elim (kv_name (str s)) [ none ↦ none | some name ↦ some (name, s) ]
named _ = none

unfoldable pub list_sides :
    String → Side → ℕ → List Value → Dict (Value × Side) → Dict (Value × Side)
unfolding named kv_short_value put index
list_sides field_name side i [] done = done
list_sides field_name side i (v ∷ vs) done = list_sides field_name side (i + 1) vs (elim (named v) [
  | none ↦ done
  | some (name, text) ↦ put name (kv_short_value field_name text, index side i) done
])

unfoldable pub map_sides : Side → Dict Value → Dict (Value × Side)
unfolding child
map_sides side [] = []
map_sides side ((k, v) ∷ d) = (k, (v, child side k)) ∷ map_sides side d

-- _kv_sides: each name's value, and where it came from.
unfoldable pub kv_sides : Value → String → Side → Dict (Value × Side)
unfolding list_sides map_sides
kv_sides (dict e) field_name side = map_sides side (entries e)
kv_sides (seq vs) field_name side = list_sides field_name side 0 (items vs) []
kv_sides _ field_name side = []

-- Long-form entries merge key by key.
over_prior : Option Value → Value → Value
unfolding update
over_prior (some (dict d)) (dict e) = dict (of_entries (update (entries d) (entries e)))
over_prior _ v = v

unfoldable pub put_over : Dict (Value × Side) → Dict Value → Dict Value
unfolding put lookup over_prior
put_over [] merged = merged
put_over ((name, (value, side)) ∷ over_map) merged =
    put_over over_map (put name (over_prior (lookup name merged) value) merged)

unfoldable pub take_from : String → Option (Value × Side) → Recorder → Recorder
unfolding take_subtree
take_from path none rec = rec
take_from path (some (v, side)) rec = take_subtree path side rec

-- Base first, then the override.
unfoldable pub record_names :
    String → Dict (Value × Side) → Dict (Value × Side) → Dict Value → Recorder → Recorder
unfolding join lookup take_from
record_names out_path base_map over_map [] rec = rec
record_names out_path base_map over_map ((name, v) ∷ merged) rec =
    let path = join out_path name in
    record_names out_path base_map over_map merged
      (take_from path (lookup name over_map) (take_from path (lookup name base_map) rec))

abbrev pub values_in : Dict (Value × Side) → Dict Value
values_in d = map (λ p. (p.0, p.1.0)) d

-- _merge_kv_forms
unfoldable pub merge_kv_forms :
    Value → Value → String → Side → Side → String → Recorder → Value × Recorder
unfolding kv_sides put_over record_names
merge_kv_forms base over field_name base_side over_side out_path rec =
    let base_map = kv_sides base field_name base_side in
    let over_map = kv_sides over field_name over_side in
    let merged = put_over over_map (values_in base_map) in
    (dict (of_entries merged), record_names out_path base_map over_map merged rec)
