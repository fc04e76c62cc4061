-- ===== src/Merge/Sequences.antt =====
-- `_merge_sequences`: entries that replace, entries keyed by an identity, and entries appended.
pub mod Keyed
pub mod Appended
pub mod Override
use compose_lint.Prelude.{
  Bool, List, Option, String, [], false, if◌then◌else◌, leb, map, none, or_else, some, str_eq, suc,
  zero, ℕ, ◌&&◌, ◌++◌, ◌+◌, ◌==◌, ◌||◌, ◌∷◌,
}
use compose_lint.Text.{indexed, mem_text}
use compose_lint.Value.{Value, of_items, seq}
use compose_lint.Merge.Equal.{nodes, value_eq}
use compose_lint.Merge.Keys.{device_key, kv_name, port_key, volume_key}
use compose_lint.Merge.Record.{Recorder, Side, index, leaf, take_subtree}

abbrev pub replace_seq : List String
replace_seq = "command" ∷ "entrypoint" ∷ []

abbrev pub keyed_seq : List String
keyed_seq = "volumes" ∷ "devices" ∷ "ports" ∷ []

abbrev pub key_value_seq : List String
key_value_seq = "environment" ∷ "labels" ∷ "sysctls" ∷ "depends_on" ∷ []

-- An entry of the result, and the entry of an input that it is.
abbrev pub Placed : Type 0
Placed = Value × Side

abbrev pub enumerate : Side → ℕ → List Value → List Placed
enumerate side i [] = []
enumerate side i (v ∷ vs) = (v, index side i) ∷ enumerate side (i + 1) vs

-- `over_by_key[key] = i` for each entry with a key: the index of the last one stays.
unfoldable pub index_if : Option String → String → ℕ → Option ℕ
index_if none k i = none
index_if (some own) k i = if str_eq own k then some i else none

unfoldable pub latest : Option ℕ → Option ℕ → Option ℕ
latest none own = own
latest (some j) own = some j

unfoldable pub last_with : (Value → Option String) → String → ℕ → List Value → Option ℕ
unfolding index_if latest
last_with keyer k i [] = none
last_with keyer k i (v ∷ vs) = latest (last_with keyer k (i + 1) vs) (index_if (keyer v) k i)

unfoldable pub found_by : (Value → Option String) → List Value → Option String → Option ℕ
unfolding last_with
found_by keyer over none = none
found_by keyer over (some k) = last_with keyer k 0 over

-- The entry of `over` that takes an entry's place.
unfoldable pub successor : (Value → Option String) → List Value → Value → Option ℕ
unfolding found_by
successor keyer over v = found_by keyer over (keyer v)

-- `over[j]`, at the side of `over`.
unfoldable pub entry_at : ℕ → List Placed → Option Placed
entry_at j [] = none
entry_at zero (p ∷ ps) = some p
entry_at (suc j) (p ∷ ps) = entry_at j ps

-- The entry in an entry's place.
unfoldable pub place : List Placed → Placed → Option ℕ → Placed
unfolding entry_at
place over_placed own none = own
place over_placed own (some j) = or_else (entry_at j over_placed) own

-- The first loop: the entries in the places of the base's, and the indexes that it consumes.
unfoldable pub replaced :
    (Value → Option String) → List Value → List Placed → List Placed → List Placed
unfolding successor place
replaced keyer over over_placed [] = []
replaced keyer over over_placed ((v, side) ∷ base) =
    place over_placed (v, side) (successor keyer over v) ∷ replaced keyer over over_placed base

unfoldable pub with_index : Option ℕ → List ℕ → List ℕ
with_index none rest = rest
with_index (some j) rest = j ∷ rest

unfoldable pub consumed : (Value → Option String) → List Value → List Value → List ℕ
unfolding successor with_index
consumed keyer over [] = []
consumed keyer over (v ∷ base) = with_index (successor keyer over v) (consumed keyer over base)

unfoldable pub mem_index : ℕ → List ℕ → Bool
mem_index j [] = false
mem_index j (k ∷ ks) = j == k || mem_index j ks

-- The second loop: the entries of `over` that took no place.
unfoldable pub remaining : List ℕ → ℕ → List Placed → List Placed
unfolding mem_index
remaining taken j [] = []
remaining taken j (p ∷ ps) =
    let rest = remaining taken (j + 1) ps in if mem_index j taken then rest else p ∷ rest

-- _merge_keyed, up to the recording.
unfoldable pub merge_keyed :
    (Value → Option String) → List Value → List Value → Side → Side → List Placed
unfolding replaced consumed remaining
merge_keyed keyer base over base_side over_side =
    let over_placed = enumerate over_side 0 over in
    replaced keyer over over_placed (enumerate base_side 0 base)
    ++ remaining (consumed keyer over base) 0 over_placed

-- `_DEDUPE_NODES`
abbrev pub dedupe_nodes : ℕ
dedupe_nodes = 256

unfoldable pub equals_one : Value → List Value → Bool
unfolding value_eq
equals_one v [] = false
equals_one v (w ∷ ws) = value_eq v w || equals_one v ws

-- `key in seen`: an entry of more than `dedupe_nodes` nodes is compared by identity, and so kept;
-- one object twice in a list (an alias) is not told from two here.
unfoldable pub is_seen : Value → List Value → Bool
unfolding nodes equals_one
is_seen v seen = leb (nodes v) dedupe_nodes && equals_one v seen

-- The loop of _merge_appended, over the base's entries and then the others.
unfoldable pub append_new : List Value → List Placed → List Placed
unfolding is_seen
append_new seen [] = []
append_new seen ((v, side) ∷ ps) =
    let fresh = append_new (v ∷ seen) ps in
    let known = append_new seen ps in if is_seen v seen then known else (v, side) ∷ fresh

-- _merge_appended, up to the recording.
unfoldable pub merge_appended : List Value → List Value → Side → Side → List Placed
unfolding append_new
merge_appended base over base_side over_side =
    append_new [] (enumerate base_side 0 base ++ enumerate over_side 0 over)

-- _record_items
unfoldable pub record_items : String → ℕ → List Placed → Recorder → Recorder
unfolding take_subtree
record_items out_path i [] rec = rec
record_items out_path i ((v, side) ∷ ps) rec =
    record_items out_path (i + 1) ps (take_subtree (indexed out_path i) side rec)

abbrev pub values_of : List Placed → List Value
values_of ps = map (λ p. p.0) ps

unfoldable pub with_items : String → List Placed → Recorder → Value × Recorder
unfolding record_items
with_items out_path ps rec = (seq (of_items (values_of ps)), record_items out_path 0 ps rec)

-- `_SEQ_KEYERS[leaf]`
unfoldable pub seq_keyer : String → Value → Option String
unfolding volume_key device_key port_key
seq_keyer name v =
    if str_eq name "volumes"
    then volume_key v
    else if str_eq name "devices"
    then device_key v
    else port_key v

-- _merge_sequences
unfoldable pub merge_sequences :
    List Value → List Value → String → Side → Side → String → Recorder → Value × Recorder
unfolding leaf mem_text take_subtree merge_keyed merge_appended with_items seq_keyer kv_name
merge_sequences base over field_name base_side over_side out_path rec =
    let name = if str_eq field_name "" then leaf out_path else field_name in
    if mem_text name replace_seq
    then (seq (of_items over), take_subtree out_path over_side rec)
    else if mem_text name keyed_seq
    then with_items out_path (merge_keyed (seq_keyer name) base over base_side over_side) rec
    else if mem_text name key_value_seq
    then with_items out_path (merge_keyed kv_name base over base_side over_side) rec
    else with_items out_path (merge_appended base over base_side over_side) rec
