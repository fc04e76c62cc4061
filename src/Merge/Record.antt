-- ===== src/Merge/Record.antt =====
-- Provenance: `Document`, `_Side`, and the `_Recorder` that a merge passes along. The `value` of a
-- side is left out: nothing reads it. The index of `_descendants` finds what the scan of the map
-- finds, in the map's order.
pub mod Origin
use compose_lint.Prelude.{
  List, Option, String, [], code, if◌then◌else◌, none, or_else, some, str_eq, ℕ, ◌==◌, ◌||◌, ◌∷◌,
}
use compose_lint.Text.{append, indexed, partition, rpartition, strip_prefix}
use compose_lint.Dict.{Dict, lookup, put}
use compose_lint.Value.{Value}
use compose_lint.Engine.Quote.{EnvValues}

-- A line number, and the file that it is one in.
pub record SourcedLine : Type 0 where
  pub line : ℕ
  pub source : String

pub record Document : Type 0 where
  pub path : String
  pub data' : Dict Value
  pub lines : Dict ℕ
  pub resets : List String
  pub overrides : List String
  pub sources : Option (Dict String)
  pub gaps : List String
  pub env_values : EnvValues

-- One input of a merge step: where it came from.
pub record Side : Type 0 where
  pub doc : Document
  pub path : String

pub record Recorder : Type 0 where
  pub lines : Dict SourcedLine
  pub sources : Dict String

-- _join, _child and _index
unfoldable pub join : String → String → String
join prefix key = if str_eq prefix "" then key else append prefix (append "." key)

unfoldable pub child : Side → String → Side
unfolding join
child side key = record { doc = side.doc; path = join side.path key }

unfoldable pub index : Side → ℕ → Side
index side i = record { doc = side.doc; path = indexed side.path i }

-- `path.rsplit(".", 1)[-1]`, cut at its first bracket.
after_dot : String → Option (String × String) → String
after_dot path none = path
after_dot path (some (before, after)) = after

-- _leaf
unfoldable pub leaf : String → String
unfolding rpartition partition after_dot
leaf path = (partition b'[' (after_dot path (rpartition b'.' path))).0

-- _origin_of
unfoldable pub origin_of : Document → String → String
unfolding lookup
origin_of doc path = elim doc.sources [
  | none ↦ doc.path
  | some sources ↦ or_else (lookup path sources) doc.path
]

-- `self.lines[path] = SourcedLine(line, origin)` and `self.sources[path] = origin`
unfoldable pub note_line : String → ℕ → String → Recorder → Recorder
unfolding put
note_line path line origin rec = record {
  lines = put path (record { line = line; source = origin }) rec.lines;
  sources = put path origin rec.sources;
}

unfoldable pub note_source : String → String → Recorder → Recorder
unfolding put
note_source path origin rec = record { lines = rec.lines; sources = put path origin rec.sources }

-- _Recorder.take
unfoldable pub take : String → Side → Recorder → Recorder
unfolding origin_of lookup note_line note_source
take out_path side rec =
    let origin = origin_of side.doc side.path in
    elim (lookup side.path side.doc.lines) [
      | none ↦ note_source out_path origin rec
      | some line ↦ note_line out_path line origin rec
    ]

-- Every key of the document but the root's.
unfoldable pub take_all : Document → Dict ℕ → Recorder → Recorder
unfolding origin_of note_line
take_all doc [] rec = rec
take_all doc ((key, line) ∷ lines) rec =
    take_all doc lines (if str_eq key "" then rec else note_line key line (origin_of doc key) rec)

-- What follows `prefix` in the key of a descendant.
unfoldable pub below_prefix : String → String → Option String
unfolding strip_prefix
below_prefix prefix key = elim (strip_prefix prefix key) [
  | none ↦ none
  | some String.[] ↦ none
  | some (String.◌∷◌ c rest) ↦
      if code c == b'.' || code c == b'[' then some (String.◌∷◌ c rest) else none
]

unfoldable pub take_below : String → String → Document → Dict ℕ → Recorder → Recorder
unfolding below_prefix origin_of note_line
take_below out_path prefix doc [] rec = rec
take_below out_path prefix doc ((key, line) ∷ lines) rec =
    take_below out_path prefix doc lines (elim (below_prefix prefix key) [
      | none ↦ rec
      | some rest ↦ note_line (append out_path rest) line (origin_of doc key) rec
    ])

-- _Recorder.take_subtree
unfoldable pub take_subtree : String → Side → Recorder → Recorder
unfolding take take_all take_below
take_subtree out_path side rec =
    let taken = take out_path side rec in
    if str_eq side.path ""
    then take_all side.doc side.doc.lines taken
    else take_below out_path side.path side.doc side.doc.lines taken

abbrev pub empty_recorder : Recorder
empty_recorder = record { lines = []; sources = [] }
