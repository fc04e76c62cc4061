-- ===== src/Merge/Documents.antt =====
-- `merge_documents` and `merge_service_from`: the fold over the documents of a set.
pub mod Sources
use compose_lint.Prelude.{List, String, [], none, or_else, some, ℕ, ◌++◌, ◌∷◌}
use compose_lint.Text.{append}
use compose_lint.Dict.{Dict, lookup, put, remove, update}
use compose_lint.Value.{Value, as_dict, get, null, of_entries}
use compose_lint.Engine.Quote.{EnvValues}
use compose_lint.Merge.Record.{Document, Recorder, Side, SourcedLine, empty_recorder, take_subtree}
use compose_lint.Merge.Values.{merge_mappings, merge_values}

-- A merged document, with a line and a source for every path.
pub record Merged : Type 0 where
  pub data' : Dict Value
  pub lines : Dict SourcedLine
  pub sources : Dict String
  pub gaps : List String
  pub resets : Dict String
  pub env_values : EnvValues

-- What the fold carries from one document to the next.
pub record Folded : Type 0 where
  pub path : String
  pub data' : Dict Value
  pub lines : Dict SourcedLine
  pub sources : Dict String

-- The line map of an accumulated document: the numbers, as every reader of a map sees them.
abbrev pub plain_lines : Dict SourcedLine → Dict ℕ
plain_lines [] = []
plain_lines ((k, l) ∷ d) = (k, l.line) ∷ plain_lines d

unfoldable pub accumulated : Folded → Document
accumulated f = record {
  path = f.path;
  data' = f.data';
  lines = plain_lines f.lines;
  resets = [];
  overrides = [];
  sources = some f.sources;
  gaps = [];
  env_values = [];
}

abbrev root : Document → Side
root doc = record { doc = doc; path = "" }

-- The first document, with its own lines and sources; the root has no line.
unfoldable pub first_folded : Document → Folded
unfolding take_subtree remove
first_folded first =
    let rec = take_subtree "" (root first) empty_recorder in
    record {
      path = first.path;
      data' = first.data';
      lines = remove "" rec.lines;
      sources = remove "" rec.sources;
    }

-- One more document on top of what is merged so far.
unfoldable pub fold_document : Folded → Document → Folded
unfolding accumulated merge_mappings update
fold_document f nxt =
    let (data'', rec) =
      merge_mappings f.data' (of_entries nxt.data') (root (accumulated f)) (root nxt) ""
        empty_recorder in
    record {
      path = f.path;
      data' = data'';
      lines = rec.lines;
      sources = update f.sources rec.sources;
    }

unfoldable pub fold_documents : Folded → List Document → Folded
unfolding fold_document
fold_documents f [] = f
fold_documents f (doc ∷ docs) = fold_documents (fold_document f doc) docs

all_gaps : List Document → List String
all_gaps [] = []
all_gaps (doc ∷ docs) = doc.gaps ++ all_gaps docs

-- The resets of one document, each naming it.
name_resets : String → List String → Dict String → Dict String
unfolding put
name_resets path [] named = named
name_resets path (reset ∷ resets) named = name_resets path resets (put reset path named)

all_resets : List Document → Dict String → Dict String
unfolding name_resets
all_resets [] named = named
all_resets (doc ∷ docs) named = all_resets docs (name_resets doc.path doc.resets named)

add_values : EnvValues → EnvValues → EnvValues
unfolding put lookup update
add_values [] known = known
add_values ((text, used) ∷ values) known =
    add_values values (put text (update (or_else (lookup text known) []) used) known)

all_values : List Document → EnvValues → EnvValues
unfolding add_values
all_values [] known = known
all_values (doc ∷ docs) known = all_values docs (add_values doc.env_values known)

abbrev merged_of : List Document → Folded → Merged
merged_of docs f = record {
  data' = f.data';
  lines = f.lines;
  sources = f.sources;
  gaps = all_gaps docs;
  resets = all_resets docs [];
  env_values = all_values docs [];
}

-- merge_documents
unfoldable pub merge_documents : List Document → Merged
unfolding first_folded fold_documents all_gaps all_resets all_values
merge_documents [] = record {
  data' = [];
  lines = [];
  sources = [];
  gaps = [];
  resets = [];
  env_values = [];
}
merge_documents (first ∷ rest) = merged_of (first ∷ rest) (fold_documents (first_folded first) rest)

-- `document.data.get("services", {}).get(service)`
service_of : Document → String → Value
unfolding get
service_of doc name = elim (as_dict (get "services" doc.data')) [
  | none ↦ null
  | some services ↦ get name services
]

-- merge_service_from
unfoldable pub merge_service_from : Document → String → Document → String → Value × Recorder
unfolding service_of merge_values
merge_service_from base base_service child_doc child_service =
    let base_path = append "services." base_service in
    let child_path = append "services." child_service in
    merge_values (service_of base base_service) (service_of child_doc child_service) ""
      (record { doc = base; path = base_path }) (record { doc = child_doc; path = child_path })
      child_path empty_recorder
