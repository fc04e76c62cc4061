-- ===== src/Samples/Overlays.antt =====
-- A base document under an overlay.
use compose_lint.Prelude.{
  All, List, String, [], if◌then◌else◌, map, none, or_else, refl, select, some, true, ℕ, ◌++◌, ◌∷◌,
  ◌≡◌,
}
use compose_lint.Text.{decimal, mem_text}
use compose_lint.Dict.{Dict, lookup}
use compose_lint.Value.{
  Value, as_dict, bool, entries, get, int, null, of_entries, of_items, pos, seq, str,
}
use compose_lint.Merge.Equal.{value_eq}
use compose_lint.Merge.Keys.{container_path, port_key, split_outside_braces, volume_key}
use compose_lint.Merge.Keys.Split.{rejoin, rejoin-split_outside_braces}
use compose_lint.Merge.Record.{Document, Side, SourcedLine, empty_recorder}
use compose_lint.Merge.Record.Origin.{AllValues}
use compose_lint.Merge.Sequences.{Placed, enumerate, last_with, merge_appended, merge_keyed}
use compose_lint.Merge.Sequences.Appended.{Fresh, In, IsCovered, Subsequence, merge_appended_lem}
use compose_lint.Merge.Sequences.Keyed.{has_identity}
use compose_lint.Merge.Sequences.Override.{merge_keyed_lem}
use compose_lint.Merge.Values.{merge_mappings}
use compose_lint.Merge.Values.Mappings.{Distinct, Overrides, drops, lookup-merge_mappings}
use compose_lint.Merge.Documents.{merge_documents}
use compose_lint.Merge.Documents.Sources.{merge_documents-AllFrom}
use compose_lint.Samples.{mapping, texts}

abbrev volumes : List Value
volumes = str "/var/run/docker.sock:/var/run//docker.sock/" ∷ str "data:/data" ∷ []

abbrev over_volumes : List Value
over_volumes = str "${SOCK:-/tmp/x}:/var/run/docker.sock:ro" ∷ str "logs:/logs" ∷ []

abbrev service : Dict Value
service =
    ("privileged", bool true)
    ∷ ("volumes", seq (of_items volumes))
    ∷ ("cap_add", texts ("NET_ADMIN" ∷ "BPF" ∷ []))
    ∷ ("environment", texts ("A=1" ∷ "B=2" ∷ []))
    ∷ []

abbrev over_service : Dict Value
over_service =
    ("volumes", seq (of_items over_volumes))
    ∷ ("cap_add", texts ("BPF" ∷ "SYS_PTRACE" ∷ []))
    ∷ ("environment", mapping (("B", str "3") ∷ []))
    ∷ []

abbrev doc_of : String → Dict Value → Dict ℕ → List String → Document
doc_of path config lines resets = record {
  path = path;
  data' = ("services", mapping (("web", mapping config) ∷ [])) ∷ [];
  lines = lines;
  resets = resets;
  overrides = [];
  sources = none;
  gaps = [];
  env_values = [];
}

abbrev base_doc : Document
base_doc =
    doc_of "compose.yml" service
      (("services.web", 2)
        ∷ ("services.web.privileged", 3)
        ∷ ("services.web.cap_add", 5)
        ∷ ("services.web.cap_add[1]", 7)
        ∷ [])
      []

abbrev over_doc : Document
over_doc =
    doc_of "compose.override.yml" over_service
      (("services.web", 2) ∷ ("services.web.cap_add", 3) ∷ ("services.web.cap_add[1]", 5) ∷ [])
      ("services.web.privileged" ∷ [])

abbrev web_of : Dict Value → Dict Value
web_of data' = elim (as_dict (get "services" data')) [
  | none ↦ []
  | some services ↦ or_else (as_dict (get "web" services)) []
]

-- The overlay resets one key, replaces the socket's mount, appends a capability and mixes two forms.
merged_service :
    web_of (merge_documents (base_doc ∷ over_doc ∷ [])).data'
    ≡ (
      "volumes",
      seq (
          of_items (
            str "${SOCK:-/tmp/x}:/var/run/docker.sock:ro"
            ∷ str "data:/data"
            ∷ str "logs:/logs"
            ∷ [])),
    )
      ∷ ("cap_add", texts ("NET_ADMIN" ∷ "BPF" ∷ "SYS_PTRACE" ∷ []))
      ∷ ("environment", mapping (("A", str "1") ∷ ("B", str "3") ∷ []))
      ∷ []
unfolding merge_documents decimal
merged_service = refl

merged_line :
    lookup "services.web.cap_add[2]" (merge_documents (base_doc ∷ over_doc ∷ [])).lines
    ≡ some (record { line = 5; source = "compose.override.yml" })
unfolding merge_documents lookup decimal
merged_line = refl

container_paths :
    map container_path ("/a/./b//c/" ∷ "//x/../y" ∷ "../z" ∷ "" ∷ [])
    ≡ "/a/b/c" ∷ "/y" ∷ "../z" ∷ "" ∷ []
unfolding container_path
container_paths = refl

port_keys :
    map port_key (str "127.0.0.1:80:8080/udp" ∷ str "80:8080" ∷ str "8080" ∷ [])
    ≡ some "127.0.0.1|80|8080|udp" ∷ some "|80|8080|tcp" ∷ some "||8080|tcp" ∷ []
unfolding port_key
port_keys = refl

equal_values :
    value_eq
      (mapping (("a", int (pos 1)) ∷ ("b", null) ∷ []))
      (mapping (("b", null) ∷ ("a", bool true) ∷ []))
    ≡ true
unfolding value_eq decimal
equal_values = refl

rejoin-split_outside_braces_example :
    rejoin (split_outside_braces "${SOCK:-/tmp/x}:/s:ro") ≡ "${SOCK:-/tmp/x}:/s:ro"
rejoin-split_outside_braces_example = rejoin-split_outside_braces "${SOCK:-/tmp/x}:/s:ro"

abbrev base_side : Side
base_side = record { doc = base_doc; path = "services.web.volumes" }

abbrev over_side : Side
over_side = record { doc = over_doc; path = "services.web.volumes" }

abbrev merged_volumes : List Placed
merged_volumes = merge_keyed volume_key volumes over_volumes base_side over_side

merge_keyed_lem_example :
    All (λ p. In p merged_volumes) (enumerate over_side 0 over_volumes)
    × ((k : String)
        → last_with volume_key k 0 over_volumes ≡ none
        → select (has_identity volume_key k) merged_volumes
          ≡ select (has_identity volume_key k) (enumerate base_side 0 volumes))
    × ((k : String) (j : ℕ)
        → last_with volume_key k 0 over_volumes ≡ some j
        → All
            (λ p. has_identity volume_key k p ≡ true → In p (enumerate over_side 0 over_volumes))
            merged_volumes)
merge_keyed_lem_example = merge_keyed_lem volume_key volumes over_volumes base_side over_side

abbrev caps : List Value
caps = str "NET_ADMIN" ∷ str "BPF" ∷ []

abbrev over_caps : List Value
over_caps = str "BPF" ∷ str "SYS_PTRACE" ∷ []

merge_appended_lem_example :
    Subsequence
      (merge_appended caps over_caps base_side over_side)
      (enumerate base_side 0 caps ++ enumerate over_side 0 over_caps)
    × Fresh [] (merge_appended caps over_caps base_side over_side)
    × All
        (IsCovered [] (merge_appended caps over_caps base_side over_side))
        (enumerate base_side 0 caps ++ enumerate over_side 0 over_caps)
merge_appended_lem_example = merge_appended_lem caps over_caps base_side over_side

abbrev web_side : Document → Side
web_side doc = record { doc = doc; path = "services.web" }

over_service-Distinct : Distinct (entries (of_entries over_service))
unfolding lookup
over_service-Distinct = (refl, (refl, (refl, tt)))

lookup-merge_mappings_example :
    (lookup "privileged" (entries (of_entries over_service)) ≡ none
      → lookup "privileged"
          (merge_mappings service
            (of_entries over_service)
            (web_side base_doc)
            (web_side over_doc)
            "services.web"
            empty_recorder).0
        ≡ (if drops service
              (entries (of_entries over_service))
              (web_side over_doc)
              "services.web"
              "privileged"
            then none
            else lookup "privileged" service))
    × ((v : Value)
        → lookup "privileged" (entries (of_entries over_service)) ≡ some v
        → Overrides service
            (drops service (entries (of_entries over_service)) (web_side over_doc) "services.web")
            (web_side base_doc)
            (web_side over_doc)
            "services.web"
            "privileged"
            v
            (lookup "privileged"
              (merge_mappings service
                (of_entries over_service)
                (web_side base_doc)
                (web_side over_doc)
                "services.web"
                empty_recorder).0))
lookup-merge_mappings_example =
    lookup-merge_mappings service (of_entries over_service) (web_side base_doc) (web_side over_doc)
      "services.web" "privileged" empty_recorder over_service-Distinct

abbrev IsFile : String → Type 0
IsFile path = mem_text path ("compose.yml" ∷ "compose.override.yml" ∷ []) ≡ true

are_files : IsFile "compose.yml" × IsFile "compose.override.yml"
unfolding mem_text
are_files = (refl, refl)

merge_documents-AllFrom_example :
    AllValues
      (λ (l : SourcedLine). IsFile l.source)
      (merge_documents (base_doc ∷ over_doc ∷ [])).lines
    × AllValues IsFile (merge_documents (base_doc ∷ over_doc ∷ [])).sources
merge_documents-AllFrom_example =
    merge_documents-AllFrom IsFile (base_doc ∷ over_doc ∷ []) (refl, (refl, tt))
      (are_files.0, (are_files.1, tt))
