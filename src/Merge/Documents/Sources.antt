-- ===== src/Merge/Documents/Sources.antt =====
-- Where a merged document says that its lines come from.
use compose_lint.Prelude.{All, List, Option-cases, String, [], inl, inr, none, ◌∷◌, ◌≡◌}
use compose_lint.Dict.{lookup}
use compose_lint.Value.{of_entries}
use compose_lint.Merge.Record.{Document, SourcedLine, empty_recorder, origin_of, take_subtree}
use compose_lint.Merge.Record.Origin.{
  AllValues, FromDocument, lookup-AllValues, remove-AllValues, take_subtree-AllFrom,
  update-AllValues,
}
use compose_lint.Merge.Values.Provenance.{merge_mappings-AllFrom}
use compose_lint.Merge.Documents.{
  Folded, accumulated, first_folded, fold_document, fold_documents, merge_documents,
}

-- A document as it was read: it names no sources of its own.
abbrev pub IsRead : Document → Type 0
IsRead doc = doc.sources ≡ none

module _ (P : String → Type 0) where
  read-FromDocument : (doc : Document) → IsRead doc → P doc.path → FromDocument P doc
  unfolding origin_of
  read-FromDocument doc h p path = rw (h, origin_of) p

  abbrev FoldedFrom : Folded → Type 0
  FoldedFrom f =
      P f.path × (AllValues (λ (l : SourcedLine). P l.source) f.lines × AllValues P f.sources)

  accumulated-FromDocument : (f : Folded) → FoldedFrom f → FromDocument P (accumulated f)
  unfolding origin_of accumulated
  accumulated-FromDocument f (p, (l, s)) path = elim (Option-cases (lookup path f.sources)) [
    | inl e ↦ rw e p
    | inr (v, e) ↦ rw e (lookup-AllValues P path v f.sources s e)
  ]

  first_folded-FoldedFrom :
      (doc : Document) → IsRead doc → P doc.path → FoldedFrom (first_folded doc)
  unfolding first_folded
  first_folded-FoldedFrom doc h p =
      let (l, s) =
        take_subtree-AllFrom P "" (record { doc = doc; path = "" }) empty_recorder
          (read-FromDocument doc h p) (tt, tt) in
      (
        p,
        (
          remove-AllValues (λ (l : SourcedLine). P l.source) ""
              (take_subtree "" (record { doc = doc; path = "" }) empty_recorder).lines l,
          remove-AllValues P ""
              (take_subtree "" (record { doc = doc; path = "" }) empty_recorder).sources s,
        ),
      )

  fold_document-FoldedFrom :
      (f : Folded) (doc : Document)
      → FoldedFrom f
      → IsRead doc
      → P doc.path
      → FoldedFrom (fold_document f doc)
  unfolding fold_document
  fold_document-FoldedFrom f doc h r p =
      let (l, s) =
        merge_mappings-AllFrom P f.data' (of_entries doc.data')
          (record { doc = accumulated f; path = "" }) (record { doc = doc; path = "" }) ""
          empty_recorder (accumulated-FromDocument f h) (read-FromDocument doc r p) (tt, tt) in
      (h.0, (l, update-AllValues P f.sources _ h.1.1 s))

  fold_documents-FoldedFrom :
      (f : Folded) (docs : List Document)
      → FoldedFrom f
      → All IsRead docs
      → All (λ d. P d.path) docs
      → FoldedFrom (fold_documents f docs)
  unfolding fold_documents
  fold_documents-FoldedFrom f [] h r p = h
  fold_documents-FoldedFrom f (doc ∷ docs) h r p =
      fold_documents-FoldedFrom (fold_document f doc) docs
        (fold_document-FoldedFrom f doc h r.0 p.0) r.1 p.1

  -- Of documents as they are read: every line and every path of their merge is attributed to a file
  -- of the set, whatever holds of the paths of all of its files.
  pub merge_documents-AllFrom :
      (docs : List Document)
      → All IsRead docs
      → All (λ d. P d.path) docs
      → AllValues (λ (l : SourcedLine). P l.source) (merge_documents docs).lines
        × AllValues P (merge_documents docs).sources
  unfolding merge_documents
  merge_documents-AllFrom [] r p = (tt, tt)
  merge_documents-AllFrom (doc ∷ docs) r p =
      (fold_documents-FoldedFrom (first_folded doc) docs (first_folded-FoldedFrom doc r.0 p.0) r.1
        p.1).1
