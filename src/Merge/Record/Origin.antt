-- ===== src/Merge/Record/Origin.antt =====
-- A recorder names no file but those that its sides come from.
use compose_lint.Prelude.{
  All, Bool, Bool-cases, Option, String, [], false, if◌then◌else◌, inl, inr, none, some, str_eq,
  subst, true, ℕ, ◌∷◌, ◌≡◌,
}
use compose_lint.Dict.{Dict, lookup, put, remove, update}
use compose_lint.Merge.Record.{
  Document, Recorder, Side, SourcedLine, below_prefix, note_line, note_source, origin_of, take,
  take_all, take_below, take_subtree,
}
use compose_lint.Text.{append}

-- `P` holds of every value of a map.
abbrev pub AllValues : {V : Type 0} → (V → Type 0) → Dict V → Type 0
AllValues P d = All (λ p. P p.1) d

pub put-AllValues :
    {V : Type 0} (P : V → Type 0) (k : String) (v : V) (d : Dict V)
    → P v
    → AllValues P d
    → AllValues P (put k v d)
unfolding put
put-AllValues P k v [] h a = (h, tt)
put-AllValues P k v ((j, w) ∷ d) h a = elim (Bool-cases (str_eq j k)) [
  | inl e ↦ rw e (h, a.1)
  | inr e ↦ rw e (a.0, put-AllValues P k v d h a.1)
]

pub remove-AllValues :
    {V : Type 0} (P : V → Type 0) (k : String) (d : Dict V)
    → AllValues P d
    → AllValues P (remove k d)
unfolding remove
remove-AllValues P k [] a = tt
remove-AllValues P k ((j, w) ∷ d) a = elim (Bool-cases (str_eq j k)) [
  | inl e ↦ rw e (remove-AllValues P k d a.1)
  | inr e ↦ rw e (a.0, remove-AllValues P k d a.1)
]

pub update-AllValues :
    {V : Type 0} (P : V → Type 0) (d e : Dict V)
    → AllValues P d
    → AllValues P e
    → AllValues P (update d e)
unfolding update
update-AllValues P d [] a b = a
update-AllValues P d ((k, v) ∷ e) a b =
    update-AllValues P (put k v d) e (put-AllValues P k v d b.0 a) b.1

some-injective : {V : Type 0} (a b : V) → some a ≡ some b → a ≡ b
some-injective a b e = cc

pub lookup-AllValues :
    {V : Type 0} (P : V → Type 0) (k : String) (v : V) (d : Dict V)
    → AllValues P d
    → lookup k d ≡ some v
    → P v
unfolding lookup
lookup-AllValues P k v [] a h = absurd (cc)
lookup-AllValues P k v ((j, w) ∷ d) a h = elim (Bool-cases (str_eq j k)) [
  | inl e ↦
      let same : w ≡ v =
        some-injective w v (subst (λ b. (if b then some w else lookup k d) ≡ some v) e h) in
      subst P same a.0
  | inr e ↦
      lookup-AllValues P k v d a.1 (subst (λ b. (if b then some w else lookup k d) ≡ some v) e h)
]

module _ (P : String → Type 0) where
  -- Every line and every path of the recorder has a source with `P`.
  abbrev pub AllFrom : Recorder → Type 0
  AllFrom rec = AllValues (λ (l : SourcedLine). P l.source) rec.lines × AllValues P rec.sources

  -- Whatever path of the document is asked for, its origin has `P`.
  abbrev pub FromDocument : Document → Type 0
  FromDocument doc = (path : String) → P (origin_of doc path)

  note_line-AllFrom :
      (path : String) (line : ℕ) (origin : String) (rec : Recorder)
      → P origin
      → AllFrom rec
      → AllFrom (note_line path line origin rec)
  unfolding note_line
  note_line-AllFrom path line origin rec h (a, b) = (
    put-AllValues (λ (l : SourcedLine). P l.source) path _ rec.lines h a,
    put-AllValues P path origin rec.sources h b,
  )

  pub take-AllFrom :
      (out_path : String) (side : Side) (rec : Recorder)
      → FromDocument side.doc
      → AllFrom rec
      → AllFrom (take out_path side rec)
  unfolding take note_source
  take-AllFrom out_path side rec h a = go (lookup side.path side.doc.lines)
    where
      go :
          (o : Option ℕ)
          → AllFrom (elim o [
            | none ↦ note_source out_path (origin_of side.doc side.path) rec
            | some line ↦ note_line out_path line (origin_of side.doc side.path) rec
          ])
      go none = (
        a.0,
        put-AllValues P out_path (origin_of side.doc side.path) rec.sources (h side.path) a.1,
      )
      go (some line) =
          note_line-AllFrom out_path line (origin_of side.doc side.path) rec (h side.path) a

  either : (b : Bool) (r s : Recorder) → AllFrom r → AllFrom s → AllFrom (if b then r else s)
  either true r s a c = a
  either false r s a c = c

  take_all-AllFrom :
      (doc : Document) (lines : Dict ℕ) (rec : Recorder)
      → FromDocument doc
      → AllFrom rec
      → AllFrom (take_all doc lines rec)
  unfolding take_all
  take_all-AllFrom doc [] rec h a = a
  take_all-AllFrom doc ((key, line) ∷ lines) rec h a =
      let noted = note_line key line (origin_of doc key) rec in
      take_all-AllFrom doc lines (if str_eq key "" then rec else noted) h (
        either (str_eq key "") rec noted a
          (note_line-AllFrom key line (origin_of doc key) rec (h key) a))

  take_below-AllFrom :
      (out_path prefix : String) (doc : Document) (lines : Dict ℕ) (rec : Recorder)
      → FromDocument doc
      → AllFrom rec
      → AllFrom (take_below out_path prefix doc lines rec)
  unfolding take_below
  take_below-AllFrom out_path prefix doc [] rec h a = a
  take_below-AllFrom out_path prefix doc ((key, line) ∷ lines) rec h a =
      take_below-AllFrom out_path prefix doc lines
        (elim (below_prefix prefix key) [
          | none ↦ rec
          | some rest ↦ note_line (append out_path rest) line (origin_of doc key) rec
        ])
        h (go (below_prefix prefix key))
    where
      go :
          (o : Option String)
          → AllFrom (elim o [
            | none ↦ rec
            | some rest ↦ note_line (append out_path rest) line (origin_of doc key) rec
          ])
      go none = a
      go (some rest) =
          note_line-AllFrom (append out_path rest) line (origin_of doc key) rec (h key) a

  pub take_subtree-AllFrom :
      (out_path : String) (side : Side) (rec : Recorder)
      → FromDocument side.doc
      → AllFrom rec
      → AllFrom (take_subtree out_path side rec)
  unfolding take_subtree
  take_subtree-AllFrom out_path side rec h a =
      let taken = take out_path side rec in
      let b = take-AllFrom out_path side rec h a in
      either (str_eq side.path "") (take_all side.doc side.doc.lines taken)
        (take_below out_path side.path side.doc side.doc.lines taken)
        (take_all-AllFrom side.doc side.doc.lines taken h b)
        (take_below-AllFrom out_path side.path side.doc side.doc.lines taken h b)
