-- ===== src/Merge/Values/Mappings.antt =====
-- What each key of a merged mapping holds.
use compose_lint.Prelude.{
  Bool, Bool-cases, Option, String, [], ap, arith, eq_iff, false, if◌then◌else◌, inl, inr, none,
  not, refl, some, str_eq, subst, sym, true, ◌&&◌, ◌||◌, ◌∙◌, ◌∷◌, ◌≡◌,
}
use compose_lint.Dict.{Dict, has_key, lookup, put}
use compose_lint.Value.{Entries, Value, end, entries, entry, get}
use compose_lint.Merge.Record.{Recorder, Side, child, join, take}
use compose_lint.Merge.Values.{
  after_base, changes_driver, choose, is_dropped, is_overridden, kept_entries, merge_entries,
  merge_mappings, merge_values, take_inherited, wins,
}
use compose_lint.Dict.Laws.{lookup-put}
use compose_lint.Text.{mem_text}

-- Each key stands once, as in any mapping that was parsed.
abbrev pub Distinct : Dict Value → Type 0
Distinct [] = Unit
Distinct ((k, v) ∷ d) = (lookup k d ≡ none) × Distinct d

lookup-kept_entries :
    (dropped : String → Bool) (k : String) (d : Dict Value)
    → lookup k (kept_entries dropped d) ≡ (if dropped k then none else lookup k d)
unfolding lookup kept_entries
lookup-kept_entries dropped k [] = elim (Bool-cases (dropped k)) [
  | inl e ↦ rw e refl
  | inr e ↦ rw e refl
]
lookup-kept_entries dropped k ((j, v) ∷ d) =
    here (dropped j) (str_eq j k) refl (λ e. ap dropped ((eq_iff j k).0 e))
      (lookup-kept_entries dropped k d)
  where
    here :
        (a b : Bool)
        → str_eq j k ≡ b
        → (b ≡ true → a ≡ dropped k)
        → lookup k (kept_entries dropped d) ≡ (if dropped k then none else lookup k d)
        → lookup k (if a then kept_entries dropped d else (j, v) ∷ kept_entries dropped d)
          ≡ (if dropped k then none else if b then some v else lookup k d)
    here true true e same ih = ih ∙ rw (← same refl) refl
    here true false e same ih = ih
    here false true e same ih = rw e (rw (← same refl) refl)
    here false false e same ih = rw e ih

some-value : (a b : Value) → some a ≡ some b → a ≡ b
some-value a b e = cc

entry_step :
    (P : Value → Option Value → Type 0) (k j : String) (w result : Value) (rest merged : Dict Value)
    (found : Option Value)
    → lookup j rest ≡ none
    → (lookup k rest ≡ none → found ≡ lookup k (put j result merged))
    → ((v : Value) → lookup k rest ≡ some v → P v found)
    → (str_eq j k ≡ true → found ≡ some result → P w found)
    → ((if str_eq j k then some w else lookup k rest) ≡ none → found ≡ lookup k merged)
      × ((v : Value) → (if str_eq j k then some w else lookup k rest) ≡ some v → P v found)
entry_step P k j w result rest merged found fresh absent there here =
    elim (Bool-cases (str_eq j k)) [
      | inl e ↦
          let same : j ≡ k = (eq_iff j k).0 e in
          let put_here : found ≡ some result =
            absent (rw (← same) fresh) ∙ lookup-put j k result merged ∙ rw e refl in
          rw e
            (λ h. absurd (cc), λ v h. subst (λ x. P x found) (some-value w v h) (here e put_here))
      | inr e ↦ rw e (λ h. absent h ∙ lookup-put j k result merged ∙ rw e refl, there)
    ]

module _ (base : Dict Value) (dropped : String → Bool) (base_side over_side : Side)
    (out_path : String) where
  -- The value of a key that the overriding mapping holds: merged onto the base's where both have it
  -- and nothing forbids it, else the overriding value itself.
  abbrev pub Overrides : String → Value → Option Value → Type 0
  Overrides k v found =
      (rec : Recorder) × (found
        ≡ some (
            if has_key k base && not (dropped k) && not (is_overridden over_side k)
            then (merge_values (get k base) v k (child base_side k) (child over_side k)
                (join out_path k) rec).0
            else v))

  written :
      (k : String) (w : Value) (rec rec' : Recorder) (found : Option Value)
      → found
        ≡ some
            (choose
              (has_key k base && not (dropped k) && not (is_overridden over_side k))
              (merge_values
                (get k base)
                w
                k
                (child base_side k)
                (child over_side k)
                (join out_path k)
                rec)
              (wins w (join out_path k) (child over_side k) rec')).0
      → Overrides k w found
  unfolding choose wins
  written k w rec rec' found h = (
    rec,
    h
        ∙ ap (λ v. some v)
            (go (has_key k base && not (dropped k) && not (is_overridden over_side k))),
  )
    where
      go :
          (b : Bool)
          → (choose b
              (merge_values
                (get k base)
                w
                k
                (child base_side k)
                (child over_side k)
                (join out_path k)
                rec)
              (wins w (join out_path k) (child over_side k) rec')).0
            ≡ (if b
                then (merge_values
                    (get k base)
                    w
                    k
                    (child base_side k)
                    (child over_side k)
                    (join out_path k)
                    rec).0
                else w)
      go true = refl
      go false = refl

  lookup-merge_entries :
      (k : String) (d : Entries) (merged : Dict Value) (rec : Recorder)
      → Distinct (entries d)
      → (lookup k (entries d) ≡ none
          → lookup k (merge_entries base dropped d base_side over_side out_path merged rec).0
            ≡ lookup k merged)
        × ((v : Value)
            → lookup k (entries d) ≡ some v
            → Overrides k v
                (lookup k (merge_entries base dropped d base_side over_side out_path merged rec).0))
  unfolding merge_entries lookup
  lookup-merge_entries k end merged rec h = (λ e. refl, λ v e. absurd (cc))
  lookup-merge_entries k (entry j w d) merged rec (fresh, h) =
      let both =
        merge_values (get j base) w j (child base_side j) (child over_side j) (join out_path j)
          (take (join out_path j) (child base_side j) rec) in
      let over = wins w (join out_path j) (child over_side j) rec in
      let b = has_key j base && not (dropped j) && not (is_overridden over_side j) in
      let (absent, there) =
        lookup-merge_entries k d (put j (choose b both over).0 merged) (choose b both over).1 h in
      entry_step (Overrides k) k j w (choose b both over).0 (entries d) merged _ fresh absent there
        λ e put_here.
          subst
            (λ x. Overrides x w (
              lookup k
                (merge_entries base dropped d base_side over_side out_path
                  (put j (choose b both over).0 merged) (choose b both over).1).0))
            ((eq_iff j k).0 e)
            (written j w (take (join out_path j) (child base_side j) rec) rec _ put_here)

-- The keys that the base does not pass on: those reset at their path, and the options of a logging
-- driver that the overriding mapping changes.
abbrev pub drops : Dict Value → Dict Value → Side → String → String → Bool
drops base over over_side out_path k =
    mem_text (join over_side.path k) over_side.doc.resets
    || (str_eq k "options" && changes_driver base over out_path)

and_dropped : (h r o : Bool) → (h && not ((h && r) || o)) ≡ (h && not (r || o))
and_dropped true r o = refl
and_dropped false r o = refl

abbrev nothing : Option Value
nothing = none

both_none : (b : Bool) → (if b then nothing else nothing) ≡ nothing
both_none true = refl
both_none false = refl

lookup-absent : (k : String) (d : Dict Value) → has_key k d ≡ false → lookup k d ≡ none
unfolding has_key lookup
lookup-absent k [] h = refl
lookup-absent k ((j, v) ∷ d) h = ground (arith, lookup-absent k d)

-- A key that the base lacks is dropped or not, all the same.
lookup-dropped :
    (base over : Dict Value) (over_side : Side) (out_path k : String)
    → (if is_dropped base over over_side out_path k then none else lookup k base)
      ≡ (if drops base over over_side out_path k then none else lookup k base)
unfolding is_dropped
lookup-dropped base over over_side out_path k = elim (Bool-cases (has_key k base)) [
  | inl e ↦ rw e refl
  | inr e ↦
      let absent : lookup k base ≡ none = lookup-absent k base e in
      rw absent (both_none _ ∙ sym (both_none (drops base over over_side out_path k)))
]

-- In the merge of two mappings, a key that the overriding one lacks holds the base's value, unless a
-- reset at its path or another logging driver drops it; and a key that it has holds the two values
-- merged, where both have the key and no reset, driver or override forbids it, else the overriding
-- value.
pub lookup-merge_mappings :
    (base : Dict Value) (d : Entries) (base_side over_side : Side) (out_path k : String)
    (rec : Recorder)
    → Distinct (entries d)
    → (lookup k (entries d) ≡ none
        → lookup k (merge_mappings base d base_side over_side out_path rec).0
          ≡ (if drops base (entries d) over_side out_path k then none else lookup k base))
      × ((v : Value)
          → lookup k (entries d) ≡ some v
          → Overrides base
              (drops base (entries d) over_side out_path)
              base_side
              over_side
              out_path
              k
              v
              (lookup k (merge_mappings base d base_side over_side out_path rec).0))
unfolding merge_mappings after_base is_dropped
lookup-merge_mappings base d base_side over_side out_path k rec h =
    let dropped = is_dropped base (entries d) over_side out_path in
    let (absent, there) =
      lookup-merge_entries base dropped base_side over_side out_path k d (kept_entries dropped base)
        (take_inherited dropped base (entries d) base_side out_path rec) h in
    (
      λ e.
          absent e
          ∙ lookup-kept_entries dropped k base
          ∙ lookup-dropped base (entries d) over_side out_path k,
      λ v e.
          let (r, f) = there v e in
          (
            r,
            f
                ∙ ap
                    (λ b. some (
                      if b && not (is_overridden over_side k)
                      then (merge_values (get k base) v k (child base_side k) (child over_side k)
                          (join out_path k) r).0
                      else v))
                    (and_dropped (has_key k base)
                      (mem_text (join over_side.path k) over_side.doc.resets)
                      (str_eq k "options" && changes_driver base (entries d) out_path)),
          ),
    )
