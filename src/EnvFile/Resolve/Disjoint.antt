-- ===== src/EnvFile/Resolve/Disjoint.antt =====
-- A name that a `.env` leaves unresolved has no value.
use compose_lint.Prelude.{
  Bool, Bool-cases, List, Option, String, [], arith, eq_iff, false, if◌then◌else◌, inl, inr, none,
  not, refl, select, some, str_eq, subst, sym, true, ◌&&◌, ◌||◌, ◌∙◌, ◌∷◌, ◌≡◌,
}
use compose_lint.Text.{mem_text}
use compose_lint.Dict.{Dict, lookup}
use compose_lint.Dict.Laws.{lookup-put, lookup-remove}
use compose_lint.EnvFile.{EnvEntry}
use compose_lint.EnvFile.Resolve.{
  Resolution, binds, discard, entry_value, fails, is_needed, needed_values, resolve,
  resolve_entries, resolve_entry,
}

-- A name that is unresolved has no value.
abbrev pub IsDisjoint : Resolution → Type 0
IsDisjoint r = (k : String) → mem_text k r.unresolved ≡ true → lookup k r.values ≡ none

mem_text-discard :
    (k j : String) (js : List String)
    → mem_text j (discard k js) ≡ (not (str_eq k j) && mem_text j js)
unfolding mem_text discard
mem_text-discard k j [] = ground arith
mem_text-discard k j (i ∷ js) =
    ground (arith, eq_iff k j, eq_iff k i, eq_iff j i, mem_text-discard k j js)

resolve_entry-IsDisjoint :
    (o : Option String) (key : String) (r : Resolution)
    → IsDisjoint r
    → IsDisjoint (resolve_entry o key r)
unfolding resolve_entry fails binds mem_text
resolve_entry-IsDisjoint none key r h k m = elim (Bool-cases (str_eq key k)) [
  | inl e ↦ lookup-remove key k r.values ∙ rw e refl
  | inr e ↦
      let other : str_eq k key ≡ false = ground (arith, eq_iff key k, eq_iff k key) in
      let known : mem_text k r.unresolved ≡ true =
        subst (λ b. (b || mem_text k r.unresolved) ≡ true) other m in
      lookup-remove key k r.values ∙ rw e (h k known)
]
resolve_entry-IsDisjoint (some value) key r h k m =
    let kept : (not (str_eq key k) && mem_text k r.unresolved) ≡ true =
      sym (mem_text-discard key k r.unresolved) ∙ m in
    let other : str_eq key k ≡ false = ground arith in
    let known : mem_text k r.unresolved ≡ true = ground arith in
    lookup-put key k value r.values ∙ rw other (h k known)

resolve_entries-IsDisjoint :
    (needed : Option (List String)) (bare_is_empty : Bool) (es : List EnvEntry) (r : Resolution)
    → IsDisjoint r
    → IsDisjoint (resolve_entries needed bare_is_empty es r)
unfolding resolve_entries
resolve_entries-IsDisjoint needed bare_is_empty [] r h = h
resolve_entries-IsDisjoint needed bare_is_empty (e ∷ es) r h =
    resolve_entries-IsDisjoint needed bare_is_empty es _ (go (is_needed needed e.key))
  where
    go :
        (b : Bool)
        → IsDisjoint (if b then resolve_entry (entry_value bare_is_empty e r.values) e.key r else r)
    go true = resolve_entry-IsDisjoint (entry_value bare_is_empty e r.values) e.key r h
    go false = h

lookup-needed_values :
    (needed : Option (List String)) (k : String) (d : Dict String)
    → lookup k d ≡ none
    → lookup k (needed_values needed d) ≡ none
unfolding lookup needed_values
lookup-needed_values needed k [] h = refl
lookup-needed_values needed k ((j, v) ∷ d) h = elim (Bool-cases (str_eq j k)) [
  | inl e ↦
      absurd
        (let q : some v ≡ none = subst (λ b. (if b then some v else lookup k d) ≡ none) e h in cc)
  | inr e ↦
      let absent : lookup k d ≡ none = subst (λ b. (if b then some v else lookup k d) ≡ none) e h in
      elim (Bool-cases (is_needed needed j)) [
        | inl f ↦ rw f (rw e (lookup-needed_values needed k d absent))
        | inr f ↦ rw f (lookup-needed_values needed k d absent)
      ]
]

mem_text-select :
    (p : String → Bool) (k : String) (js : List String)
    → mem_text k (select p js) ≡ true
    → mem_text k js ≡ true
unfolding mem_text
mem_text-select p k [] h = h
mem_text-select p k (j ∷ js) h = elim (Bool-cases (p j)) [
  | inl e ↦ elim (Bool-cases (str_eq k j)) [
    | inl f ↦ rw f refl
    | inr f ↦ rw f (
        mem_text-select p k js (
          subst (λ b. (b || mem_text k (select p js)) ≡ true) f
            (subst (λ b. mem_text k (if b then j ∷ select p js else select p js) ≡ true) e h)))
  ]
  | inr e ↦
      let rest : mem_text k js ≡ true =
        mem_text-select p k js
          (subst (λ b. mem_text k (if b then j ∷ select p js else select p js) ≡ true) e h) in
      elim (Bool-cases (str_eq k j)) [ inl f ↦ rw f refl | inr f ↦ rw f rest ]
]

-- However often a key is written, and whatever its values refer to: a name that the reading leaves
-- unresolved has no value in it, so a rule never sees an earlier value of a key that the file went
-- on to make unknowable.
pub resolve-IsDisjoint :
    (needed : Option (List String)) (bare_is_empty : Bool) (es : List EnvEntry)
    → IsDisjoint (resolve needed bare_is_empty [] es)
unfolding resolve mem_text
resolve-IsDisjoint needed bare_is_empty es k m =
    let r = resolve_entries needed bare_is_empty es (record { values = []; unresolved = [] }) in
    lookup-needed_values needed k r.values (
      resolve_entries-IsDisjoint needed bare_is_empty es (record { values = []; unresolved = [] })
        (λ j n. absurd (cc)) k (mem_text-select (is_needed needed) k r.unresolved m))
