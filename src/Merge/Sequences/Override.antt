-- ===== src/Merge/Sequences/Override.antt =====
-- The keyed merge as an update of the base by the overriding list.
use compose_lint.Prelude.{
  All, All-append, All-weaken, Bool, Bool-cases, List, Option, Option-cases, String, [], ap,
  append-nil, arith, eq_iff, false, inl, inr, none, refl, select, some, str_eq, suc, sym, true, ℕ,
  ◌++◌, ◌+◌, ◌∙◌, ◌∷◌, ◌≡◌, ◌⊎◌,
}
use compose_lint.Value.{Value}
use compose_lint.Merge.Record.{Side}
use compose_lint.Merge.Sequences.{
  Placed, consumed, entry_at, enumerate, found_by, last_with, mem_index, merge_keyed, place,
  remaining, replaced, successor,
}
use compose_lint.Merge.Sequences.Appended.{In}
use compose_lint.Merge.Sequences.Keyed.{
  In-append, In-append_first, consumed-In, entry_at-In, has_identity, last_with-Finds,
  last_with-none, remaining-In,
}

All-entries :
    (Q : Placed → Type 0) (ps : List Placed)
    → ((m : ℕ) (p : Placed) → entry_at m ps ≡ some p → Q p)
    → All Q ps
unfolding entry_at
All-entries Q [] h = tt
All-entries Q (p ∷ ps) h = (h 0 p refl, All-entries Q ps (λ m q e. h (suc m) q e))

select_none : (q : Placed → Bool) (ps : List Placed) → All (λ p. q p ≡ false) ps → select q ps ≡ []
select_none q [] h = refl
select_none q (p ∷ ps) h = rw (h.0) (select_none q ps h.1)

select-append :
    (q : Placed → Bool) (xs ys : List Placed) → select q (xs ++ ys) ≡ select q xs ++ select q ys
select-append q [] ys = refl
select-append q (x ∷ xs) ys = elim (Bool-cases (q x)) [
  | inl e ↦ rw e (ap (λ r. x ∷ r) (select-append q xs ys))
  | inr e ↦ rw e (select-append q xs ys)
]

All-remaining :
    (Q : Placed → Type 0) (taken : List ℕ) (i : ℕ) (ps : List Placed)
    → All Q ps
    → All Q (remaining taken i ps)
unfolding remaining
All-remaining Q taken i [] h = tt
All-remaining Q taken i (p ∷ ps) h = elim (Bool-cases (mem_index i taken)) [
  | inl e ↦ rw e (All-remaining Q taken (i + 1) ps h.1)
  | inr e ↦ rw e (h.0, All-remaining Q taken (i + 1) ps h.1)
]

All-In : (ps : List Placed) → All (λ p. In p ps) ps
All-In [] = tt
All-In (p ∷ ps) =
    (inl refl, All-weaken (λ q. In q ps) (λ q. In q (p ∷ ps)) ps (λ q i. inr i) (All-In ps))

module _ (keyer : Value → Option String) (base over : List Value) (base_side over_side : Side) where
  abbrev overs : List Placed
  overs = enumerate over_side 0 over

  abbrev bases : List Placed
  bases = enumerate base_side 0 base

  over-In :
      (m : ℕ) (p : Placed)
      → entry_at m overs ≡ some p
      → In p (merge_keyed keyer base over base_side over_side)
  unfolding merge_keyed
  over-In m p e = elim (Bool-cases (mem_index m (consumed keyer over base))) [
    | inl f ↦
        In-append_first keyer p (replaced keyer over overs bases)
          (remaining (consumed keyer over base) 0 overs)
          (consumed-In keyer over over_side m p base base_side 0 e f)
    | inr f ↦
        In-append keyer p (replaced keyer over overs bases)
          (remaining (consumed keyer over base) 0 overs)
          (remaining-In keyer over over_side (consumed keyer over base) 0 m overs p e
            (let z : 0 + m ≡ m = omega arith in rw z f))
  ]

  -- An entry stays, or the one in its place is an overriding one of the same key.
  abbrev Placing : Placed → Option ℕ → Type 0
  Placing p o =
      ((o ≡ none) × (place overs p o ≡ p))
      ⊎ ((j : ℕ) × (q : Placed) × (o ≡ some j)
          × (place overs p o ≡ q)
          × In q overs
          × (keyer q.0 ≡ keyer p.0))

  successor-Placing : (p : Placed) → Placing p (successor keyer over p.0)
  unfolding successor found_by place
  successor-Placing p = go (keyer p.0) refl
    where
      go : (own : Option String) → keyer p.0 ≡ own → Placing p (found_by keyer over own)
      go none e = inl (refl, refl)
      go (some k) e = elim (Option-cases (last_with keyer k 0 over)) [
        | inl f ↦ inl (f, rw f refl)
        | inr (j, f) ↦
            let (m, q, n, r, s) = last_with-Finds keyer k over_side over 0 0 j f in
            let same : j ≡ m = omega (arith, n) in
            let at : entry_at j overs ≡ some q = rw same r in
            inr (j, q, f, (rw f (rw at refl)), entry_at-In keyer m overs q r, s ∙ sym e)
      ]

  -- The key of an entry, and the index that it finds.
  identity-found :
      (k : String) (p : Placed)
      → has_identity keyer k p ≡ true
      → successor keyer over p.0 ≡ last_with keyer k 0 over
  unfolding successor found_by
  identity-found k p h = go (keyer p.0) h
    where
      go :
          (own : Option String)
          → elim own [ none ↦ false | some s ↦ str_eq s k ] ≡ true
          → found_by keyer over own ≡ last_with keyer k 0 over
      go none g = absurd (cc)
      go (some own) g = ap (λ t. last_with keyer t 0 over) ((eq_iff own k).0 g)

  module _ (k : String) where
    abbrev has_k : Placed → Bool
    has_k = has_identity keyer k

    select-replaced :
        (ps : List Placed)
        → last_with keyer k 0 over ≡ none
        → select has_k (replaced keyer over overs ps) ≡ select has_k ps
    unfolding replaced
    select-replaced [] h = refl
    select-replaced ((v, side) ∷ ps) h = go (successor-Placing (v, side)) (select-replaced ps h)
      where
        go :
            Placing (v, side) (successor keyer over v)
            → select has_k (replaced keyer over overs ps) ≡ select has_k ps
            → select has_k
                (place overs (v, side) (successor keyer over v) ∷ replaced keyer over overs ps)
              ≡ select has_k ((v, side) ∷ ps)
        go (inl (n, e)) ih = rw e (elim (Bool-cases (has_k (v, side))) [
          | inl f ↦ rw f (ap (λ r. (v, side) ∷ r) ih)
          | inr f ↦ rw f ih
        ])
        go (inr (j, q, f, e, i, same)) ih = elim (Bool-cases (has_k (v, side))) [
          | inl g ↦ absurd (let z : some j ≡ none = sym f ∙ identity-found k (v, side) g ∙ h in cc)
          | inr g ↦
              let hidden : has_k q ≡ false =
                ap
                  (λ (o : Option String). elim o as (λ _. Bool) [
                    | none ↦ false
                    | some own ↦ str_eq own k
                  ])
                  same
                ∙ g in
              rw e (rw hidden (rw g ih))
        ]

    replaced-FromOver :
        (ps : List Placed) (j : ℕ)
        → last_with keyer k 0 over ≡ some j
        → All (λ p. has_k p ≡ true → In p overs) (replaced keyer over overs ps)
    unfolding replaced
    replaced-FromOver [] j h = tt
    replaced-FromOver ((v, side) ∷ ps) j h =
        (go (successor-Placing (v, side)), replaced-FromOver ps j h)
      where
        go :
            Placing (v, side) (successor keyer over v)
            → has_k (place overs (v, side) (successor keyer over v)) ≡ true
            → In (place overs (v, side) (successor keyer over v)) overs
        go (inl (n, e)) g = absurd (
            let own : has_k (v, side) ≡ true = ap has_k (sym e) ∙ g in
            let z : none ≡ some j = sym n ∙ identity-found k (v, side) own ∙ h in cc)
        go (inr (l, q, f, e, i, same)) g = rw e i

  -- Of a field keyed by identity: every overriding entry is in the merge; the base's entries with a key
  -- that the overriding list lacks are kept, exactly and in order; and the entries with a key that it
  -- has are all its own.
  pub merge_keyed_lem :
      All (λ p. In p (merge_keyed keyer base over base_side over_side)) (enumerate over_side 0 over)
      × ((k : String)
          → last_with keyer k 0 over ≡ none
          → select (has_identity keyer k) (merge_keyed keyer base over base_side over_side)
            ≡ select (has_identity keyer k) (enumerate base_side 0 base))
      × ((k : String) (j : ℕ)
          → last_with keyer k 0 over ≡ some j
          → All
              (λ p. has_identity keyer k p ≡ true → In p (enumerate over_side 0 over))
              (merge_keyed keyer base over base_side over_side))
  unfolding merge_keyed
  merge_keyed_lem = (
    All-entries (λ p. In p (merge_keyed keyer base over base_side over_side)) overs over-In,
    (λ k h.
        let absent =
          All-remaining (λ p. has_identity keyer k p ≡ false) (consumed keyer over base) 0 overs
            (last_with-none keyer k over_side over 0 0 h) in
        select-append (has_identity keyer k) (replaced keyer over overs bases)
          (remaining (consumed keyer over base) 0 overs)
        ∙ rw
            (select_none (has_identity keyer k) (remaining (consumed keyer over base) 0 overs)
              absent)
            (append-nil (select (has_identity keyer k) (replaced keyer over overs bases))
              ∙ select-replaced k bases h)),
    (λ k j h.
        All-append (λ p. has_identity keyer k p ≡ true → In p overs)
          (replaced keyer over overs bases) (remaining (consumed keyer over base) 0 overs)
          (replaced-FromOver k bases j h)
          (All-weaken (λ p. In p overs) (λ p. has_identity keyer k p ≡ true → In p overs)
            (remaining (consumed keyer over base) 0 overs) (λ p i _. i)
            (All-remaining (λ p. In p overs) (consumed keyer over base) 0 overs (All-In overs)))),
  )
