-- ===== src/Merge/Sequences/Keyed.antt =====
-- The keyed merge overrides by identity: what it keeps of the base, and of the overriding list.
use compose_lint.Prelude.{
  All, Bool, Bool-cases, List, Option, String, [], ap, arith, eq_iff, false, if◌then◌else◌, inl,
  inr, none, refl, some, str_eq, subst, suc, true, zero, ℕ, ◌++◌, ◌+◌, ◌==◌, ◌||◌, ◌∙◌, ◌∷◌, ◌≡◌,
}
use compose_lint.Value.{Value}
use compose_lint.Merge.Record.{Side, index}
use compose_lint.Merge.Sequences.{
  Placed, consumed, entry_at, enumerate, index_if, last_with, latest, mem_index, place, remaining,
  replaced, successor, with_index,
}
use compose_lint.Merge.Sequences.Appended.{In}

module _ (keyer : Value → Option String) where
  -- The entry has the key.
  abbrev pub has_identity : String → Placed → Bool
  has_identity k p = elim (keyer p.0) [ none ↦ false | some own ↦ str_eq own k ]

  -- The index finds an entry with the key.
  abbrev pub Finds : String → ℕ → List Placed → ℕ → Type 0
  Finds k i ps j =
      (m : ℕ) × (p : Placed) × (j ≡ i + m) × (entry_at m ps ≡ some p) × (keyer p.0 ≡ some k)

  pub last_with-Finds :
      (k : String) (side : Side) (vs : List Value) (i n j : ℕ)
      → last_with keyer k i vs ≡ some j
      → Finds k i (enumerate side n vs) j
  unfolding last_with entry_at index_if latest
  last_with-Finds k side [] i n j h = absurd (cc)
  last_with-Finds k side (v ∷ vs) i n j h =
      go (last_with keyer k (i + 1) vs) (keyer v) refl h
        (λ l e. last_with-Finds k side vs (i + 1) (n + 1) l e)
    where
      go :
          (o : Option ℕ) (own : Option String)
          → keyer v ≡ own
          → latest o (index_if own k i) ≡ some j
          → ((l : ℕ) → o ≡ some l → Finds k (i + 1) (enumerate side (n + 1) vs) l)
          → Finds k i (enumerate side n (v ∷ vs)) j
      go (some l) own f g ih =
          let (m, p, q, r, s) = ih l refl in
          let same : l ≡ j = cc in (suc m, p, omega (arith, same, q), r, s)
      go none none f g ih = absurd (cc)
      go none (some own) f g ih = elim (Bool-cases (str_eq own k)) [
        | inl e ↦
            let found : (if str_eq own k then some i else none) ≡ some j = g in
            let same : i ≡ j =
              (let q : some i ≡ some j =
                  subst (λ b. (if b then some i else none) ≡ some j) e found in
                cc) in
            (
              0,
              (v, index side n),
              omega (arith, same),
              refl,
              f ∙ ap (λ (t : String). some t) ((eq_iff own k).0 e),
            )
        | inr e ↦
            absurd
              (let q : none ≡ some j = subst (λ b. (if b then some i else none) ≡ some j) e g in cc)
      ]

  pub entry_at-In : (m : ℕ) (ps : List Placed) (p : Placed) → entry_at m ps ≡ some p → In p ps
  unfolding entry_at
  entry_at-In m [] p h = absurd (cc)
  entry_at-In zero (q ∷ qs) p h = inl (cc)
  entry_at-In (suc m) (q ∷ qs) p h = inr (entry_at-In m qs p h)

  -- Without an index, no entry has the key.
  pub last_with-none :
      (k : String) (side : Side) (vs : List Value) (i n : ℕ)
      → last_with keyer k i vs ≡ none
      → All (λ p. has_identity k p ≡ false) (enumerate side n vs)
  unfolding last_with index_if latest
  last_with-none k side [] i n h = tt
  last_with-none k side (v ∷ vs) i n h =
      go (last_with keyer k (i + 1) vs) (keyer v) h
        (λ e. last_with-none k side vs (i + 1) (n + 1) e)
    where
      go :
          (o : Option ℕ) (own : Option String)
          → latest o (index_if own k i) ≡ none
          → (o ≡ none → All (λ p. has_identity k p ≡ false) (enumerate side (n + 1) vs))
          → (elim own [ none ↦ false | some s ↦ str_eq s k ] ≡ false)
            × All (λ p. has_identity k p ≡ false) (enumerate side (n + 1) vs)
      go (some l) own g ih = absurd (cc)
      go none none g ih = (refl, ih refl)
      go none (some own) g ih = elim (Bool-cases (str_eq own k)) [
        | inl e ↦
            absurd
              (let q : some i ≡ none = subst (λ b. (if b then some i else none) ≡ none) e g in cc)
        | inr e ↦ (e, ih refl)
      ]

  pub In-append : (p : Placed) (xs ys : List Placed) → In p ys → In p (xs ++ ys)
  In-append p [] ys i = i
  In-append p (x ∷ xs) ys i = inr (In-append p xs ys i)

  pub In-append_first : (p : Placed) (xs ys : List Placed) → In p xs → In p (xs ++ ys)
  In-append_first p [] ys i = absurd i
  In-append_first p (x ∷ xs) ys (inl e) = inl e
  In-append_first p (x ∷ xs) ys (inr i) = inr (In-append_first p xs ys i)

  module _ (over : List Value) (over_side : Side) where
    abbrev pub over_placed : List Placed
    over_placed = enumerate over_side 0 over

    -- An index that a base entry consumes puts the entry at it in place.
    pub consumed-In :
        (j : ℕ) (p : Placed) (base : List Value) (base_side : Side) (n : ℕ)
        → entry_at j over_placed ≡ some p
        → mem_index j (consumed keyer over base) ≡ true
        → In p (replaced keyer over over_placed (enumerate base_side n base))
    unfolding consumed replaced mem_index
    consumed-In j p [] base_side n e h = absurd (cc)
    consumed-In j p (v ∷ base) base_side n e h =
        go (successor keyer over v) h (λ q. consumed-In j p base base_side (n + 1) e q)
      where
        go :
            (o : Option ℕ)
            → mem_index j (with_index o (consumed keyer over base)) ≡ true
            → (mem_index j (consumed keyer over base) ≡ true
                → In p (replaced keyer over over_placed (enumerate base_side (n + 1) base)))
            → In p (
                place over_placed (v, index base_side n) o
                ∷ replaced keyer over over_placed (enumerate base_side (n + 1) base))
        go none g ih = inr (ih g)
        go (some l) g ih = elim (Bool-cases (j == l)) [
          | inl q ↦
              let same : j ≡ l = ground arith in
              let here : entry_at l over_placed ≡ some p = rw (← same) e in inl (rw here refl)
          | inr q ↦ inr (ih (subst (λ b. (b || mem_index j (consumed keyer over base)) ≡ true) q g))
        ]

    -- One that none consumes remains.
    pub remaining-In :
        (taken : List ℕ) (i m : ℕ) (ps : List Placed) (p : Placed)
        → entry_at m ps ≡ some p
        → mem_index (i + m) taken ≡ false
        → In p (remaining taken i ps)
    unfolding remaining entry_at
    remaining-In taken i m [] p e h = absurd (cc)
    remaining-In taken i zero (q ∷ ps) p e h =
        let free : mem_index i taken ≡ false = (let z : i + 0 ≡ i = omega arith in rw (← z) h) in
        rw free (inl (cc))
    remaining-In taken i (suc m) (q ∷ ps) p e h =
        let rest : In p (remaining taken (i + 1) ps) =
          remaining-In taken (i + 1) m ps p e
            (let z : i + suc m ≡ i + 1 + m = omega arith in rw (← z) h) in
        elim (Bool-cases (mem_index i taken)) [ inl f ↦ rw f rest | inr f ↦ rw f (inr rest) ]
