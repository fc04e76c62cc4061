-- ===== src/Sorting.antt =====
-- `sorted` and `list.sort` by a total order on what is compared, which the fixer uses.
use compose_lint.Prelude.{
  All, All-weaken, Bool, Bool-cases, List, [], any, ap, ap₂, arith, false, if◌then◌else◌, inl, inr,
  refl, sym, true, ◌||◌, ◌∙◌, ◌∷◌, ◌≡◌, ◌⊎◌,
}
use mathlib.Core.List.{Permᴰ}
use mathlib.Core.Bool.{false≢true}

-- A reflexive order by a Boolean test that is total, transitive and decides equality.
pub record TotalOrder {ℓ} {A : Type ℓ} (le : A → A → Bool) : Type ℓ where
  pub total : (a b : A) → le a b ≡ false → le b a ≡ true
  pub transitive : (a b c : A) → le a b ≡ true → le b c ≡ true → le a c ≡ true
  pub antisym : (a b : A) → le a b ≡ true → le b a ≡ true → a ≡ b

module _ {ℓ} {A : Type ℓ} (le : A → A → Bool) where
  unfoldable pub insert_by : A → List A → List A
  insert_by a [] = a ∷ []
  insert_by a (b ∷ l) = let rest = insert_by a l in if le a b then a ∷ b ∷ l else b ∷ rest

  unfoldable pub sort_by : List A → List A
  unfolding insert_by
  sort_by [] = []
  sort_by (a ∷ l) = insert_by a (sort_by l)

  -- Each element stands before those that are not below it.
  abbrev pub IsSortedBy : List A → Type 0
  IsSortedBy [] = Unit
  IsSortedBy (a ∷ l) = All (λ b. le a b ≡ true) l × IsSortedBy l

  module _ {κ} (P : A → Type κ) where
    pub All-insert_by : (a : A) (l : List A) → P a → All P l → All P (insert_by a l)
    unfolding insert_by
    All-insert_by a [] h k = (h, tt)
    All-insert_by a (b ∷ l) h k = elim (Bool-cases (le a b)) [
      | inl e ↦ rw e (h, k)
      | inr e ↦ rw e (k.0, All-insert_by a l h k.1)
    ]

    pub All-of-insert_by : (a : A) (l : List A) → All P (insert_by a l) → P a × All P l
    unfolding insert_by
    All-of-insert_by a [] = λ h. h
    All-of-insert_by a (b ∷ l) = elim (Bool-cases (le a b)) [
      | inl e ↦ rw e (λ h. h)
      | inr e ↦ rw e (λ h. let k = All-of-insert_by a l h.1 in (k.0, (h.0, k.1)))
    ]

    pub All-sort_by : (l : List A) → All P l → All P (sort_by l)
    unfolding sort_by
    All-sort_by [] k = tt
    All-sort_by (a ∷ l) k = All-insert_by a (sort_by l) k.0 (All-sort_by l k.1)

    pub All-of-sort_by : (l : List A) → All P (sort_by l) → All P l
    unfolding sort_by
    All-of-sort_by [] k = tt
    All-of-sort_by (a ∷ l) k =
        let (h, rest) = All-of-insert_by a (sort_by l) k in (h, All-of-sort_by l rest)

  module _ (o : TotalOrder le) where
    insert_by-IsSortedBy : (a : A) (l : List A) → IsSortedBy l → IsSortedBy (insert_by a l)
    unfolding insert_by
    insert_by-IsSortedBy a [] s = (tt, tt)
    insert_by-IsSortedBy a (b ∷ l) s = elim (Bool-cases (le a b)) [
      | inl e ↦ rw e (
        (
          e,
          All-weaken (λ c. le b c ≡ true) (λ c. le a c ≡ true) l (λ c k. o.transitive a b c e k)
              s.0,
        ),
        s,
      )
      | inr e ↦
          rw e (
            All-insert_by (λ c. le b c ≡ true) a l (o.total a b e) s.0,
            insert_by-IsSortedBy a l s.1,
          )
    ]

    pub sort_by-IsSortedBy : (l : List A) → IsSortedBy (sort_by l)
    unfolding sort_by
    sort_by-IsSortedBy [] = tt
    sort_by-IsSortedBy (a ∷ l) = insert_by-IsSortedBy a (sort_by l) (sort_by-IsSortedBy l)

    -- Two elements inserted at one place stand in their order, whichever comes first.
    insert_by-pair :
        (a b : A) (l : List A)
        → (le a b ≡ true) ⊎ (le a b ≡ false)
        → (if le a b then a ∷ b ∷ l else b ∷ a ∷ l) ≡ (if le b a then b ∷ a ∷ l else a ∷ b ∷ l)
    insert_by-pair a b l (inl e) = elim (Bool-cases (le b a)) [
      | inl f ↦ rw (e, f) (ap₂ (λ x y. x ∷ y ∷ l) (o.antisym a b e f) (o.antisym b a f e))
      | inr f ↦ rw (e, f) refl
    ]
    insert_by-pair a b l (inr e) = rw (e, o.total a b e) refl

    -- What stands above `c` is not below what stands below `c`.
    ne_above : (b a c : A) → le b c ≡ false → le a c ≡ true → le b a ≡ false
    ne_above b a c q p = elim (Bool-cases (le b a)) [
      | inl e ↦ absurd (false≢true (sym q ∙ o.transitive b a c e p))
      | inr e ↦ e
    ]

    insert_by_comm :
        (a b : A) (l : List A) → insert_by a (insert_by b l) ≡ insert_by b (insert_by a l)
    unfolding insert_by
    insert_by_comm a b [] = insert_by-pair a b [] (Bool-cases (le a b))
    insert_by_comm a b (c ∷ l) = elim (Bool-cases (le a c)) [
      | inl p ↦ elim (Bool-cases (le b c)) [
        | inl q ↦ rw (p, q) (rw p (insert_by-pair a b (c ∷ l) (Bool-cases (le a b))))
        | inr q ↦ rw (p, q) (rw (ne_above b a c q p) (rw p refl))
      ]
      | inr p ↦ elim (Bool-cases (le b c)) [
        | inl q ↦ rw (p, q) (rw (ne_above a b c p q) (rw p refl))
        | inr q ↦ rw (p, q) (rw p (ap (λ r. c ∷ r) (insert_by_comm a b l)))
      ]
    ]

    -- Sorting forgets the order in which the elements came.
    pub sort_by-perm : {l r : List A} → Permᴰ l r → sort_by l ≡ sort_by r
    unfolding sort_by
    sort_by-perm Permᴰ.nil = refl
    sort_by-perm (Permᴰ.cons e d) = ap₂ (λ a l. insert_by a l) e (sort_by-perm d)
    sort_by-perm (Permᴰ.swap {a = a} {b = b} {l = l} e f) =
        insert_by_comm a b (sort_by l) ∙ ap₂ (λ x y. insert_by x (insert_by y (sort_by l))) f e
    sort_by-perm (Permᴰ.trans d e) = sort_by-perm d ∙ sort_by-perm e

-- Sorting changes no answer about whether some element passes a test.
module _ {ℓ} {A : Type ℓ} (le : A → A → Bool) (p : A → Bool) where
  any-insert_by : (a : A) (l : List A) → any p (insert_by le a l) ≡ (p a || any p l)
  unfolding insert_by
  any-insert_by a [] = refl
  any-insert_by a (b ∷ l) = elim (Bool-cases (le a b)) [
    | inl e ↦ rw e refl
    | inr e ↦ rw e (rw (any-insert_by a l) (swap_or (p b) (p a) (any p l)))
  ]
    where
      swap_or : (x y z : Bool) → (x || (y || z)) ≡ (y || (x || z))
      swap_or x y z = ground arith

  pub any-sort_by : (l : List A) → any p (sort_by le l) ≡ any p l
  unfolding sort_by
  any-sort_by [] = refl
  any-sort_by (a ∷ l) = any-insert_by a (sort_by le l) ∙ ap (λ r. p a || r) (any-sort_by l)
