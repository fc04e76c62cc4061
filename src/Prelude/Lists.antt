-- ===== src/Prelude/Lists.antt =====
-- Lists measured and indexed by native numbers, under the library's names.
use Prim.Native.Nat.{ℕ, zero, suc, ◌+◌}
use mathlib.Core.Option.{Option, none, some}
use mathlib.Core.Path.{◌≡◌, refl, ap, ap₂}
use mathlib.Core.List.{List, [], ◌∷◌, ◌++◌, map}
use mathlib.Core.Bool.{Bool, true, false, ◌&&◌, ◌||◌}
use native.Mathlib.Omega.{arith}
use mathlib.Core.Logic.{inl, inr}
use compose_lint.Prelude.Tests.{Bool-cases, if◌then◌else◌}

module _ {ℓ} {A : Type ℓ} where
  abbrev pub length : List A → ℕ
  length [] = 0
  length (x ∷ xs) = suc (length xs)

  pub length-append : (xs ys : List A) → length (xs ++ ys) ≡ length xs + length ys
  length-append [] ys = omega arith
  length-append (x ∷ xs) ys = omega (arith, length-append xs ys)

  -- A list comprehension's `if`, on a Boolean test.
  abbrev pub select : (A → Bool) → List A → List A
  select p [] = []
  select p (x ∷ xs) = let rest = select p xs in if p x then x ∷ rest else rest

  abbrev pub take : ℕ → List A → List A
  take zero xs = []
  take (suc n) [] = []
  take (suc n) (x ∷ xs) = x ∷ take n xs

  abbrev pub drop : ℕ → List A → List A
  drop zero xs = xs
  drop (suc n) [] = []
  drop (suc n) (x ∷ xs) = drop n xs

  abbrev pub get_elem? : List A → ℕ → Option A
  get_elem? [] i = none
  get_elem? (x ∷ xs) zero = some x
  get_elem? (x ∷ xs) (suc i) = get_elem? xs i

  -- A predicate holds of every element.
  abbrev pub All {κ} : (A → Type κ) → List A → Type κ
  All P [] = Unit
  All P (x ∷ xs) = P x × All P xs

pub length-map {ℓ κ} :
    {A : Type ℓ} {B : Type κ} (f : A → B) (xs : List A) → length (map f xs) ≡ length xs
length-map f [] = refl
length-map f (x ∷ xs) = ap suc (length-map f xs)

module _ {ℓ κ} {A : Type ℓ} (P : A → Type κ) where
  pub All-append : (xs ys : List A) → All P xs → All P ys → All P (xs ++ ys)
  All-append [] ys h k = k
  All-append (x ∷ xs) ys h k = (h.0, All-append xs ys h.1 k)

  pub All-first : (xs ys : List A) → All P (xs ++ ys) → All P xs
  All-first [] ys h = tt
  All-first (x ∷ xs) ys h = (h.0, All-first xs ys h.1)

  pub All-last : (xs ys : List A) → All P (xs ++ ys) → All P ys
  All-last [] ys h = h
  All-last (x ∷ xs) ys h = All-last xs ys h.1

  All-keep :
      (b : Bool) (x : A) (rest : List A)
      → (b ≡ true → P x)
      → All P rest
      → All P (if b then x ∷ rest else rest)
  All-keep true x rest h k = (h refl, k)
  All-keep false x rest h k = k

  pub All-select : (p : A → Bool) (xs : List A) → All P xs → All P (select p xs)
  All-select p [] h = tt
  All-select p (x ∷ xs) h = All-keep (p x) x (select p xs) (λ _. h.0) (All-select p xs h.1)

-- What passes the test, of elements with `P`, has the property that both give it.
pub All-select_test {ℓ κ μ} :
    {A : Type ℓ} (P : A → Type κ) (Q : A → Type μ) (p : A → Bool) (xs : List A)
    → ((x : A) → P x → p x ≡ true → Q x)
    → All P xs
    → All Q (select p xs)
All-select_test P Q p [] h k = tt
All-select_test P Q p (x ∷ xs) h k =
    All-keep Q (p x) x (select p xs) (h x k.0) (All-select_test P Q p xs h k.1)

pub All-map {ℓ κ μ} :
    {A : Type ℓ} {B : Type κ} (P : B → Type μ) (f : A → B) (xs : List A)
    → All (λ x. P (f x)) xs
    → All P (map f xs)
All-map P f [] h = tt
All-map P f (x ∷ xs) h = (h.0, All-map P f xs h.1)

pub All-weaken {ℓ κ μ} :
    {A : Type ℓ} (P : A → Type κ) (Q : A → Type μ) (xs : List A)
    → ((x : A) → P x → Q x)
    → All P xs
    → All Q xs
All-weaken P Q [] w h = tt
All-weaken P Q (x ∷ xs) w h = (w x h.0, All-weaken P Q xs w h.1)

-- A second, stronger test makes the first one needless.
pub select-select {ℓ} :
    {A : Type ℓ} (p q : A → Bool) (xs : List A)
    → ((x : A) → p x ≡ true → q x ≡ true)
    → select p (select q xs) ≡ select p xs
select-select p q [] h = refl
select-select p q (x ∷ xs) h = elim (Bool-cases (p x)) [
  | inl e ↦ rw (h x e) (rw e (ap (λ r. x ∷ r) (select-select p q xs h)))
  | inr e ↦ elim (Bool-cases (q x)) [
    | inl d ↦ rw d (rw e (select-select p q xs h))
    | inr d ↦ rw d (rw e (select-select p q xs h))
  ]
]

module _ {ℓ} {A : Type ℓ} where
  -- `any(p(x) for x in xs)`
  abbrev pub any : (A → Bool) → List A → Bool
  any p [] = false
  any p (x ∷ xs) = p x || any p xs

  pub any-ext : (p q : A → Bool) (xs : List A) → ((x : A) → p x ≡ q x) → any p xs ≡ any q xs
  any-ext p q [] h = refl
  any-ext p q (x ∷ xs) h = ap₂ (λ a b. a || b) (h x) (any-ext p q xs h)

  pub any-or : (p q : A → Bool) (xs : List A) → any (λ x. p x || q x) xs ≡ (any p xs || any q xs)
  any-or p q [] = refl
  any-or p q (x ∷ xs) = rw (any-or p q xs) (or_middle (p x) (q x) (any p xs) (any q xs))
    where
      or_middle : (a b c d : Bool) → ((a || b) || (c || d)) ≡ ((a || c) || (b || d))
      or_middle a b c d = ground arith

  pub any-and : (k : Bool) (p : A → Bool) (xs : List A) → any (λ x. k && p x) xs ≡ (k && any p xs)
  any-and true p xs = any-ext (λ x. true && p x) p xs (λ x. refl)
  any-and false p [] = refl
  any-and false p (x ∷ xs) = any-and false p xs

  pub any-none : (p : A → Bool) (xs : List A) → All (λ x. p x ≡ false) xs → any p xs ≡ false
  any-none p [] h = refl
  any-none p (x ∷ xs) h = rw (h.0, any-none p xs h.1) refl

pub append-cons-not_nil {ℓ} : {A : Type ℓ} (xs : List A) (x : A) → ¬ (xs ++ x ∷ [] ≡ [])
append-cons-not_nil [] x h = cc
append-cons-not_nil (y ∷ ys) x h = cc
