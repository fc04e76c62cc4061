-- ===== src/Extends/Chain.antt =====
-- What a service inherits, read down its chain of bases; a circle has no such value.
use compose_lint.Prelude.{
  Bool-cases, List, Option, Option-cases, String, [], ap, arith, eq_iff, false, if◌then◌else◌, inl,
  inr, none, refl, some, str_eq, suc, sym, true, zero, ℕ, ◌<◌, ◌||◌, ◌∙◌, ◌∷◌, ◌≡◌, ◌≤◌, ◌⊎◌,
}
use compose_lint.Value.{Value, get}
use compose_lint.Extends.{Family, Plea, follows, is_mapping, merge_extended, missing, plea, stays}
use compose_lint.Text.{mem_text}

-- The base's value, merged under the service's own.
unfoldable pub merged_from : Family → String → String → Value → Option Value → Option Value
merged_from family target name config none = none
merged_from family target name config (some v) = some (merge_extended family target name v config)

-- One service, given the value of its base.
unfoldable pub link : Family → String → Value → Plea → (String → Option Value) → Option Value
unfolding is_mapping get merged_from
link family name config stays go = some config
link family name config (missing _) go = some config
link family name config (follows target) go =
    if is_mapping (get target family.services)
    then merged_from family target name config (go target)
    else some config

-- The value at the end of at most so many steps.
unfoldable pub chain : ℕ → Family → String → Option Value
unfolding link plea get
chain zero family name = none
chain (suc n) family name =
    let config = get name family.services in
    link family name config (plea family name config) λ target. chain n family target

-- A base of a service, whose value it merges.
unfoldable pub Base : Family → String → String → Type 0
unfolding plea is_mapping get
Base family name target =
    (plea family name (get name family.services) ≡ follows target)
    × (is_mapping (get target family.services) ≡ true)

pub chain-Base :
    (family : Family) (name target : String) (k : ℕ)
    → Base family name target
    → chain (suc k) family name
      ≡ merged_from family target name (get name family.services) (chain k family target)
unfolding chain Base link
chain-Base family name target k (p, m) = rw p (rw m refl)

-- A service that keeps its own config asks for nothing that can be merged.
unfoldable pub Keeps : Family → Plea → Type 0
unfolding is_mapping get
Keeps family p =
    (p ≡ stays)
    ⊎ ((t : String) × (p ≡ missing t))
    ⊎ ((t : String) × (p ≡ follows t) × (is_mapping (get t family.services) ≡ false))

pub chain-own :
    (family : Family) (name : String) (p : Plea)
    → plea family name (get name family.services) ≡ p
    → Keeps family p
    → (n : ℕ) → chain (suc n) family name ≡ some (get name family.services)
unfolding chain link Keeps
chain-own family name p e (inl q) n = rw (e, q) refl
chain-own family name p e (inr (inl (t, q))) n = rw (e, q) refl
chain-own family name p e (inr (inr (t, q, m))) n = rw (e, q, m) refl

-- A service with a value has a base whose chain is shorter by one.
pub chain-shorter :
    (family : Family) (name target : String) (k : ℕ) (v : Value)
    → Base family name target
    → chain (suc k) family name ≡ some v
    → (u : Value) × (chain k family target ≡ some u)
      × (v ≡ merge_extended family target name u (get name family.services))
unfolding merged_from
chain-shorter family name target k v b h =
    let step = chain-Base family name target k b in
    let config = get name family.services in
    elim (Option-cases (chain k family target)) [
      | inl n ↦ absurd (cc)
      | inr (u, e) ↦
          let known : some v
              ≡ some (merge_extended family target name u (get name family.services)) =
            sym h ∙ step ∙ ap (merged_from family target name config) e in
          (u, e, cc)
    ]

pub chain-zero : (family : Family) (name : String) (v : Value) → ¬ (chain zero family name ≡ some v)
unfolding chain
chain-zero family name v h = cc

-- On a path: each service of the stack reaches the service, in fewer steps.
unfoldable pub OnPath : Family → List String → String → Type 0
OnPath family stack name =
    (t : String) (k : ℕ) (v : Value)
    → mem_text t stack ≡ true
    → chain k family t ≡ some v
    → (j : ℕ) × (u : Value) × (j < k) × (chain j family name ≡ some u)

pub OnPath-nil : (family : Family) (name : String) → OnPath family [] name
unfolding OnPath mem_text
OnPath-nil family name t k v m h = absurd (cc)

module _ (family : Family) (name target : String) (base : Base family name target) where
  shorter :
      (k : ℕ) (v : Value)
      → chain k family name ≡ some v
      → (j : ℕ) × (u : Value) × (j < k) × (chain j family target ≡ some u)
  shorter zero v h = absurd (chain-zero family name v h)
  shorter (suc k) v h =
      let (u, e, _) = chain-shorter family name target k v base h in (k, u, omega arith, e)

  pub OnPath-cons :
      (stack : List String) → OnPath family stack name → OnPath family (name ∷ stack) target
  unfolding OnPath mem_text
  OnPath-cons stack on t k v m h = elim (Bool-cases (str_eq t name)) [
    | inl e ↦ shorter k v (sym (ap (λ n. chain k family n) ((eq_iff t name).0 e)) ∙ h)
    | inr e ↦
        let (j, u, l, g) = on t k v (ground arith) h in
        let (i, w, l', g') = shorter j u g in (i, w, omega arith, g')
  ]

  -- A base that the path has met closes a circle: no service of it has a value.
  pub circle-none :
      (stack : List String)
      → OnPath family stack name
      → (str_eq target name || mem_text target stack) ≡ true
      → (n k : ℕ) (v : Value) → k ≤ n
      → ¬ (chain k family name ≡ some v)
  unfolding OnPath
  circle-none stack on c zero k v l h = let (j, u, less, g) = shorter k v h in absurd (omega arith)
  circle-none stack on c (suc n) k v l h =
      let (j, u, less, g) = shorter k v h in
      elim (Bool-cases (str_eq target name)) [
        | inl e ↦
            circle-none stack on c n j u (omega arith)
              (sym (ap (λ t. chain j family t) ((eq_iff target name).0 e)) ∙ g)
        | inr e ↦
            let (i, w, less', g') = on target j u (ground arith) g in
            circle-none stack on c n i w (omega arith) g'
      ]
