-- ===== src/Dict/Unseen.antt =====
-- The keys that a walk along a dictionary has not met: the bound of a walk that never comes back.
use compose_lint.Prelude.{
  Bool-cases, List, String, [], ap, arith, eq_iff, false, if◌then◌else◌, inl, inr, length, some,
  str_eq, ℕ, ◌+◌, ◌<◌, ◌∙◌, ◌∷◌, ◌≡◌, ◌≤◌,
}
use compose_lint.Text.{mem_text}
use compose_lint.Dict.{Dict, lookup}

module _ {ℓ} {V : Type ℓ} where
  -- The keys that a walk has not met.
  unfoldable pub unseen : List String → Dict V → ℕ
  unfolding mem_text
  unseen seen [] = 0
  unseen seen ((k, v) ∷ d) = (if mem_text k seen then 0 else 1) + unseen seen d

  unseen-cons-le :
      (t : String) (seen : List String) (d : Dict V) → unseen (t ∷ seen) d ≤ unseen seen d
  unfolding unseen
  unseen-cons-le t seen [] = omega arith
  unseen-cons-le t seen ((k, v) ∷ d) = ground (arith, unseen-cons-le t seen d)

  pub unseen-cons-lt :
      (t : String) (u : V) (seen : List String) (d : Dict V)
      → lookup t d ≡ some u
      → mem_text t seen ≡ false
      → unseen (t ∷ seen) d < unseen seen d
  unfolding unseen lookup
  unseen-cons-lt t u seen [] h m = absurd (cc)
  unseen-cons-lt t u seen ((k, v) ∷ d) h m = elim (Bool-cases (str_eq k t)) [
    | inl e ↦
        let free : mem_text k seen ≡ false = ap (λ n. mem_text n seen) ((eq_iff k t).0 e) ∙ m in
        ground (arith, unseen-cons-le t seen d)
    | inr e ↦ ground (arith, unseen-cons-lt t u seen d)
  ]

  pub unseen-le-length : (seen : List String) (d : Dict V) → unseen seen d ≤ length d
  unfolding unseen
  unseen-le-length seen [] = omega arith
  unseen-le-length seen ((k, v) ∷ d) = ground (arith, unseen-le-length seen d)
