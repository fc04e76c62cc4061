-- ===== src/Extends/Resolved.antt =====
-- What `_resolve` gives a service is the value of its chain of bases.
use compose_lint.Prelude.{Option-cases, String, arith, inl, inr, some, ℕ, ◌≡◌}
use compose_lint.Dict.{lookup}
use compose_lint.Value.{Value, get, get_default}
use compose_lint.Extends.{Family, Resolving, is_mapping}
use compose_lint.Extends.Chain.{Base, chain}

module _ (family : Family) where
  -- Each service that is resolved has the value of its chain, where the chain ends.
  unfoldable pub Agrees : Resolving → Type 0
  unfolding lookup
  Agrees s =
      (t : String) (w : Value) (k : ℕ) (v : Value)
      → lookup t s.resolved ≡ some w
      → chain k family t ≡ some v
      → w ≡ v

  -- A value that is the chain's, where the chain ends.
  unfoldable pub Valued : String → Value → Type 0
  Valued name w = (k : ℕ) (v : Value) → chain k family name ≡ some v → w ≡ v

  unfoldable pub Right : String → Value × Resolving → Type 0
  unfolding Agrees Valued
  Right name (v, s) = Agrees s × Valued name v

  -- A base is a service.
  pub Base-found :
      (name target : String)
      → Base family name target
      → (v : Value) × (lookup target family.services ≡ some v)
  unfolding Base get get_default is_mapping
  Base-found name target (e, m) = elim (Option-cases (lookup target family.services)) [
    | inl n ↦ absurd (ground (arith))
    | inr p ↦ p
  ]
