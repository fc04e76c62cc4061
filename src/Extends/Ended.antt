-- ===== src/Extends/Ended.antt =====
-- What `_resolve` refuses nothing of ends: a circle is always refused.
use compose_lint.Prelude.{List, String, [], some, ℕ, ◌≡◌}
use compose_lint.Dict.{lookup}
use compose_lint.Value.{Value}
use compose_lint.Extends.{Family, Refusal, Resolving}
use compose_lint.Extends.Chain.{chain}

module _ (family : Family) where
  -- The chain of a service ends.
  unfoldable Ends : String → Type 0
  unfolding chain
  Ends name = (k : ℕ) × (v : Value) × (chain k family name ≡ some v)

  -- Where nothing is refused, what is resolved ends.
  unfoldable Before : Resolving → Type 0
  unfolding lookup
  Before s = s.refused ≡ [] → (t : String) (w : Value) → lookup t s.resolved ≡ some w → Ends t

  -- So does a further service, and nothing was refused at the start.
  unfoldable Ended : List Refusal → String → Resolving → Type 0
  unfolding Before
  Ended old name s = Before s × (s.refused ≡ [] → Ends name × (old ≡ []))
