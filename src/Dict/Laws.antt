-- ===== src/Dict/Laws.antt =====
-- What a lookup finds after each write.
use compose_lint.Prelude.{
  Option-cases, String, [], arith, eq_iff, if◌then◌else◌, inl, inr, is_some, map, none, refl, some,
  str_eq, true, ◌∷◌, ◌≡◌,
}
use compose_lint.Text.{mem_text}
use compose_lint.Dict.{Dict, has_key, lookup, put, remove}

module _ {ℓ} {V : Type ℓ} where
  pub lookup-put :
      (k j : String) (v : V) (d : Dict V)
      → lookup j (put k v d) ≡ (if str_eq k j then some v else lookup j d)
  unfolding lookup put
  lookup-put k j v [] = refl
  lookup-put k j v ((i, w) ∷ d) =
      ground (arith, eq_iff k j, eq_iff i k, eq_iff i j, lookup-put k j v d)

  pub lookup-remove :
      (k j : String) (d : Dict V)
      → lookup j (remove k d) ≡ (if str_eq k j then none else lookup j d)
  unfolding lookup remove
  lookup-remove k j [] = ground arith
  lookup-remove k j ((i, w) ∷ d) =
      ground (arith, eq_iff k j, eq_iff i k, eq_iff i j, lookup-remove k j d)

  pub has_key-lookup : (k : String) (d : Dict V) → has_key k d ≡ is_some (lookup k d)
  unfolding lookup has_key
  has_key-lookup k [] = refl
  has_key-lookup k ((i, w) ∷ d) = ground (arith, has_key-lookup k d)

  pub mem_text-keys : (k : String) (d : Dict V) → mem_text k (map (λ e. e.0) d) ≡ has_key k d
  unfolding has_key mem_text
  mem_text-keys k [] = refl
  mem_text-keys k ((i, w) ∷ d) = ground (arith, eq_iff k i, eq_iff i k, mem_text-keys k d)

  -- A key that is there has a value.
  pub has_key-found :
      (k : String) (d : Dict V) → has_key k d ≡ true → (v : V) × (lookup k d ≡ some v)
  has_key-found k d h = elim (Option-cases (lookup k d)) [
    | inl n ↦ absurd (ground (arith, has_key-lookup k d))
    | inr p ↦ p
  ]
