-- ===== src/Fix/Drift/Claims.antt =====
-- The fuel of the loop of `_with_inherited_claims` is enough.
use compose_lint.Prelude.{
  Bool-cases, List, Option, Option-cases, String, [], arith, inl, inr, none, or_else, refl, some,
  suc, sym, zero, ℕ, ◌++◌, ◌+◌, ◌<◌, ◌∙◌, ◌∷◌, ◌≡◌,
}
use compose_lint.Text.{mem_text}
use compose_lint.Dict.{Dict, lookup}
use compose_lint.Dict.Unseen.{unseen, unseen-cons-lt, unseen-le-length}
use compose_lint.Fix.Drift.{chain_fuel, inherit}

module _ (parent : Dict String) (claimed : Dict (List String)) where
  inherit-none :
      (f : ℕ) (seen result : List String) → inherit f parent claimed seen none result ≡ result
  unfolding inherit
  inherit-none zero seen result = refl
  inherit-none (suc f) seen result = refl

  -- With more fuel than services left to meet, the fuel does not matter.
  inherit-any :
      (f g : ℕ) (seen : List String) (target : Option String) (result : List String)
      → unseen seen parent < f
      → unseen seen parent < g
      → inherit f parent claimed seen target result ≡ inherit g parent claimed seen target result
  unfolding inherit
  inherit-any zero g seen target result h k = absurd (omega arith)
  inherit-any (suc f) zero seen target result h k = absurd (omega arith)
  inherit-any (suc f) (suc g) seen none result h k = refl
  inherit-any (suc f) (suc g) seen (some t) result h k = elim (Bool-cases (mem_text t seen)) [
    | inl e ↦ rw e refl
    | inr e ↦
        let more = result ++ or_else (lookup t claimed) [] in
        rw e (elim (Option-cases (lookup t parent)) [
          | inl n ↦ rw n (inherit-none f (t ∷ seen) more ∙ sym (inherit-none g (t ∷ seen) more))
          | inr (u, s) ↦
              inherit-any f g (t ∷ seen) (lookup t parent) more
                (omega (arith, unseen-cons-lt t u seen parent s e))
                (omega (arith, unseen-cons-lt t u seen parent s e))
        ])
  ]

  -- The chain of a service's bases is followed to its end or to a service that it has met: with
  -- more fuel than one for each service with a base, and two more, the claims are the same, also
  -- where the services extend each other in a circle.
  pub inherit-stable :
      (more : ℕ) (name : String) (keys : List String)
      → inherit (chain_fuel parent + more) parent claimed (name ∷ []) (lookup name parent) keys
        ≡ inherit (chain_fuel parent) parent claimed (name ∷ []) (lookup name parent) keys
  inherit-stable more name keys =
      let bound = unseen-le-length (name ∷ []) parent in
      inherit-any (chain_fuel parent + more) (chain_fuel parent) (name ∷ []) (lookup name parent)
        keys (omega arith) (omega arith)
