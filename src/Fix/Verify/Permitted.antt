-- ===== src/Fix/Verify/Permitted.antt =====
-- What `verify_apply` lets a fix change of each service, said of the findings and the fixers alone.
use compose_lint.Prelude.{
  All, All-weaken, Bool, Bool-cases, List, Option, Option-cases, String, [], any, ap, arith, eq_iff,
  false, inl, inr, is_some, none, or_else, refl, some, str_eq, sym, true, ◌&&◌, ◌++◌, ◌||◌, ◌↔◌,
  ◌∙◌, ◌∷◌, ◌≡◌, ◌⊎◌,
}
use compose_lint.Text.{mem_text}
use compose_lint.Dict.{Dict, has_key, lookup, put}
use compose_lint.Value.{Value, as_dict, get}
use compose_lint.Models.{Finding}
use compose_lint.Merge.Equal.{value_eq}
use compose_lint.Dict.Laws.{lookup-put}
use compose_lint.Fix.{Fixer}
use compose_lint.Fix.Collect.{fixer_of}
use compose_lint.Fix.Drift.{
  chain_fuel, inherit, inherited_claims, parents, services_in, top_level, with_inherited_claims,
}
use compose_lint.Fix.Drift.Inherited.{
  BaseOf, claims, inherited_claims-none, inherited_iff, lookup-inherited_claims, mem_text-append,
}
use compose_lint.Fix.Drift.Preserved.{KeptAs, KeptKeys, Preserves}
use compose_lint.Fix.Verify.{claims_of}

-- The keys that the fixer of a finding's rule writes.
abbrev pub writes_for : List Fixer → Finding → List String
writes_for fixers f = elim (fixer_of f.rule_id fixers) [ none ↦ [] | some r ↦ r.writes ]

-- A finding of the service was fixed.
abbrev pub is_fixed : List Finding → String → Bool
is_fixed fixed name = any (λ f. str_eq f.service name) fixed

-- The fixer of a fixed finding of the service writes the key.
abbrev pub is_written : List Fixer → List Finding → String → String → Bool
is_written fixers fixed name key =
    any (λ f. str_eq f.service name && mem_text key (writes_for fixers f)) fixed

-- The key may change on a fixed service: it is written there, or on a service that it inherits.
abbrev pub MayChange : List Fixer → List Finding → Dict Value → String → String → Type 0
MayChange fixers fixed services name key =
    (is_written fixers fixed name key ≡ true)
    ⊎ ((base : String) × BaseOf (parents services) (lookup name (parents services)) base
        × (is_written fixers fixed base key ≡ true))

-- A service without a fixed finding is as it was; another keeps the keys that may not change, where
-- it is a mapping before and after.
abbrev pub Unchanged : (String → Type 0) → Option (Dict Value) → Option (Dict Value) → Type 0
Unchanged may (some config) (some after) =
    (key : String) → ¬ may key → value_eq (get key config) (get key after) ≡ true
Unchanged may _ _ = Unit

abbrev pub Spared : Bool → (String → Type 0) → Value → Value → Type 0
Spared false may config after = value_eq config after ≡ true
Spared true may config after = Unchanged may (as_dict config) (as_dict after)

-- The patched document has the same configuration outside the services, and the same services, each
-- of them spared.
pub record Permitted (fixers : List Fixer) (fixed : List Finding) (original patched : Dict Value)
    : Type 0 where
  pub top : value_eq (top_level original) (top_level patched) ≡ true
  pub names :
      (name : String) → has_key name (services_in original) ≡ has_key name (services_in patched)
  pub spared :
      All
        (λ s.
          Spared
            (is_fixed fixed s.0)
            (MayChange fixers fixed (services_in original) s.0)
            s.1
            (get s.0 (services_in patched)))
        (services_in original)

Unchanged-KeptKeys :
    (claimed : List String) (may : String → Type 0)
    → ((key : String) → (mem_text key claimed ≡ true) ↔ may key)
    → (c a : Option (Dict Value)) → KeptKeys claimed c a ↔ Unchanged may c a
Unchanged-KeptKeys claimed may iff none a = ((λ h. tt), (λ h. tt))
Unchanged-KeptKeys claimed may iff (some c) none = ((λ h. tt), (λ h. tt))
Unchanged-KeptKeys claimed may iff (some c) (some a) = (
  λ h key no. elim (Bool-cases (mem_text key claimed)) [
    | inl e ↦ absurd (no ((iff key).0 e))
    | inr e ↦ h key e
  ],
  λ h key e. h key λ m. (let yes = (iff key).1 m in cc),
)

module _ (fixers : List Fixer) where
  claims_of-is_some :
      (fixed : List Finding) (claimed : Dict (List String)) (name : String)
      → is_some (lookup name (claims_of fixers fixed claimed))
        ≡ (is_some (lookup name claimed) || is_fixed fixed name)
  unfolding claims_of
  claims_of-is_some [] claimed name = ground arith
  claims_of-is_some (f ∷ fs) claimed name =
      let new = or_else (lookup f.service claimed) [] ++ writes_for fixers f in
      claims_of-is_some fs (put f.service new claimed) name
      ∙ ground (arith, lookup-put f.service name new claimed)

  claims_of-claims :
      (fixed : List Finding) (claimed : Dict (List String)) (name key : String)
      → claims (claims_of fixers fixed claimed) key name
        ≡ (claims claimed key name || is_written fixers fixed name key)
  unfolding claims_of
  claims_of-claims [] claimed name key = ground arith
  claims_of-claims (f ∷ fs) claimed name key =
      let new = or_else (lookup f.service claimed) [] ++ writes_for fixers f in
      let split =
        mem_text-append key (or_else (lookup f.service claimed) []) (writes_for fixers f) in
      claims_of-claims fs (put f.service new claimed) name key
      ∙ elim (Bool-cases (str_eq f.service name)) [
        | inl e ↦
            rw (lookup-put f.service name new claimed, e)
              (ground (arith, split, (eq_iff f.service name).0 e))
        | inr e ↦ rw (lookup-put f.service name new claimed, e) refl
      ]

  -- The claims with what is inherited, of a service that has some.
  MayChange-iff :
      (fixed : List Finding) (services : Dict Value) (name key : String) (keys : List String)
      → lookup name (claims_of fixers fixed []) ≡ some keys
      → (mem_text key (
            inherit
              (chain_fuel (parents services))
              (parents services)
              (claims_of fixers fixed [])
              (name ∷ [])
              (lookup name (parents services))
              keys)
          ≡ true)
        ↔ MayChange fixers fixed services name key
  unfolding lookup mem_text
  MayChange-iff fixed services name key keys own =
      let parent = parents services in
      let base = inherited_iff parent (claims_of fixers fixed []) key name keys own in
      let at = λ (n : String). claims_of-claims fixed [] n key in
      (
        λ h. elim (base.0 h) [
          | inl m ↦ inl (sym (at name) ∙ m)
          | inr (u, b, m) ↦ inr (u, b, sym (at u) ∙ m)
        ],
        λ h. base.1 (elim h [ inl m ↦ inl (at name ∙ m) | inr (u, b, m) ↦ inr (u, b, at u ∙ m) ]),
      )

  Spared-KeptAs :
      (fixed : List Finding) (services : Dict Value) (name : String) (config after : Value)
      → KeptAs
          (lookup name (
            inherited_claims
              (parents services)
              (claims_of fixers fixed [])
              (claims_of fixers fixed [])))
          config
          after
        ↔ Spared (is_fixed fixed name) (MayChange fixers fixed services name) config after
  unfolding lookup
  Spared-KeptAs fixed services name config after =
      let claimed = claims_of fixers fixed [] in
      let known = claims_of-is_some fixed [] name in
      elim (Option-cases (lookup name claimed)) [
        | inl n ↦
            let off : is_fixed fixed name ≡ false = sym known ∙ ap is_some n in
            rw (inherited_claims-none (parents services) claimed claimed name n, off)
              ((λ h. h), (λ h. h))
        | inr (keys, e) ↦
            let on : is_fixed fixed name ≡ true = sym known ∙ ap is_some e in
            rw (lookup-inherited_claims (parents services) claimed claimed name keys e, on)
              (Unchanged-KeptKeys
                (inherit (chain_fuel (parents services)) (parents services) claimed (name ∷ [])
                  (lookup name (parents services)) keys)
                (MayChange fixers fixed services name)
                (λ key. MayChange-iff fixed services name key keys e) (as_dict config)
                (as_dict after))
      ]

  kept-Spared :
      (fixed : List Finding) (original after : Dict Value)
      → All
          (λ s.
            KeptAs
              (lookup s.0 (with_inherited_claims original (claims_of fixers fixed [])))
              s.1
              (get s.0 after))
          (services_in original)
        ↔ All
            (λ s.
              Spared
                (is_fixed fixed s.0)
                (MayChange fixers fixed (services_in original) s.0)
                s.1
                (get s.0 after))
            (services_in original)
  unfolding with_inherited_claims services_in
  kept-Spared fixed original after = elim (Option-cases (as_dict (get "services" original))) [
    | inl n ↦ rw (services_in, n) ((λ h. h), (λ h. h))
    | inr (services, e) ↦
        let claimed = claims_of fixers fixed [] in
        let Kept = λ (s : String × Value).
          KeptAs (lookup s.0 (inherited_claims (parents services) claimed claimed)) s.1
            (get s.0 after) in
        let Sparing = λ (s : String × Value).
          Spared (is_fixed fixed s.0) (MayChange fixers fixed services s.0) s.1 (get s.0 after) in
        rw (with_inherited_claims, services_in, e)
          (
            All-weaken Kept Sparing services
                (λ s. (Spared-KeptAs fixed services s.0 s.1 (get s.0 after)).0),
            All-weaken Sparing Kept services
                (λ s. (Spared-KeptAs fixed services s.0 s.1 (get s.0 after)).1),
          )
  ]

  -- The claims of a run say what may change.
  pub Preserves-Permitted :
      (fixed : List Finding) (original patched : Dict Value)
      → Preserves original patched (with_inherited_claims original (claims_of fixers fixed []))
        ↔ Permitted fixers fixed original patched
  Preserves-Permitted fixed original patched =
      let same = kept-Spared fixed original (services_in patched) in
      (
        λ p. record { top = p.top; names = p.names; spared = same.0 p.kept },
        λ p. record { top = p.top; names = p.names; kept = same.1 p.spared },
      )
