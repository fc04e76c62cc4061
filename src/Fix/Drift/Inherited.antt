-- ===== src/Fix/Drift/Inherited.antt =====
-- Which keys a fixed service inherits in `_with_inherited_claims`: those claimed on all its bases.
use compose_lint.Prelude.{
  Bool, Bool-cases, List, Option, String, [], ap₂, arith, eq_iff, eq_refl, inl, inr, none, or_else,
  refl, some, str_eq, subst, suc, sym, true, zero, ℕ, ◌++◌, ◌<◌, ◌||◌, ◌↔◌, ◌∙◌, ◌∷◌, ◌≡◌, ◌⊎◌,
}
use compose_lint.Text.{mem_text}
use compose_lint.Dict.{Dict, lookup}
use compose_lint.Dict.Unseen.{unseen, unseen-cons-lt, unseen-le-length}
use compose_lint.Fix.Drift.{chain_fuel, inherit, inherited_claims}

pub mem_text-append :
    (k : String) (a b : List String) → mem_text k (a ++ b) ≡ (mem_text k a || mem_text k b)
unfolding mem_text
mem_text-append k [] b = refl
mem_text-append k (x ∷ a) b = ground (arith, mem_text-append k a b)

-- A service that is met on the way up from a target, which may be missing.
pub data BaseOf (parent : Dict String) : Option String → String → Type 0 where
  here : (t : String) → BaseOf parent (some t) t
  up : (t u : String) → BaseOf parent (lookup t parent) u → BaseOf parent (some t) u

-- The key is claimed on the service.
abbrev pub claims : Dict (List String) → String → String → Bool
claims claimed key name = mem_text key (or_else (lookup name claimed) [])

module _ (parent : Dict String) (claimed : Dict (List String)) (key : String) where
  -- Some base of the target claims the key.
  abbrev pub Inherits : Option String → Type 0
  Inherits target = (u : String) × BaseOf parent target u × (claims claimed key u ≡ true)

  inherit_sound :
      (f : ℕ) (seen : List String) (target : Option String) (result : List String)
      → mem_text key (inherit f parent claimed seen target result) ≡ true
      → (mem_text key result ≡ true) ⊎ Inherits target
  unfolding inherit
  inherit_sound zero seen target result h = inl h
  inherit_sound (suc f) seen none result h = inl h
  inherit_sound (suc f) seen (some t) result h = elim (Bool-cases (mem_text t seen)) [
    | inl e ↦ inl (ground arith)
    | inr e ↦
        let more = result ++ or_else (lookup t claimed) [] in
        let deeper : mem_text key (inherit f parent claimed (t ∷ seen) (lookup t parent) more)
            ≡ true =
          ground arith in
        elim (inherit_sound f (t ∷ seen) (lookup t parent) more deeper) [
          | inr (u, b, c) ↦ inr (u, up t u b, c)
          | inl m ↦ elim (Bool-cases (mem_text key result)) [
            | inl r ↦ inl r
            | inr r ↦ inr (
              t,
              here t,
              ground (arith, mem_text-append key result (or_else (lookup t claimed) [])),
            )
          ]
        ]
  ]

  inherit-keeps :
      (f : ℕ) (seen : List String) (target : Option String) (result : List String)
      → mem_text key result ≡ true
      → mem_text key (inherit f parent claimed seen target result) ≡ true
  unfolding inherit
  inherit-keeps zero seen target result h = h
  inherit-keeps (suc f) seen none result h = h
  inherit-keeps (suc f) seen (some t) result h =
      let more = result ++ or_else (lookup t claimed) [] in
      ground (
        arith,
        mem_text-append key result (or_else (lookup t claimed) []),
        inherit-keeps f (t ∷ seen) (lookup t parent) more,
      )

  -- What a service that the chain has met claims is in the result.
  abbrev Gathered : List String → List String → Type 0
  Gathered seen result =
      (s : String)
      → mem_text s seen ≡ true
      → claims claimed key s ≡ true
      → mem_text key result ≡ true

  -- The base of a service that the chain has met is one, or is next.
  abbrev Closed : List String → Option String → Type 0
  Closed seen target =
      (s u : String)
      → mem_text s seen ≡ true
      → lookup s parent ≡ some u
      → (mem_text u seen ≡ true) ⊎ (target ≡ some u)

  BaseOf-met :
      (seen : List String)
      → ((s u : String)
          → mem_text s seen ≡ true
          → lookup s parent ≡ some u
          → mem_text u seen ≡ true)
      → (o : Option String) (u : String) → ((t : String) → o ≡ some t → mem_text t seen ≡ true)
      → BaseOf parent o u
      → mem_text u seen ≡ true
  BaseOf-met seen closed _ _ h (here t) = h t refl
  BaseOf-met seen closed _ _ h (up t u b) =
      BaseOf-met seen closed (lookup t parent) u (λ v e. closed t v (h t refl) e) b

  BaseOf-some : (o : Option String) (u : String) → BaseOf parent o u → (t : String) × (o ≡ some t)
  BaseOf-some _ _ (here t) = (t, refl)
  BaseOf-some _ _ (up t u b) = (t, refl)

  BaseOf-of :
      (o : Option String) (u t : String)
      → o ≡ some t
      → BaseOf parent o u
      → (t ≡ u) ⊎ BaseOf parent (lookup t parent) u
  BaseOf-of _ _ t e (here v) = inl (cc)
  BaseOf-of _ _ t e (up v u b) =
      let v_eq : v ≡ t = cc in inr (subst (λ n. BaseOf parent (lookup n parent) u) v_eq b)

  BaseOf-next :
      (t u : String) → BaseOf parent (some t) u → (t ≡ u) ⊎ BaseOf parent (lookup t parent) u
  BaseOf-next t u b = BaseOf-of (some t) u t refl b

  -- What the service that is met next adds.
  Gathered-cons :
      (t : String) (seen result : List String)
      → Gathered seen result
      → Gathered (t ∷ seen) (result ++ or_else (lookup t claimed) [])
  unfolding mem_text
  Gathered-cons t seen result g s m h =
      let split = mem_text-append key result (or_else (lookup t claimed) []) in
      elim (Bool-cases (str_eq s t)) [
        | inl e ↦
            let own : claims claimed key t ≡ true =
              subst (λ n. claims claimed key n ≡ true) ((eq_iff s t).0 e) h in
            ground (arith, split)
        | inr e ↦ let known = g s (ground arith) h in ground (arith, split)
      ]

  Closed-cons :
      (t : String) (seen : List String) → Closed seen (some t) → Closed (t ∷ seen) (lookup t parent)
  unfolding mem_text
  Closed-cons t seen c s u m e = elim (Bool-cases (str_eq s t)) [
    | inl same ↦ inr (subst (λ n. lookup n parent ≡ some u) ((eq_iff s t).0 same) e)
    | inr other ↦ elim (c s u (ground arith) e) [
      | inl met ↦ inl (ground arith)
      | inr next ↦ let t_eq : t ≡ u = cc in inl (rw (← t_eq) (ground (arith, eq_refl t)))
    ]
  ]

  inherit_complete :
      (f : ℕ) (seen : List String) (target : Option String) (result : List String) (u : String)
      → unseen seen parent < f
      → Gathered seen result
      → Closed seen target
      → BaseOf parent target u
      → claims claimed key u ≡ true
      → mem_text key (inherit f parent claimed seen target result) ≡ true
  unfolding inherit mem_text
  inherit_complete zero seen target result u l g c b h = absurd (omega arith)
  inherit_complete (suc f) seen none result u l g c b h =
      let (t, e) = BaseOf-some none u b in absurd (cc)
  inherit_complete (suc f) seen (some t) result u l g c b h = elim (Bool-cases (mem_text t seen)) [
    | inl e ↦
        let closed : (s v : String)
            → mem_text s seen ≡ true
            → lookup s parent ≡ some v
            → mem_text v seen ≡ true =
          λ s v m p. elim (c s v m p) [
            | inl met ↦ met
            | inr next ↦ let t_eq : t ≡ v = cc in subst (λ n. mem_text n seen ≡ true) t_eq e
          ] in
        rw e (
          g u
            (BaseOf-met seen closed (some t) u
              (λ v p. let t_eq : t ≡ v = cc in subst (λ n. mem_text n seen ≡ true) t_eq e) b)
            h)
    | inr e ↦
        let more = result ++ or_else (lookup t claimed) [] in
        rw e (elim (BaseOf-next t u b) [
          | inl same ↦ inherit-keeps f (t ∷ seen) (lookup t parent) more (
              Gathered-cons t seen result g t (ground (arith, eq_refl t))
                (subst (λ n. claims claimed key n ≡ true) (sym same) h))
          | inr further ↦
              let (v, p) = BaseOf-some (lookup t parent) u further in
              let less = unseen-cons-lt t v seen parent p e in
              inherit_complete f (t ∷ seen) (lookup t parent) more u (omega (arith, less))
                (Gathered-cons t seen result g) (Closed-cons t seen c) further h
        ])
  ]

-- The key is among those of a fixed service with what it inherits exactly where the service claims
-- it or one of its bases does; so the loop over the bases misses none, also on a circle.
pub inherited_iff :
    (parent : Dict String) (claimed : Dict (List String)) (key name : String) (keys : List String)
    → lookup name claimed ≡ some keys
    → (mem_text key
          (inherit (chain_fuel parent) parent claimed (name ∷ []) (lookup name parent) keys)
        ≡ true)
      ↔ ((claims claimed key name ≡ true) ⊎ Inherits parent claimed key (lookup name parent))
unfolding mem_text
inherited_iff parent claimed key name keys own =
    let bound = unseen-le-length (name ∷ []) parent in
    let same : mem_text key keys ≡ claims claimed key name = rw own refl in
    (
      λ h.
          elim (inherit_sound parent claimed key (chain_fuel parent) (name ∷ [])
            (lookup name parent) keys h) [ inl m ↦ inl (sym same ∙ m) | inr b ↦ inr b ],
      λ h. elim h [
        | inl m ↦
            inherit-keeps parent claimed key (chain_fuel parent) (name ∷ []) (lookup name parent)
              keys (same ∙ m)
        | inr (u, b, c) ↦
            inherit_complete parent claimed key (chain_fuel parent) (name ∷ []) (lookup name parent)
              keys u (omega arith)
              (λ s m k.
                same
                ∙ subst (λ n. claims claimed key n ≡ true) ((eq_iff s name).0 (ground arith)) k)
              (λ s v m e.
                inr (subst (λ n. lookup n parent ≡ some v) ((eq_iff s name).0 (ground arith)) e))
              b c
      ],
    )

pub lookup-inherited_claims :
    (parent : Dict String) (claimed d : Dict (List String)) (name : String) (keys : List String)
    → lookup name d ≡ some keys
    → lookup name (inherited_claims parent claimed d)
      ≡ some (inherit (chain_fuel parent) parent claimed (name ∷ []) (lookup name parent) keys)
unfolding inherited_claims lookup
lookup-inherited_claims parent claimed [] name keys h = absurd (cc)
lookup-inherited_claims parent claimed ((k, ks) ∷ d) name keys h =
    elim (Bool-cases (str_eq k name)) [
      | inl e ↦
          let ks_eq : ks ≡ keys = ground (arith) in
          rw e (
            ap₂
              (λ n l.
                some (inherit (chain_fuel parent) parent claimed (n ∷ []) (lookup n parent) l))
              ((eq_iff k name).0 e) ks_eq)
      | inr e ↦ rw e (lookup-inherited_claims parent claimed d name keys (ground arith))
    ]

pub inherited_claims-none :
    (parent : Dict String) (claimed d : Dict (List String)) (name : String)
    → lookup name d ≡ none
    → lookup name (inherited_claims parent claimed d) ≡ none
unfolding inherited_claims lookup
inherited_claims-none parent claimed [] name h = refl
inherited_claims-none parent claimed ((k, ks) ∷ d) name h =
    ground (arith, inherited_claims-none parent claimed d name)
