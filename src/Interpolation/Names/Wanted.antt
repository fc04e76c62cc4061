-- ===== src/Interpolation/Names/Wanted.antt =====
-- The wanted-set filter: what a text resolves to depends on the names of `reference_names` alone.
use compose_lint.Prelude.{
  All, All-first, All-last, Bool-cases, Char, List, Option, String, [], ap, arith, code, false,
  if◌then◌else◌, inl, inr, ltb, none, not-ltb→le, refl, some, subst, suc, true, zero, ℕ, ◌++◌, ◌+◌,
  ◌-◌, ◌<◌, ◌==◌, ◌∷◌, ◌≡◌, ◌≤◌, ◌⊎◌,
}
use compose_lint.Text.{len, slice}
use compose_lint.Dict.{Dict, lookup}
use compose_lint.Interpolation.{
  Head, Turn, alternate_of, bare_dollar, bare_name, continues_name, default_of, escaped, in_braces,
  literal, matching_brace, max_scan_len, max_substituted_len, name_chars, ref_head, starts_name,
  supplied, supplied_by, turn,
}
use compose_lint.Interpolation.Names.{
  bare_names, braced_names, head_name, interior_names, names_at, names_from, names_in, names_turn,
  names_within, reference_names,
}
use compose_lint.Interpolation.Names.Lengths.{TextWithin, default_of-TextWithin, len-slice}
use compose_lint.Interpolation.Resolve.{
  and_rest, join_rest, max_levels, resolve_at, resolve_bare, resolve_braced, resolve_default,
  resolve_defaults, resolve_from, resolve_reference, resolve_turn, substitute_defaults,
}

-- No dollar among the first `n` characters.
abbrev Plain : ℕ → String → Type 0
Plain zero s = Unit
Plain (suc n) String.[] = Unit
Plain (suc n) (String.◌∷◌ c s) = ((code c == b'$') ≡ false) × Plain n s

no_dollar : (k : ℕ) → continues_name k ≡ true → (k == b'$') ≡ false
unfolding continues_name starts_name
no_dollar k h = ground arith

starts-continues : (k : ℕ) → starts_name k ≡ true → continues_name k ≡ true
unfolding continues_name
starts-continues k h = rw h refl

name_chars-Plain : (s : String) → Plain (len (name_chars s).0) s
unfolding name_chars
name_chars-Plain String.[] = tt
name_chars-Plain (String.◌∷◌ c s) = elim (Bool-cases (continues_name (code c))) [
  | inl e ↦ rw e (no_dollar (code c) e, name_chars-Plain s)
  | inr e ↦ rw e tt
]

abbrev NamePlain : String → Option (String × String) → Type 0
NamePlain s none = Unit
NamePlain s (some (name, rest)) = Plain (len name) s

bare_name-NamePlain : (s : String) → NamePlain s (bare_name s)
unfolding bare_name
bare_name-NamePlain String.[] = tt
bare_name-NamePlain (String.◌∷◌ c s) = elim (Bool-cases (starts_name (code c))) [
  | inl e ↦ rw e (no_dollar (code c) (starts-continues (code c) e), name_chars-Plain s)
  | inr e ↦ rw e tt
]

le-not_ltb : (a b : ℕ) → b ≤ a → ltb a b ≡ false
le-not_ltb a b h = ground arith

turn-literal : (c d : Char) → (code c == b'$') ≡ false → turn c d ≡ literal
unfolding turn
turn-literal c d h = rw h refl

turn-in_braces : (c d : Char) → turn c d ≡ in_braces → (code d == b'{') ≡ true
unfolding turn
turn-in_braces c d h = ground arith

module _ (inner : String → List String) (value : String) where
  names_at-plain :
      (i : ℕ) (c : Char) (s : String)
      → (code c == b'$') ≡ false
      → names_at inner value i c s ≡ ([], 0)
  unfolding names_at
  names_at-plain i c String.[] h = refl
  names_at-plain i c (String.◌∷◌ d s) h = rw (turn-literal c d h) refl

  -- Skipping characters that are no dollars changes no names.
  names_from-Plain :
      (n i : ℕ) (s : String)
      → Plain n s
      → names_from inner value n i s ≡ names_from inner value 0 i s
  unfolding names_from
  names_from-Plain zero i s h = refl
  names_from-Plain (suc n) i String.[] h = refl
  names_from-Plain (suc n) i (String.◌∷◌ c s) h =
      rw (names_at-plain i c s h.0) (names_from-Plain n (i + 1) s h.1)

module _ (env env' : Dict String) where
  -- Both environments say the same of a name.
  abbrev pub Same : String → Type 0
  Same k = lookup k env ≡ lookup k env'

  -- The two steps at one index, and how the skip of the names relates to theirs.
  abbrev Follows : Option (String × ℕ) → ℕ → String → Type 0
  Follows none n s = Unit
  Follows (some (piece, k)) n s = (k ≡ n) ⊎ ((k ≡ 0) × Plain n s)

  abbrev Steps : Option (String × ℕ) → Option (String × ℕ) → ℕ → String → Type 0
  Steps r r' n s = (r ≡ r') × Follows r n s

  resolve_bare-Steps :
      (c : Char) (s : String) (o : Option (String × String))
      → NamePlain s o
      → All Same (bare_names o).0
      → Steps (resolve_bare env c o) (resolve_bare env' c o) (bare_names o).1 s
  unfolding resolve_bare bare_names
  resolve_bare-Steps c s none p h = (refl, inl refl)
  resolve_bare-Steps c s (some (name, rest)) p h = rw (h.0, resolve_bare) (go (lookup name env'))
    where
      go :
          (o : Option String)
          → Steps
              (elim o [ none ↦ some (String.◌∷◌ c "", 0) | some value ↦ some (value, len name) ])
              (elim o [ none ↦ some (String.◌∷◌ c "", 0) | some value ↦ some (value, len name) ])
              (len name)
              s
      go none = (refl, inr (refl, p))
      go (some value) = (refl, inl refl)

  abbrev Shorter : ℕ → Option String → Type 0
  Shorter n none = Unit
  Shorter n (some t) = len t < n

  -- What is known of the recursion into texts that are shorter than `n`.
  module _ (f f' : String → Option String) (names : String → List String) (n : ℕ)
      (ih : (t : String) → len t < n → All Same (names t) → f t ≡ f' t) where
    resolve_default-Steps :
        (o : Option String) (written s : String) (skip : ℕ)
        → Shorter n o
        → All Same (names_in names o)
        → Steps (resolve_default f o written skip) (resolve_default f' o written skip) skip s
    unfolding resolve_default names_in
    resolve_default-Steps none written s skip p h = (refl, inl refl)
    resolve_default-Steps (some t) written s skip p h = rw (ih t p h, resolve_default) (go (f' t))
      where
        go :
            (o : Option String)
            → Steps
                (elim o [ none ↦ none | some resolved ↦ some (resolved, skip) ])
                (elim o [ none ↦ none | some resolved ↦ some (resolved, skip) ])
                skip
                s
        go none = (refl, tt)
        go (some resolved) = (refl, inl refl)

    supplied-Same :
        (interior : String)
        → All Same (head_name interior)
        → supplied interior env ≡ supplied interior env'
    unfolding supplied head_name
    supplied-Same interior h = go (ref_head interior) h
      where
        go :
            (o : Option Head)
            → All Same (elim o [ none ↦ [] | some h ↦ h.name ∷ [] ])
            → elim o [
              | none ↦ none
              | some h ↦ elim (lookup h.name env) [
                | none ↦ none
                | some value ↦ supplied_by h.op value h.rest
              ]
            ]
              ≡ elim o [
                | none ↦ none
                | some h ↦ elim (lookup h.name env') [
                  | none ↦ none
                  | some value ↦ supplied_by h.op value h.rest
                ]
              ]
        go none h = refl
        go (some h) k = rw (k.0) refl

    resolve_reference-Steps :
        (interior written s : String) (skip : ℕ)
        → len interior < n
        → All Same (interior_names names interior)
        → Steps
            (resolve_reference f env interior written skip)
            (resolve_reference f' env' interior written skip)
            skip
            s
    unfolding resolve_reference interior_names
    resolve_reference-Steps interior written s skip p h =
        let ds : List String = names_in names (default_of interior) in
        let alts : List String = names_in names (alternate_of interior) in
        let heads : All Same (head_name interior) =
          All-first Same (head_name interior) (ds ++ alts) h in
        let defaults : All Same ds =
          All-first Same ds alts (All-last Same (head_name interior) (ds ++ alts) h) in
        rw (supplied-Same interior heads, resolve_reference) (go (supplied interior env') defaults)
      where
        shorter : (o : Option String) → TextWithin (len interior) o → Shorter n o
        shorter none k = tt
        shorter (some t) k = omega (arith, k, p)

        go :
            (o : Option String)
            → All Same (names_in names (default_of interior))
            → Steps
                (elim o [
                  | some value ↦ some (value, skip)
                  | none ↦ resolve_default f (default_of interior) written skip
                ])
                (elim o [
                  | some value ↦ some (value, skip)
                  | none ↦ resolve_default f' (default_of interior) written skip
                ])
                skip
                s
        go none ds =
            resolve_default-Steps (default_of interior) written s skip
              (shorter (default_of interior) (default_of-TextWithin interior)) ds
        go (some value) ds = (refl, inl refl)

    no_name : (d : Char) (s : String) → (code d == b'{') ≡ true → bare_name (String.◌∷◌ d s) ≡ none
    unfolding bare_name starts_name
    no_name d s h = ground arith

    resolve_braced-Steps :
        (value : String) (i : ℕ) (c d : Char) (s : String) (o : Option ℕ)
        → (code d == b'{') ≡ true
        → len value ≡ n
        → 0 < len value
        → All Same (braced_names names value i o).0
        → Steps
            (resolve_braced f env value i c (String.◌∷◌ d s) o)
            (resolve_braced f' env' value i c (String.◌∷◌ d s) o)
            (braced_names names value i o).1
            (String.◌∷◌ d s)
    unfolding resolve_braced braced_names resolve_bare
    resolve_braced-Steps value i c d s none brace e p h = rw (no_name d s brace) (refl, inl refl)
    resolve_braced-Steps value i c d s (some close) brace e p h =
        let inside : len (slice (i + 2) close value) < n =
          let two : i + 2 ≡ suc (i + 1) = omega arith in
          rw two (rw (← e) (len-slice (i + 1) close value p)) in
        resolve_reference-Steps (slice (i + 2) close value) (slice i (close + 1) value)
          (String.◌∷◌ d s) (close - i) inside h

    resolve_at-Steps :
        (value : String) (i : ℕ) (c : Char) (s : String)
        → len value ≡ n
        → 0 < len value
        → All Same (names_at names value i c s).0
        → Steps
            (resolve_at f env value i c s)
            (resolve_at f' env' value i c s)
            (names_at names value i c s).1
            s
    unfolding resolve_at names_at resolve_turn names_turn
    resolve_at-Steps value i c String.[] e p h = (refl, inl refl)
    resolve_at-Steps value i c (String.◌∷◌ d s) e p h = go (turn c d) (turn-in_braces c d) h
      where
        go :
            (t : Turn)
            → (t ≡ in_braces → (code d == b'{') ≡ true)
            → All Same (names_turn names value i (String.◌∷◌ d s) t).0
            → Steps
                (resolve_turn f env value i c (String.◌∷◌ d s) t)
                (resolve_turn f' env' value i c (String.◌∷◌ d s) t)
                (names_turn names value i (String.◌∷◌ d s) t).1
                (String.◌∷◌ d s)
        go literal b k = (refl, inl refl)
        go escaped b k = (refl, inl refl)
        go in_braces b k =
            resolve_braced-Steps value i c d s (matching_brace value (i + 1)) (b refl) e p k
        go bare_dollar b k =
            resolve_bare-Steps c (String.◌∷◌ d s) (bare_name (String.◌∷◌ d s))
              (bare_name-NamePlain (String.◌∷◌ d s)) k

    -- One step, and the rest behind it.
    and_rest-Same :
        (r r' : Option (String × ℕ)) (m : ℕ) (s : String) (rest rest' : ℕ → ℕ → Option String)
        → Steps r r' m s
        → ((k p : ℕ) → (k ≡ m) ⊎ ((k ≡ 0) × Plain m s) → rest k p ≡ rest' k p)
        → and_rest r rest ≡ and_rest r' rest'
    unfolding and_rest
    and_rest-Same none r' m s rest rest' (e, fo) h = rw (← e) refl
    and_rest-Same (some (piece, k)) r' m s rest rest' (e, fo) h =
        rw (← e) (ap (join_rest piece) (h k (len piece) fo))

    resolve_from-Same :
        (value : String) (skip i produced : ℕ) (s : String)
        → len value ≡ n
        → 0 < len value
        → All Same (names_from names value skip i s)
        → resolve_from f env value skip i produced s ≡ resolve_from f' env' value skip i produced s
    unfolding resolve_from names_from
    resolve_from-Same value skip i produced String.[] e p h = refl
    resolve_from-Same value (suc skip) i produced (String.◌∷◌ c s) e p h =
        resolve_from-Same value skip (i + 1) produced s e p h
    resolve_from-Same value zero i produced (String.◌∷◌ c s) e p h =
        let (found, m) = names_at names value i c s in
        let later : All Same (names_from names value m (i + 1) s) =
          All-last Same found (names_from names value m (i + 1) s) h in
        let steps =
          resolve_at-Steps value i c s e p
            (All-first Same found (names_from names value m (i + 1) s) h) in
        elim (Bool-cases (ltb max_substituted_len produced)) [
          | inl q ↦ rw q refl
          | inr q ↦ rw q (
              and_rest-Same (resolve_at f env value i c s) (resolve_at f' env' value i c s) m s _ _
                steps
                λ k w fo.
                  resolve_from-Same value k (i + 1) (produced + w) s e p
                    (skipped k m (i + 1) s fo later))
        ]
      where
        skipped :
            (k m j : ℕ) (t : String)
            → (k ≡ m) ⊎ ((k ≡ 0) × Plain m t)
            → All Same (names_from names value m j t)
            → All Same (names_from names value k j t)
        skipped k m j t (inl same) l = rw same l
        skipped k m j t (inr (zero', pl)) l =
            rw zero' (rw (← names_from-Plain names value m j t pl) l)

  names_within-Same :
      (levels fuel : ℕ) (value : String)
      → len value < fuel
      → len value ≤ max_scan_len
      → All Same (names_within fuel value)
      → resolve_defaults levels env value ≡ resolve_defaults levels env' value
  unfolding resolve_defaults names_within resolve_from
  names_within-Same zero fuel value p q h = refl
  names_within-Same (suc levels) zero value p q h = absurd (omega arith)
  names_within-Same (suc levels) (suc fuel) String.[] p q h = refl
  names_within-Same (suc levels) (suc fuel) (String.◌∷◌ c s) p q h =
      let short : ltb max_scan_len (suc (len s)) ≡ false =
        le-not_ltb max_scan_len (suc (len s)) q in
      let names : All Same (names_from (names_within fuel) (String.◌∷◌ c s) 0 0 (String.◌∷◌ c s)) =
        subst
          (λ b. All Same (
            if b then [] else names_from (names_within fuel) (String.◌∷◌ c s) 0 0 (String.◌∷◌ c s)))
          short h in
      resolve_from-Same (resolve_defaults levels env) (resolve_defaults levels env')
        (names_within fuel) (suc (len s))
        (λ t w hs. names_within-Same levels fuel t (omega arith) (omega arith) hs) (String.◌∷◌ c s)
        0 0 0 (String.◌∷◌ c s) refl (omega arith) names

  -- Two environments that agree on the names of `reference_names` resolve the text alike: no other
  -- variable is needed, so reading the wanted ones alone out of a file loses nothing.
  pub reference_names-substitute_defaults :
      (value : String)
      → All Same (reference_names value)
      → substitute_defaults value env ≡ substitute_defaults value env'
  unfolding reference_names substitute_defaults
  reference_names-substitute_defaults value h = elim (Bool-cases (ltb max_scan_len (len value))) [
    | inl e ↦ rw e refl
    | inr e ↦
        let same : resolve_defaults max_levels env value ≡ resolve_defaults max_levels env' value =
          names_within-Same max_levels (suc (len value)) value (omega arith)
            (not-ltb→le max_scan_len (len value) e) h in
        rw e (rw same refl)
  ]
