-- ===== src/EnvFile/Resolve/Fuel.antt =====
-- The fuel of `expand` is no limit of its own.
use compose_lint.Prelude.{
  Char, Option, Option-cases, String, ap, arith, if◌then◌else◌, inl, inr, ltb, none, refl, some,
  suc, zero, ℕ, ◌+◌, ◌<◌, ◌∙◌, ◌≡◌,
}
use compose_lint.Text.{len, slice}
use compose_lint.Dict.{Dict, lookup}
use compose_lint.Interpolation.{
  Turn, bare_dollar, bare_name, default_of, escaped, in_braces, literal, matching_brace,
  max_substituted_len, turn,
}
use compose_lint.Interpolation.Names.Lengths.{TextWithin, default_of-TextWithin, len-slice}
use compose_lint.EnvFile.Resolve.{
  expand, expand_at, expand_braced, expand_from, expand_turn, expand_within, substitute_interior,
}
use compose_lint.Interpolation.Resolve.{and_rest, join_rest}

module _ (defined : Dict String) (f g : String → Option String) (n : ℕ)
    (ih : (t : String) → len t < n → f t ≡ g t) where
  substitute_interior-cong :
      (interior : String)
      → len interior < n
      → substitute_interior f defined interior ≡ substitute_interior g defined interior
  unfolding substitute_interior
  substitute_interior-cong interior h = elim (Option-cases (bare_name interior)) [
    | inl e ↦ rw (e, substitute_interior) refl
    | inr (p, e) ↦ rw (e, substitute_interior) (found p)
  ]
    where
      default :
          (o : Option String)
          → TextWithin (len interior) o
          → elim o as (λ _. Option String) [ none ↦ none | some d ↦ f d ]
            ≡ elim o [ none ↦ none | some d ↦ g d ]
      default none k = refl
      default (some d) k = ih d (omega (arith, k, h))

      value :
          (o : Option String)
          → elim o as (λ _. Option String) [
            | some v ↦ some v
            | none ↦ elim (default_of interior) [ none ↦ none | some d ↦ f d ]
          ]
            ≡ elim o [
              | some v ↦ some v
              | none ↦ elim (default_of interior) [ none ↦ none | some d ↦ g d ]
            ]
      value none = default (default_of interior) (default_of-TextWithin interior)
      value (some v) = refl

      found :
          (p : String × String)
          → elim (lookup p.0 defined) as (λ _. Option String) [
            | some v ↦ some v
            | none ↦ elim (default_of interior) [ none ↦ none | some d ↦ f d ]
          ]
            ≡ elim (lookup p.0 defined) [
              | some v ↦ some v
              | none ↦ elim (default_of interior) [ none ↦ none | some d ↦ g d ]
            ]
      found p = value (lookup p.0 defined)

  expand_at-cong :
      (value : String) (i : ℕ) (c : Char) (s : String)
      → len value ≡ n
      → 0 < len value
      → expand_at f defined value i c s ≡ expand_at g defined value i c s
  unfolding expand_at expand_turn expand_braced
  expand_at-cong value i c String.[] e p = refl
  expand_at-cong value i c (String.◌∷◌ d s) e p = go (turn c d)
    where
      braced_cong :
          (o : Option ℕ) → expand_braced f defined value i c o ≡ expand_braced g defined value i c o
      braced_cong none = refl
      braced_cong (some close) =
          let two : i + 2 ≡ suc (i + 1) = omega arith in
          let inside : len (slice (i + 2) close value) < n =
            rw two (rw (← e) (len-slice (i + 1) close value p)) in
          rw (substitute_interior-cong (slice (i + 2) close value) inside, expand_braced) refl

      go :
          (t : Turn)
          → expand_turn f defined value i c (String.◌∷◌ d s) t
            ≡ expand_turn g defined value i c (String.◌∷◌ d s) t
      go literal = refl
      go escaped = refl
      go in_braces = braced_cong (matching_brace value (i + 1))
      go bare_dollar = refl

  and_rest-cong :
      (r : Option (String × ℕ)) (k l : ℕ → ℕ → Option String)
      → ((a b : ℕ) → k a b ≡ l a b)
      → and_rest r k ≡ and_rest r l
  unfolding and_rest
  and_rest-cong none k l h = refl
  and_rest-cong (some (piece, skip)) k l h = ap (join_rest piece) (h skip (len piece))

  expand_from-cong :
      (value : String) (skip i produced : ℕ) (s : String)
      → len value ≡ n
      → 0 < len value
      → expand_from f defined value skip i produced s
        ≡ expand_from g defined value skip i produced s
  unfolding expand_from
  expand_from-cong value skip i produced String.[] e p = refl
  expand_from-cong value (suc skip) i produced (String.◌∷◌ c s) e p =
      expand_from-cong value skip (i + 1) produced s e p
  expand_from-cong value zero i produced (String.◌∷◌ c s) e p =
      ap
        (λ r.
          and_rest (if ltb max_substituted_len produced then none else r)
            (λ skip w. expand_from f defined value skip (i + 1) (produced + w) s))
        (expand_at-cong value i c s e p)
      ∙ and_rest-cong
          (if ltb max_substituted_len produced then none else expand_at g defined value i c s)
          (λ skip w. expand_from f defined value skip (i + 1) (produced + w) s)
          (λ skip w. expand_from g defined value skip (i + 1) (produced + w) s)
          (λ a b. expand_from-cong value a (i + 1) (produced + b) s e p)

expand_within-stable :
    (defined : Dict String) (a b : ℕ) (value : String)
    → len value < a
    → len value < b
    → expand_within a defined value ≡ expand_within b defined value
unfolding expand_within expand_from
expand_within-stable defined zero b value h k = absurd (omega arith)
expand_within-stable defined (suc a) zero value h k = absurd (omega arith)
expand_within-stable defined (suc a) (suc b) String.[] h k = refl
expand_within-stable defined (suc a) (suc b) (String.◌∷◌ c s) h k =
    expand_from-cong defined (expand_within a defined) (expand_within b defined) (suc (len s))
      (λ t w. expand_within-stable defined a b t (omega arith) (omega arith)) (String.◌∷◌ c s) 0 0 0
      (String.◌∷◌ c s) refl (omega arith)

-- More fuel than the length of the value changes nothing, so an answer of none is that of a limit
-- of the program. The interpreter's stack may end the program first.
pub expand-stable :
    (defined : Dict String) (fuel : ℕ) (value : String)
    → len value < fuel
    → expand_within fuel defined value ≡ expand defined value
unfolding expand
expand-stable defined fuel value h =
    expand_within-stable defined fuel (suc (len value)) value h (omega arith)
