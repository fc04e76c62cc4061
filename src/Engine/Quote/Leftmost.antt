-- ===== src/Engine/Quote/Leftmost.antt =====
-- The quoting of a text reads it from the left and takes the longest value at each place.
use compose_lint.Prelude.{
  All, All-weaken, Bool-cases, Char, Char-path, Option-cases, String, [], ap, ap₂, arith, code,
  eq_iff, eq_refl, inl, inr, none, refl, some, str_eq, subst, suc, sym, zero, ℕ, ◌+◌, ◌==◌, ◌∙◌,
  ◌∷◌, ◌≡◌, ◌≢◌, ◌≤◌,
}
use compose_lint.Text.{append, len, strip_prefix}
use compose_lint.Text.Laws.{len-append}
use compose_lint.Dict.{Dict, lookup}
use compose_lint.Engine.Quote.{
  EnvValues, match_here, quote_text, quoted_from, service_pattern, substitute,
}
use compose_lint.Engine.Quote.Names.{
  Descending, Quotable, service_pattern-Descending, service_pattern-Quotable,
}
use compose_lint.Value.{Value}

-- No value that starts the text is longer than `n`.
abbrev pub Longest : Dict String → String → ℕ → Type 0
Longest names s n = All (λ p. (rest : String) → s ≡ append p.0 rest → len p.0 ≤ n) names

-- The name, the value and what follows the value.
abbrev pub Found : Dict String → String → String → String → Type 0
Found names s name rest =
    (value : String) × (s ≡ append value rest)
    × (quoted_from ≤ len value)
    × (lookup value names ≡ some name)
    × Longest names s (len value)

-- A text, and the same with the values replaced by their names.
pub data Quoted (names : Dict String) : String → String → Type 0 where
  done : Quoted names "" ""
  keep :
      (c : Char) (s t : String)
      → All (λ p. (rest : String) → String.◌∷◌ c s ≢ append p.0 rest) names
      → Quoted names s t
      → Quoted names (String.◌∷◌ c s) (String.◌∷◌ c t)
  quote :
      (s name rest t : String)
      → Found names s name rest
      → Quoted names rest t
      → Quoted names s (append "${" (append name (append "}" t)))

strip_prefix-some : (v s rest : String) → strip_prefix v s ≡ some rest → s ≡ append v rest
unfolding strip_prefix
strip_prefix-some String.[] s rest h = cc
strip_prefix-some (String.◌∷◌ d t) String.[] rest h = absurd (cc)
strip_prefix-some (String.◌∷◌ d t) (String.◌∷◌ c s) rest h = elim (Bool-cases (code c == code d)) [
  | inl e ↦
      ap₂ String.◌∷◌ (Char-path c d (ground arith)) (strip_prefix-some t s rest (ground arith))
  | inr e ↦ absurd (ground arith)
]

strip_prefix-append : (v rest : String) → strip_prefix v (append v rest) ≡ some rest
unfolding strip_prefix
strip_prefix-append String.[] rest = refl
strip_prefix-append (String.◌∷◌ d t) rest = ground (arith, strip_prefix-append t rest)

absent : (v s rest : String) → strip_prefix v s ≡ none → s ≢ append v rest
absent v s rest n e =
    let found : strip_prefix v s ≡ some rest = ap (strip_prefix v) e ∙ strip_prefix-append v rest in
    cc

module _ (s : String) where
  match_here-Found :
      (names : Dict String) (name rest : String)
      → Quotable names
      → Descending names
      → match_here names s ≡ some (name, rest)
      → Found names s name rest
  unfolding match_here Quotable Descending lookup
  match_here-Found [] name rest q d h = absurd (cc)
  match_here-Found ((v, n) ∷ names) name rest (l, q) (a, d) h =
      elim (Option-cases (strip_prefix v s)) [
        | inr (r, e) ↦
            let same : some (n, r) ≡ some (name, rest) = sym (rw (match_here, e) refl) ∙ h in
            let n_eq : n ≡ name = cc in
            let r_eq : r ≡ rest = cc in
            (
              v,
              strip_prefix-some v s rest (e ∙ ap some r_eq),
              l,
              rw (eq_refl v) (ap some n_eq),
              (
                (λ _ _. omega arith),
                All-weaken (λ p. len p.0 ≤ len v)
                    (λ p. (rest' : String) → s ≡ append p.0 rest' → len p.0 ≤ len v) names
                    (λ p le _ _. le) a,
              ),
            )
        | inl e ↦
            let later : match_here names s ≡ some (name, rest) =
              sym (rw (match_here, e) refl) ∙ h in
            let (x, split, long, at, most) = match_here-Found names name rest q d later in
            (
              x,
              split,
              long,
              elim (Bool-cases (str_eq v x)) [
                | inl same ↦ absurd (
                    absent v s rest e
                      (subst (λ y. s ≡ append y rest) (sym ((eq_iff v x).0 same)) split))
                | inr other ↦ rw other at
              ],
              ((λ rest' g. absurd (absent v s rest' e g)), most),
            )
      ]

  match_here-none :
      (names : Dict String)
      → match_here names s ≡ none
      → All (λ p. (rest : String) → s ≢ append p.0 rest) names
  unfolding match_here
  match_here-none [] h = tt
  match_here-none ((v, n) ∷ names) h = elim (Option-cases (strip_prefix v s)) [
    | inr (r, e) ↦ let same : some (n, r) ≡ none = sym (rw (match_here, e) refl) ∙ h in absurd (cc)
    | inl e ↦
        ((λ rest. absent v s rest e), match_here-none names (sym (rw (match_here, e) refl) ∙ h))
  ]

substitute-Quoted :
    (fuel : ℕ) (names : Dict String) (s : String)
    → Quotable names
    → Descending names
    → len s ≤ fuel
    → Quoted names s (substitute fuel names s)
unfolding substitute
substitute-Quoted zero names String.[] q d l = done
substitute-Quoted zero names (String.◌∷◌ c s) q d l = absurd (omega arith)
substitute-Quoted (suc fuel) names String.[] q d l = done
substitute-Quoted (suc fuel) names (String.◌∷◌ c s) q d l =
    elim (Option-cases (match_here names (String.◌∷◌ c s))) [
      | inl n ↦
          rw (substitute, n)
            (keep c s (substitute fuel names s) (match_here-none (String.◌∷◌ c s) names n)
              (substitute-Quoted fuel names s q d (omega arith)))
      | inr ((name, rest), m) ↦
          let found = match_here-Found (String.◌∷◌ c s) names name rest q d m in
          let (value, split, long, _, _) = found in
          let total : suc (len s) ≡ len value + len rest = ap len split ∙ len-append value rest in
          let shorter : len rest ≤ fuel = omega (arith, long) in
          rw (substitute, m)
            (quote (String.◌∷◌ c s) name rest (substitute fuel names rest) found
              (substitute-Quoted fuel names rest q d shorter))
    ]

-- What `_service_pattern` compiles quotes a text to its end, read from the left: where values start,
-- the longest of them is replaced by its name, and the text goes on behind it; where none starts, the
-- character stays. No value is shorter than `_QUOTED_FROM`.
pub quote_text-Quoted :
    (config : Value) (env : EnvValues) (s : String)
    → Quoted (service_pattern config env) s (quote_text (service_pattern config env) s)
unfolding quote_text
quote_text-Quoted config env s =
    substitute-Quoted (len s) (service_pattern config env) s (service_pattern-Quotable config env)
      (service_pattern-Descending config env) (omega arith)
