-- ===== src/Interpolation/Braces.antt =====
-- The stack of `_brace_pairs` pairs each brace as counting forward from it does.
use compose_lint.Prelude.{
  All, All-weaken, Bool-cases, Char, List, Option, String, [], arith, code, false, if◌then◌else◌,
  inl, inr, length, none, refl, some, suc, zero, ℕ, ◌++◌, ◌+◌, ◌<◌, ◌==◌, ◌∷◌, ◌≡◌,
}
use compose_lint.Text.{append, len}
use compose_lint.Interpolation.{brace_pairs, brace_pairs_from, matching_brace, pair_at}

-- Counting forward: the first closing brace that returns to the depth of the opening one.
abbrev pub closing : ℕ → ℕ → String → Option ℕ
closing d i String.[] = none
closing zero i (String.◌∷◌ c s) =
    let deeper = closing 1 (i + 1) s in
    let same = closing zero (i + 1) s in
    if code c == b'{' then deeper else if code c == b'}' then some i else same
closing (suc d) i (String.◌∷◌ c s) =
    let deeper = closing (suc (suc d)) (i + 1) s in
    let back = closing d (i + 1) s in
    let same = closing (suc d) (i + 1) s in
    if code c == b'{' then deeper else if code c == b'}' then back else same

-- Every index on the stack is under `k`.
abbrev Below : ℕ → List ℕ → Type 0
Below k open_at = All (λ o. o < k) open_at

differs : (a b : ℕ) → b < a → (a == b) ≡ false
differs a b h = ground arith

differs_up : (a b : ℕ) → a < b → (a == b) ≡ false
differs_up a b h = ground arith

raise : (k : ℕ) (open_at : List ℕ) → Below k open_at → Below (k + 1) open_at
raise k open_at h = All-weaken (λ o. o < k) (λ o. o < k + 1) open_at (λ o p. omega arith) h

-- The indexes above `o` on the stack are over it.
abbrev Above : ℕ → List ℕ → Type 0
Above o open_at = All (λ p. o < p) open_at

-- An open brace with `pre` above it on the stack is closed where the count, begun at the number
-- of those, returns to its depth.
pair_at-open :
    (pre post : List ℕ) (o i : ℕ) (s : String)
    → o < i
    → Above o pre
    → pair_at o (brace_pairs_from i (pre ++ o ∷ post) s) ≡ closing (length pre) i s
unfolding brace_pairs_from pair_at
pair_at-open [] post o i String.[] h a = refl
pair_at-open (p ∷ pre) post o i String.[] h a = refl
pair_at-open [] post o i (String.◌∷◌ c s) h a =
    let opened = pair_at-open (i ∷ []) post o (i + 1) s (omega arith) (h, tt) in
    let skipped = pair_at-open [] post o (i + 1) s (omega arith) tt in
    elim (Bool-cases (code c == b'{')) [
      | inl e ↦ rw e opened
      | inr e ↦ elim (Bool-cases (code c == b'}')) [
        | inl d ↦ rw e (rw d (ground arith))
        | inr d ↦ rw e (rw d skipped)
      ]
    ]
pair_at-open (p ∷ pre) post o i (String.◌∷◌ c s) h a =
    let opened = pair_at-open (i ∷ p ∷ pre) post o (i + 1) s (omega arith) (h, a) in
    let closed = pair_at-open pre post o (i + 1) s (omega arith) a.1 in
    let skipped = pair_at-open (p ∷ pre) post o (i + 1) s (omega arith) a in
    elim (Bool-cases (code c == b'{')) [
      | inl e ↦ rw e opened
      | inr e ↦ elim (Bool-cases (code c == b'}')) [
        | inl d ↦ rw e (rw d (rw (differs_up o p a.0) closed))
        | inr d ↦ rw e (rw d skipped)
      ]
    ]

-- Before the pass reaches the brace at the index `k`, no pair is at `k`.
pair_at-reach :
    (open_at : List ℕ) (k i : ℕ) (a b : String) (c : Char)
    → k ≡ len a + i
    → Below i open_at
    → code c ≡ b'{'
    → pair_at k (brace_pairs_from i open_at (append a (String.◌∷◌ c b))) ≡ closing 0 (k + 1) b
unfolding brace_pairs_from pair_at
pair_at-reach [] k i String.[] b c q h e =
    let same : k ≡ i = omega arith in
    rw e (rw same (pair_at-open [] [] i (i + 1) b (omega arith) tt))
pair_at-reach (o ∷ open_at) k i String.[] b c q h e =
    let same : k ≡ i = omega arith in
    rw e (rw same (pair_at-open [] (o ∷ open_at) i (i + 1) b (omega arith) tt))
pair_at-reach [] k i (String.◌∷◌ x a) b c q h e =
    let opened = pair_at-reach (i ∷ []) k (i + 1) a b c (omega arith) (omega arith, tt) e in
    let skipped = pair_at-reach [] k (i + 1) a b c (omega arith) tt e in
    elim (Bool-cases (code x == b'{')) [ inl d ↦ rw d opened | inr d ↦ rw d skipped ]
pair_at-reach (o ∷ open_at) k i (String.◌∷◌ x a) b c q h e =
    let higher = raise i (o ∷ open_at) h in
    let opened =
      pair_at-reach (i ∷ o ∷ open_at) k (i + 1) a b c (omega arith) (omega arith, higher) e in
    let closed = pair_at-reach open_at k (i + 1) a b c (omega arith) higher.1 e in
    let skipped = pair_at-reach (o ∷ open_at) k (i + 1) a b c (omega arith) higher e in
    let apart : o < k = omega (arith, h.0) in
    elim (Bool-cases (code x == b'{')) [
      | inl d ↦ rw d opened
      | inr d ↦ elim (Bool-cases (code x == b'}')) [
        | inl f ↦ rw d (rw f (rw (differs k o apart) closed))
        | inr f ↦ rw d (rw f skipped)
      ]
    ]

-- Each opening brace is paired with the brace that counting depth forward from it finds, and is not
-- paired when the count finds none.
pub matching_brace-eq-closing :
    (a b : String) (c : Char)
    → code c ≡ b'{'
    → matching_brace (append a (String.◌∷◌ c b)) (len a) ≡ closing 0 (len a + 1) b
unfolding matching_brace brace_pairs
matching_brace-eq-closing a b c e = pair_at-reach [] (len a) 0 a b c (omega arith) tt e
