-- ===== src/Merge/Keys/Split.antt =====
-- Splitting outside braces loses nothing: joining the parts gives the text back.
use compose_lint.Prelude.{
  Bool, Bool-cases, Char, Char-path, List, String, [], ap, arith, code, false, inl, inr, refl, suc,
  sym, true, zero, ℕ, ◌&&◌, ◌==◌, ◌∙◌, ◌∷◌, ◌≡◌,
}
use compose_lint.Text.{append}
use compose_lint.Merge.Keys.{split_from, split_outside_braces}

-- The parts with their colons.
abbrev pub with_colons : List String → String
with_colons [] = ""
with_colons (p ∷ ps) = append ":" (append p (with_colons ps))

abbrev pub rejoin : String × List String → String
rejoin (p, ps) = append p (with_colons ps)

is_colon : (c : Char) (s : String) → (code c == b':') ≡ true → String.◌∷◌ c s ≡ append ":" s
is_colon c s h = ap (λ (d : Char). String.◌∷◌ d s) (Char-path c ":" (ground arith))

rejoin-split_from :
    (dollar : Bool) (depth : ℕ) (s : String) → rejoin (split_from dollar depth s) ≡ s
unfolding split_from
rejoin-split_from dollar depth String.[] = refl
rejoin-split_from dollar zero (String.◌∷◌ c s) =
    let inner = rejoin-split_from (code c == b'$') 1 s in
    let same = rejoin-split_from (code c == b'$') 0 s in
    elim (Bool-cases (code c == b'{' && dollar)) [
      | inl e ↦ rw e (ap (λ t. String.◌∷◌ c t) inner)
      | inr e ↦ elim (Bool-cases (code c == b':')) [
        | inl d ↦ rw e (rw d (ap (λ t. append ":" t) same ∙ sym (is_colon c s d)))
        | inr d ↦ rw e (rw d (ap (λ t. String.◌∷◌ c t) same))
      ]
    ]
rejoin-split_from dollar (suc depth) (String.◌∷◌ c s) =
    let inner = rejoin-split_from (code c == b'$') (suc (suc depth)) s in
    let outer = rejoin-split_from (code c == b'$') depth s in
    let same = rejoin-split_from (code c == b'$') (suc depth) s in
    elim (Bool-cases (code c == b'{' && dollar)) [
      | inl e ↦ rw e (ap (λ t. String.◌∷◌ c t) inner)
      | inr e ↦ elim (Bool-cases (code c == b'}')) [
        | inl d ↦ rw e (rw d (ap (λ t. String.◌∷◌ c t) outer))
        | inr d ↦ rw e (rw d (ap (λ t. String.◌∷◌ c t) same))
      ]
    ]

-- Joined by colons again, the parts of an entry are the entry: whatever the braces in it, no
-- character of it is lost to the key.
pub rejoin-split_outside_braces : (text : String) → rejoin (split_outside_braces text) ≡ text
unfolding split_outside_braces
rejoin-split_outside_braces text = rejoin-split_from false 0 text
