-- ===== src/Edits/Blocks/Span.antt =====
-- The extent of a block: `block_span`.
use compose_lint.Prelude.{
  All, Bool, Bool-cases, List, String, [], arith, drop, false, get_elem?, if◌then◌else◌, inl, inr,
  length, not, refl, some, subst, suc, sym, take, true, ℕ, ◌+◌, ◌<◌, ◌||◌, ◌∷◌, ◌≡◌, ◌⊎◌,
}
use compose_lint.Edits.{is_blank_or_comment, line_at, line_indent}
use compose_lint.Edits.Blocks.{block_span, is_compact, is_inside, last_inside}

module _ (compact : Bool) (key_indent : ℕ) where
  -- A line that does not end the block.
  abbrev pub Belongs : String → Type 0
  Belongs line = (is_blank_or_comment line || is_inside compact key_indent line) ≡ true

  -- The block does not go on: behind blank lines and comments stands its end, or the file's.
  abbrev pub ends_here : List String → Bool
  ends_here [] = true
  ends_here (line ∷ rest) =
      let more = ends_here rest in
      if is_blank_or_comment line then more else not (is_inside compact key_indent line)

  -- The block ends at the last of `suc k` lines, which is one of content.
  abbrev pub EndsAt : List String → ℕ → Type 0
  EndsAt below k =
      (k < length below)
      × All Belongs (take (suc k) below)
      × ((line : String) × (get_elem? below k ≡ some line) × (is_blank_or_comment line ≡ false))
      × (ends_here (drop (suc k) below) ≡ true)

  -- No line of content belongs to the block any more, or the last of them stands `k` lines on.
  abbrev Found : ℕ → ℕ → List String → ℕ → Type 0
  Found at last below r =
      ((r ≡ last) × (ends_here below ≡ true)) ⊎ ((k : ℕ) × (r ≡ at + suc k) × EndsAt below k)

  -- One line on, from what the loop finds in the rest.
  further :
      (at last last' : ℕ) (line : String) (rest : List String) (r : ℕ)
      → Belongs line
      → (r ≡ last' → ends_here rest ≡ true → Found at last (line ∷ rest) r)
      → Found (at + 1) last' rest r
      → Found at last (line ∷ rest) r
  further at last last' line rest r b now (inl (e, f)) = now e f
  further at last last' line rest r b now (inr (k, e, (k<, all, content, f))) =
      inr (suc k, omega arith, (omega arith, (b, all), content, f))

  last_inside-Found :
      (at last : ℕ) (below : List String)
      → Found at last below (last_inside compact key_indent at last below)
  unfolding last_inside
  last_inside-Found at last [] = inl (refl, refl)
  last_inside-Found at last (line ∷ rest) = elim (Bool-cases (is_blank_or_comment line)) [
    | inl e ↦ found line rest (last_inside compact key_indent (at + 1) last rest) (rw e refl) (
        further at last last line rest _ (rw e refl) (λ p q. inl (p, rw e q))
          (last_inside-Found (at + 1) last rest))
    | inr e ↦ elim (Bool-cases (is_inside compact key_indent line)) [
      | inl d ↦
          found line rest (last_inside compact key_indent (at + 1) (at + 1) rest) (rw (e, d) refl) (
            further at last (at + 1) line rest _ (rw (e, d) refl)
              (λ p q. inr (0, omega arith, (omega arith, (rw (e, d) refl, tt), (line, refl, e), q)))
              (last_inside-Found (at + 1) (at + 1) rest))
      | inr d ↦ found line rest last (rw (e, d) refl) (inl (refl, rw (e, d) refl))
    ]
  ]
    where
      found :
          (line : String) (rest : List String) (r : ℕ)
          → last_inside compact key_indent at last (line ∷ rest) ≡ r
          → Found at last (line ∷ rest) r
          → Found at last (line ∷ rest) (last_inside compact key_indent at last (line ∷ rest))
      found line rest r e h = subst (Found at last (line ∷ rest)) (sym e) h

-- The span of a block begins at its key. It is the key's line alone when no line of content below
-- it belongs to the block; else it reaches to the last line of content that does, every line on the
-- way belongs to the block or is blank or a comment, and behind it the block does not go on: the
-- next line of content, if there is one, is neither deeper than the key nor an item of a sequence
-- that stands at the key's own indent.
pub block_span_lem :
    (source_lines : List String) (key_line : ℕ)
    → let compact = is_compact source_lines key_line in
      let indent = line_indent (line_at source_lines key_line) in
      let below = drop key_line source_lines in
      let span = block_span source_lines key_line in
      (span.0 ≡ key_line)
      × (((span.1 ≡ key_line) × (ends_here compact indent below ≡ true))
          ⊎ ((k : ℕ) × (span.1 ≡ key_line + suc k) × EndsAt compact indent below k))
unfolding block_span
block_span_lem source_lines key_line = (
  refl,
  last_inside-Found (is_compact source_lines key_line) (line_indent (line_at source_lines key_line))
      key_line key_line (drop key_line source_lines),
)
