-- ===== src/Fix/Collect/Placing.antt =====
-- The units that are placed: their spans, and their numbers.
use compose_lint.Prelude.{
  All, All-append, All-weaken, List, String, [], arith, length, refl, suc, ℕ, ◌++◌, ◌+◌, ◌∷◌, ◌≡◌,
  ◌≤◌,
}
use compose_lint.SourceLines.{line_starts}
use compose_lint.Engine.{Result, ok, raised}
use compose_lint.Fix.{FixUnit}
use compose_lint.Fix.Splice.{Span, spans_of}
use compose_lint.Fix.Splice.Weave.{AllApart, IsWithin}
use compose_lint.Fix.Collect.Settle.{Placed, Placing, place_all, place_unit}

-- What a fixer must keep for its unit: edits that lie in the file and do not overlap each other.
abbrev pub IsSound : String → FixUnit → Type 0
IsSound text u =
    (ss : List Span)
    → spans_of (line_starts text) u.edits ≡ ok ss
    → All (IsWithin text) ss × AllApart ss

abbrev pub IsPlaced : String → Placed → Type 0
IsPlaced text p =
    (spans_of (line_starts text) p.unit.edits ≡ ok p.spans)
    × All (IsWithin text) p.spans
    × AllApart p.spans

abbrev pub Numbered : ℕ → List Placed → Type 0
Numbered n [] = Unit
Numbered n (p ∷ ps) = (p.index ≡ n) × Numbered (suc n) ps

Numbered-append :
    (n : ℕ) (ps : List Placed) (p : Placed)
    → Numbered n ps
    → p.index ≡ n + length ps
    → Numbered n (ps ++ p ∷ [])
Numbered-append n [] p h e = (omega arith, tt)
Numbered-append n (q ∷ ps) p h e = (h.0, Numbered-append (suc n) ps p h.1 (omega arith))

pub Numbered-below : (n : ℕ) (ps : List Placed) → Numbered n ps → All (λ p. n ≤ p.index) ps
Numbered-below n [] h = tt
Numbered-below n (p ∷ ps) h = (
  omega arith,
  All-weaken (λ q. suc n ≤ q.index) (λ q. n ≤ q.index) ps (λ q k. omega arith)
      (Numbered-below (suc n) ps h.1),
)

module _ (text : String) where
  place_unit-IsPlaced :
      (u : FixUnit) (r : Result (List Span)) (p : Placing)
      → ((ss : List Span) → r ≡ ok ss → All (IsWithin text) ss × AllApart ss)
      → spans_of (line_starts text) u.edits ≡ r
      → All (IsPlaced text) p.placed × Numbered 0 p.placed
      → All (IsPlaced text) (place_unit u r p).placed × Numbered 0 (place_unit u r p).placed
  unfolding place_unit
  place_unit-IsPlaced u (raised e) p sound at h = h
  place_unit-IsPlaced u (ok ss) p sound at h = (
    All-append (IsPlaced text) p.placed _ h.0 ((at, (sound ss refl).0, (sound ss refl).1), tt),
    Numbered-append 0 p.placed _ h.1 (omega arith),
  )

  pub place_all-IsPlaced :
      (us : List FixUnit) (p : Placing)
      → All (IsSound text) us
      → All (IsPlaced text) p.placed × Numbered 0 p.placed
      → All (IsPlaced text) (place_all (line_starts text) us p).placed
        × Numbered 0 (place_all (line_starts text) us p).placed
  unfolding place_all
  place_all-IsPlaced [] p s h = h
  place_all-IsPlaced (u ∷ us) p s h =
      place_all-IsPlaced us (place_unit u (spans_of (line_starts text) u.edits) p) s.1
        (place_unit-IsPlaced u (spans_of (line_starts text) u.edits) p s.0 refl h)
