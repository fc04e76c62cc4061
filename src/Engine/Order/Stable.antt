-- ===== src/Engine/Order/Stable.antt =====
-- The findings of a report stand in the order of their lines.
use compose_lint.Prelude.{
  All, All-weaken, Bool-cases, List, Option, [], arith, false, inl, inr, none, some, true, ℕ, ◌∷◌,
  ◌≡◌, ◌≤◌,
}
use compose_lint.Models.{Finding}
use compose_lint.Engine.Order.{insert_finding, line_le, sort_findings}

-- A line does not come after another; no line comes after each one.
abbrev pub OnOrBefore : Option ℕ → Option ℕ → Type 0
OnOrBefore (some a) (some b) = a ≤ b
OnOrBefore (some a) none = Unit
OnOrBefore none (some b) = ⊥
OnOrBefore none none = Unit

abbrev LineLe : Finding → Finding → Type 0
LineLe f g = OnOrBefore f.line g.line

-- No finding stands before one of an earlier line, and none without a line before one that has it.
abbrev pub IsSorted : List Finding → Type 0
IsSorted [] = Unit
IsSorted (f ∷ fs) = All (LineLe f) fs × IsSorted fs

OnOrBefore-trans : (a b c : Option ℕ) → OnOrBefore a b → OnOrBefore b c → OnOrBefore a c
OnOrBefore-trans (some a) (some b) (some c) h k = omega (arith, h, k)
OnOrBefore-trans (some a) (some b) none h k = tt
OnOrBefore-trans (some a) none (some c) h k = absurd k
OnOrBefore-trans (some a) none none h k = tt
OnOrBefore-trans none (some b) c h k = absurd h
OnOrBefore-trans none none c h k = k

line_le-OnOrBefore : (a b : Option ℕ) → line_le a b ≡ true → OnOrBefore a b
unfolding line_le
line_le-OnOrBefore (some a) (some b) h = ground arith
line_le-OnOrBefore (some a) none h = tt
line_le-OnOrBefore none (some b) h = absurd (cc)
line_le-OnOrBefore none none h = tt

line_le-after : (a b : Option ℕ) → line_le a b ≡ false → OnOrBefore b a
unfolding line_le
line_le-after (some a) (some b) h = ground arith
line_le-after (some a) none h = absurd (cc)
line_le-after none (some b) h = tt
line_le-after none none h = tt

insert_finding-All :
    (f h : Finding) (gs : List Finding)
    → LineLe h f
    → All (LineLe h) gs
    → All (LineLe h) (insert_finding f gs)
unfolding insert_finding
insert_finding-All f h [] le k = (le, tt)
insert_finding-All f h (g ∷ gs) le k = elim (Bool-cases (line_le f.line g.line)) [
  | inl e ↦ rw e (le, k)
  | inr e ↦ rw e (k.0, insert_finding-All f h gs le k.1)
]

insert_finding-IsSorted :
    (f : Finding) (gs : List Finding) → IsSorted gs → IsSorted (insert_finding f gs)
unfolding insert_finding
insert_finding-IsSorted f [] s = (tt, tt)
insert_finding-IsSorted f (g ∷ gs) s = elim (Bool-cases (line_le f.line g.line)) [
  | inl e ↦ rw e (
    (
      line_le-OnOrBefore f.line g.line e,
      All-weaken (LineLe g) (LineLe f) gs
          (λ h k. OnOrBefore-trans f.line g.line h.line (line_le-OnOrBefore f.line g.line e) k) s.0,
    ),
    s,
  )
  | inr e ↦ rw e (
    insert_finding-All f g gs (line_le-after f.line g.line e) s.0,
    insert_finding-IsSorted f gs s.1,
  )
]

pub sort_findings-IsSorted : (fs : List Finding) → IsSorted (sort_findings fs)
unfolding sort_findings
sort_findings-IsSorted [] = tt
sort_findings-IsSorted (f ∷ fs) =
    insert_finding-IsSorted f (sort_findings fs) (sort_findings-IsSorted fs)
