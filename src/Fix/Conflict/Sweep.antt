-- ===== src/Fix/Conflict/Sweep.antt =====
-- The sweep over the sorted spans refuses what comparing every pair of spans would refuse.
use compose_lint.Prelude.{
  All, All-weaken, Bool, Bool-cases, List, String, [], any, any-ext, any-or, ap, ap₂, arith, eq_iff,
  false, if◌then◌else◌, inl, inr, ltb, ltb→lt, refl, str_eq, sym, true, ℕ, ◌&&◌, ◌++◌, ◌<◌, ◌==◌,
  ◌||◌, ◌∙◌, ◌∷◌, ◌≡◌, ◌≤◌,
}
use compose_lint.Sorting.{IsSortedBy, TotalOrder, any-sort_by, sort_by, sort_by-IsSortedBy}
use compose_lint.Fix.Conflict.{
  FlatSpan, clashes, flat_le, is_refused, refused_by, refused_units, sweep,
}
use compose_lint.Fix.Splice.Order.{text_le_antisym, text_le_total, text_le_trans}

-- The units that the comparison of every span with every other one refuses.
abbrev pub refused_pairwise : ℕ → List FlatSpan → Bool
refused_pairwise u flat = any (λ a. a.unit == u && any (clashes a) flat) flat

str_eq_symm : (s t : String) → str_eq s t ≡ str_eq t s
str_eq_symm s t = ground (arith, eq_iff s t, eq_iff t s)

clashes_symm : (a b : FlatSpan) → clashes a b ≡ clashes b a
unfolding clashes
clashes_symm a b = ground (arith, str_eq_symm a.replacement b.replacement)

clashes_self : (a : FlatSpan) → clashes a a ≡ false
unfolding clashes
clashes_self a = ground arith

-- A span that begins behind the end of another one does not clash with it, whatever their shapes.
clashes_behind : (a c : FlatSpan) → a.end < c.begin → clashes a c ≡ false
unfolding clashes
clashes_behind a c h = ground arith

-- The loops without the early exit.
refused_all : FlatSpan → List FlatSpan → List ℕ
refused_all a [] = []
refused_all a (b ∷ flat) =
    let rest = refused_all a flat in if clashes a b then a.unit ∷ b.unit ∷ rest else rest

sweep_all : List FlatSpan → List ℕ
sweep_all [] = []
sweep_all (a ∷ flat) = refused_all a flat ++ sweep_all flat

refused_all-none :
    (a : FlatSpan) (flat : List FlatSpan)
    → All (λ c. a.end < c.begin) flat
    → refused_all a flat ≡ []
unfolding refused_all
refused_all-none a [] h = refl
refused_all-none a (b ∷ flat) h = rw (clashes_behind a b h.0) (refused_all-none a flat h.1)

begin_le : (b c : FlatSpan) → flat_le b c ≡ true → b.begin ≤ c.begin
unfolding flat_le
begin_le b c h = ground arith

refused_by-all :
    (a : FlatSpan) (flat : List FlatSpan)
    → IsSortedBy flat_le flat
    → refused_by a flat ≡ refused_all a flat
unfolding refused_by refused_all
refused_by-all a [] s = refl
refused_by-all a (b ∷ flat) s = elim (Bool-cases (ltb a.end b.begin)) [
  | inl e ↦ rw e (
      sym (
        refused_all-none a (b ∷ flat) (
          ltb→lt a.end b.begin e,
          All-weaken (λ c. flat_le b c ≡ true) (λ c. a.end < c.begin) flat
              (λ c k. omega (arith, begin_le b c k, ltb→lt a.end b.begin e)) s.0,
        )))
  | inr e ↦
      rw e (ap (λ r. if clashes a b then a.unit ∷ b.unit ∷ r else r) (refused_by-all a flat s.1))
]

sweep-all : (flat : List FlatSpan) → IsSortedBy flat_le flat → sweep flat ≡ sweep_all flat
unfolding sweep sweep_all
sweep-all [] s = refl
sweep-all (a ∷ flat) s = ap₂ (λ x y. x ++ y) (refused_by-all a flat s.1) (sweep-all flat s.1)

is_refused-append :
    (u : ℕ) (xs ys : List ℕ) → is_refused u (xs ++ ys) ≡ (is_refused u xs || is_refused u ys)
unfolding is_refused
is_refused-append u [] ys = refl
is_refused-append u (x ∷ xs) ys = ground (arith, is_refused-append u xs ys)

is_refused-refused_all :
    (u : ℕ) (a : FlatSpan) (flat : List FlatSpan)
    → is_refused u (refused_all a flat)
      ≡ ((a.unit == u && any (clashes a) flat) || any (λ c. c.unit == u && clashes c a) flat)
unfolding refused_all is_refused
is_refused-refused_all u a [] = ground arith
is_refused-refused_all u a (b ∷ flat) =
    ground (arith, clashes_symm a b, is_refused-refused_all u a flat)

-- One more span: what it clashes with, and what it does to the spans behind it.
pairwise-cons :
    (u : ℕ) (a : FlatSpan) (flat : List FlatSpan)
    → refused_pairwise u (a ∷ flat) ≡ (
        ((a.unit == u && any (clashes a) flat) || any (λ c. c.unit == u && clashes c a) flat)
        || refused_pairwise u flat)
pairwise-cons u a flat =
    let each : any (λ c. c.unit == u && any (clashes c) (a ∷ flat)) flat
        ≡ (any (λ c. c.unit == u && clashes c a) flat || refused_pairwise u flat) =
      any-ext _ (λ c. (c.unit == u && clashes c a) || (c.unit == u && any (clashes c) flat)) flat
        (λ c. distribute (c.unit == u) (clashes c a) (any (clashes c) flat))
      ∙ any-or (λ c. c.unit == u && clashes c a) (λ c. c.unit == u && any (clashes c) flat) flat in
    rw (clashes_self a) (
      rw each (
        regroup (a.unit == u && any (clashes a) flat) (any (λ c. c.unit == u && clashes c a) flat)
          (refused_pairwise u flat)))
  where
    distribute : (x y z : Bool) → (x && (y || z)) ≡ ((x && y) || (x && z))
    distribute x y z = ground arith

    regroup : (x y z : Bool) → (x || (y || z)) ≡ ((x || y) || z)
    regroup x y z = ground arith

is_refused-sweep_all :
    (u : ℕ) (flat : List FlatSpan) → is_refused u (sweep_all flat) ≡ refused_pairwise u flat
unfolding sweep_all is_refused
is_refused-sweep_all u [] = refl
is_refused-sweep_all u (a ∷ flat) =
    is_refused-append u (refused_all a flat) (sweep_all flat)
    ∙ ap₂ (λ x y. x || y) (is_refused-refused_all u a flat) (is_refused-sweep_all u flat)
    ∙ sym (pairwise-cons u a flat)

flat_le-TotalOrder : TotalOrder flat_le
unfolding flat_le
flat_le-TotalOrder = record {
  total = λ a b h. ground (arith, text_le_total a.replacement b.replacement);
  transitive = λ a b c h k. ground (arith, text_le_trans a.replacement b.replacement c.replacement);
  antisym = λ a b h k. ground (arith, text_le_antisym a.replacement b.replacement);
}

-- The sweep over the sorted spans, which leaves a span at the first one that begins behind its end,
-- refuses exactly the units that comparing every span with every span of another unit would refuse:
-- those with a span that conflicts with another unit's, or that inserts the same text at the same
-- point. It holds of any spans, in any order.
pub refused_units-pairwise :
    (flat : List FlatSpan) (u : ℕ) → is_refused u (refused_units flat) ≡ refused_pairwise u flat
unfolding refused_units
refused_units-pairwise flat u =
    let sorted = sort_by flat_le flat in
    ap (is_refused u) (sweep-all sorted (sort_by-IsSortedBy flat_le flat_le-TotalOrder flat))
    ∙ is_refused-sweep_all u sorted
    ∙ any-ext (λ a. a.unit == u && any (clashes a) sorted)
        (λ a. a.unit == u && any (clashes a) flat) sorted
        (λ a. ap (λ r. a.unit == u && r) (any-sort_by flat_le (clashes a) flat))
    ∙ any-sort_by flat_le (λ a. a.unit == u && any (clashes a) flat) flat
