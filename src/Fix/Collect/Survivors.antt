-- ===== src/Fix/Collect/Survivors.antt =====
-- The spans of the units that are not refused do not overlap.
use compose_lint.Prelude.{
  All, All-append, All-first, All-last, All-weaken, Bool, Bool-cases, List, String, [], any, arith,
  false, if◌then◌else◌, inl, inr, leb, leb→le, map, suc, sym, ℕ, ◌&&◌, ◌++◌, ◌==◌, ◌∙◌, ◌∷◌, ◌≡◌,
  ◌≢◌, ◌≤◌,
}
use compose_lint.Fix.Splice.{Span, placed}
use compose_lint.Fix.Splice.Weave.{AllApart, Apart, IsWithin}
use compose_lint.Fix.Conflict.{FlatSpan, clashes, is_refused, refused_units}
use compose_lint.Fix.Conflict.Sweep.{refused_units-pairwise}
use compose_lint.Fix.Collect.Settle.{Placed, flat_of, flatten}
use compose_lint.Fix.Collect.Placing.{IsPlaced, Numbered, Numbered-below}

-- The spans of the units that are not refused.
unfoldable pub survivors : List ℕ → List Placed → List Span
survivors losers [] = []
survivors losers (p ∷ ps) =
    let rest = survivors losers ps in if is_refused p.index losers then rest else p.spans ++ rest

AllApart-append :
    (ss ts : List Span)
    → AllApart ss
    → AllApart ts
    → All (λ s. All (Apart s) ts) ss
    → AllApart (ss ++ ts)
AllApart-append [] ts h k c = k
AllApart-append (s ∷ ss) ts h k c =
    (All-append (Apart s) ss ts h.0 c.0, AllApart-append ss ts h.1 k c.1)

any-false {ℓ} :
    {A : Type ℓ} (p : A → Bool) (xs : List A) → any p xs ≡ false → All (λ x. p x ≡ false) xs
any-false p [] h = tt
any-false p (x ∷ xs) h = (ground arith, any-false p xs (ground arith))

-- Spans of two units that do not clash are apart.
Apart-of_no_clash :
    (i j : ℕ) (s t : Span)
    → i ≢ j
    → s.begin ≤ s.end
    → t.begin ≤ t.end
    → clashes (flat_of i s) (flat_of j t) ≡ false
    → Apart s t
unfolding clashes
Apart-of_no_clash i j s t n h k e = elim (Bool-cases (leb s.end t.begin)) [
  | inl p ↦ inl (leb→le s.end t.begin p)
  | inr p ↦ inr (ground arith)
]

-- A test that fails on every span of the flat list fails on those of the units.
abbrev pub Covers : List FlatSpan → List FlatSpan → Type 1
Covers flat part = (P : FlatSpan → Type 0) → All P flat → All P part

All-of_map {ℓ κ} :
    {A : Type ℓ} {B : Type κ} (P : B → Type 0) (f : A → B) (xs : List A)
    → All P (map f xs)
    → All (λ x. P (f x)) xs
All-of_map P f [] h = tt
All-of_map P f (x ∷ xs) h = (h.0, All-of_map P f xs h.1)

module _ (text : String) (losers : List ℕ) where
  -- A span that clashes with none of the later units' spans is apart from those that survive.
  Apart-from :
      (i : ℕ) (s : Span) (ps : List Placed)
      → s.begin ≤ s.end
      → All (IsPlaced text) ps
      → All (λ q. suc i ≤ q.index) ps
      → All (λ b. clashes (flat_of i s) b ≡ false) (flatten ps)
      → All (Apart s) (survivors losers ps)
  unfolding survivors flatten
  Apart-from i s [] le placed behind h = tt
  Apart-from i s (q ∷ ps) le placed behind h =
      let rest = Apart-from i s ps le placed.1 behind.1 (
        All-last (λ b. clashes (flat_of i s) b ≡ false) (map (flat_of q.index) q.spans) (flatten ps)
          h) in
      elim (Bool-cases (is_refused q.index losers)) [
        | inl e ↦ rw e rest
        | inr e ↦ rw e (
            All-append (Apart s) q.spans (survivors losers ps)
              (those q.spans placed.0.1 (
                All-of_map (λ b. clashes (flat_of i s) b ≡ false) (flat_of q.index) q.spans
                  (All-first (λ b. clashes (flat_of i s) b ≡ false) (map (flat_of q.index) q.spans)
                    (flatten ps) h)))
              rest)
      ]
    where
      those :
          (ts : List Span)
          → All (IsWithin text) ts
          → All (λ t. clashes (flat_of i s) (flat_of q.index t) ≡ false) ts
          → All (Apart s) ts
      those [] w h = tt
      those (t ∷ ts) w h = (
        Apart-of_no_clash i q.index s t (λ e. absurd (omega (arith, behind.0))) le w.0.0 h.0,
        those ts w.1 h.1,
      )

module _ (text : String) (flat : List FlatSpan) where
  -- What a unit that is not refused knows of each of its spans.
  no_clash :
      (i : ℕ) (ss : List Span) (rest : List FlatSpan)
      → is_refused i (refused_units flat) ≡ false
      → Covers flat (map (flat_of i) ss ++ rest)
      → All (λ s. All (λ b. clashes (flat_of i s) b ≡ false) rest) ss
  no_clash i ss rest e covers =
      let alone =
        any-false (λ a. a.unit == i && any (clashes a) flat) flat
          (sym (refused_units-pairwise flat i) ∙ e) in
      All-weaken (λ s. (i == i && any (clashes (flat_of i s)) flat) ≡ false)
        (λ s. All (λ b. clashes (flat_of i s) b ≡ false) rest) ss
        (λ s h.
          All-last (λ b. clashes (flat_of i s) b ≡ false) (map (flat_of i) ss) rest
            (covers (λ b. clashes (flat_of i s) b ≡ false)
              (any-false (clashes (flat_of i s)) flat
                (same i (any (clashes (flat_of i s)) flat) h))))
        (All-of_map (λ a. (a.unit == i && any (clashes a) flat) ≡ false) (flat_of i) ss
          (All-first (λ a. (a.unit == i && any (clashes a) flat) ≡ false) (map (flat_of i) ss) rest
            (covers (λ a. (a.unit == i && any (clashes a) flat) ≡ false) alone)))
    where
      same : (i : ℕ) (b : Bool) → (i == i && b) ≡ false → b ≡ false
      same i b h = ground arith

  -- What survives lies in the file, and no two spans of it overlap.
  pub survivors-AllApart :
      (n : ℕ) (ps : List Placed)
      → Covers flat (flatten ps)
      → All (IsPlaced text) ps
      → Numbered n ps
      → All (IsWithin text) (survivors (refused_units flat) ps)
        × AllApart (survivors (refused_units flat) ps)
  unfolding survivors flatten
  survivors-AllApart n [] covers placed numbered = (tt, tt)
  survivors-AllApart n (p ∷ ps) covers placed numbered =
      let losers = refused_units flat in
      let rest =
        survivors-AllApart (suc n) ps
          (λ P h. All-last P (map (flat_of p.index) p.spans) (flatten ps) (covers P h)) placed.1
          numbered.1 in
      elim (Bool-cases (is_refused p.index losers)) [
        | inl e ↦ rw e rest
        | inr e ↦ rw e (
          All-append (IsWithin text) p.spans (survivors losers ps) placed.0.1 rest.0,
          AllApart-append p.spans (survivors losers ps) placed.0.2 rest.1 (
              across n p ps numbered.0 p.spans placed.0.1 placed.1
                (Numbered-below (suc n) ps numbered.1)
                (no_clash p.index p.spans (flatten ps) e covers)),
        )
      ]
    where
      across :
          (n : ℕ) (p : Placed) (ps : List Placed)
          → p.index ≡ n
          → (ss : List Span) → All (IsWithin text) ss
          → All (IsPlaced text) ps
          → All (λ q. suc n ≤ q.index) ps
          → All (λ s. All (λ b. clashes (flat_of p.index s) b ≡ false) (flatten ps)) ss
          → All (λ s. All (Apart s) (survivors (refused_units flat) ps)) ss
      across n p ps i [] w placed behind h = tt
      across n p ps i (s ∷ ss) w placed behind h = (
        Apart-from text (refused_units flat) p.index s ps w.0.0 placed
            (All-weaken (λ q. suc n ≤ q.index) (λ q. suc p.index ≤ q.index) ps
              (λ q k. omega (arith, i)) behind)
            h.0,
        across n p ps i ss w.1 placed behind h.1,
      )
