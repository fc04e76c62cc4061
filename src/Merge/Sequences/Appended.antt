-- ===== src/Merge/Sequences/Appended.antt =====
-- The append-style merge is an ordered union: the base's entries and then the others, without repeats.
use compose_lint.Prelude.{
  All, All-weaken, Bool, Bool-cases, List, [], arith, false, inl, inr, refl, subst, sym, true, ◌++◌,
  ◌||◌, ◌∷◌, ◌≡◌, ◌⊎◌,
}
use compose_lint.Value.{Value}
use compose_lint.Merge.Equal.{value_eq}
use compose_lint.Merge.Record.{Side}
use compose_lint.Merge.Sequences.{
  Placed, append_new, enumerate, equals_one, is_seen, merge_appended, values_of,
}

-- No entry is seen among the ones before it, or among `seen`.
abbrev pub Fresh : List Value → List Placed → Type 0
Fresh seen [] = Unit
Fresh seen (p ∷ ps) = (is_seen p.0 seen ≡ false) × Fresh (p.0 ∷ seen) ps

-- The entry is one of the list.
abbrev pub In : Placed → List Placed → Type 0
In p [] = ⊥
In p (q ∷ qs) = (p ≡ q) ⊎ In p qs

append_new-Fresh : (seen : List Value) (ps : List Placed) → Fresh seen (append_new seen ps)
unfolding append_new
append_new-Fresh seen [] = tt
append_new-Fresh seen ((v, side) ∷ ps) = elim (Bool-cases (is_seen v seen)) [
  | inl e ↦ rw e (append_new-Fresh seen ps)
  | inr e ↦ rw e (e, append_new-Fresh (v ∷ seen) ps)
]

-- The entry is in the result, or equals one of it.
abbrev pub IsCovered : List Value → List Placed → Placed → Type 0
IsCovered seen result p =
    In p result ⊎ ((equals_one p.0 seen || equals_one p.0 (values_of result)) ≡ true)

seen-equals : (v : Value) (seen : List Value) → is_seen v seen ≡ true → equals_one v seen ≡ true
unfolding is_seen
seen-equals v seen h = ground arith

or_first : (a b : Bool) → a ≡ true → (a || b) ≡ true
or_first a b h = rw h refl

or_shift : (a b c : Bool) → ((a || b) || c) ≡ true → (b || (a || c)) ≡ true
or_shift true true c h = refl
or_shift true false c h = refl
or_shift false true c h = refl
or_shift false false c h = h

IsCovered-shift :
    (seen : List Value) (v : Value) (side : Side) (result : List Placed) (p : Placed)
    → IsCovered (v ∷ seen) result p
    → IsCovered seen ((v, side) ∷ result) p
unfolding equals_one
IsCovered-shift seen v side result p (inl i) = inl (inr i)
IsCovered-shift seen v side result p (inr e) =
    inr (or_shift (value_eq p.0 v) (equals_one p.0 seen) (equals_one p.0 (values_of result)) e)

append_new-IsCovered :
    (seen : List Value) (ps : List Placed) → All (IsCovered seen (append_new seen ps)) ps
unfolding append_new
append_new-IsCovered seen [] = tt
append_new-IsCovered seen ((v, side) ∷ ps) = elim (Bool-cases (is_seen v seen)) [
  | inl e ↦
      let known : append_new seen ((v, side) ∷ ps) ≡ append_new seen ps = rw e refl in
      subst (λ r. All (IsCovered seen r) ((v, side) ∷ ps)) (sym known)
        (
          inr (
              or_first (equals_one v seen) (equals_one v (values_of (append_new seen ps)))
                (seen-equals v seen e)),
          append_new-IsCovered seen ps,
        )
  | inr e ↦
      let fresh : append_new seen ((v, side) ∷ ps) ≡ (v, side) ∷ append_new (v ∷ seen) ps =
        rw e refl in
      subst (λ r. All (IsCovered seen r) ((v, side) ∷ ps)) (sym fresh)
        (
          inl (inl refl),
          All-weaken (IsCovered (v ∷ seen) (append_new (v ∷ seen) ps))
              (IsCovered seen ((v, side) ∷ append_new (v ∷ seen) ps)) ps
              (IsCovered-shift seen v side (append_new (v ∷ seen) ps))
              (append_new-IsCovered (v ∷ seen) ps),
        )
]

-- The entries of the first list, in order, among those of the second.
pub data Subsequence : List Placed → List Placed → Type 0 where
  nothing : Subsequence [] []
  keep : (p : Placed) (ps qs : List Placed) → Subsequence ps qs → Subsequence (p ∷ ps) (p ∷ qs)
  leave : (q : Placed) (ps qs : List Placed) → Subsequence ps qs → Subsequence ps (q ∷ qs)

append_new-Subsequence :
    (seen : List Value) (ps : List Placed) → Subsequence (append_new seen ps) ps
unfolding append_new
append_new-Subsequence seen [] = nothing
append_new-Subsequence seen ((v, side) ∷ ps) = elim (Bool-cases (is_seen v seen)) [
  | inl e ↦ rw e (leave (v, side) (append_new seen ps) ps (append_new-Subsequence seen ps))
  | inr e ↦
      rw e (keep (v, side) (append_new (v ∷ seen) ps) ps (append_new-Subsequence (v ∷ seen) ps))
]

-- An append-style merge is the base's entries and then the overlay's, in their order, with some of
-- them left out and none added; no entry of it repeats an earlier one, as the dedupe tells them
-- apart, and every entry of both lists is in it or equals one that is.
pub merge_appended_lem :
    (base over : List Value) (base_side over_side : Side)
    → Subsequence
        (merge_appended base over base_side over_side)
        (enumerate base_side 0 base ++ enumerate over_side 0 over)
      × Fresh [] (merge_appended base over base_side over_side)
      × All
          (IsCovered [] (merge_appended base over base_side over_side))
          (enumerate base_side 0 base ++ enumerate over_side 0 over)
unfolding merge_appended
merge_appended_lem base over base_side over_side =
    let ps = enumerate base_side 0 base ++ enumerate over_side 0 over in
    (append_new-Subsequence [] ps, append_new-Fresh [] ps, append_new-IsCovered [] ps)
