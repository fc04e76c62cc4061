-- ===== src/Interpolation/Names/Fuel.antt =====
-- The fuel of `reference_names` is no limit of its own.
use compose_lint.Prelude.{
  Char, List, Option, String, [], ap, ap₂, arith, if◌then◌else◌, ltb, none, refl, some, suc, zero,
  ℕ, ◌++◌, ◌+◌, ◌-◌, ◌<◌, ◌∙◌, ◌≡◌,
}
use compose_lint.Text.{len, slice}
use compose_lint.Interpolation.{
  Turn, alternate_of, bare_dollar, default_of, escaped, in_braces, literal, matching_brace,
  max_scan_len, turn,
}
use compose_lint.Interpolation.Names.{
  braced_names, head_name, interior_names, names_at, names_from, names_in, names_turn, names_within,
  reference_names,
}
use compose_lint.Interpolation.Names.Lengths.{
  TextWithin, alternate_of-TextWithin, default_of-TextWithin, len-slice,
}

module _ (f g : String → List String) (n : ℕ) (ih : (t : String) → len t < n → f t ≡ g t) where
  names_in-cong : (o : Option String) (m : ℕ) → m < n → TextWithin m o → names_in f o ≡ names_in g o
  unfolding names_in
  names_in-cong none m h k = refl
  names_in-cong (some t) m h k = ih t (omega (arith, h, k))

  interior_names-cong :
      (interior : String) → len interior < n → interior_names f interior ≡ interior_names g interior
  unfolding interior_names
  interior_names-cong interior h =
      ap (λ (t : List String). head_name interior ++ t)
        (ap₂ ◌++◌
          (names_in-cong (default_of interior) (len interior) h (default_of-TextWithin interior))
          (names_in-cong (alternate_of interior) (len interior) h
            (alternate_of-TextWithin interior)))

  names_at-cong :
      (value : String) (i : ℕ) (c : Char) (s : String)
      → len value ≡ n
      → 0 < len value
      → names_at f value i c s ≡ names_at g value i c s
  unfolding names_at names_turn braced_names
  names_at-cong value i c String.[] e p = refl
  names_at-cong value i c (String.◌∷◌ d s) e p = go (turn c d)
    where
      braced_cong : (o : Option ℕ) → braced_names f value i o ≡ braced_names g value i o
      braced_cong none = refl
      braced_cong (some close) =
          let two : i + 2 ≡ suc (i + 1) = omega arith in
          let inside : len (slice (i + 2) close value) < n =
            rw two (rw (← e) (len-slice (i + 1) close value p)) in
          ap (λ (t : List String). (t, close - i))
            (interior_names-cong (slice (i + 2) close value) inside)

      go :
          (t : Turn)
          → names_turn f value i (String.◌∷◌ d s) t ≡ names_turn g value i (String.◌∷◌ d s) t
      go literal = refl
      go escaped = refl
      go in_braces = braced_cong (matching_brace value (i + 1))
      go bare_dollar = refl

  names_from-cong :
      (value : String) (skip i : ℕ) (s : String)
      → len value ≡ n
      → 0 < len value
      → names_from f value skip i s ≡ names_from g value skip i s
  unfolding names_from
  names_from-cong value skip i String.[] e p = refl
  names_from-cong value (suc skip) i (String.◌∷◌ c s) e p = names_from-cong value skip (i + 1) s e p
  names_from-cong value zero i (String.◌∷◌ c s) e p =
      ap (λ (r : List String × ℕ). r.0 ++ names_from f value r.1 (i + 1) s)
        (names_at-cong value i c s e p)
      ∙ ap (λ (t : List String). (names_at g value i c s).0 ++ t)
          (names_from-cong value (names_at g value i c s).1 (i + 1) s e p)

names_within-stable :
    (a b : ℕ) (value : String)
    → len value < a
    → len value < b
    → names_within a value ≡ names_within b value
unfolding names_within names_from
names_within-stable zero b value h k = absurd (omega arith)
names_within-stable (suc a) zero value h k = absurd (omega arith)
names_within-stable (suc a) (suc b) String.[] h k = refl
names_within-stable (suc a) (suc b) (String.◌∷◌ c s) h k =
    ap (λ (t : List String). if ltb max_scan_len (suc (len s)) then [] else t)
      (names_from-cong (names_within a) (names_within b) (suc (len s))
        (λ t w. names_within-stable a b t (omega arith) (omega arith)) (String.◌∷◌ c s) 0 0
        (String.◌∷◌ c s) refl (omega arith))

-- More fuel than the length of the text changes nothing: the fuel is never what ends the search. The
-- interpreter's stack may end the program's first.
pub reference_names-stable :
    (fuel : ℕ) (value : String) → len value < fuel → names_within fuel value ≡ reference_names value
unfolding reference_names
reference_names-stable fuel value h =
    names_within-stable fuel (suc (len value)) value h (omega arith)
