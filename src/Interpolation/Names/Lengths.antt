-- ===== src/Interpolation/Names/Lengths.antt =====
-- An interior and what stands in it are shorter than their text.
use compose_lint.Prelude.{
  Bool, Bool-cases, Option, String, arith, code, false, if◌then◌else◌, inl, inr, none, some, suc,
  true, zero, ℕ, ◌-◌, ◌<◌, ◌==◌, ◌≤◌,
}
use compose_lint.Text.{drop_text, len, slice, take_text}
use compose_lint.Interpolation.{
  Head, Operator, after_colon, alternate_in, alternate_of, bare_name, colon_dash, colon_plus,
  colon_question, continues_name, dash, default_in, default_of, head_with, name_chars, operator,
  operator_of, plus, question, ref_head, starts_name,
}

len-take_text : (n : ℕ) (s : String) → len (take_text n s) ≤ len s
unfolding take_text
len-take_text zero s = omega arith
len-take_text (suc n) String.[] = omega arith
len-take_text (suc n) (String.◌∷◌ c s) = omega (arith, len-take_text n s)

len-drop_text : (n : ℕ) (s : String) → len (drop_text n s) ≤ len s
unfolding drop_text
len-drop_text zero s = omega arith
len-drop_text (suc n) String.[] = omega arith
len-drop_text (suc n) (String.◌∷◌ c s) = omega (arith, len-drop_text n s)

-- A slice that leaves out the first character.
pub len-slice : (i j : ℕ) (s : String) → 0 < len s → len (slice (suc i) j s) < len s
unfolding slice drop_text
len-slice i j String.[] h = absurd (omega arith)
len-slice i j (String.◌∷◌ c s) h =
    omega (arith, len-take_text (j - suc i) (drop_text i s), len-drop_text i s)

len-name_chars : (s : String) → len (name_chars s).1 ≤ len s
unfolding name_chars
len-name_chars String.[] = omega arith
len-name_chars (String.◌∷◌ c s) = elim (Bool-cases (continues_name (code c))) [
  | inl e ↦ rw e (omega (arith, len-name_chars s))
  | inr e ↦ rw e (omega arith)
]

-- A match leaves no more than there was.
abbrev Within {ℓ} : {A : Type ℓ} → ℕ → Option (A × String) → Type 0
Within n none = Unit
Within n (some (a, rest)) = len rest ≤ n

bare_name-Within : (s : String) → Within (len s) (bare_name s)
unfolding bare_name
bare_name-Within String.[] = tt
bare_name-Within (String.◌∷◌ c s) = elim (Bool-cases (starts_name (code c))) [
  | inl e ↦ rw e (omega (arith, len-name_chars s))
  | inr e ↦ rw e tt
]

after_colon-Within : (s : String) → Within (len s) (after_colon s)
unfolding after_colon
after_colon-Within String.[] = tt
after_colon-Within (String.◌∷◌ c s) = go (operator_of (code c))
  where
    go :
        (o : Option (Operator × Operator))
        → Within (suc (len s)) (elim o [ none ↦ none | some (bare, colon) ↦ some (colon, s) ])
    go none = tt
    go (some (bare, colon)) = omega arith

Within-up : (n : ℕ) (o : Option (Operator × String)) → Within n o → Within (suc n) o
Within-up n none h = tt
Within-up n (some (a, rest)) h = omega (arith, h)

Within-if :
    (n : ℕ) (b : Bool) (o : Option (Operator × String))
    → Within n o
    → Within n (if b then o else none)
Within-if n true o h = h
Within-if n false o h = tt

operator-Within : (s : String) → Within (len s) (operator s)
unfolding operator
operator-Within String.[] = tt
operator-Within (String.◌∷◌ c s) = go (operator_of (code c))
  where
    go :
        (o : Option (Operator × Operator))
        → Within (suc (len s)) (elim o [
          | some (bare, colon) ↦ some (bare, s)
          | none ↦ if code c == b':' then after_colon s else none
        ])
    go none =
        Within-if (suc (len s)) (code c == b':') (after_colon s)
          (Within-up (len s) (after_colon s) (after_colon-Within s))
    go (some (bare, colon)) = omega arith

abbrev HeadWithin : ℕ → Option Head → Type 0
HeadWithin n none = Unit
HeadWithin n (some h) = len h.rest ≤ n

ref_head-HeadWithin : (s : String) → HeadWithin (len s) (ref_head s)
unfolding ref_head head_with
ref_head-HeadWithin s = go (bare_name s) (bare_name-Within s)
  where
    behind :
        (name rest : String) (o : Option (Operator × String))
        → len rest ≤ len s
        → Within (len rest) o
        → len (head_with name rest o).rest ≤ len s
    behind name rest none h k = h
    behind name rest (some (op, r)) h k = omega (arith, h, k)

    go :
        (o : Option (String × String))
        → Within (len s) o
        → HeadWithin (len s) (elim o [
          | none ↦ none
          | some (name, rest) ↦ some (head_with name rest (operator rest))
        ])
    go none h = tt
    go (some (name, rest)) h = behind name rest (operator rest) h (operator-Within rest)

abbrev pub TextWithin : ℕ → Option String → Type 0
TextWithin n none = Unit
TextWithin n (some s) = len s ≤ n

-- A default is no longer than its interior.
pub default_of-TextWithin : (s : String) → TextWithin (len s) (default_of s)
unfolding default_of default_in
default_of-TextWithin s = go (ref_head s) (ref_head-HeadWithin s)
  where
    pick :
        (op : Option Operator) (rest : String)
        → len rest ≤ len s
        → TextWithin (len s) (default_in op rest)
    pick none rest h = tt
    pick (some dash) rest h = h
    pick (some colon_dash) rest h = h
    pick (some question) rest h = tt
    pick (some colon_question) rest h = tt
    pick (some plus) rest h = tt
    pick (some colon_plus) rest h = tt

    go :
        (o : Option Head)
        → HeadWithin (len s) o
        → TextWithin (len s) (elim o [ none ↦ none | some h ↦ default_in h.op h.rest ])
    go none h = tt
    go (some h) k = pick h.op h.rest k

-- Nor is an alternate.
pub alternate_of-TextWithin : (s : String) → TextWithin (len s) (alternate_of s)
unfolding alternate_of alternate_in
alternate_of-TextWithin s = go (ref_head s) (ref_head-HeadWithin s)
  where
    pick :
        (op : Option Operator) (rest : String)
        → len rest ≤ len s
        → TextWithin (len s) (alternate_in op rest)
    pick none rest h = tt
    pick (some dash) rest h = tt
    pick (some colon_dash) rest h = tt
    pick (some question) rest h = tt
    pick (some colon_question) rest h = tt
    pick (some plus) rest h = h
    pick (some colon_plus) rest h = h

    go :
        (o : Option Head)
        → HeadWithin (len s) o
        → TextWithin (len s) (elim o [ none ↦ none | some h ↦ alternate_in h.op h.rest ])
    go none h = tt
    go (some h) k = pick h.op h.rest k
