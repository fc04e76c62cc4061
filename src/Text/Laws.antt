-- ===== src/Text/Laws.antt =====
-- Laws of the text functions: joining undoes splitting.
use compose_lint.Prelude.{
  Bool, Bool-cases, Char, Option, String, ap, arith, code, eq_iff, false, inl, inr, none, refl,
  some, str_eq, true, ℕ, ◌+◌, ◌==◌, ◌||◌, ◌≡◌, ◌≢◌,
}
use compose_lint.Text.{append, has_char, len, partition, rpartition, split_last}

pub append-append : (a b c : String) → append (append a b) c ≡ append a (append b c)
append-append String.[] b c = refl
append-append (String.◌∷◌ x a) b c = ap (λ s. String.◌∷◌ x s) (append-append a b c)

pub append-empty : (a : String) → append a "" ≡ a
append-empty String.[] = refl
append-empty (String.◌∷◌ x a) = ap (λ s. String.◌∷◌ x s) (append-empty a)

pub len-append : (a b : String) → len (append a b) ≡ len a + len b
len-append String.[] b = omega arith
len-append (String.◌∷◌ x a) b = omega (arith, len-append a b)

pub has_char-append :
    (k : ℕ) (a b : String) → has_char k (append a b) ≡ (has_char k a || has_char k b)
unfolding has_char
has_char-append k String.[] b = refl
has_char-append k (String.◌∷◌ x a) b = ground (arith, has_char-append k a b)

-- Without the separator the whole text comes first.
pub partition-absent : (k : ℕ) (s : String) → has_char k s ≡ false → partition k s ≡ (s, none)
unfolding partition has_char
partition-absent k String.[] h = refl
partition-absent k (String.◌∷◌ c s) h = ground (arith, partition-absent k s)

pub partition-clean : (k : ℕ) (s : String) → has_char k (partition k s).0 ≡ false
unfolding partition has_char
partition-clean k String.[] = refl
partition-clean k (String.◌∷◌ c s) = elim (Bool-cases (code c == k)) [
  | inl e ↦ rw e refl
  | inr e ↦ rw e (rw e (partition-clean k s))
]

pub rpartition-absent : (k : ℕ) (s : String) → has_char k s ≡ false → rpartition k s ≡ none
unfolding rpartition has_char
rpartition-absent k String.[] h = refl
rpartition-absent k (String.◌∷◌ c s) h = ground (arith, rpartition-absent k s)

pub rpartition-none : (k : ℕ) (s : String) → rpartition k s ≡ none → has_char k s ≡ false
unfolding rpartition has_char
rpartition-none k String.[] h = refl
rpartition-none k (String.◌∷◌ c s) h = ground (arith, rpartition-none k s)

-- What `rpartition` finds in `s`: the text around the last separator.
abbrev pub SplitAt : ℕ → String → String → String → Type 0
SplitAt k s a b =
    (d : Char) × (code d ≡ k) × (s ≡ append a (String.◌∷◌ d b)) × (has_char k b ≡ false)

split_last-SplitAt :
    (k : ℕ) (here : Bool) (c : Char) (s : String) (r : Option (String × String)) (a b : String)
    → (here ≡ true → code c ≡ k)
    → ((u v : String) → r ≡ some (u, v) → SplitAt k s u v)
    → (r ≡ none → has_char k s ≡ false)
    → split_last here c s r ≡ some (a, b)
    → SplitAt k (String.◌∷◌ c s) a b
unfolding split_last
split_last-SplitAt k here c s (some (u, v)) a b sep ih absent h =
    let (d, e, p, q) = ih u v refl in (d, e, cc, cc)
split_last-SplitAt k true c s none a b sep ih absent h =
    let e : "" ≡ a = cc in
    let f : s ≡ b = cc in (c, sep refl, rw (← e) (rw (← f) refl), rw (← f) (absent refl))
split_last-SplitAt k false c s none a b sep ih absent h = absurd (cc)

-- The text is what stands before the last separator, the separator, and what follows it; the
-- part that follows holds no separator.
pub rpartition_lem : (k : ℕ) (s a b : String) → rpartition k s ≡ some (a, b) → SplitAt k s a b
unfolding rpartition
rpartition_lem k String.[] a b h = absurd (cc)
rpartition_lem k (String.◌∷◌ c s) a b h =
    split_last-SplitAt k (code c == k) c s (rpartition k s) a b (λ e. ground arith)
      (rpartition_lem k s) (rpartition-none k s) h

pub str_eq-ne : (a b : String) → a ≢ b → str_eq a b ≡ false
str_eq-ne a b h = elim (Bool-cases (str_eq a b)) [
  | inl e ↦ absurd (h ((eq_iff a b).0 e))
  | inr e ↦ e
]

pub str_eq-cons : (c : Char) (s : String) → str_eq (String.◌∷◌ c s) "" ≡ false
str_eq-cons c s = str_eq-ne (String.◌∷◌ c s) "" (λ e. cc e)
