-- ===== src/Units/Names.antt =====
-- A hook's kind name is its unit name without the index, whatever the index.
use compose_lint.Prelude.{
  Bool, Bool-cases, Char, String, ap, arith, false, inl, inr, ltb, refl, some, str_eq, suc, true,
  zero, ℕ, ◌%◌, ◌/◌, ◌∙◌, ◌≡◌,
}
use compose_lint.Text.{append, decimal, digit, digits, indexed}
use compose_lint.Text.Laws.{append-append, str_eq-cons}
use compose_lint.Units.{Unit', drop_index, hook_name, is_index, kind_name}

append-cons-ne :
    (s : String) (c : Char) (r : String) → str_eq (append s (String.◌∷◌ c r)) "" ≡ false
append-cons-ne String.[] c r = str_eq-cons c r
append-cons-ne (String.◌∷◌ x s) c r = str_eq-cons x (append s (String.◌∷◌ c r))

-- What follows another bracket is no index.
is_index-bracket : (seen : Bool) (s r : String) → is_index seen (append s (append "[" r)) ≡ false
unfolding is_index
is_index-bracket true String.[] r = refl
is_index-bracket false String.[] r = refl
is_index-bracket seen (String.◌∷◌ c s) r =
    ground (arith, is_index-bracket true s r, append-cons-ne s "[" r)

is_index-digit :
    (seen : Bool) (d : ℕ) (t : String) → is_index seen (append (digit d) t) ≡ is_index true t
unfolding is_index digit
is_index-digit seen zero t = refl
is_index-digit seen (suc zero) t = refl
is_index-digit seen (suc (suc zero)) t = refl
is_index-digit seen (suc (suc (suc zero))) t = refl
is_index-digit seen (suc (suc (suc (suc zero)))) t = refl
is_index-digit seen (suc (suc (suc (suc (suc zero))))) t = refl
is_index-digit seen (suc (suc (suc (suc (suc (suc zero)))))) t = refl
is_index-digit seen (suc (suc (suc (suc (suc (suc (suc zero))))))) t = refl
is_index-digit seen (suc (suc (suc (suc (suc (suc (suc (suc zero)))))))) t = refl
is_index-digit seen (suc (suc (suc (suc (suc (suc (suc (suc (suc d))))))))) t = refl

is_index-digits :
    (f : ℕ) (seen : Bool) (n : ℕ) (t : String)
    → is_index seen (append (digits (suc f) n) t) ≡ is_index true t
unfolding digits
is_index-digits zero seen n t = elim (Bool-cases (ltb n 10)) [
  | inl e ↦ rw e (is_index-digit seen n t)
  | inr e ↦ rw e (is_index-digit seen (n % 10) t)
]
is_index-digits (suc f) seen n t = elim (Bool-cases (ltb n 10)) [
  | inl e ↦ rw e (is_index-digit seen n t)
  | inr e ↦ rw e (
      rw (append-append (digits (suc f) (n / 10)) (digit (n % 10)) t) (
        is_index-digits f seen (n / 10) (append (digit (n % 10)) t)
        ∙ is_index-digit true (n % 10) t))
]

is_index-decimal : (i : ℕ) → is_index false (append (decimal i) "]") ≡ true
unfolding decimal is_index
is_index-decimal i = is_index-digits i false i "]"

drop_index-indexed : (a : String) (i : ℕ) → drop_index (indexed a i) ≡ a
unfolding drop_index
drop_index-indexed String.[] i = rw (is_index-decimal i) refl
drop_index-indexed (String.◌∷◌ c a) i =
    ground (arith, is_index-bracket false a (append (decimal i) "]"), drop_index-indexed a i)

-- The kind name of a hook's unit is the service's name and the hook's kind, at every index.
pub kind_name-hook_name :
    (name kind : String) (i : ℕ) (u : Unit')
    → u.hook ≡ true
    → u.name ≡ hook_name name kind i
    → kind_name u ≡ some (append name (append "." kind))
unfolding kind_name hook_name
kind_name-hook_name name kind i u h e =
    rw h (rw e (ap (λ (t : String). some t) (drop_index-indexed (append name (append "." kind)) i)))
