-- ===== src/SourceLines/Laws.antt =====
-- The lines of a text are its text, and the offsets are where they begin.
use compose_lint.Prelude.{
  Bool-cases, Char, List, String, [], ap, arith, code, drop, get_elem?, inl, inr, length, refl,
  some, suc, sym, take, zero, ℕ, ◌+◌, ◌∙◌, ◌∷◌, ◌≡◌, ◌≤◌,
}
use compose_lint.Text.{append, drop_text, len, take_text}
use compose_lint.Text.Laws.{append-append, len-append}
use compose_lint.SourceLines.{continues, glue, joined, split_lines, starts_from}

joined-glue : (c : Char) (ls : List String) → joined (glue c ls) ≡ String.◌∷◌ c (joined ls)
unfolding glue
joined-glue c [] = refl
joined-glue c (l ∷ ls) = refl

pub joined-split_lines : (text : String) → joined (split_lines text) ≡ text
unfolding split_lines
joined-split_lines String.[] = refl
joined-split_lines (String.◌∷◌ c s) = elim (Bool-cases (continues (code c) s)) [
  | inl e ↦ rw e (joined-glue c (split_lines s) ∙ ap (λ t. String.◌∷◌ c t) (joined-split_lines s))
  | inr e ↦ rw e (ap (λ t. String.◌∷◌ c t) (joined-split_lines s))
]

pub length-starts_from :
    (offset : ℕ) (ls : List String) → length (starts_from offset ls) ≡ suc (length ls)
unfolding starts_from
length-starts_from offset [] = refl
length-starts_from offset (l ∷ ls) = ap suc (length-starts_from (offset + len l) ls)

-- The offset of a line is the length of the lines before it; that of the line behind the last is
-- the length of all.
pub starts_from-at :
    (offset n : ℕ) (ls : List String)
    → n ≤ length ls
    → get_elem? (starts_from offset ls) n ≡ some (offset + len (joined (take n ls)))
unfolding starts_from
starts_from-at offset zero [] h = ap some (omega arith)
starts_from-at offset (suc n) [] h = absurd (omega arith)
starts_from-at offset zero (l ∷ ls) h = ap some (omega arith)
starts_from-at offset (suc n) (l ∷ ls) h =
    starts_from-at (offset + len l) n ls (omega arith)
    ∙ ap some (omega (arith, len-append l (joined (take n ls))))

pub joined-take-drop :
    (n : ℕ) (ls : List String) → append (joined (take n ls)) (joined (drop n ls)) ≡ joined ls
joined-take-drop zero ls = refl
joined-take-drop (suc n) [] = refl
joined-take-drop (suc n) (l ∷ ls) =
    append-append l (joined (take n ls)) (joined (drop n ls))
    ∙ ap (λ t. append l t) (joined-take-drop n ls)

-- The text up to the beginning of a line, and from there on, are its lines before and after.
pub take_text-append : (a b : String) → take_text (len a) (append a b) ≡ a
unfolding take_text
take_text-append String.[] b = refl
take_text-append (String.◌∷◌ c a) b = ap (λ t. String.◌∷◌ c t) (take_text-append a b)

pub drop_text-append : (a b : String) → drop_text (len a) (append a b) ≡ b
unfolding drop_text
drop_text-append String.[] b = refl
drop_text-append (String.◌∷◌ c a) b = drop_text-append a b

pub take_text-lines :
    (n : ℕ) (text : String)
    → take_text (len (joined (take n (split_lines text)))) text ≡ joined (take n (split_lines text))
take_text-lines n text =
    ap (take_text (len (joined (take n (split_lines text)))))
      (sym (joined-take-drop n (split_lines text) ∙ joined-split_lines text))
    ∙ take_text-append (joined (take n (split_lines text))) (joined (drop n (split_lines text)))

pub drop_text-lines :
    (n : ℕ) (text : String)
    → drop_text (len (joined (take n (split_lines text)))) text ≡ joined (drop n (split_lines text))
drop_text-lines n text =
    ap (drop_text (len (joined (take n (split_lines text)))))
      (sym (joined-take-drop n (split_lines text) ∙ joined-split_lines text))
    ∙ drop_text-append (joined (take n (split_lines text))) (joined (drop n (split_lines text)))
