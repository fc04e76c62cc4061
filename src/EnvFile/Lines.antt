-- ===== src/EnvFile/Lines.antt =====
-- Grouping the lines of a `.env` into entries.
use compose_lint.Prelude.{
  Bool-cases, List, Option, String, [], ap, inl, inr, map, none, refl, some, sym, ℕ, ◌+◌, ◌∙◌, ◌∷◌,
  ◌≡◌,
}
use compose_lint.Text.{append}
use compose_lint.EnvFile.{
  Pending, add_line, closes, first_line, join_from, join_multiline_values, opens,
}
use compose_lint.Text.Laws.{append-append, append-empty}

-- Lines, each with its break.
abbrev pub broken : List String → String
broken [] = ""
broken (l ∷ ls) = append l (append "\n" (broken ls))

abbrev pub texts_of : List (ℕ × String) → List String
texts_of ps = map (λ p. p.1) ps

abbrev pending_text : Option Pending → String
pending_text none = ""
pending_text (some p) = append p.buffer "\n"

shift :
    (a b c : String)
    → append (append (append a (append "\n" b)) "\n") c
      ≡ append (append a "\n") (append b (append "\n" c))
shift a b c =
    append-append (append a (append "\n" b)) "\n" c
    ∙ append-append a (append "\n" b) (append "\n" c)
    ∙ sym (append-append a "\n" (append b (append "\n" c)))

broken-join_from :
    (number : ℕ) (pending : Option Pending) (lines : List String)
    → broken (texts_of (join_from number pending lines))
      ≡ append (pending_text pending) (broken lines)
unfolding join_from add_line first_line
broken-join_from number none [] = refl
broken-join_from number (some p) [] = sym (append-empty (append p.buffer "\n"))
broken-join_from number none (line ∷ lines) =
    go (opens line) (broken-join_from (number + 1) none lines)
      λ quote. broken-join_from (number + 1) (some (first_line number line quote)) lines
  where
    go :
        (o : Option ℕ)
        → broken (texts_of (join_from (number + 1) none lines)) ≡ broken lines
        → ((quote : ℕ)
            → broken (texts_of (join_from (number + 1) (some (first_line number line quote)) lines))
              ≡ append (append line "\n") (broken lines))
        → broken (
            texts_of (elim o [
              | none ↦ (number, line) ∷ join_from (number + 1) none lines
              | some quote ↦ join_from (number + 1) (some (first_line number line quote)) lines
            ]))
          ≡ append line (append "\n" (broken lines))
    go none ih ihs = ap (λ t. append line (append "\n" t)) ih
    go (some quote) ih ihs = ihs quote ∙ append-append line "\n" (broken lines)
broken-join_from number (some p) (line ∷ lines) =
    let longer : append (append (append p.buffer (append "\n" line)) "\n") (broken lines)
        ≡ append (append p.buffer "\n") (append line (append "\n" (broken lines))) =
      shift p.buffer line (broken lines) in
    elim (Bool-cases (closes p.quote line)) [
      | inl e ↦ rw e (
          ap (λ t. append (append p.buffer (append "\n" line)) (append "\n" t))
            (broken-join_from (number + 1) none lines)
          ∙ sym (append-append (append p.buffer (append "\n" line)) "\n" (broken lines))
          ∙ longer)
      | inr e ↦ rw e (broken-join_from (number + 1) (some (add_line p line)) lines ∙ longer)
    ]

-- Grouping the physical lines into entries neither drops nor moves a character: written out again,
-- line by line, the entries are the lines of the file, whatever quotes are open at its end.
pub broken-join_multiline_values :
    (lines : List String) → broken (texts_of (join_multiline_values lines)) ≡ broken lines
unfolding join_multiline_values
broken-join_multiline_values lines = broken-join_from 1 none lines
