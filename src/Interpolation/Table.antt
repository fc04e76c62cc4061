-- ===== src/Interpolation/Table.antt =====
-- The precedence between a supplied value and what is written, as Compose's own table has it.
use compose_lint.Prelude.{Bool, Option, String, false, if◌then◌else◌, none, refl, some, true, ◌≡◌}
use compose_lint.Dict.{Dict, lookup}
use compose_lint.Interpolation.{
  Head, Operator, colon_dash, colon_plus, colon_question, dash, default_in, default_of, plus,
  question, ref_head, supplied, supplied_by,
}
use compose_lint.Text.Laws.{str_eq-cons}

-- How a name stands in the environment.
pub data Presence : Type 0 where
  unset : Presence
  empty : Presence
  set : String → Presence

abbrev pub presence : Option String → Presence
presence none = unset
presence (some String.[]) = empty
presence (some (String.◌∷◌ c s)) = set (String.◌∷◌ c s)

-- What Compose makes of a reference.
pub data Shipped : Type 0 where
  ships : String → Shipped
  refused : Shipped

-- The table of Compose's answers in `_supplied`, and its row for a plain reference, which ships empty
-- where the name is unset: `text` is the default, the alternate or the error text behind the operator.
abbrev pub table : Option Operator → String → Presence → Shipped
table none text (set v) = ships v
table none text empty = ships ""
table none text unset = ships ""
table (some colon_dash) text (set v) = ships v
table (some colon_dash) text empty = ships text
table (some colon_dash) text unset = ships text
table (some dash) text (set v) = ships v
table (some dash) text empty = ships ""
table (some dash) text unset = ships text
table (some colon_question) text (set v) = ships v
table (some colon_question) text empty = refused
table (some colon_question) text unset = refused
table (some question) text (set v) = ships v
table (some question) text empty = ships ""
table (some question) text unset = refused
table (some colon_plus) text (set v) = ships text
table (some colon_plus) text empty = ships ""
table (some colon_plus) text unset = ships ""
table (some plus) text (set v) = ships text
table (some plus) text empty = ships text
table (some plus) text unset = ships ""

-- The answer that does not hang on the shell's variables: the files know that a name is set, and
-- with a default it does not matter; otherwise a name that they lack may still be set.
abbrev pub known_from_files : Option Operator → Presence → Bool
known_from_files op (set v) = true
known_from_files op empty = true
known_from_files (some colon_dash) unset = true
known_from_files (some dash) unset = true
known_from_files _ unset = false

-- What a reference resolves to; with nothing it stays as it is written.
abbrev pub shipped : Shipped → Option String
shipped (ships v) = some v
shipped refused = none

abbrev pub resolved_to : Option Operator → String → Presence → Option String
resolved_to op text p = if known_from_files op p then shipped (table op text p) else none

-- What the two functions say of an interior together, before the default is resolved in its turn.
abbrev pub outcome : Option String → Option String → Option String
outcome (some v) d = some v
outcome none d = d

known :
    (op : Option Operator) (text : String) (v : String)
    → outcome (supplied_by op v text) (default_in op text) ≡ resolved_to op text (presence (some v))
unfolding supplied_by default_in
known none text String.[] = refl
known none text (String.◌∷◌ c s) = refl
known (some dash) text String.[] = refl
known (some dash) text (String.◌∷◌ c s) = refl
known (some question) text String.[] = refl
known (some question) text (String.◌∷◌ c s) = refl
known (some plus) text String.[] = refl
known (some plus) text (String.◌∷◌ c s) = refl
known (some colon_dash) text String.[] = refl
known (some colon_dash) text (String.◌∷◌ c s) = rw (str_eq-cons c s) refl
known (some colon_question) text String.[] = refl
known (some colon_question) text (String.◌∷◌ c s) = rw (str_eq-cons c s) refl
known (some colon_plus) text String.[] = refl
known (some colon_plus) text (String.◌∷◌ c s) = rw (str_eq-cons c s) refl

absent :
    (op : Option Operator) (text : String)
    → outcome none (default_in op text) ≡ resolved_to op text unset
unfolding default_in
absent none text = refl
absent (some dash) text = refl
absent (some question) text = refl
absent (some plus) text = refl
absent (some colon_dash) text = refl
absent (some colon_question) text = refl
absent (some colon_plus) text = refl

-- What a reference resolves to, its supplied value before its default, is what the documented table
-- of Compose's answers has for its operator and for a name that is set, empty or unset, but for two
-- kinds of reference, which stay as they are written: those that Compose refuses, and those to an
-- unset name without a default (a plain one, and `:+` and `+`), since the shell may set the name.
pub supplied-table :
    (interior : String) (env : Dict String) (h : Head)
    → ref_head interior ≡ some h
    → outcome (supplied interior env) (default_of interior)
      ≡ resolved_to h.op h.rest (presence (lookup h.name env))
unfolding supplied default_of
supplied-table interior env h e = rw (e, outcome, supplied, default_of) (go (lookup h.name env))
  where
    go :
        (o : Option String)
        → outcome
            (elim o [ none ↦ none | some value ↦ supplied_by h.op value h.rest ])
            (default_in h.op h.rest)
          ≡ resolved_to h.op h.rest (presence o)
    go none = absent h.op h.rest
    go (some v) = known h.op h.rest v
