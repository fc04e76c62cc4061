-- ===== src/Value.antt =====
-- A parsed Compose document, as the rules and the merge see it, and the two readings of a leaf:
-- src/compose_lint/_scalar.py and src/compose_lint/rules/_bool.py.
-- The parser keeps every mapping key as text, so keys are texts. A float and any other YAML leaf
-- (a date) stand for themselves by their `str()`.
use compose_lint.Prelude.{
  Bool, List, Option, String, [], ap, false, if◌then◌else◌, none, not, or_else, refl, some, str_eq,
  suc, true, zero, ℕ, ◌||◌, ◌∷◌, ◌≡◌,
}
use compose_lint.Text.{append, decimal, lower, mem_text, strip}
use compose_lint.Dict.{Dict, lookup}

pub data ℤ : Type 0 where
  pos : ℕ → ℤ
  negsuc : ℕ → ℤ

mutual
  pub data Value : Type 0 where
    null : Value
    bool : Bool → Value
    int : ℤ → Value
    float : String → Value
    str : String → Value
    date : String → Value
    seq : Items → Value
    dict : Entries → Value

  pub data Items : Type 0 where
    nil : Items
    cons : Value → Items → Items

  pub data Entries : Type 0 where
    end : Entries
    entry : String → Value → Entries → Entries

-- The containers as lists.
abbrev pub items : Items → List Value
items nil = []
items (cons v vs) = v ∷ items vs

abbrev pub of_items : List Value → Items
of_items [] = nil
of_items (v ∷ vs) = cons v (of_items vs)

abbrev pub entries : Entries → Dict Value
entries end = []
entries (entry k v e) = (k, v) ∷ entries e

abbrev pub of_entries : Dict Value → Entries
of_entries [] = end
of_entries ((k, v) ∷ e) = entry k v (of_entries e)

-- `d.get(k, default)` and `d.get(k)`
unfoldable pub get_default : String → Value → Dict Value → Value
unfolding lookup
get_default k v d = or_else (lookup k d) v

unfoldable pub get : String → Dict Value → Value
unfolding get_default
get k d = get_default k null d

abbrev pub is_container : Value → Bool
is_container (seq _) = true
is_container (dict _) = true
is_container _ = false

abbrev pub is_null : Value → Bool
is_null null = true
is_null _ = false

-- `isinstance(v, dict)`, `isinstance(v, list)`
abbrev pub as_dict : Value → Option (Dict Value)
as_dict (dict e) = some (entries e)
as_dict _ = none

abbrev pub as_list : Value → Option (List Value)
as_list (seq vs) = some (items vs)
as_list _ = none

unfoldable pub int_text : ℤ → String
unfolding decimal
int_text (pos n) = decimal n
int_text (negsuc n) = append "-" (decimal (suc n))

-- as_scalar_text
unfoldable pub as_scalar_text : Value → Option String
unfolding int_text
as_scalar_text null = some "None"
as_scalar_text (bool true) = some "True"
as_scalar_text (bool false) = some "False"
as_scalar_text (int n) = some (int_text n)
as_scalar_text (float s) = some s
as_scalar_text (str s) = some s
as_scalar_text (date s) = some s
as_scalar_text (seq _) = none
as_scalar_text (dict _) = none

abbrev pub true_words : List String
true_words = "y" ∷ "yes" ∷ "true" ∷ "on" ∷ []

abbrev pub false_words : List String
false_words = "n" ∷ "no" ∷ "false" ∷ "off" ∷ []

-- as_bool
unfoldable pub as_bool : Value → Option Bool
unfolding strip lower mem_text
as_bool (bool b) = some b
as_bool (str s) =
    let low = lower (strip s) in
    if mem_text low true_words
    then some true
    else if mem_text low false_words
    then some false
    else none
as_bool _ = none

pub entries-of_entries : (d : Dict Value) → entries (of_entries d) ≡ d
entries-of_entries [] = refl
entries-of_entries ((k, v) ∷ d) = ap (λ (t : Dict Value). (k, v) ∷ t) (entries-of_entries d)

pub items-of_items : (l : List Value) → items (of_items l) ≡ l
items-of_items [] = refl
items-of_items (v ∷ l) = ap (λ (t : List Value). v ∷ t) (items-of_items l)

-- `bool(v)`. A float is its `str()`, so zero is one of two texts.
abbrev pub is_truthy : Value → Bool
is_truthy null = false
is_truthy (bool b) = b
is_truthy (int (pos zero)) = false
is_truthy (int _) = true
is_truthy (float s) = not (str_eq s "0.0" || str_eq s "-0.0")
is_truthy (str s) = not (str_eq s "")
is_truthy (date _) = true
is_truthy (seq nil) = false
is_truthy (seq _) = true
is_truthy (dict end) = false
is_truthy (dict _) = true
