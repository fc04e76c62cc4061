-- ===== src/Merge/Equal.antt =====
-- Python's `==` on the values of a document: a Boolean, an integer and a float are compared as
-- numbers, and a mapping without regard to the order of its keys. A float is its `repr`, in which an
-- integral one ends in `.0` below 10 ** 16.
use compose_lint.Prelude.{
  Bool, Option, String, false, if◌then◌else◌, length, none, some, str_eq, suc, true, ℕ, ◌&&◌, ◌+◌,
  ◌==◌,
}
use compose_lint.Text.{append}
use compose_lint.Dict.{Dict, lookup}
use compose_lint.Value.{
  Entries, Items, Value, bool, cons, date, dict, end, entries, entry, float, int, int_text, nil,
  null, seq, str,
}

-- The text of a number, written as a float is; a NaN equals nothing.
number_text : Value → Option String
unfolding int_text
number_text (bool true) = some "1.0"
number_text (bool false) = some "0.0"
number_text (int n) = some (append (int_text n) ".0")
number_text (float s) = if str_eq s "nan" then none else some (if str_eq s "-0.0" then "0.0" else s)
number_text _ = none

same_number : Option String → Option String → Bool
same_number (some a) (some b) = str_eq a b
same_number _ _ = false

scalar_eq : Value → Value → Bool
unfolding number_text same_number
scalar_eq (str s) (str t) = str_eq s t
scalar_eq (date s) (date t) = str_eq s t
scalar_eq null null = true
scalar_eq v w = same_number (number_text v) (number_text w)

unfoldable mutual
  unfolding scalar_eq lookup

  pub value_eq : Value → Value → Bool
  value_eq (seq vs) (seq ws) = items_eq vs ws
  value_eq (dict d) (dict e) = length (entries d) == length (entries e) && entries_in d (entries e)
  value_eq (seq vs) w = false
  value_eq (dict d) w = false
  value_eq v w = scalar_eq v w

  pub items_eq : Items → Items → Bool
  items_eq nil nil = true
  items_eq (cons v vs) (cons w ws) = value_eq v w && items_eq vs ws
  items_eq _ _ = false

  pub entries_in : Entries → Dict Value → Bool
  entries_in end e = true
  entries_in (entry k v d) e = elim (lookup k e) [
    | none ↦ false
    | some w ↦ value_eq v w && entries_in d e
  ]

-- The nodes that `_canonical` spends on a value.
unfoldable mutual
  pub nodes : Value → ℕ
  nodes (seq vs) = suc (item_nodes vs)
  nodes (dict d) = suc (entry_nodes d)
  nodes v = 1

  pub item_nodes : Items → ℕ
  item_nodes nil = 0
  item_nodes (cons v vs) = nodes v + item_nodes vs

  pub entry_nodes : Entries → ℕ
  entry_nodes end = 0
  entry_nodes (entry k v d) = nodes v + entry_nodes d
