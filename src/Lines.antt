-- ===== src/Lines.antt =====
-- The line map as one unit's rules see it: `UnitLines` of src/compose_lint/_units.py.
use compose_lint.Prelude.{
  Bool, List, Option, String, [], false, if◌then◌else◌, is_some, length, none, some, str_eq, ℕ,
  ◌++◌, ◌||◌, ◌∷◌,
}
use compose_lint.Text.{append, mem_text, starts_with}
use compose_lint.Dict.{Dict, lookup}

-- _under
unfoldable pub under : String → String → Bool
unfolding starts_with
under key prefix =
    str_eq key prefix || starts_with (append prefix ".") key || starts_with (append prefix "[") key

pub record UnitLines : Type 0 where
  pub base : Dict ℕ
  pub hidden : List String
  pub hidden_trees : List String
  pub alias : Dict ℕ
  pub alias_prefix : Option String

-- What a unit holds: the document's own map, or a view of it.
pub data LineView : Type 0 where
  document : Dict ℕ → LineView
  view : UnitLines → LineView

under_any : String → List String → Bool
under_any key [] = false
under_any key (tree ∷ trees) = under key tree || under_any key trees

-- _is_hidden
unfoldable pub is_hidden : UnitLines → String → Bool
unfolding mem_text under_any
is_hidden l key = mem_text key l.hidden || under_any key l.hidden_trees

in_alias : Option String → String → Bool
in_alias none key = false
in_alias (some prefix) key = under key prefix

-- __getitem__: `none` is the `KeyError`, and what `get` returns then.
unfoldable pub get_item : UnitLines → String → Option ℕ
unfolding is_hidden in_alias lookup
get_item l key =
    if is_hidden l key
    then none
    else if in_alias l.alias_prefix key
    then lookup key l.alias
    else lookup key l.base

-- `lines.get(key)`, what a rule calls.
unfoldable pub get_line : LineView → String → Option ℕ
unfolding get_item lookup
get_line (document lines) key = lookup key lines
get_line (view l) key = get_item l key

-- __contains__, and __iter__ over the alias and then the base.
unfoldable pub contains_key : UnitLines → String → Bool
unfolding get_item
contains_key l key = is_some (get_item l key)

keys_in : UnitLines → Dict ℕ → List String
unfolding contains_key
keys_in l [] = []
keys_in l ((key, _) ∷ d) = let rest = keys_in l d in if contains_key l key then key ∷ rest else rest

unfoldable pub keys : UnitLines → List String
unfolding keys_in
keys l = keys_in l l.alias ++ keys_in l l.base

-- __len__
unfoldable pub size : UnitLines → ℕ
unfolding keys
size l = length (keys l)
