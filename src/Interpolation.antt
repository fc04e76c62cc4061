-- ===== src/Interpolation.antt =====
-- src/compose_lint/rules/_interpolation.py: what a `${...}` is, its braces, its head, and what it
-- resolves to.
pub mod Braces
pub mod Table
pub mod Resolve
pub mod Names
use compose_lint.Prelude.{
  Bool, Char, List, Option, String, [], code, if◌then◌else◌, leb, none, not, some, str_eq, ℕ, ◌&&◌,
  ◌+◌, ◌==◌, ◌||◌, ◌∷◌,
}
use compose_lint.Dict.{Dict, lookup}

abbrev pub max_scan_len : ℕ
max_scan_len = 8192

abbrev pub max_substituted_len : ℕ
max_substituted_len = 131072

-- `[A-Za-z_]` and `[A-Za-z0-9_]`
unfoldable pub starts_name : ℕ → Bool
starts_name k = (leb 65 k && leb k 90) || (leb 97 k && leb k 122) || k == b'_'

unfoldable pub continues_name : ℕ → Bool
unfolding starts_name
continues_name k = starts_name k || (leb 48 k && leb k 57)

-- `[A-Za-z0-9_]*`: what it takes, and what is left.
unfoldable pub name_chars : String → String × String
unfolding continues_name
name_chars String.[] = ("", "")
name_chars (String.◌∷◌ c s) =
    let (name, rest) = name_chars s in
    if continues_name (code c) then (String.◌∷◌ c name, rest) else ("", String.◌∷◌ c s)

-- `_BARE_NAME_RE.match`
unfoldable pub bare_name : String → Option (String × String)
unfolding starts_name name_chars
bare_name String.[] = none
bare_name (String.◌∷◌ c s) =
    if starts_name (code c) then some (name_chars (String.◌∷◌ c s)) else none

-- The operators behind a name: `-`, `:-`, `?`, `:?`, `+` and `:+`.
pub data Operator : Type 0 where
  dash colon_dash question colon_question plus colon_plus : Operator

-- The operator that one character names, without a colon and with one.
operator_of : ℕ → Option (Operator × Operator)
operator_of k =
    if k == b'-'
    then some (dash, colon_dash)
    else if k == b'?'
    then some (question, colon_question)
    else if k == b'+'
    then some (plus, colon_plus)
    else none

after_colon : String → Option (Operator × String)
unfolding operator_of
after_colon String.[] = none
after_colon (String.◌∷◌ c s) = elim (operator_of (code c)) [
  | none ↦ none
  | some (bare, colon) ↦ some (colon, s)
]

-- `(:?[-?+])?`
operator : String → Option (Operator × String)
unfolding operator_of after_colon
operator String.[] = none
operator (String.◌∷◌ c s) = elim (operator_of (code c)) [
  | some (bare, colon) ↦ some (bare, s)
  | none ↦ if code c == b':' then after_colon s else none
]

-- The groups of `_REF_HEAD_RE`, and the text behind its match.
pub record Head : Type 0 where
  pub name : String
  pub op : Option Operator
  pub rest : String

head_with : String → String → Option (Operator × String) → Head
head_with name behind none = record { name = name; op = none; rest = behind }
head_with name behind (some (op, rest)) = record { name = name; op = some op; rest = rest }

-- `_REF_HEAD_RE.match`
unfoldable pub ref_head : String → Option Head
unfolding bare_name operator head_with
ref_head interior = elim (bare_name interior) [
  | none ↦ none
  | some (name, behind) ↦ some (head_with name behind (operator behind))
]

unless_empty : String → Option String
unless_empty value = if str_eq value "" then none else some value

-- What a head resolves to, where its name has a value.
unfoldable pub supplied_by : Option Operator → String → String → Option String
unfolding unless_empty
supplied_by none value alternate = some value
supplied_by (some dash) value alternate = some value
supplied_by (some colon_dash) value alternate = unless_empty value
supplied_by (some colon_question) value alternate = unless_empty value
supplied_by (some question) value alternate = some value
supplied_by (some colon_plus) value alternate = some (if str_eq value "" then "" else alternate)
supplied_by (some plus) value alternate = some alternate

-- _supplied
unfoldable pub supplied : String → Dict String → Option String
unfolding ref_head supplied_by lookup
supplied interior env = elim (ref_head interior) [
  | none ↦ none
  | some h ↦ elim (lookup h.name env) [ none ↦ none | some value ↦ supplied_by h.op value h.rest ]
]

default_in : Option Operator → String → Option String
default_in (some colon_dash) rest = some rest
default_in (some dash) rest = some rest
default_in _ rest = none

-- _default_of
unfoldable pub default_of : String → Option String
unfolding ref_head default_in
default_of interior = elim (ref_head interior) [ none ↦ none | some h ↦ default_in h.op h.rest ]

alternate_in : Option Operator → String → Option String
alternate_in (some colon_plus) rest = some rest
alternate_in (some plus) rest = some rest
alternate_in _ rest = none

-- _alternate_of
unfoldable pub alternate_of : String → Option String
unfolding ref_head alternate_in
alternate_of interior = elim (ref_head interior) [ none ↦ none | some h ↦ alternate_in h.op h.rest ]

-- The pass over the text at index `i`, with the indexes of the braces that are open.
unfoldable pub brace_pairs_from : ℕ → List ℕ → String → List (ℕ × ℕ)
brace_pairs_from i open_at String.[] = []
brace_pairs_from i [] (String.◌∷◌ c s) =
    let opened = brace_pairs_from (i + 1) (i ∷ []) s in
    let skipped = brace_pairs_from (i + 1) [] s in if code c == b'{' then opened else skipped
brace_pairs_from i (o ∷ open_at) (String.◌∷◌ c s) =
    let opened = brace_pairs_from (i + 1) (i ∷ o ∷ open_at) s in
    let closed = brace_pairs_from (i + 1) open_at s in
    let skipped = brace_pairs_from (i + 1) (o ∷ open_at) s in
    if code c == b'{' then opened else if code c == b'}' then (o, i) ∷ closed else skipped

-- _brace_pairs
unfoldable pub brace_pairs : String → List (ℕ × ℕ)
unfolding brace_pairs_from
brace_pairs value = brace_pairs_from 0 [] value

unfoldable pub pair_at : ℕ → List (ℕ × ℕ) → Option ℕ
pair_at k [] = none
pair_at k ((i, j) ∷ pairs) = if k == i then some j else pair_at k pairs

-- _matching_brace
unfoldable pub matching_brace : String → ℕ → Option ℕ
unfolding brace_pairs pair_at
matching_brace value start = pair_at start (brace_pairs value)

-- What stands at a character with another one behind it: an escaped dollar, the dollar of a brace,
-- another dollar, or any other character.
pub data Turn : Type 0 where
  literal escaped in_braces bare_dollar : Turn

unfoldable pub turn : Char → Char → Turn
turn c d =
    if not (code c == b'$')
    then literal
    else if code d == b'$'
    then escaped
    else if code d == b'{'
    then in_braces
    else bare_dollar
