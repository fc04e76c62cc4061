-- ===== src/Engine/Quote.antt =====
-- `_quote_references` and `_service_pattern` of src/compose_lint/engine.py: a value that a `.env`
-- substituted is quoted as its `${NAME}`. A document is a tree here, with no YAML aliases, so no
-- node is met twice and `seen` has nothing to skip.
pub mod Names
pub mod Leftmost
use compose_lint.Prelude.{
  Bool, List, Option, String, [], code, false, if◌then◌else◌, leb, none, or_else, some, str_eq, suc,
  zero, ℕ, ◌==◌, ◌||◌, ◌∷◌,
}
use compose_lint.Text.{append, is_space, len, strip_prefix}
use compose_lint.Dict.{Dict, lookup, set_default, update}
use compose_lint.Value.{Value, dict, entries, get, items, seq, str}
use compose_lint.Models.{Finding}

abbrev pub max_walk : ℕ
max_walk = 100000

abbrev quoted_from : ℕ
quoted_from = 8

-- For each substituted text, the names and values that it used.
abbrev pub EnvValues : Type 0
EnvValues = Dict (Dict String)

-- `stack.extend(node)`: the last child is popped first.
abbrev push_items : List Value → List Value → List Value
push_items [] stack = stack
push_items (v ∷ vs) stack = push_items vs (v ∷ stack)

abbrev push_values : Dict Value → List Value → List Value
push_values [] stack = stack
push_values ((k, v) ∷ e) stack = push_values e (v ∷ stack)

update_all : Dict String → EnvValues → Dict String
unfolding update
update_all used [] = used
update_all used ((leaf, names) ∷ rest) = update_all (update used names) rest

-- The walk, with the number of nodes that it may still visit as its fuel.
unfoldable pub walk : ℕ → EnvValues → List Value → Dict String → Dict String
unfolding update_all update lookup
walk fuel env [] used = used
walk zero env (node ∷ stack) used = update_all [] env
walk (suc fuel) env (str s ∷ stack) used =
    walk fuel env stack (update used (or_else (lookup s env) []))
walk (suc fuel) env (dict e ∷ stack) used = walk fuel env (push_values (entries e) stack) used
walk (suc fuel) env (seq vs ∷ stack) used = walk fuel env (push_items (items vs) stack) used
walk (suc fuel) env (_ ∷ stack) used = walk fuel env stack used

is_separator : ℕ → Bool
unfolding is_space
is_separator k =
    k == b':' || k == b'/' || k == b'@' || k == b'=' || k == b',' || k == b';' || is_space k

-- `_SEPARATORS.split(value)`: the first piece, and the others; `inside` a run of separators.
unfoldable pub pieces : Bool → String → String × List String
unfolding is_separator
pieces inside String.[] = ("", [])
pieces inside (String.◌∷◌ c s) =
    let (first, others) = pieces (is_separator (code c)) s in
    if is_separator (code c)
    then (if inside then (first, others) else ("", first ∷ others))
    else (String.◌∷◌ c first, others)

unfoldable pub name_pieces : List String → String → Dict String → Dict String
unfolding set_default
name_pieces [] name names = names
name_pieces (piece ∷ rest) name names =
    name_pieces rest name
      (if leb quoted_from (len piece) then set_default piece name names else names)

unfoldable pub name_values : Dict String → Dict String → Dict String
unfolding name_pieces pieces
name_values [] names = names
name_values ((name, value) ∷ used) names =
    let (first, others) = pieces false value in
    name_values used (name_pieces (value ∷ first ∷ others) name names)

-- `sorted(names, key=len, reverse=True)`, which keeps the order of texts of one length.
unfoldable pub insert_longest : String × String → Dict String → Dict String
insert_longest p [] = p ∷ []
insert_longest p (q ∷ qs) =
    let rest = insert_longest p qs in if leb (len q.0) (len p.0) then p ∷ q ∷ qs else q ∷ rest

unfoldable pub longest_first : Dict String → Dict String
unfolding insert_longest
longest_first [] = []
longest_first (p ∷ ps) = insert_longest p (longest_first ps)

-- _service_pattern: the alternatives in the order that the pattern tries them.
unfoldable pub service_pattern : Value → EnvValues → Dict String
unfolding walk name_values longest_first
service_pattern config env = longest_first (name_values (walk max_walk env (config ∷ []) []) [])

-- The alternative that matches at the head of a text: its name, and what follows the match.
unfoldable pub match_here : Dict String → String → Option (String × String)
unfolding strip_prefix
match_here [] s = none
match_here ((value, name) ∷ names) s = elim (strip_prefix value s) [
  | some rest ↦ some (name, rest)
  | none ↦ match_here names s
]

-- `_p.sub(...)`; each round takes a character at least.
unfoldable pub substitute : ℕ → Dict String → String → String
unfolding match_here
substitute zero names s = s
substitute (suc fuel) names String.[] = ""
substitute (suc fuel) names (String.◌∷◌ c s) = elim (match_here names (String.◌∷◌ c s)) [
  | some (name, rest) ↦ append "${" (append name (append "}" (substitute fuel names rest)))
  | none ↦ String.◌∷◌ c (substitute fuel names s)
]

unfoldable pub quote_text : Dict String → String → String
unfolding substitute
quote_text names s = substitute (len s) names s

-- `sub(finding.fix) if finding.fix else finding.fix`
quote_fix : Dict String → Option String → Option String
unfolding quote_text
quote_fix names none = none
quote_fix names (some fix) = some (if str_eq fix "" then fix else quote_text names fix)

unfoldable pub quote_finding : Dict String → Finding → Finding
unfolding quote_text quote_fix
quote_finding [] f = f
quote_finding (n ∷ names) f = record f {
  message = quote_text (n ∷ names) f.message;
  fix = quote_fix (n ∷ names) f.fix;
}

-- _quote_references. A finding's service that names no unit is walked as `None`.
unfoldable pub quote_references : Dict Value → EnvValues → List Finding → List Finding
unfolding quote_finding service_pattern get
quote_references services env [] = []
quote_references services env (f ∷ fs) =
    quote_finding (service_pattern (get f.service services) env) f
    ∷ quote_references services env fs
