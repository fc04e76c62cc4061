-- ===== src/Interpolation/Resolve.antt =====
-- `_resolve_defaults`, `substitute_defaults`, `exceeds_limits` and `ships_no_literal`.
pub mod Limits
use compose_lint.Prelude.{
  Bool, Char, Option, String, [], code, false, if◌then◌else◌, is_some, ltb, none, not, some, suc,
  true, zero, ℕ, ◌&&◌, ◌+◌, ◌-◌, ◌==◌, ◌||◌, ◌∷◌,
}
use compose_lint.Text.{append, has_char, len, slice, take_text}
use compose_lint.Dict.{Dict, lookup}
use compose_lint.Interpolation.{
  Turn, bare_dollar, bare_name, default_of, escaped, in_braces, literal, matching_brace,
  max_scan_len, max_substituted_len, supplied, turn,
}

-- `value.replace("$$", "")`
unfoldable pub drop_escapes : String → String
drop_escapes String.[] = ""
drop_escapes (String.◌∷◌ c String.[]) = String.◌∷◌ c ""
drop_escapes (String.◌∷◌ c (String.◌∷◌ d s)) =
    let dropped = drop_escapes s in
    let kept = drop_escapes (String.◌∷◌ d s) in
    if code c == b'$' && code d == b'$' then dropped else String.◌∷◌ c kept

-- `\{[^}]+\}` behind a dollar.
braced : String → Bool
unfolding has_char
braced (String.◌∷◌ c (String.◌∷◌ d s)) = code c == b'{' && not (code d == b'}') && has_char b'}' s
braced _ = false

is_name : String → Bool
unfolding bare_name
is_name s = is_some (bare_name s)

-- `_VAR_REF_RE.search`
unfoldable pub has_reference : String → Bool
unfolding braced is_name
has_reference String.[] = false
has_reference (String.◌∷◌ c s) = (code c == b'$' && (braced s || is_name s)) || has_reference s

-- `[^}]*\}`: what is left behind the first closing brace.
unfoldable pub behind_brace : String → Option String
behind_brace String.[] = none
behind_brace (String.◌∷◌ c s) = let rest = behind_brace s in if code c == b'}' then some s else rest

-- `(:?[?+][^}]*)?\}` behind a name.
without_default : String → Option String
unfolding behind_brace
without_default String.[] = none
without_default (String.◌∷◌ c String.[]) = if code c == b'}' then some "" else none
without_default (String.◌∷◌ c (String.◌∷◌ d s)) =
    if code c == b'}'
    then some (String.◌∷◌ d s)
    else if code c == b'?' || code c == b'+'
    then behind_brace (String.◌∷◌ d s)
    else if code c == b':' && (code d == b'?' || code d == b'+')
    then behind_brace s
    else none

-- `_VAR_NO_DEFAULT_RE` behind its dollar: what is left behind the match.
unfoldable pub no_default_at : String → Option String
unfolding bare_name without_default
no_default_at String.[] = none
no_default_at (String.◌∷◌ c s) =
    if code c == b'{'
    then elim (bare_name s) [ none ↦ none | some (name, rest) ↦ without_default rest ]
    else elim (bare_name (String.◌∷◌ c s)) [ none ↦ none | some (name, rest) ↦ some rest ]

-- `_VAR_NO_DEFAULT_RE.search`
unfoldable pub has_no_default : String → Bool
unfolding no_default_at
has_no_default String.[] = false
has_no_default (String.◌∷◌ c s) = (code c == b'$' && is_some (no_default_at s)) || has_no_default s

-- `_VAR_NO_DEFAULT_RE.sub("", text) == ""`: one match after another covers the text. Each takes a
-- character at least.
all_matched : ℕ → String → Bool
unfolding no_default_at
all_matched fuel String.[] = true
all_matched zero (String.◌∷◌ c s) = false
all_matched (suc fuel) (String.◌∷◌ c s) = elim (no_default_at s) [
  | none ↦ false
  | some rest ↦ code c == b'$' && all_matched fuel rest
]

-- `text[1:-1]` where the text stands in a pair of quotes.
last_code : ℕ → String → ℕ
last_code k String.[] = k
last_code k (String.◌∷◌ c s) = last_code (code c) s

unfoldable pub unquote : String → String
unfolding last_code take_text
unquote String.[] = ""
unquote (String.◌∷◌ c String.[]) = String.◌∷◌ c ""
unquote (String.◌∷◌ c (String.◌∷◌ d s)) =
    if last_code (code d) s == code c && (code c == b'"' || code c == 39)
    then take_text (len s) (String.◌∷◌ d s)
    else String.◌∷◌ c (String.◌∷◌ d s)

-- ships_no_literal
unfoldable pub ships_no_literal : String → Bool
unfolding drop_escapes unquote all_matched
ships_no_literal value =
    let text = unquote (drop_escapes value) in
    if ltb max_scan_len (len value) then false else all_matched (len text) text

-- A written reference: its supplied value, else its resolved default, else itself; with the number
-- of characters behind the first one that it takes.
unfoldable pub resolve_default :
    (String → Option String) → Option String → String → ℕ → Option (String × ℕ)
resolve_default inner none written skip = some (written, skip)
resolve_default inner (some default) written skip = elim (inner default) [
  | none ↦ none
  | some resolved ↦ some (resolved, skip)
]

unfoldable pub resolve_reference :
    (String → Option String) → Dict String → String → String → ℕ → Option (String × ℕ)
unfolding supplied default_of resolve_default
resolve_reference inner env interior written skip = elim (supplied interior env) [
  | some value ↦ some (value, skip)
  | none ↦ resolve_default inner (default_of interior) written skip
]

-- A `$NAME` that the environment supplies, else the dollar.
unfoldable pub resolve_bare : Dict String → Char → Option (String × String) → Option (String × ℕ)
unfolding lookup
resolve_bare env c none = some (String.◌∷◌ c "", 0)
resolve_bare env c (some (name, rest)) = elim (lookup name env) [
  | none ↦ some (String.◌∷◌ c "", 0)
  | some value ↦ some (value, len name)
]

unfoldable pub resolve_braced :
    (String → Option String)
    → Dict String
    → String
    → ℕ
    → Char
    → String
    → Option ℕ
    → Option (String × ℕ)
unfolding resolve_bare resolve_reference slice bare_name
resolve_braced inner env value i c s none = resolve_bare env c (bare_name s)
resolve_braced inner env value i c s (some close) =
    resolve_reference inner env (slice (i + 2) close value) (slice i (close + 1) value) (close - i)

unfoldable pub resolve_turn :
    (String → Option String) → Dict String → String → ℕ → Char → String → Turn → Option (String × ℕ)
unfolding resolve_bare resolve_braced matching_brace bare_name
resolve_turn inner env value i c s literal = some (String.◌∷◌ c "", 0)
resolve_turn inner env value i c s escaped = some ("$$", 1)
resolve_turn inner env value i c s in_braces =
    resolve_braced inner env value i c s (matching_brace value (i + 1))
resolve_turn inner env value i c s bare_dollar = resolve_bare env c (bare_name s)

-- The step of the loop at index `i`, whose character is `c` with `s` behind it.
unfoldable pub resolve_at :
    (String → Option String) → Dict String → String → ℕ → Char → String → Option (String × ℕ)
unfolding resolve_turn turn
resolve_at inner env value i c String.[] = some (String.◌∷◌ c "", 0)
resolve_at inner env value i c (String.◌∷◌ d s) =
    resolve_turn inner env value i c (String.◌∷◌ d s) (turn c d)

unfoldable pub join_rest : String → Option String → Option String
join_rest piece none = none
join_rest piece (some rest) = some (append piece rest)

-- The rest of the text behind a piece, given how far to skip and the length of the piece.
unfoldable pub and_rest : Option (String × ℕ) → (ℕ → ℕ → Option String) → Option String
unfolding join_rest
and_rest none rest = none
and_rest (some (piece, skip)) rest = join_rest piece (rest skip (len piece))

-- The loop of _resolve_defaults: `skip` characters belong to the last reference.
unfoldable pub resolve_from :
    (String → Option String) → Dict String → String → ℕ → ℕ → ℕ → String → Option String
unfolding resolve_at and_rest
resolve_from inner env value skip i produced String.[] =
    if ltb max_substituted_len produced then none else some ""
resolve_from inner env value (suc skip) i produced (String.◌∷◌ c s) =
    resolve_from inner env value skip (i + 1) produced s
resolve_from inner env value zero i produced (String.◌∷◌ c s) =
    and_rest (if ltb max_substituted_len produced then none else resolve_at inner env value i c s)
      λ skip n. resolve_from inner env value skip (i + 1) (produced + n) s

-- _resolve_defaults, with the number of levels that are left.
unfoldable pub resolve_defaults : ℕ → Dict String → String → Option String
unfolding resolve_from
resolve_defaults zero env value = none
resolve_defaults (suc levels) env value =
    resolve_from (resolve_defaults levels env) env value 0 0 0 value

-- `_MAX_NESTING + 1`: the depths 0 to 32.
abbrev pub max_levels : ℕ
max_levels = 33

-- exceeds_limits
unfoldable pub exceeds_limits : String → Dict String → Bool
unfolding has_reference drop_escapes resolve_defaults
exceeds_limits value env =
    if not (has_reference (drop_escapes value))
    then false
    else if ltb max_scan_len (len value)
    then true
    else not (is_some (resolve_defaults max_levels env value))

-- The resolved text, unless a reference without a default remains in it.
unfoldable pub knowable : Option String → Option String
unfolding has_no_default drop_escapes
knowable none = none
knowable (some resolved) = if has_no_default (drop_escapes resolved) then none else some resolved

-- substitute_defaults
unfoldable pub substitute_defaults : String → Dict String → Option String
unfolding has_reference drop_escapes resolve_defaults knowable
substitute_defaults value env =
    if ltb max_scan_len (len value)
    then none
    else if not (has_reference (drop_escapes value))
    then some value
    else knowable (resolve_defaults max_levels env value)
