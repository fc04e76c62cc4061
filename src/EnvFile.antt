-- ===== src/EnvFile.antt =====
-- src/compose_lint/_env_file.py: the lines and the entries of a `.env`, and their expansion in order.
pub mod Lines
pub mod Resolve
use compose_lint.Prelude.{
  Bool, List, Option, String, [], code, false, if◌then◌else◌, none, not, some, str_eq, true, ℕ,
  ◌&&◌, ◌+◌, ◌==◌, ◌||◌, ◌∷◌,
}
use compose_lint.Text.{
  append, has_char, is_space, len, lstrip, partition, rstrip, starts_with, strip, strip_prefix,
  take_text,
}
use compose_lint.Interpolation.{continues_name, escaped, starts_name}
use compose_lint.Merge.Keys.{split_on}

-- `_EXPORT_RE.sub("", line)`
unfoldable pub drop_export : String → String
unfolding lstrip strip_prefix is_space
drop_export line = elim (strip_prefix "export" (lstrip line)) [
  | none ↦ line
  | some String.[] ↦ line
  | some (String.◌∷◌ c rest) ↦ if is_space (code c) then lstrip rest else line
]

key_chars : String → Bool
unfolding continues_name
key_chars String.[] = true
key_chars (String.◌∷◌ c s) =
    (continues_name (code c) || code c == b'.' || code c == b'-') && key_chars s

-- `_KEY_RE.match`
unfoldable pub is_key : String → Bool
unfolding starts_name key_chars
is_key String.[] = false
is_key (String.◌∷◌ c s) = starts_name (code c) && key_chars s

-- _closing_quote, behind the opening one.
unfoldable pub closes : ℕ → String → Bool
closes quote String.[] = false
closes quote (String.◌∷◌ c String.[]) = not (quote == b'"' && code c == 92) && code c == quote
closes quote (String.◌∷◌ c (String.◌∷◌ d s)) =
    let escaped = closes quote s in
    let rest = closes quote (String.◌∷◌ d s) in
    if quote == b'"' && code c == 92 then escaped else code c == quote || rest

quote_of : String → Option ℕ
unfolding closes
quote_of String.[] = none
quote_of (String.◌∷◌ c s) =
    if (code c == b'"' || code c == 39) && not (closes (code c) s) then some (code c) else none

-- The quote that a line leaves open, if it does.
unfoldable pub opens : String → Option ℕ
unfolding drop_export strip partition quote_of
opens line = elim (partition b'=' (drop_export (strip line))).1 [
  | none ↦ none
  | some value ↦ quote_of (strip value)
]

-- The entry that is being read: the number of its first line, its quote and its text so far.
pub record Pending : Type 0 where
  pub number : ℕ
  pub quote : ℕ
  pub buffer : String

unfoldable pub add_line : Pending → String → Pending
add_line p line = record p { buffer = append p.buffer (append "\n" line) }

unfoldable pub first_line : ℕ → String → ℕ → Pending
first_line number line quote = record { number = number; quote = quote; buffer = line }

-- _join_multiline_values, from the line with this number on.
unfoldable pub join_from : ℕ → Option Pending → List String → List (ℕ × String)
unfolding opens closes add_line first_line
join_from number none [] = []
join_from number (some p) [] = (p.number, p.buffer) ∷ []
join_from number none (line ∷ lines) = elim (opens line) [
  | none ↦ (number, line) ∷ join_from (number + 1) none lines
  | some quote ↦ join_from (number + 1) (some (first_line number line quote)) lines
]
join_from number (some p) (line ∷ lines) =
    let closed = (p.number, (add_line p line).buffer) ∷ join_from (number + 1) none lines in
    let goes_on = join_from (number + 1) (some (add_line p line)) lines in
    if closes p.quote line then closed else goes_on

unfoldable pub join_multiline_values : List String → List (ℕ × String)
unfolding join_from
join_multiline_values lines = join_from 1 none lines

-- `text.lstrip("\ufeff")`
unfoldable pub drop_bom : String → String
drop_bom String.[] = ""
drop_bom (String.◌∷◌ c s) =
    let rest = drop_bom s in if code c == 0xfeff then rest else String.◌∷◌ c s

-- _split_env_lines
unfoldable pub split_env_lines : String → List String
unfolding split_on
split_env_lines text = let (first, others) = split_on 10 text in first ∷ others

-- _Entry
pub record EnvEntry : Type 0 where
  pub key : String
  pub raw : String
  pub expands : Bool
  pub bare : Bool
  pub line : ℕ

-- The text between two quotes of this kind.
last_code : ℕ → String → ℕ
last_code k String.[] = k
last_code k (String.◌∷◌ c s) = last_code (code c) s

unfoldable pub between : ℕ → String → Option String
unfolding last_code take_text
between quote String.[] = none
between quote (String.◌∷◌ c String.[]) = none
between quote (String.◌∷◌ c (String.◌∷◌ d s)) =
    if code c == quote && last_code (code d) s == quote
    then some (take_text (len s) (String.◌∷◌ d s))
    else none

-- _DOUBLE_QUOTE_ESCAPES
escape_of : ℕ → Option String
escape_of k =
    if k == b'n'
    then some "\n"
    else if k == b't'
    then some "\t"
    else if k == b'r'
    then some "\r"
    else if k == b'"'
    then some "\""
    else if k == 92
    then some "\\"
    else if k == b'$'
    then some "$"
    else none

-- _unescape
unfoldable pub unescape : String → String
unfolding escape_of
unescape String.[] = ""
unescape (String.◌∷◌ c String.[]) = String.◌∷◌ c ""
unescape (String.◌∷◌ c (String.◌∷◌ d s)) =
    let taken = unescape s in
    let kept = String.◌∷◌ c (unescape (String.◌∷◌ d s)) in
    if code c == 92
    then elim (escape_of (code d)) [ none ↦ kept | some e ↦ append e taken ]
    else kept

-- The text up to the whitespace before the first `#` that follows one.
before_comment : String → Option String
unfolding is_space
before_comment String.[] = none
before_comment (String.◌∷◌ c String.[]) = none
before_comment (String.◌∷◌ c (String.◌∷◌ d s)) =
    let rest = before_comment (String.◌∷◌ d s) in
    if is_space (code c) && code d == b'#'
    then some (String.◌∷◌ c "")
    else elim rest [ none ↦ none | some t ↦ some (String.◌∷◌ c t) ]

-- _strip_unquoted_comment
unfoldable pub strip_unquoted_comment : String → String
unfolding before_comment rstrip
strip_unquoted_comment raw = elim (before_comment raw) [ none ↦ raw | some t ↦ rstrip t ]

-- _entry
unfoldable pub env_entry : String → String → ℕ → EnvEntry
unfolding between unescape strip_unquoted_comment
env_entry key raw line = elim (between 39 raw) [
  | some inner ↦ record { key = key; raw = inner; expands = false; bare = false; line = line }
  | none ↦ elim (between b'"' raw) [
    | some inner ↦ record {
      key = key;
      raw = unescape inner;
      expands = true;
      bare = false;
      line = line;
    }
    | none ↦ record {
      key = key;
      raw = strip_unquoted_comment raw;
      expands = true;
      bare = false;
      line = line;
    }
  ]
]

-- What one group of lines is: nothing, a line that is skipped, or an entry.
pub data Scanned : Type 0 where
  ignored : Scanned
  skipped : ℕ → Scanned
  scanned : EnvEntry → Scanned

scan_raw : ℕ → String → Scanned
unfolding partition is_key
scan_raw number line =
    let (key, value) = partition b'=' line in
    elim value [
      | none ↦ skipped number
      | some v ↦
          if is_key key
          then scanned (record { key = key; raw = v; expands = false; bare = false; line = number })
          else skipped number
    ]

scan_entry : ℕ → String → Scanned
unfolding partition is_key strip drop_export env_entry
scan_entry number stripped =
    let (before, value) = partition b'=' (drop_export stripped) in
    let key = strip before in
    if is_key key
    then elim value [
      | none ↦ scanned (record { key = key; raw = ""; expands = false; bare = true; line = number })
      | some v ↦ scanned (env_entry key (strip v) number)
    ]
    else skipped number

-- The body of the loop of _scan.
unfoldable pub scan_line : Bool → ℕ × String → Scanned
unfolding strip starts_with has_char scan_raw scan_entry
scan_line raw (number, line) =
    let stripped = strip line in
    if str_eq stripped "" || starts_with "#" stripped
    then ignored
    else if has_char 0 line
    then skipped number
    else if raw
    then scan_raw number line
    else scan_entry number stripped

number_lines : ℕ → List String → List (ℕ × String)
number_lines n [] = []
number_lines n (l ∷ ls) = (n, l) ∷ number_lines (n + 1) ls

scan_all : Bool → List (ℕ × String) → List EnvEntry × List ℕ
unfolding scan_line
scan_all raw [] = ([], [])
scan_all raw (l ∷ ls) =
    let (entries, lines) = scan_all raw ls in
    elim (scan_line raw l) [
      | ignored ↦ (entries, lines)
      | skipped n ↦ (entries, n ∷ lines)
      | scanned e ↦ (e ∷ entries, lines)
    ]

-- _scan
unfoldable pub scan : Bool → String → List EnvEntry × List ℕ
unfolding split_env_lines drop_bom number_lines join_multiline_values scan_all
scan raw text =
    let physical = split_env_lines (drop_bom text) in
    scan_all raw (if raw then number_lines 1 physical else join_multiline_values physical)
