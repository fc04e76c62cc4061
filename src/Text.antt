-- ===== src/Text.antt =====
-- Python's `str`, walked character by character: the methods the program calls on text.
-- Case mapping is that of ASCII; the whitespace that `strip` removes is Python's.
pub mod Laws
use compose_lint.Prelude.{
  Bool, Char, List, Option, String, [], code, false, if◌then◌else◌, is_some, leb, ltb, none, not,
  or_else, some, str_eq, suc, zero, ℕ, ◌%◌, ◌&&◌, ◌-◌, ◌/◌, ◌==◌, ◌||◌, ◌∷◌,
}

-- `s + t`
abbrev pub append : String → String → String
append String.[] t = t
append (String.◌∷◌ c s) t = String.◌∷◌ c (append s t)

-- `len(s)`
abbrev pub len : String → ℕ
len String.[] = 0
len (String.◌∷◌ c s) = suc (len s)

-- The character with code `k` occurs in the text.
unfoldable pub has_char : ℕ → String → Bool
has_char k String.[] = false
has_char k (String.◌∷◌ c s) = code c == k || has_char k s

-- `s.partition(c)` for a one-character separator: what precedes it, and what follows the first one.
unfoldable pub partition : ℕ → String → String × Option String
partition k String.[] = ("", none)
partition k (String.◌∷◌ c s) =
    let (before, after) = partition k s in
    if code c == k then ("", some s) else (String.◌∷◌ c before, after)

-- `s.rpartition(c)`: `none` where the separator does not occur.
split_last : Bool → Char → String → Option (String × String) → Option (String × String)
split_last here c s (some (before, after)) = some (String.◌∷◌ c before, after)
split_last here c s none = if here then some ("", s) else none

unfoldable pub rpartition : ℕ → String → Option (String × String)
unfolding split_last
rpartition k String.[] = none
rpartition k (String.◌∷◌ c s) = split_last (code c == k) c s (rpartition k s)

-- `s.startswith(t)`, and what follows the prefix.
unfoldable pub strip_prefix : String → String → Option String
strip_prefix String.[] s = some s
strip_prefix (String.◌∷◌ d t) String.[] = none
strip_prefix (String.◌∷◌ d t) (String.◌∷◌ c s) =
    let rest = strip_prefix t s in if code c == code d then rest else none

unfoldable pub starts_with : String → String → Bool
unfolding strip_prefix
starts_with t s = is_some (strip_prefix t s)

-- `s.removeprefix(t)`
unfoldable pub remove_prefix : String → String → String
unfolding strip_prefix
remove_prefix t s = or_else (strip_prefix t s) s

-- `t in s`
unfoldable pub contains : String → String → Bool
unfolding starts_with
contains t String.[] = starts_with t ""
contains t (String.◌∷◌ c s) = starts_with t (String.◌∷◌ c s) || contains t s

-- The character that stands in `to` where `c` stands in `from`, and `c` elsewhere.
translate : String → String → Char → Char
translate String.[] to c = c
translate (String.◌∷◌ a from) String.[] c = c
translate (String.◌∷◌ a from) (String.◌∷◌ b to) c =
    if code c == code a then b else translate from to c

each : (Char → Char) → String → String
each f String.[] = ""
each f (String.◌∷◌ c s) = String.◌∷◌ (f c) (each f s)

abbrev upper_case : String
upper_case = "ABCDEFGHIJKLMNOPQRSTUVWXYZ"

abbrev lower_case : String
lower_case = "abcdefghijklmnopqrstuvwxyz"

-- `s.lower()` and `s.upper()`
unfoldable pub lower : String → String
unfolding each translate
lower = each (translate upper_case lower_case)

unfoldable pub upper : String → String
unfolding each translate
upper = each (translate lower_case upper_case)

-- `str.isspace` of one character.
unfoldable pub is_space : ℕ → Bool
is_space k =
    (leb 9 k && leb k 13)
    || (leb 28 k && leb k 32)
    || k == 0x85
    || k == 0xa0
    || k == 0x1680
    || (leb 0x2000 k && leb k 0x200a)
    || k == 0x2028
    || k == 0x2029
    || k == 0x202f
    || k == 0x205f
    || k == 0x3000

unfoldable pub lstrip : String → String
unfolding is_space
lstrip String.[] = ""
lstrip (String.◌∷◌ c s) = let rest = lstrip s in if is_space (code c) then rest else String.◌∷◌ c s

-- A character is dropped at the end when it and all behind it are whitespace.
unfoldable pub rstrip : String → String
unfolding is_space
rstrip String.[] = ""
rstrip (String.◌∷◌ c s) =
    let rest = rstrip s in if str_eq rest "" && is_space (code c) then "" else String.◌∷◌ c rest

-- `s.strip()`
unfoldable pub strip : String → String
unfolding lstrip rstrip
strip s = rstrip (lstrip s)

-- `s[:n]` and `s[n:]`, and `s[i:j]`
unfoldable pub take_text : ℕ → String → String
take_text zero s = ""
take_text (suc n) String.[] = ""
take_text (suc n) (String.◌∷◌ c s) = String.◌∷◌ c (take_text n s)

unfoldable pub drop_text : ℕ → String → String
drop_text zero s = s
drop_text (suc n) String.[] = ""
drop_text (suc n) (String.◌∷◌ c s) = drop_text n s

unfoldable pub slice : ℕ → ℕ → String → String
unfolding take_text drop_text
slice i j s = take_text (j - i) (drop_text i s)

-- `s in ("a", "b")`
unfoldable pub mem_text : String → List String → Bool
mem_text s [] = false
mem_text s (t ∷ ts) = str_eq s t || mem_text s ts

-- One decimal digit, and `str(n)`.
unfoldable pub digit : ℕ → String
digit zero = "0"
digit (suc zero) = "1"
digit (suc (suc zero)) = "2"
digit (suc (suc (suc zero))) = "3"
digit (suc (suc (suc (suc zero)))) = "4"
digit (suc (suc (suc (suc (suc zero))))) = "5"
digit (suc (suc (suc (suc (suc (suc zero)))))) = "6"
digit (suc (suc (suc (suc (suc (suc (suc zero))))))) = "7"
digit (suc (suc (suc (suc (suc (suc (suc (suc zero)))))))) = "8"
digit _ = "9"

-- On fuel: the last digit behind the digits of the quotient.
unfoldable pub digits : ℕ → ℕ → String
digits zero n = ""
digits (suc f) n =
    let front = digits f (n / 10) in if ltb n 10 then digit n else append front (digit (n % 10))

unfoldable pub decimal : ℕ → String
unfolding digits digit
decimal n = digits (suc n) n

-- `f"{a}[{i}]"`
abbrev pub indexed : String → ℕ → String
indexed path i = append path (append "[" (append (decimal i) "]"))

-- `s.rstrip(c)` and `s.lstrip(c)` for one character.
unfoldable pub rstrip_char : ℕ → String → String
rstrip_char k String.[] = ""
rstrip_char k (String.◌∷◌ c s) =
    let rest = rstrip_char k s in if str_eq rest "" && code c == k then "" else String.◌∷◌ c rest

unfoldable pub lstrip_char : ℕ → String → String
lstrip_char k String.[] = ""
lstrip_char k (String.◌∷◌ c s) =
    let rest = lstrip_char k s in if code c == k then rest else String.◌∷◌ c s

-- `s.endswith(c)`, and `s[:-1]`.
unfoldable pub ends_with_char : ℕ → String → Bool
ends_with_char k String.[] = false
ends_with_char k (String.◌∷◌ c s) =
    let rest = ends_with_char k s in if str_eq s "" then code c == k else rest

unfoldable pub without_last : String → String
without_last String.[] = ""
without_last (String.◌∷◌ c s) =
    let rest = without_last s in if str_eq s "" then "" else String.◌∷◌ c rest

-- `s.split()`: the words between whitespace.
in_word : String → Bool
unfolding is_space
in_word String.[] = false
in_word (String.◌∷◌ c s) = not (is_space (code c))

before_word : Char → List String → List String
before_word c [] = String.◌∷◌ c "" ∷ []
before_word c (w ∷ ws) = String.◌∷◌ c w ∷ ws

unfoldable pub words : String → List String
unfolding is_space in_word before_word
words String.[] = []
words (String.◌∷◌ c s) =
    let rest = words s in
    if is_space (code c)
    then rest
    else if in_word s
    then before_word c rest
    else String.◌∷◌ c "" ∷ rest

-- `s.replace(a, b, 1)` for two characters.
unfoldable pub replace_first : ℕ → Char → String → String
replace_first k d String.[] = ""
replace_first k d (String.◌∷◌ c s) =
    let rest = replace_first k d s in if code c == k then String.◌∷◌ d s else String.◌∷◌ c rest
