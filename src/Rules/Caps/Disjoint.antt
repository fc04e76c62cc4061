-- ===== src/Rules/Caps/Disjoint.antt =====
-- Which `cap_add` entries the six rules grade.
use compose_lint.Prelude.{
  Bool, Bool-cases, List, Option, String, [], ap, arith, eq_iff, false, if◌then◌else◌, inl, inr,
  is_some, le_trans, length, none, not, or_else, refl, some, str_eq, suc, true, ℕ, ◌&&◌, ◌++◌, ◌+◌,
  ◌∙◌, ◌∷◌, ◌≡◌, ◌≤◌,
}
use compose_lint.Value.{
  Entries, Value, as_list, as_scalar_text, dict, entries, get_default, nil, null, seq,
}
use compose_lint.Dict.{Dict, has_key}
use compose_lint.Models.{Severity, critical, high, medium}
use compose_lint.Lines.{LineView}
use compose_lint.Rules.Caps.{
  AddedCap, cap_line, caps_from, check_caps, findings_for, iter_cap_add, match_name, matching_cap,
  normalize_cap, yield_cap,
}
use compose_lint.Rules.Caps.Tiers.{
  check_host_availability_caps, check_host_disclosure_caps, check_host_exec_caps,
  check_host_reach_caps, check_lesser_caps, check_strong_caps, host_availability_caps,
  host_availability_caps_fix, host_availability_caps_message, host_disclosure_caps,
  host_disclosure_caps_fix, host_disclosure_caps_message, host_exec_caps, host_exec_caps_fix,
  host_exec_caps_message, host_reach_caps, host_reach_caps_fix, host_reach_caps_message,
  lesser_caps, lesser_caps_fix, lesser_caps_message, strong_caps, strong_caps_fix,
  strong_caps_message,
}
use compose_lint.Rules.{yield_count}
use compose_lint.Text.{strip, upper}

abbrev tables : List (Dict String)
tables =
    strong_caps ∷ host_exec_caps ∷ lesser_caps ∷ host_reach_caps ∷ host_availability_caps
    ∷ host_disclosure_caps ∷ []

-- How many of the tables hold a name.
holders : String → List (Dict String) → ℕ
unfolding has_key
holders k [] = 0
holders k (t ∷ ts) = (if has_key k t then 1 else 0) + holders k ts

-- How often a name stands in a table.
occurrences : String → Dict String → ℕ
occurrences k [] = 0
occurrences k ((j, v) ∷ d) = (if str_eq j k then 1 else 0) + occurrences k d

joined : List (Dict String) → Dict String
joined [] = []
joined (t ∷ ts) = t ++ joined ts

-- No key of the table occurs twice.
distinct : Dict String → Bool
unfolding has_key
distinct [] = true
distinct ((k, v) ∷ d) = not (has_key k d) && distinct d

occurrences-absent : (k : String) (d : Dict String) → has_key k d ≡ false → occurrences k d ≡ 0
unfolding occurrences has_key
occurrences-absent k [] h = refl
occurrences-absent k ((j, v) ∷ d) h = ground (arith, occurrences-absent k d)

occurrences-distinct : (k : String) (d : Dict String) → distinct d ≡ true → occurrences k d ≤ 1
unfolding occurrences distinct
occurrences-distinct k [] h = omega arith
occurrences-distinct k ((j, v) ∷ d) h = elim (Bool-cases (str_eq j k)) [
  | inl e ↦
      let same : j ≡ k = (eq_iff j k).0 e in
      let absent : has_key k d ≡ false = rw (← same) (ground arith) in
      rw e (omega (arith, occurrences-absent k d absent))
  | inr e ↦
      let rest : distinct d ≡ true = ground arith in
      rw e (omega (arith, occurrences-distinct k d rest))
]

occurrences-append :
    (k : String) (d e : Dict String) → occurrences k (d ++ e) ≡ occurrences k d + occurrences k e
unfolding occurrences
occurrences-append k [] e = omega arith
occurrences-append k ((j, v) ∷ d) e = omega (arith, occurrences-append k d e)

has_key-occurrences : (k : String) (d : Dict String) → has_key k d ≡ true → 1 ≤ occurrences k d
unfolding has_key occurrences
has_key-occurrences k [] h = absurd (cc)
has_key-occurrences k ((j, v) ∷ d) h = ground (arith, has_key-occurrences k d)

holders-le : (k : String) (ts : List (Dict String)) → holders k ts ≤ occurrences k (joined ts)
unfolding holders joined
holders-le k [] = omega arith
holders-le k (t ∷ ts) = elim (Bool-cases (has_key k t)) [
  | inl e ↦ rw e (
      omega (arith, occurrences-append k t (joined ts), has_key-occurrences k t e, holders-le k ts))
  | inr e ↦ rw e (omega (arith, occurrences-append k t (joined ts), holders-le k ts))
]

-- The tables of the six rules have no name in common.
tables-distinct : distinct (joined tables) ≡ true
unfolding distinct joined has_key
tables-distinct = refl

holders-tables : (k : String) → holders k tables ≤ 1
holders-tables k =
    le_trans (holders-le k tables) (occurrences-distinct k (joined tables) tables-distinct)

-- An entry that matches a table has its bare name there.
matches : Value → Dict String → ℕ
matches cap t = if is_some (matching_cap cap t) then 1 else 0

match_name-le :
    (raw : Option String) (bare : String) (t : Dict String)
    → (if is_some (match_name raw bare t) then 1 else 0) ≤ (if has_key bare t then 1 else 0)
unfolding match_name
match_name-le none bare t = omega arith
match_name-le (some raw) bare t =
    elim (Bool-cases (str_eq bare "ALL" && not (str_eq (upper (strip raw)) "ALL"))) [
      | inl e ↦ rw e (omega arith)
      | inr e ↦ elim (Bool-cases (has_key bare t)) [
        | inl p ↦ rw (e, p) (omega arith)
        | inr p ↦ rw (e, p) (omega arith)
      ]
    ]

matches-le :
    (cap : Value) (t : Dict String)
    → matches cap t ≤ (if has_key (normalize_cap cap) t then 1 else 0)
unfolding matches matching_cap
matches-le cap t = match_name-le (as_scalar_text cap) (normalize_cap cap) t

-- The matches of all the entries in all the tables.
total : List (Dict String) → String → LineView → ℕ → List Value → ℕ
total [] name lines i caps = 0
total (t ∷ ts) name lines i caps =
    length (caps_from name lines t i caps) + total ts name lines i caps

length-yield_cap :
    (o : Option (String × String)) (line : Option ℕ) (rest : List AddedCap)
    → length (yield_cap o line rest) ≡ (if is_some o then 1 else 0) + length rest
unfolding yield_cap
length-yield_cap none line rest = omega arith
length-yield_cap (some (w, b)) line rest = omega arith

length-caps_from :
    (name : String) (lines : LineView) (t : Dict String) (i : ℕ) (cap : Value) (caps : List Value)
    → length (caps_from name lines t i (cap ∷ caps))
      ≡ matches cap t + length (caps_from name lines t (i + 1) caps)
unfolding caps_from matches
length-caps_from name lines t i cap caps =
    length-yield_cap (matching_cap cap t) (cap_line name lines i)
      (caps_from name lines t (i + 1) caps)

total-cons :
    (ts : List (Dict String)) (name : String) (lines : LineView) (i : ℕ) (cap : Value)
    (caps : List Value)
    → total ts name lines i (cap ∷ caps)
      ≤ holders (normalize_cap cap) ts + total ts name lines (i + 1) caps
unfolding total holders
total-cons [] name lines i cap caps = omega arith
total-cons (t ∷ ts) name lines i cap caps = omega (
  arith,
  length-caps_from name lines t i cap caps,
  matches-le cap t,
  total-cons ts name lines i cap caps,
)

total-nil :
    (ts : List (Dict String)) (name : String) (lines : LineView) (i : ℕ)
    → total ts name lines i [] ≡ 0
unfolding total caps_from
total-nil [] name lines i = refl
total-nil (t ∷ ts) name lines i = omega (arith, total-nil ts name lines i)

total-le :
    (name : String) (lines : LineView) (i : ℕ) (caps : List Value)
    → total tables name lines i caps ≤ length caps
total-le name lines i [] = omega (arith, total-nil tables name lines i)
total-le name lines i (cap ∷ caps) = omega (
  arith,
  total-cons tables name lines i cap caps,
  holders-tables (normalize_cap cap),
  total-le name lines (i + 1) caps,
)

length-findings_for :
    (id : String) (s : Severity) (name : String) (message : String → String → String)
    (fix : String → String) (members : Dict String) (cs : List AddedCap)
    → length (findings_for id s name message fix members cs) ≡ length cs
unfolding findings_for
length-findings_for id s name message fix members [] = refl
length-findings_for id s name message fix members (c ∷ cs) =
    ap suc (length-findings_for id s name message fix members cs)

-- The entries of a service's `cap_add`.
abbrev pub added_entries : Dict Value → List Value
added_entries config = or_else (as_list (get_default "cap_add" (seq nil) config)) []

length-iter_cap_add :
    (name : String) (config : Dict Value) (lines : LineView) (t : Dict String)
    → length (iter_cap_add name config lines t)
      ≡ length (caps_from name lines t 0 (added_entries config))
unfolding iter_cap_add caps_from
length-iter_cap_add name config lines t = go (get_default "cap_add" (seq nil) config)
  where
    go :
        (v : Value)
        → length {A = AddedCap}
            (elim (as_list v) [ none ↦ [] | some cap_add ↦ caps_from name lines t 0 cap_add ])
          ≡ length (caps_from name lines t 0 (or_else (as_list v) []))
    go (seq vs) = refl
    go null = refl
    go _ = refl

yield-check_caps :
    (id : String) (s : Severity) (t : Dict String) (message : String → String → String)
    (fix : String → String) (name : String) (config : Entries) (global_config : Dict Value)
    (lines : LineView)
    → yield_count (check_caps id s t message fix name (dict config) global_config lines)
      ≡ length (caps_from name lines t 0 (added_entries (entries config)))
unfolding check_caps
yield-check_caps id s t message fix name config global_config lines =
    length-findings_for id s name message fix t (iter_cap_add name (entries config) lines t)
    ∙ length-iter_cap_add name (entries config) lines t

-- The six capability rules together yield at most one finding for each entry of `cap_add`: no entry is
-- graded by two tiers, so none is reported at two severities.
pub tiers_share :
    (name : String) (config : Entries) (global_config : List (String × Value)) (lines : LineView)
    → yield_count (check_strong_caps name (dict config) global_config lines)
        + yield_count (check_host_exec_caps name (dict config) global_config lines)
        + yield_count (check_lesser_caps name (dict config) global_config lines)
        + yield_count (check_host_reach_caps name (dict config) global_config lines)
        + yield_count (check_host_availability_caps name (dict config) global_config lines)
        + yield_count (check_host_disclosure_caps name (dict config) global_config lines)
      ≤ length (added_entries (entries config))
unfolding check_strong_caps check_host_exec_caps check_lesser_caps check_host_reach_caps
    check_host_availability_caps check_host_disclosure_caps total
tiers_share name config global_config lines = omega (
  arith,
  yield-check_caps "CL-0011" high strong_caps strong_caps_message strong_caps_fix name config
      global_config lines,
  yield-check_caps "CL-0024" critical host_exec_caps host_exec_caps_message host_exec_caps_fix name
      config global_config lines,
  yield-check_caps "CL-0027" medium lesser_caps lesser_caps_message lesser_caps_fix name config
      global_config lines,
  yield-check_caps "CL-0028" high host_reach_caps host_reach_caps_message host_reach_caps_fix name
      config global_config lines,
  yield-check_caps "CL-0029" high host_availability_caps host_availability_caps_message
      host_availability_caps_fix name config global_config lines,
  yield-check_caps "CL-0030" high host_disclosure_caps host_disclosure_caps_message
      host_disclosure_caps_fix name config global_config lines,
  total-le name lines 0 (added_entries (entries config)),
)
