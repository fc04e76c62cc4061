-- ===== src/Fix/Collect/Settle.antt =====
-- `_within_own_service` and the last part of `collect_edits`: the units that are left alone, those
-- whose edits cannot be placed, those that conflict, and the result.
use compose_lint.Prelude.{
  Bool, List, Option, String, [], any, false, if◌then◌else◌, leb, length, map, none, some, str_eq,
  true, ℕ, ◌&&◌, ◌++◌, ◌+◌, ◌==◌, ◌||◌, ◌∷◌,
}
use compose_lint.Text.{append, mem_text}
use compose_lint.Dict.{Dict, lookup}
use compose_lint.Models.{Finding, TextEdit}
use compose_lint.Sorting.{sort_by}
use compose_lint.SourceLines.{line_starts, split_lines}
use compose_lint.Engine.{Result, ok, raised}
use compose_lint.Edits.Blocks.{block_span}
use compose_lint.Fix.{FixResult, FixUnit, Fixer, adapted_to_newline, add_note, dominant_newline}
use compose_lint.Fix.Splice.{Span, spans_of, text_le}
use compose_lint.Fix.Conflict.{FlatSpan, is_refused, refused_units}
use compose_lint.Fix.Collect.{Collected, Request, collect_units, sort_findings_for}

-- The span of a service's block, where its line is there.
unfoldable pub service_block : Request → List String → String → Option (ℕ × ℕ)
unfolding lookup block_span
service_block request source_lines service =
    elim (lookup (append "services." service) request.lines) [
      | none ↦ none
      | some n ↦
          if leb 1 n && leb n (length source_lines) then some (block_span source_lines n) else none
    ]

-- An edit inside a block; the start of the line behind the block is inside.
unfoldable pub edit_inside : TextEdit → Option (ℕ × ℕ) → Bool
edit_inside e none = false
edit_inside e (some (first, last)) =
    leb first e.start_line && (leb e.end_line last || (e.end_line == last + 1 && e.end_col == 1))

all_inside : List TextEdit → Option (ℕ × ℕ) → Bool
unfolding edit_inside
all_inside [] bounds = true
all_inside (e ∷ es) bounds = edit_inside e bounds && all_inside es bounds

-- Every edit lies in the block of every service that a finding is about.
unfoldable pub unit_inside : Request → List String → List TextEdit → List Finding → Bool
unfolding service_block all_inside
unit_inside request source_lines es [] = true
unit_inside request source_lines es (f ∷ fs) =
    all_inside es (service_block request source_lines f.service)
    && unit_inside request source_lines es fs

unfoldable pub outside_note : Finding → String
outside_note f = append f.rule_id (
    append " on '" (
      append f.service
        "': the fix would edit outside this service's own block, where the value is written and inherited from (extends:); it is fixed there"))

outside_notes : List Finding → List String → List String
unfolding add_note outside_note
outside_notes [] notes = notes
outside_notes (f ∷ fs) notes = outside_notes fs (add_note (outside_note f) notes)

-- _within_own_service
unfoldable pub within_own_service : Request → List String → List FixUnit → Collected → Collected
unfolding unit_inside outside_notes
within_own_service request source_lines [] c = c
within_own_service request source_lines (u ∷ us) c = within_own_service request source_lines us (
    if unit_inside request source_lines u.edits u.findings
    then record c { units = c.units ++ u ∷ [] }
    else record c { manual = c.manual ++ u.findings; notes = outside_notes u.findings c.notes })

-- A unit with its spans, numbered.
pub record Placed : Type 0 where
  pub index : ℕ
  pub unit : FixUnit
  pub spans : List Span

-- `", ".join(...)`
comma_joined : List String → String
comma_joined [] = ""
comma_joined (t ∷ []) = t
comma_joined (t ∷ ts) = append t (append ", " (comma_joined ts))

-- The rule ids of the findings, each once, in order.
rule_ids : List Finding → List String
unfolding mem_text
rule_ids [] = []
rule_ids (f ∷ fs) =
    let rest = rule_ids fs in if mem_text f.rule_id rest then rest else f.rule_id ∷ rest

unfoldable pub misplaced_line : List Finding → String → String
unfolding rule_ids comma_joined sort_by text_le
misplaced_line fs e =
    append "the " (
      append (comma_joined (sort_by text_le (rule_ids fs))) (append " fix could not be placed: " e))

-- The units with the spans of their edits; what cannot be placed is left to the user.
pub record Placing : Type 0 where
  pub placed : List Placed
  pub manual : List Finding
  pub crashes : List String

unfoldable pub place_unit : FixUnit → Result (List Span) → Placing → Placing
unfolding misplaced_line
place_unit u (ok spans) p = record p {
  placed = p.placed ++ record { index = length p.placed; unit = u; spans = spans } ∷ [];
}
place_unit u (raised e) p = record p {
  manual = p.manual ++ u.findings;
  crashes = p.crashes ++ misplaced_line u.findings e ∷ [];
}

unfoldable pub place_all : List ℕ → List FixUnit → Placing → Placing
unfolding place_unit spans_of
place_all starts [] p = p
place_all starts (u ∷ us) p = place_all starts us (place_unit u (spans_of starts u.edits) p)

abbrev pub flat_of : ℕ → Span → FlatSpan
flat_of index s = record { begin = s.begin; end = s.end; unit = index; replacement = s.replacement }

unfoldable pub flatten : List Placed → List FlatSpan
flatten [] = []
flatten (p ∷ ps) = map (flat_of p.index) p.spans ++ flatten ps

-- The caveats of a unit's edits, each once.
add_caveat : String → String → Dict String → Dict String
add_caveat rule_id caveat caveats =
    if str_eq caveat "" || any (λ c. str_eq c.0 rule_id && str_eq c.1 caveat) caveats
    then caveats
    else caveats ++ (rule_id, caveat) ∷ []

add_caveats : String → List TextEdit → Dict String → Dict String
unfolding add_caveat
add_caveats rule_id [] caveats = caveats
add_caveats rule_id (e ∷ es) caveats =
    add_caveats rule_id es
      (elim e.caveat [ none ↦ caveats | some caveat ↦ add_caveat rule_id caveat caveats ])

-- One unit of the result: refused, or fixed by its edits with the file's line ending.
unfoldable pub settle_unit : String → List ℕ → FixResult → Placed → FixResult
unfolding is_refused adapted_to_newline add_caveats
settle_unit newline losers r p =
    let es = map (adapted_to_newline newline) p.unit.edits in
    if is_refused p.index losers
    then record r { manual = r.manual ++ p.unit.findings }
    else record r {
      fixed = r.fixed ++ p.unit.findings;
      edits = r.edits ++ es;
      fixed_edits = r.fixed_edits ++ map (λ f. (f, es)) p.unit.findings;
      caveats = add_caveats p.unit.caveat_rule_id es r.caveats;
    }

unfoldable pub settle_all : String → List ℕ → List Placed → FixResult → FixResult
unfolding settle_unit
settle_all newline losers [] r = r
settle_all newline losers (p ∷ ps) r = settle_all newline losers ps (settle_unit newline losers r p)

abbrev pub no_result : FixResult
no_result = record {
  edits = [];
  fixed = [];
  manual = [];
  caveats = [];
  fixed_edits = [];
  notes = [];
  crashes = [];
}

-- The units that are left to place.
unfoldable pub own_units : Request → Collected → Collected
unfolding within_own_service split_lines
own_units request c =
    within_own_service request (split_lines request.text) c.units (record c { units = [] })

unfoldable pub place : Request → Collected → Placing
unfolding place_all line_starts
place request c =
    place_all (line_starts request.text) c.units
      (record { placed = []; manual = c.manual; crashes = c.crashes })

unfoldable pub settle : Request → List Finding → List String → Placing → FixResult
unfolding settle_all refused_units flatten dominant_newline
settle request reset_manual notes p =
    let r =
      settle_all (dominant_newline request.text) (refused_units (flatten p.placed)) p.placed
        no_result in
    record r { manual = r.manual ++ (p.manual ++ reset_manual); notes = notes; crashes = p.crashes }

-- collect_edits
unfoldable pub collect_edits : List Fixer → Request → List Finding → FixResult
unfolding sort_findings_for collect_units own_units place settle
collect_edits fixers request findings =
    let s = sort_findings_for fixers request findings in
    let c = own_units request (collect_units fixers request s) in
    settle request s.reset_manual c.notes (place request c)
