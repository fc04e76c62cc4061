-- ===== src/Fix/Collect.antt =====
-- `collect_edits` of src/compose_lint/fix.py: which findings are asked for edits, and what the
-- fixers answer. Fix.Collect.Settle goes on with the units of edits.
pub mod Settle
pub mod Placing
pub mod Survivors
pub mod Sound
use compose_lint.Prelude.{
  Bool, List, Option, String, [], any, false, if◌then◌else◌, is_some, leb, length, map, none, not,
  or_else, select, some, str_eq, true, zero, ℕ, ◌&&◌, ◌++◌, ◌==◌, ◌||◌, ◌∷◌,
}
use compose_lint.Text.{append, decimal, mem_text}
use compose_lint.Dict.{Dict, has_key, lookup}
use compose_lint.Value.{Value, as_dict, get}
use compose_lint.Models.{Finding}
use compose_lint.Sorting.{sort_by}
use compose_lint.SourceLines.{split_lines}
use compose_lint.Engine.{Result, ok, raised}
use compose_lint.Edits.{line_at, value_is_shared}
use compose_lint.Fix.{Answer, FixUnit, Fixer, add_note, edits, refused}
use compose_lint.Fix.Splice.{text_le}
use compose_lint.Fix.Coordinate.{coordinate_security_opt}

-- What a run of the fixers on one file is given; `text` is the file.
pub record Request : Type 0 where
  pub document : Dict Value
  pub lines : Dict ℕ
  pub text : String
  pub only : Option (List String)
  pub resets : Dict String

-- `rules_by_id`: the last rule of an id is the one that is kept.
unfoldable pub fixer_of : String → List Fixer → Option Fixer
fixer_of id [] = none
fixer_of id (r ∷ rs) =
    let later = fixer_of id rs in
    elim later [ some found ↦ some found | none ↦ if str_eq r.id id then some r else none ]

-- `only is None or finding.rule_id in only`
unfoldable pub is_asked : Option (List String) → String → Bool
unfolding mem_text
is_asked none id = true
is_asked (some ids) id = mem_text id ids

unfoldable pub is_eligible : List Fixer → Option (List String) → Finding → Bool
unfolding is_asked fixer_of
is_eligible fixers only f =
    not f.suppressed && is_asked only f.rule_id && is_some (fixer_of f.rule_id fixers)

-- _service_unit_names
unfoldable pub is_service_unit : Dict Value → String → Bool
unfolding get has_key
is_service_unit document name = elim (as_dict (get "services" document)) [
  | none ↦ false
  | some services ↦
      has_key name services
      && not (elim (as_dict (get "jobs" document)) [
        | none ↦ false
        | some jobs ↦ any (λ j. str_eq (append "jobs." j.0) name) jobs
      ])
]

-- The findings on hooks and jobs, and the note that counts them.
unfoldable pub unit_note : ℕ → List String
unfolding decimal
unit_note zero = []
unit_note n =
    append "fix edits service blocks only; hook and job units are reported, not edited ("
      (append (decimal n) (if n == 1 then " finding)" else " findings)"))
    ∷ []

-- `services.{service}.{key}`
abbrev pub key_path : String → String → String
key_path service key = append "services." (append service (append "." key))

-- The keys that a fixer writes and a document resets, in their order.
unfoldable pub erased_keys : Dict String → String → List String → List String
unfolding has_key sort_by text_le
erased_keys resets service writes =
    sort_by text_le (select (λ written. has_key (key_path service written) resets) writes)

unfoldable pub reset_note : Dict String → Finding → String → String
unfolding lookup
reset_note resets f written = append f.rule_id (
    append " on '" (
      append f.service (
        append "': a !reset in " (
          append (or_else (lookup (key_path f.service written) resets) "") (
            append " deletes '" (
              append written
                "', so writing it here would not take effect; it needs fixing in that file"))))))

add_notes : List String → List String → List String
unfolding add_note
add_notes [] notes = notes
add_notes (n ∷ ns) notes = add_notes ns (add_note n notes)

-- The findings to fix, those to leave to the user, and the notes, so far.
pub record Sorted : Type 0 where
  pub kept : List Finding
  pub reset_manual : List Finding
  pub notes : List String

-- One round of the loop over `resets`.
unfoldable pub sort_reset : List Fixer → Dict String → Finding → Sorted → Sorted
unfolding fixer_of erased_keys add_notes reset_note
sort_reset fixers resets f s =
    elim (erased_keys resets f.service
      (elim (fixer_of f.rule_id fixers) [ none ↦ [] | some r ↦ r.writes ])) [
        | [] ↦ record s { kept = s.kept ++ f ∷ [] }
        | written ∷ more ↦ record s {
          reset_manual = s.reset_manual ++ f ∷ [];
          notes = add_notes (map (reset_note resets f) (written ∷ more)) s.notes;
        }
      ]

unfoldable pub sort_resets : List Fixer → Dict String → List Finding → Sorted → Sorted
unfolding sort_reset
sort_resets fixers resets [] s = s
sort_resets fixers resets (f ∷ fs) s = sort_resets fixers resets fs (sort_reset fixers resets f s)

-- The findings that the fixers are asked about.
unfoldable pub sort_findings_for : List Fixer → Request → List Finding → Sorted
unfolding is_eligible is_service_unit unit_note sort_resets
sort_findings_for fixers request findings =
    let eligible = select (is_eligible fixers request.only) findings in
    let others = select (λ f. not (is_service_unit request.document f.service)) eligible in
    sort_resets fixers request.resets
      (select (λ f. is_service_unit request.document f.service) eligible)
      (record { kept = []; reset_manual = others; notes = unit_note (length others) })

-- The services of the findings, each once, in order.
unfoldable pub services_of : List String → List Finding → List String
unfolding add_note
services_of seen [] = seen
services_of seen (f ∷ fs) = services_of (add_note f.service seen) fs

coordinate_all : Request → List String → List Finding → List String → List (String × FixUnit)
unfolding coordinate_security_opt
coordinate_all request source_lines fs [] = []
coordinate_all request source_lines fs (service ∷ services) =
    let rest = coordinate_all request source_lines fs services in
    elim (coordinate_security_opt service (select (λ f. str_eq f.service service) fs)
      request.document request.lines source_lines) [
        | none ↦ rest
        | some unit ↦ (service, unit) ∷ rest
      ]

-- A coordinated unit holds all the CL-0003 and CL-0009 findings of its service.
unfoldable pub is_consumed : List (String × FixUnit) → Finding → Bool
unfolding has_key
is_consumed coordinated f =
    has_key f.service coordinated && (str_eq f.rule_id "CL-0003" || str_eq f.rule_id "CL-0009")

-- The units of edits, the findings left, the notes and the crashes, so far.
pub record Collected : Type 0 where
  pub units : List FixUnit
  pub manual : List Finding
  pub notes : List String
  pub crashes : List String

unfoldable pub crash_line : Finding → String → String
crash_line f e =
    append "the "
      (append f.rule_id (append " fixer failed on service '" (append f.service (append "': " e))))

unfoldable pub refusal_note : Finding → String → String
refusal_note f reason =
    append f.rule_id
      (append " on '" (append f.service (append "': " (append reason "; fix it by hand"))))

unfoldable pub shared_note : Finding → String → String
shared_note f written = append f.rule_id (
    append " on '" (
      append f.service (
        append "': '" (
          append written
            "' is shared through a YAML anchor, so an edit would change every service using it; fix it by hand"))))

-- The written keys whose line gives its value an anchor or takes it from an alias.
is_shared_at : List String → Option ℕ → Bool
unfolding value_is_shared line_at
is_shared_at source_lines none = false
is_shared_at source_lines (some n) =
    leb 1 n && leb n (length source_lines) && value_is_shared (line_at source_lines n)

unfoldable pub shared_keys : Request → List String → Finding → List String → List String
unfolding is_shared_at lookup sort_by text_le
shared_keys request source_lines f writes =
    select
      (λ written. is_shared_at source_lines (lookup (key_path f.service written) request.lines))
      (sort_by text_le writes)

-- What the answer of one finding's fixer adds.
unfoldable pub take_answer :
    Request → List String → Finding → List String → Result Answer → Collected → Collected
unfolding crash_line refusal_note add_note add_notes shared_keys shared_note
take_answer request source_lines f writes (raised e) c = record c {
  manual = c.manual ++ f ∷ [];
  crashes = c.crashes ++ crash_line f e ∷ [];
}
take_answer request source_lines f writes (ok (refused r)) c = record c {
  manual = c.manual ++ f ∷ [];
  notes = add_note (refusal_note f r.reason) c.notes;
}
take_answer request source_lines f writes (ok (edits (e ∷ es))) c = record c {
  units = c.units ++ record { findings = f ∷ []; edits = e ∷ es; caveat_rule_id = f.rule_id } ∷ [];
}
take_answer request source_lines f writes (ok _) c = record c {
  manual = c.manual ++ f ∷ [];
  notes = add_notes (map (shared_note f) (shared_keys request source_lines f writes)) c.notes;
}

-- One finding, by its rule's fixer. An eligible finding has one.
unfoldable pub ask : List Fixer → Request → List String → Finding → Collected → Collected
unfolding fixer_of take_answer
ask fixers request source_lines f c = elim (fixer_of f.rule_id fixers) [
  | none ↦ c
  | some r ↦
      take_answer request source_lines f r.writes
        (r.fix f request.document request.lines request.text) c
]

unfoldable pub ask_all :
    List Fixer
    → Request
    → List String
    → List (String × FixUnit)
    → List Finding
    → Collected
    → Collected
unfolding ask is_consumed
ask_all fixers request source_lines coordinated [] c = c
ask_all fixers request source_lines coordinated (f ∷ fs) c =
    ask_all fixers request source_lines coordinated fs
      (if is_consumed coordinated f then c else ask fixers request source_lines f c)

-- The units of edits, coordinated ones first.
unfoldable pub collect_units : List Fixer → Request → Sorted → Collected
unfolding split_lines services_of coordinate_all ask_all
collect_units fixers request s =
    let source_lines = split_lines request.text in
    let coordinated = coordinate_all request source_lines s.kept (services_of [] s.kept) in
    ask_all fixers request source_lines coordinated s.kept
      (record { units = map (λ c. c.1) coordinated; manual = []; notes = s.notes; crashes = [] })
