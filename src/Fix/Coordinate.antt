-- ===== src/Fix/Coordinate.antt =====
-- `_coordinate_security_opt` of src/compose_lint/fix.py: one edit for the CL-0003 and CL-0009
-- findings of a service whose `security_opt` holds a disabled profile.
use compose_lint.Prelude.{
  Bool, List, Option, String, [], any, drop, false, if◌then◌else◌, leb, length, ltb, none, not,
  select, some, str_eq, suc, take, true, zero, ℕ, ◌&&◌, ◌++◌, ◌+◌, ◌-◌, ◌==◌, ◌||◌, ◌∷◌,
}
use compose_lint.Text.{append, has_char, mem_text, starts_with, strip}
use compose_lint.Dict.{Dict, has_key, lookup}
use compose_lint.Value.{Value, as_dict, as_list, get, str}
use compose_lint.Models.{Finding, TextEdit}
use compose_lint.SourceLines.{joined}
use compose_lint.Edits.{is_seq_item, line_at, opens_block_body}
use compose_lint.Edits.Blocks.{block_span, first_child_indent, is_anchored_or_merged}
use compose_lint.Edits.Replace.{replace_lines}
use compose_lint.Edits.Scalars.{sequence_scalar_span}
use compose_lint.Edits.Security.{extends_targets, is_disabled_profile, normalize_security_opt}
use compose_lint.Fix.{FixUnit}

abbrev coordination_caveat : String
coordination_caveat =
    "Replacing the unconfined entries re-applies the default seccomp/AppArmor/SELinux profile; a workload that relies on a syscall the default profile blocks may fail."

-- The numbers of the lines in a block that are items of a sequence, from a line on.
item_lines_from : ℕ → List String → List ℕ
unfolding is_seq_item
item_lines_from i [] = []
item_lines_from i (raw ∷ rest) =
    let more = item_lines_from (i + 1) rest in if is_seq_item raw then i ∷ more else more

-- A line that is neither blank nor an item.
abbrev is_foreign : String → Bool
is_foreign raw = not (str_eq (strip raw) "") && not (is_seq_item raw)

is_disable : Value → Bool
unfolding normalize_security_opt is_disabled_profile
is_disable opt = is_disabled_profile (normalize_security_opt opt)

names_no_new_privileges : Value → Bool
unfolding normalize_security_opt starts_with
names_no_new_privileges opt = starts_with "no-new-privileges" (normalize_security_opt opt)

-- Each of this file's lines shows the item that it is matched to.
shows : Option (String × ℕ) → Value → Bool
unfolding normalize_security_opt
shows none opt = false
shows (some (scalar, _)) opt =
    str_eq (normalize_security_opt (str scalar)) (normalize_security_opt opt)

all_shown : List String → List ℕ → List Value → Bool
unfolding shows sequence_scalar_span line_at
all_shown source_lines (n ∷ ns) (opt ∷ opts) =
    shows (sequence_scalar_span (line_at source_lines n)) opt && all_shown source_lines ns opts
all_shown source_lines _ _ = true

-- A list that an overlay appended to: this file's items lead, and the rest allows the edit.
can_lead : List String → List ℕ → List Value → List Value → Bool
unfolding all_shown names_no_new_privileges is_disable
can_lead source_lines item_lines own others =
    all_shown source_lines item_lines own
    && not (any names_no_new_privileges others)
    && any is_disable own

-- The lines that survive, or `none` where an entry makes the edit unsafe.
kept_line : String → Value → Option (List String) → Option (List String)
unfolding is_disable names_no_new_privileges has_char
kept_line raw opt none = none
kept_line raw opt (some kept) =
    if is_disable opt
    then if has_char b'$' raw then none else some kept
    else if names_no_new_privileges opt
    then none
    else some (raw ∷ kept)

kept_lines : List String → List ℕ → List Value → Option (List String)
unfolding kept_line line_at
kept_lines source_lines (n ∷ ns) (opt ∷ opts) =
    kept_line (line_at source_lines n) opt (kept_lines source_lines ns opts)
kept_lines source_lines _ _ = some []

-- `" " * n`
spaces : ℕ → String
spaces zero = ""
spaces (suc n) = append " " (spaces n)

coordinated_edit : List String → ℕ → ℕ → ℕ → Option (List String) → Option TextEdit
unfolding spaces replace_lines
coordinated_edit source_lines so_line last item_indent none = none
coordinated_edit source_lines so_line last item_indent (some kept) = some (
    replace_lines source_lines (so_line + 1) last
      (append (joined kept) (append (spaces item_indent) "- no-new-privileges:true\n"))
      (some coordination_caveat))

-- From the items on: the list's own part and the part that another file appended.
edit_items : List String → ℕ → ℕ → ℕ → List Value → Option TextEdit
unfolding item_lines_from can_lead coordinated_edit kept_lines
edit_items source_lines so_line last item_indent security_opt =
    let body = take (last - so_line) (drop so_line source_lines) in
    let item_lines = item_lines_from (so_line + 1) body in
    let own = take (length item_lines) security_opt in
    let others = drop (length item_lines) security_opt in
    if any is_foreign body
    then none
    else if ltb (length security_opt) (length item_lines)
    then none
    else if ltb (length own) (length security_opt)
        && not (can_lead source_lines item_lines own others)
    then none
    else coordinated_edit source_lines so_line last item_indent
        (kept_lines source_lines item_lines own)

edit_block : List String → ℕ → Option ℕ → List Value → Option TextEdit
unfolding edit_items block_span
edit_block source_lines so_line none security_opt = none
edit_block source_lines so_line (some item_indent) security_opt =
    let last = (block_span source_lines so_line).1 in
    if leb last so_line then none else edit_items source_lines so_line last item_indent security_opt

-- Both lines are there, in a service that stands for itself and a list that is a block.
is_in_file : ℕ → List String → Bool
is_in_file n source_lines = leb 1 n && leb n (length source_lines)

edit_at : List String → Option ℕ → Option ℕ → List Value → Option TextEdit
unfolding is_in_file is_anchored_or_merged opens_block_body line_at edit_block first_child_indent
edit_at source_lines (some service_line) (some so_line) security_opt =
    if not (is_in_file service_line source_lines && is_in_file so_line source_lines)
    then none
    else if is_anchored_or_merged source_lines service_line
    then none
    else if not (opens_block_body (line_at source_lines so_line))
    then none
    else edit_block source_lines so_line (first_child_indent source_lines so_line) security_opt
edit_at source_lines _ _ security_opt = none

-- The list, in a service on neither side of an `extends:`.
own_security_opt : String → Dict Value → Option (List Value)
unfolding get has_key mem_text extends_targets
own_security_opt service document = elim (as_dict (get "services" document)) [
  | none ↦ none
  | some services ↦ elim (as_dict (get service services)) [
    | none ↦ none
    | some config ↦
        if has_key "extends" config || mem_text service (extends_targets document)
        then none
        else as_list (get "security_opt" config)
  ]
]

-- The edit for one service, where there is one.
coordinate_edit : String → Dict Value → Dict ℕ → List String → Option TextEdit
unfolding own_security_opt is_disable edit_at lookup
coordinate_edit service document lines source_lines = elim (own_security_opt service document) [
  | none ↦ none
  | some security_opt ↦
      if any is_disable security_opt
      then edit_at source_lines (lookup (append "services." service) lines)
          (lookup (append "services." (append service ".security_opt")) lines) security_opt
      else none
]

-- _coordinate_security_opt
unfoldable pub coordinate_security_opt :
    String → List Finding → Dict Value → Dict ℕ → List String → Option FixUnit
unfolding coordinate_edit
coordinate_security_opt service svc_findings document lines source_lines =
    let cl0003 = select (λ f. str_eq f.rule_id "CL-0003") svc_findings in
    let cl0009 = select (λ f. str_eq f.rule_id "CL-0009") svc_findings in
    if length cl0003 == 0 || length cl0009 == 0
    then none
    else elim (coordinate_edit service document lines source_lines) [
      | none ↦ none
      | some edit ↦
          some
            (record { findings = cl0003 ++ cl0009; edits = edit ∷ []; caveat_rule_id = "CL-0009" })
    ]
