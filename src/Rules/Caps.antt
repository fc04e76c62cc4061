-- ===== src/Rules/Caps.antt =====
-- The capability scan that six rules share, src/compose_lint/rules/_caps.py, and `cap_drop`, CL-0006.
pub mod Tiers
pub mod Disjoint
use compose_lint.Prelude.{
  Bool, List, Option, String, [], false, if◌then◌else◌, map, none, not, or_else, or_line, some,
  str_eq, ℕ, ◌&&◌, ◌+◌, ◌∷◌,
}
use compose_lint.Text.{indexed, mem_text, remove_prefix, strip, upper}
use compose_lint.Dict.{Dict, has_key, lookup}
use compose_lint.Value.{Value, as_list, as_scalar_text, get_default, nil, seq}
use compose_lint.Models.{Finding, Severity, finding, medium}
use compose_lint.Lines.{LineView, get_line}
use compose_lint.Engine.{Result, Rule}
use compose_lint.Rules.{field_path, no_env_file_keys, on_mapping, service_path, when_absent}

abbrev pub cap_references : List String
cap_references =
    "https://cheatsheetseries.owasp.org/cheatsheets/Docker_Security_Cheat_Sheet.html#rule-3-limit-capabilities-grant-only-specific-capabilities-needed-by-a-container"
    ∷ "CIS Docker Benchmark 5.4 — Ensure that Linux kernel capabilities are restricted within containers"
    ∷ []

-- normalize_cap
unfoldable pub normalize_cap : Value → String
unfolding as_scalar_text strip upper remove_prefix
normalize_cap cap = elim (as_scalar_text cap) [
  | none ↦ ""
  | some text ↦ remove_prefix "CAP_" (upper (strip text))
]

-- A matching entry: as written, its bare name, and its line.
pub record AddedCap : Type 0 where
  pub as_written : String
  pub bare : String
  pub line : Option ℕ

-- The name of one entry, where it is a member: as written, and bare.
match_name : Option String → String → Dict String → Option (String × String)
unfolding strip upper has_key
match_name none bare members = none
match_name (some raw) bare members =
    let as_written = upper (strip raw) in
    if str_eq bare "ALL" && not (str_eq as_written "ALL")
    then none
    else if has_key bare members
    then some (as_written, bare)
    else none

unfoldable pub matching_cap : Value → Dict String → Option (String × String)
unfolding as_scalar_text normalize_cap match_name
matching_cap cap members = match_name (as_scalar_text cap) (normalize_cap cap) members

-- `lines.get(f"services.{name}.cap_add[{i}]") or lines.get(f"services.{name}.cap_add")`
cap_line : String → LineView → ℕ → Option ℕ
unfolding get_line field_path
cap_line service_name lines i =
    let path = field_path service_name "cap_add" in
    or_line (get_line lines (indexed path i)) (get_line lines path)

yield_cap : Option (String × String) → Option ℕ → List AddedCap → List AddedCap
yield_cap none line rest = rest
yield_cap (some (as_written, bare)) line rest =
    record { as_written = as_written; bare = bare; line = line } ∷ rest

caps_from : String → LineView → Dict String → ℕ → List Value → List AddedCap
unfolding matching_cap cap_line yield_cap
caps_from service_name lines members i [] = []
caps_from service_name lines members i (cap ∷ caps) =
    yield_cap (matching_cap cap members) (cap_line service_name lines i)
      (caps_from service_name lines members (i + 1) caps)

-- iter_cap_add
unfoldable pub iter_cap_add : String → Dict Value → LineView → Dict String → List AddedCap
unfolding caps_from get_default
iter_cap_add service_name service_config lines members =
    elim (as_list (get_default "cap_add" (seq nil) service_config)) [
      | none ↦ []
      | some cap_add ↦ caps_from service_name lines members 0 cap_add
    ]

-- The guidance of a rule for one capability: the message from what is written and what it grants,
-- and the fix from what is written.
unfoldable pub findings_for :
    String
    → Severity
    → String
    → (String → String → String)
    → (String → String)
    → Dict String
    → List AddedCap
    → List Finding
unfolding lookup
findings_for rule_id severity service_name message fix members [] = []
findings_for rule_id severity service_name message fix members (c ∷ cs) =
    finding rule_id severity service_name (some c.bare)
      (message c.as_written (or_else (lookup c.bare members) "")) c.line (fix c.as_written)
      cap_references
    ∷ findings_for rule_id severity service_name message fix members cs

-- The `check` of a capability rule, over its table and its texts.
unfoldable pub check_caps :
    String
    → Severity
    → Dict String
    → (String → String → String)
    → (String → String)
    → String
    → Value
    → Dict Value
    → LineView
    → Result (List Finding)
unfolding on_mapping iter_cap_add findings_for
check_caps rule_id severity members message fix service_name service_config global_config lines =
    on_mapping service_config λ config.
      findings_for rule_id severity service_name message fix members
        (iter_cap_add service_name config lines members)

-- CL-0006: `"ALL" not in {normalize_cap(cap) for cap in cap_drop}`
unfoldable pub drops_all : Dict Value → Bool
unfolding get_default normalize_cap mem_text
drops_all config = elim (as_list (get_default "cap_drop" (seq nil) config)) [
  | none ↦ false
  | some cap_drop ↦ mem_text "ALL" (map normalize_cap cap_drop)
]

unfoldable pub check_cap_drop : String → Value → Dict Value → LineView → Result (List Finding)
unfolding on_mapping drops_all get_line service_path
check_cap_drop service_name service_config global_config lines = on_mapping service_config λ config.
    when_absent (drops_all config) (
      finding "CL-0006" medium service_name none
        "Service does not drop all capabilities. Containers retain ~14 default capabilities including NET_RAW, DAC_OVERRIDE, SYS_CHROOT, and MKNOD."
        (get_line lines (service_path service_name))
        "Drop all capabilities and add back only what is needed:\n  cap_drop:\n    - ALL\n  cap_add:\n    - <SPECIFIC_CAP>\nTo find the required set, start with cap_drop: [ALL] and\nno cap_add — many services need none — then review the\nlogs and test all functionality, background features\nincluded: capability failures are often non-fatal and\ndegrade a feature silently. Map each 'Operation not\npermitted' to a capability: chown -> CHOWN, su-exec/gosu\nuser switch -> SETUID + SETGID, port < 1024 under host\nnetworking -> NET_BIND_SERVICE.\nFull guide: compose-lint --explain CL-0006"
        ("https://cheatsheetseries.owasp.org/cheatsheets/Docker_Security_Cheat_Sheet.html#rule-3-limit-capabilities-grant-only-specific-capabilities-needed-by-a-container"
          ∷ "CIS Docker Benchmark 5.4 — Ensure that Linux kernel capabilities are restricted within containers"
          ∷ []))

abbrev pub cap_drop_rule : Rule
cap_drop_rule = record {
  id = "CL-0006";
  check = check_cap_drop;
  check_env_file_keys = no_env_file_keys;
}
