-- ===== src/Units/Listing.antt =====
-- `units`, `count_units` and what is said of the units that are not graded.
pub mod Bounds
use compose_lint.Prelude.{
  Bool, List, String, [], false, if◌then◌else◌, leb, length, ltb, map, none, or_else, some, ℕ, ◌++◌,
  ◌+◌, ◌∷◌,
}
use compose_lint.Text.{append, starts_with}
use compose_lint.Dict.{Dict, has_key, put}
use compose_lint.Value.{Value, as_dict, as_list, dict, get, of_entries}
use compose_lint.Lines.{document, view}
use compose_lint.Units.{
  Unit', exec_hooks, hook_name, hooks, is_provider_service, kind_name, max_services, pre_start,
  service_hooks,
}

-- The mapping under a top-level key, when it is one.
abbrev pub block : String → Dict Value → Dict Value
block key data' = or_else (as_dict (get key data')) []

-- container_specs
hook_specs : String → List (ℕ × Dict Value) → List (String × Dict Value)
unfolding hook_name
hook_specs name [] = []
hook_specs name ((i, hook) ∷ rest) = (hook_name name pre_start i, hook) ∷ hook_specs name rest

service_specs : Bool → Dict Value → List (String × Dict Value)
unfolding hook_specs hooks
service_specs with_hooks [] = []
service_specs with_hooks ((name, config) ∷ rest) =
    let more = service_specs with_hooks rest in
    elim (as_dict config) [
      | none ↦ more
      | some e ↦
          (name, e) ∷ ((if with_hooks then hook_specs name (hooks e pre_start) else []) ++ more)
    ]

job_specs : Dict Value → List (String × Dict Value)
job_specs [] = []
job_specs ((name, config) ∷ rest) =
    let more = job_specs rest in
    elim (as_dict config) [ none ↦ more | some e ↦ (append "jobs." name, e) ∷ more ]

unfoldable pub container_specs : Dict Value → Bool → List (String × Dict Value)
unfolding service_specs job_specs get
container_specs data' with_hooks =
    service_specs with_hooks (block "services" data') ++ job_specs (block "jobs" data')

-- job_lines
unfoldable pub job_lines : Dict ℕ → Dict ℕ
unfolding starts_with put
job_lines [] = []
job_lines ((key, line) ∷ lines) =
    let rest = job_lines lines in
    if starts_with "jobs." key then (append "services." key, line) ∷ rest else rest

entries_count : Value → ℕ
entries_count v = elim (as_list v) [ none ↦ 0 | some vs ↦ length vs ]

hook_count : List String → Dict Value → ℕ
unfolding entries_count get
hook_count [] config = 0
hook_count (kind ∷ kinds) config = entries_count (get kind config) + hook_count kinds config

hooks_declared : Value → ℕ
unfolding hook_count
hooks_declared config = elim (as_dict config) [
  | none ↦ 0
  | some e ↦ hook_count (pre_start ∷ exec_hooks) e
]

service_count : Dict Value → ℕ
unfolding hooks_declared
service_count [] = 0
service_count ((name, config) ∷ rest) = 1 + hooks_declared config + service_count rest

-- count_units. Keys of a parsed document are texts, so its `isinstance` tests always pass.
unfoldable pub count_units : Dict Value → ℕ
unfolding service_count get
count_units data' = service_count (block "services" data') + length (block "jobs" data')

hooks_of : Bool → Dict ℕ → String → Value → List Unit'
unfolding service_hooks
hooks_of within_bound lines name config = elim (as_dict config) [
  | none ↦ []
  | some e ↦ if within_bound then service_hooks name e lines else []
]

abbrev service_unit : Dict ℕ → String → Value → Unit'
service_unit lines name config = record {
  name = name;
  config = config;
  lines = document lines;
  hook = false;
  env_key = some name;
}

one_service : Bool → Dict ℕ → String → Value → List Unit'
unfolding is_provider_service hooks_of
one_service within_bound lines name config =
    if is_provider_service config
    then []
    else service_unit lines name config ∷ hooks_of within_bound lines name config

service_units : Bool → Dict ℕ → Dict Value → List Unit'
unfolding one_service
service_units within_bound lines [] = []
service_units within_bound lines ((name, config) ∷ rest) =
    one_service within_bound lines name config ++ service_units within_bound lines rest

unfoldable pub job_unit : Dict ℕ → String → Dict Value → Unit'
unfolding job_lines
job_unit lines name config =
    let unit_name = append "jobs." name in
    record {
      name = unit_name;
      config = dict (of_entries config);
      lines = view (record {
        base = lines;
        hidden = [];
        hidden_trees = [];
        alias = job_lines lines;
        alias_prefix = some (append "services." unit_name);
      });
      hook = false;
      env_key = some unit_name;
    }

job_units : Dict ℕ → Dict Value → List Unit'
unfolding has_key job_unit
job_units lines [] = []
job_units lines ((name, config) ∷ rest) =
    let more = job_units lines rest in
    elim (as_dict config) [
      | none ↦ more
      | some e ↦ if has_key "extends" e then more else job_unit lines name e ∷ more
    ]

units_within : Bool → Dict Value → Dict ℕ → List Unit'
unfolding service_units job_units get
units_within within_bound data' lines =
    service_units within_bound lines (block "services" data')
    ++ (if within_bound then job_units lines (block "jobs" data') else [])

-- units
unfoldable pub units : Dict Value → Dict ℕ → List Unit'
unfolding count_units units_within
units data' lines = units_within (leb (count_units data') max_services) data' lines

extended_in : Dict Value → List String
unfolding has_key
extended_in [] = []
extended_in ((name, config) ∷ rest) =
    let more = extended_in rest in
    elim (as_dict config) [
      | none ↦ more
      | some e ↦ if has_key "extends" e then name ∷ more else more
    ]

-- extended_jobs
unfoldable pub extended_jobs : Dict Value → List String
unfolding extended_in get
extended_jobs data' = extended_in (block "jobs" data')

-- unit_notes: a document over the bound, or the jobs that were not graded.
pub data UnitNote : Type 0 where
  over_bound : UnitNote
  extended_job : String → UnitNote

unfoldable pub unit_notes : Dict Value → List UnitNote
unfolding count_units extended_jobs
unit_notes data' =
    if ltb max_services (count_units data')
    then over_bound ∷ []
    else map extended_job (extended_jobs data')

names_of : List Unit' → List String
unfolding kind_name
names_of [] = []
names_of (u ∷ us) =
    u.name ∷ (elim (kind_name u) [ none ↦ names_of us | some kind ↦ kind ∷ names_of us ])

-- unit_names, as a list that may repeat.
unfoldable pub unit_names : Dict Value → List String
unfolding names_of units
unit_names data' = names_of (units data' [])
