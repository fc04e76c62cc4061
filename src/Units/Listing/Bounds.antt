-- ===== src/Units/Listing/Bounds.antt =====
-- How many units a document yields, and what the bound leaves out.
use compose_lint.Prelude.{
  Bool, Bool-cases, List, String, [], arith, false, inl, inr, leb, length, length-append,
  length-map, map, none, refl, some, true, ℕ, ◌+◌, ◌∷◌, ◌≡◌, ◌≤◌,
}
use compose_lint.Dict.{Dict}
use compose_lint.Value.{Value, as_list, dict, entries, get, items, null, seq}
use compose_lint.Units.{
  exec_hooks, exec_unit, exec_units, hooks, hooks_from, is_provider_service, max_services,
  pre_start, pre_start_unit, scalars, service_hooks,
}
use compose_lint.Units.Listing.{
  block, count_units, entries_count, hook_count, hooks_declared, hooks_of, job_units, one_service,
  service_count, service_units, units, units_within,
}

length-hooks_from : (i : ℕ) (vs : List Value) → length (hooks_from i vs) ≤ length vs
unfolding hooks_from
length-hooks_from i [] = omega arith
length-hooks_from i (dict e ∷ vs) = omega (arith, length-hooks_from (i + 1) vs)
length-hooks_from i (null ∷ vs) = omega (arith, length-hooks_from (i + 1) vs)
length-hooks_from i (_ ∷ vs) = omega (arith, length-hooks_from (i + 1) vs)

length-hooks :
    (config : Dict Value) (kind : String)
    → length (hooks config kind) ≤ entries_count (get kind config)
unfolding hooks entries_count
length-hooks config kind = go (get kind config)
  where
    go :
        (v : Value)
        → length {A = ℕ × Dict Value} (elim (as_list v) [ none ↦ [] | some vs ↦ hooks_from 0 vs ])
          ≤ (elim (as_list v) [ none ↦ 0 | some vs ↦ length vs ])
    go (seq vs) = length-hooks_from 0 (items vs)
    go null = omega arith
    go _ = omega arith

hook_count-cons :
    (kind : String) (kinds : List String) (config : Dict Value)
    → hook_count (kind ∷ kinds) config ≡ entries_count (get kind config) + hook_count kinds config
unfolding hook_count
hook_count-cons kind kinds config = refl

length-exec_units :
    (kinds : List String) (name : String) (config inherited : Dict Value) (lines : Dict ℕ)
    → length (exec_units kinds name config inherited lines) ≤ hook_count kinds config
unfolding exec_units hook_count
length-exec_units [] name config inherited lines = omega arith
length-exec_units (kind ∷ kinds) name config inherited lines = omega (
  arith,
  length-append (map (exec_unit name kind inherited lines) (hooks config kind))
      (exec_units kinds name config inherited lines),
  length-map (exec_unit name kind inherited lines) (hooks config kind),
  length-hooks config kind,
  length-exec_units kinds name config inherited lines,
)

length-service_hooks :
    (name : String) (config : Dict Value) (lines : Dict ℕ)
    → length (service_hooks name config lines) ≤ hook_count (pre_start ∷ exec_hooks) config
unfolding service_hooks
length-service_hooks name config lines =
    let inherited = scalars config in
    let own = map (pre_start_unit name inherited lines) (hooks config pre_start) in
    omega (
      arith,
      length-append own (exec_units exec_hooks name config inherited lines),
      length-map (pre_start_unit name inherited lines) (hooks config pre_start),
      length-hooks config pre_start,
      length-exec_units exec_hooks name config inherited lines,
      hook_count-cons pre_start exec_hooks config,
    )

length-hooks_of :
    (within_bound : Bool) (lines : Dict ℕ) (name : String) (config : Value)
    → length (hooks_of within_bound lines name config) ≤ hooks_declared config
unfolding hooks_of hooks_declared
length-hooks_of true lines name (dict e) = length-service_hooks name (entries e) lines
length-hooks_of false lines name (dict e) = omega arith
length-hooks_of within_bound lines name null = omega arith
length-hooks_of within_bound lines name _ = omega arith

length-one_service :
    (within_bound : Bool) (lines : Dict ℕ) (name : String) (config : Value)
    → length (one_service within_bound lines name config) ≤ 1 + hooks_declared config
unfolding one_service
length-one_service within_bound lines name config = elim (Bool-cases (is_provider_service config)) [
  | inl e ↦ rw e (omega arith)
  | inr e ↦ rw e (omega (arith, length-hooks_of within_bound lines name config))
]

length-service_units :
    (within_bound : Bool) (lines : Dict ℕ) (services : Dict Value)
    → length (service_units within_bound lines services) ≤ service_count services
unfolding service_units service_count
length-service_units within_bound lines [] = omega arith
length-service_units within_bound lines ((name, config) ∷ rest) = omega (
  arith,
  length-append (one_service within_bound lines name config)
      (service_units within_bound lines rest),
  length-one_service within_bound lines name config,
  length-service_units within_bound lines rest,
)

length-job_units :
    (lines : Dict ℕ) (jobs : Dict Value) → length (job_units lines jobs) ≤ length jobs
unfolding job_units
length-job_units lines [] = omega arith
length-job_units lines ((name, dict e) ∷ rest) = ground (arith, length-job_units lines rest)
length-job_units lines ((name, null) ∷ rest) = omega (arith, length-job_units lines rest)
length-job_units lines ((name, config) ∷ rest) = omega (arith, length-job_units lines rest)

length-units_within :
    (within_bound : Bool) (data' : Dict Value) (lines : Dict ℕ)
    → length (units_within within_bound data' lines) ≤ count_units data'
unfolding units_within count_units
length-units_within true data' lines =
    let services = block "services" data' in
    let jobs = block "jobs" data' in
    omega (
      arith,
      length-append (service_units true lines services) (job_units lines jobs),
      length-service_units true lines services,
      length-job_units lines jobs,
    )
length-units_within false data' lines =
    let services = block "services" data' in
    omega (
      arith,
      length-append (service_units false lines services) [],
      length-service_units false lines services,
    )

-- A document never yields more units than `count_units` counts.
pub length-units-le :
    (data' : Dict Value) (lines : Dict ℕ) → length (units data' lines) ≤ count_units data'
unfolding units
length-units-le data' lines = length-units_within (leb (count_units data') max_services) data' lines
