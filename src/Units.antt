-- ===== src/Units.antt =====
-- src/compose_lint/_units.py: the containers a document deploys and the hooks they run, one unit
-- each, as the engine hands them to the rules.
pub mod Listing
pub mod Names
use compose_lint.Prelude.{
  Bool, List, Option, String, [], code, false, if◌then◌else◌, is_some, leb, map, none, some, str_eq,
  true, ℕ, ◌&&◌, ◌++◌, ◌+◌, ◌==◌, ◌∷◌,
}
use compose_lint.Text.{append, indexed}
use compose_lint.Dict.{Dict, lookup, put, remove, update}
use compose_lint.Value.{Value, as_dict, as_list, dict, entries, get, is_container, of_entries}
use compose_lint.Lines.{LineView, view}

abbrev pub max_services : ℕ
max_services = 4096

abbrev pub pre_start : String
pre_start = "pre_start"

abbrev exec_hooks : List String
exec_hooks = "post_start" ∷ "pre_stop" ∷ []

abbrev exec_scalars : List String
exec_scalars = "user" ∷ "working_dir" ∷ []

abbrev exec_ungraded : List String
exec_ungraded = "command" ∷ "privileged" ∷ []

pub record Unit' : Type 0 where
  pub name : String
  pub config : Value
  pub lines : LineView
  pub hook : Bool
  pub env_key : Option String

-- `_INDEX` behind its bracket: one digit or more, a closing bracket, and the end of the text.
is_index : Bool → String → Bool
is_index seen String.[] = false
is_index seen (String.◌∷◌ c s) =
    let more = is_index true s in
    if leb 48 (code c) && leb (code c) 57 then more else seen && code c == b']' && str_eq s ""

-- `_INDEX.sub("", s)`
unfoldable pub drop_index : String → String
unfolding is_index
drop_index String.[] = ""
drop_index (String.◌∷◌ c s) =
    let rest = drop_index s in if code c == b'[' && is_index false s then "" else String.◌∷◌ c rest

-- Unit.kind_name
unfoldable pub kind_name : Unit' → Option String
unfolding drop_index
kind_name u = if u.hook then some (drop_index u.name) else none

has_provider : Value → Bool
has_provider v = is_some (as_dict v)

-- _is_provider_service
unfoldable pub is_provider_service : Value → Bool
unfolding has_provider get
is_provider_service v = elim (as_dict v) [
  | none ↦ false
  | some config ↦ has_provider (get "provider" config)
]

-- _scalars
unfoldable pub scalars : Dict Value → Dict Value
scalars [] = []
scalars ((k, v) ∷ config) =
    let rest = scalars config in if is_container v then rest else (k, v) ∷ rest

hooks_from : ℕ → List Value → List (ℕ × Dict Value)
hooks_from i [] = []
hooks_from i (dict e ∷ vs) = (i, entries e) ∷ hooks_from (i + 1) vs
hooks_from i (_ ∷ vs) = hooks_from (i + 1) vs

-- _hooks
unfoldable pub hooks : Dict Value → String → List (ℕ × Dict Value)
unfolding hooks_from get
hooks config kind = elim (as_list (get kind config)) [ none ↦ [] | some vs ↦ hooks_from 0 vs ]

-- `f"{name}.{kind}[{i}]"`
unfoldable pub hook_name : String → String → ℕ → String
hook_name name kind i = indexed (append name (append "." kind)) i

pre_start_unit : String → Dict Value → Dict ℕ → ℕ × Dict Value → Unit'
unfolding hook_name update
pre_start_unit name inherited lines (i, hook) =
    let unit_name = hook_name name pre_start i in
    record {
      name = unit_name;
      config = dict (of_entries (update inherited hook));
      lines = view (record {
        base = lines;
        hidden = append "services." unit_name ∷ [];
        hidden_trees = [];
        alias = [];
        alias_prefix = none;
      });
      hook = true;
      env_key = none;
    }

-- The exec hook's own scalars, those of `keys` that it writes.
own_scalars : List String → Dict Value → Dict Value
unfolding lookup
own_scalars [] hook = []
own_scalars (k ∷ ks) hook =
    let rest = own_scalars ks hook in elim (lookup k hook) [ none ↦ rest | some v ↦ (k, v) ∷ rest ]

unfoldable pub exec_mapping : Dict Value → Dict Value → Dict Value
unfolding remove update own_scalars put lookup
exec_mapping inherited hook =
    let mapping = update (remove "privileged" inherited) (own_scalars exec_scalars hook) in
    elim (lookup "environment" hook) [ none ↦ mapping | some v ↦ put "environment" v mapping ]

exec_unit : String → String → Dict Value → Dict ℕ → ℕ × Dict Value → Unit'
unfolding hook_name exec_mapping
exec_unit name kind inherited lines (i, hook) =
    let unit_name = hook_name name kind i in
    let path = append "services." unit_name in
    record {
      name = unit_name;
      config = dict (of_entries (exec_mapping inherited hook));
      lines = view (record {
        base = lines;
        hidden = path ∷ [];
        hidden_trees = map (λ key. append path (append "." key)) exec_ungraded;
        alias = [];
        alias_prefix = none;
      });
      hook = true;
      env_key = none;
    }

exec_units : List String → String → Dict Value → Dict Value → Dict ℕ → List Unit'
unfolding exec_unit hooks
exec_units [] name config inherited lines = []
exec_units (kind ∷ kinds) name config inherited lines =
    map (exec_unit name kind inherited lines) (hooks config kind)
    ++ exec_units kinds name config inherited lines

-- _service_hooks
unfoldable pub service_hooks : String → Dict Value → Dict ℕ → List Unit'
unfolding scalars pre_start_unit hooks exec_units
service_hooks name config lines =
    let inherited = scalars config in
    map (pre_start_unit name inherited lines) (hooks config pre_start)
    ++ exec_units exec_hooks name config inherited lines
