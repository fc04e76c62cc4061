-- ===== src/Fix/Drift.antt =====
-- `_structural_drift` and `_with_inherited_claims` of src/compose_lint/fix.py: whether a fix changed
-- what it did not claim. A set has no order: of the keys that differ, the message takes the first.
pub mod Preserved
pub mod Inherited
pub mod Claims
use compose_lint.Prelude.{
  Bool, List, Option, String, [], if◌then◌else◌, length, none, not, or_else, some, suc, true, zero,
  ℕ, ◌&&◌, ◌++◌, ◌||◌, ◌∷◌,
}
use compose_lint.Text.{append, mem_text}
use compose_lint.Dict.{Dict, has_key, lookup, remove}
use compose_lint.Value.{Value, as_dict, dict, entries, get, of_entries, str}
use compose_lint.Merge.Equal.{value_eq}

-- `document.get("services") or {}`
unfoldable pub services_in : Dict Value → Dict Value
unfolding get
services_in document = or_else (as_dict (get "services" document)) []

-- The document but its services.
unfoldable pub top_level : Dict Value → Value
unfolding remove
top_level document = dict (of_entries (remove "services" document))

unfoldable pub all_keys_in : Dict Value → Dict Value → Bool
unfolding has_key
all_keys_in [] e = true
all_keys_in ((k, v) ∷ d) e = has_key k e && all_keys_in d e

-- The first key of the mapping that is not claimed and whose value differs.
unfoldable pub key_drift : List String → Dict Value → Dict Value → Dict Value → Option String
unfolding mem_text get
key_drift claimed config after [] = none
key_drift claimed config after ((key, v) ∷ d) =
    let rest = key_drift claimed config after d in
    if mem_text key claimed || value_eq (get key config) (get key after) then rest else some key

unfoldable pub or_some {ℓ} : {A : Type ℓ} → Option A → Option A → Option A
or_some none b = b
or_some (some a) b = some a

unfoldable pub key_message : String → Option String → Option String
key_message name none = none
key_message name (some key) =
    some (append "computed fix altered '" (append key (append "' on service '" (append name "'"))))

unfoldable pub claimed_drift :
    String → List String → Option (Dict Value) → Option (Dict Value) → Option String
unfolding or_some key_drift key_message
claimed_drift name claimed (some config) (some after) =
    key_message name
      (or_some (key_drift claimed config after config) (key_drift claimed config after after))
claimed_drift name claimed _ _ = none

-- One service, before and after.
unfoldable pub service_drift : String → Option (List String) → Value → Value → Option String
unfolding claimed_drift
service_drift name none config after =
    if value_eq config after
    then none
    else some (append "computed fix altered untouched service '" (append name "'"))
service_drift name (some claimed) config after =
    claimed_drift name claimed (as_dict config) (as_dict after)

unfoldable pub services_drift : Dict (List String) → Dict Value → Dict Value → Option String
unfolding or_some service_drift lookup get
services_drift written after [] = none
services_drift written after ((name, config) ∷ services) =
    or_some (service_drift name (lookup name written) config (get name after))
      (services_drift written after services)

-- _structural_drift
unfoldable pub structural_drift : Dict Value → Dict Value → Dict (List String) → Option String
unfolding top_level services_in all_keys_in services_drift
structural_drift original patched written =
    let before = services_in original in
    let after = services_in patched in
    if not (value_eq (top_level original) (top_level patched))
    then some "computed fix changed configuration outside services"
    else if not (all_keys_in before after && all_keys_in after before)
    then some "computed fix added or removed a service"
    else services_drift written after before

-- The service in this file that a service extends.
unfoldable pub parent_of : Value → Option String
unfolding has_key get
parent_of (str s) = some s
parent_of (dict e) =
    if has_key "file" (entries e)
    then none
    else elim (get "service" (entries e)) [ str s ↦ some s | _ ↦ none ]
parent_of _ = none

unfoldable pub parents : Dict Value → Dict String
unfolding parent_of get
parents [] = []
parents ((name, dict config) ∷ services) =
    let rest = parents services in
    elim (parent_of (get "extends" (entries config))) [
      | none ↦ rest
      | some target ↦ (name, target) ∷ rest
    ]
parents ((name, _) ∷ services) = parents services

-- The loop over the chain of a service's bases, on fuel.
unfoldable pub inherit :
    ℕ → Dict String → Dict (List String) → List String → Option String → List String → List String
unfolding mem_text lookup
inherit zero parent claimed seen target result = result
inherit (suc fuel) parent claimed seen none result = result
inherit (suc fuel) parent claimed seen (some target) result =
    let more =
      inherit fuel parent claimed (target ∷ seen) (lookup target parent)
        (result ++ or_else (lookup target claimed) []) in
    if mem_text target seen then result else more

-- One service more than have a parent: the chain meets no name twice.
abbrev pub chain_fuel : Dict String → ℕ
chain_fuel parent = suc (suc (length parent))

unfoldable pub inherited_claims :
    Dict String → Dict (List String) → Dict (List String) → Dict (List String)
unfolding inherit lookup
inherited_claims parent claimed [] = []
inherited_claims parent claimed ((name, keys) ∷ d) =
    (name, inherit (chain_fuel parent) parent claimed (name ∷ []) (lookup name parent) keys)
    ∷ inherited_claims parent claimed d

-- _with_inherited_claims
unfoldable pub with_inherited_claims : Dict Value → Dict (List String) → Dict (List String)
unfolding get parents inherited_claims
with_inherited_claims document claimed = elim (as_dict (get "services" document)) [
  | none ↦ claimed
  | some services ↦ inherited_claims (parents services) claimed claimed
]
