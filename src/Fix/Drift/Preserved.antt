-- ===== src/Fix/Drift/Preserved.antt =====
-- What `_structural_drift` accepts.
use compose_lint.Prelude.{
  All, Bool, Bool-cases, List, Option, String, [], ap, ap₂, arith, eq_iff, eq_refl, false, inl, inr,
  none, refl, some, str_eq, subst, sym, true, ◌↔◌, ◌∙◌, ◌∷◌, ◌≡◌,
}
use compose_lint.Text.{mem_text}
use compose_lint.Dict.{Dict, has_key, lookup}
use compose_lint.Dict.Laws.{has_key-lookup}
use compose_lint.Value.{Value, as_dict, get, null}
use compose_lint.Merge.Equal.{value_eq}
use compose_lint.Fix.Drift.{
  all_keys_in, claimed_drift, key_drift, key_message, or_some, service_drift, services_drift,
  services_in, structural_drift, top_level,
}

-- Every key that is not claimed has the value that it had; a key that is missing counts as null.
abbrev pub KeptKeys : List String → Option (Dict Value) → Option (Dict Value) → Type 0
KeptKeys claimed (some config) (some after) =
    (key : String) → mem_text key claimed ≡ false → value_eq (get key config) (get key after) ≡ true
KeptKeys claimed _ _ = Unit

-- A service without claims is as it was; one with claims keeps its other keys.
abbrev pub KeptAs : Option (List String) → Value → Value → Type 0
KeptAs none config after = value_eq config after ≡ true
KeptAs (some claimed) config after = KeptKeys claimed (as_dict config) (as_dict after)

pub record Preserves (original patched : Dict Value) (written : Dict (List String)) : Type 0 where
  pub top : value_eq (top_level original) (top_level patched) ≡ true
  pub names :
      (name : String) → has_key name (services_in original) ≡ has_key name (services_in patched)
  pub kept :
      All
        (λ s. KeptAs (lookup s.0 written) s.1 (get s.0 (services_in patched)))
        (services_in original)

key_drift-kept :
    (claimed : List String) (config after d : Dict Value)
    → key_drift claimed config after d ≡ none
    → (key : String) → has_key key d ≡ true
    → mem_text key claimed ≡ false
    → value_eq (get key config) (get key after) ≡ true
unfolding key_drift has_key
key_drift-kept claimed config after [] h key k m = absurd (cc)
key_drift-kept claimed config after ((j, v) ∷ d) h key k m = elim (Bool-cases (str_eq j key)) [
  | inl e ↦
      let same : j ≡ key = (eq_iff j key).0 e in
      subst (λ (n : String). value_eq (get n config) (get n after) ≡ true) same
        (let free : mem_text j claimed ≡ false = ap (λ n. mem_text n claimed) same ∙ m in
          ground arith)
  | inr e ↦ key_drift-kept claimed config after d (ground arith) key (ground arith) m
]

get-absent : (key : String) (d : Dict Value) → has_key key d ≡ false → get key d ≡ null
unfolding get
get-absent key d h = ground (arith, has_key-lookup key d)

key_drift-none :
    (claimed : List String) (config after d : Dict Value)
    → ((key : String)
        → mem_text key claimed ≡ false
        → value_eq (get key config) (get key after) ≡ true)
    → key_drift claimed config after d ≡ none
unfolding key_drift
key_drift-none claimed config after [] h = refl
key_drift-none claimed config after ((j, v) ∷ d) h =
    ground (arith, h j, key_drift-none claimed config after d h)

key_message-none : (name : String) (o : Option String) → key_message name o ≡ none → o ≡ none
unfolding key_message
key_message-none name none h = refl
key_message-none name (some key) h = absurd (cc)

or_some-none {ℓ} : {A : Type ℓ} (a b : Option A) → or_some a b ≡ none → (a ≡ none) × (b ≡ none)
unfolding or_some
or_some-none none b h = (refl, h)
or_some-none (some a) b h = absurd (cc)

null_eq : value_eq null null ≡ true
unfolding value_eq
null_eq = refl

-- No key that is not claimed has changed, whether it stands before, after or nowhere.
kept_everywhere :
    (claimed : List String) (config after : Dict Value)
    → (key_drift claimed config after config ≡ none) × (key_drift claimed config after after ≡ none)
    → (key : String) → mem_text key claimed ≡ false
    → value_eq (get key config) (get key after) ≡ true
kept_everywhere claimed config after (h, k) key m = elim (Bool-cases (has_key key config)) [
  | inl e ↦ key_drift-kept claimed config after config h key e m
  | inr e ↦ elim (Bool-cases (has_key key after)) [
    | inl f ↦ key_drift-kept claimed config after after k key f m
    | inr f ↦ rw (get-absent key config e, get-absent key after f) null_eq
  ]
]

claimed_drift_iff :
    (name : String) (claimed : List String) (c a : Option (Dict Value))
    → (claimed_drift name claimed c a ≡ none) ↔ KeptKeys claimed c a
unfolding claimed_drift
claimed_drift_iff name claimed none a = (λ h. tt, λ h. refl)
claimed_drift_iff name claimed (some config) none = (λ h. tt, λ h. refl)
claimed_drift_iff name claimed (some config) (some after) =
    let before = key_drift claimed config after config in
    let behind = key_drift claimed config after after in
    (
      λ h.
          kept_everywhere claimed config after
            (or_some-none before behind (key_message-none name (or_some before behind) h)),
      λ h.
          ap₂ (λ x y. key_message name (or_some x y)) (key_drift-none claimed config after config h)
            (key_drift-none claimed config after after h),
    )

service_drift_iff :
    (name : String) (claimed : Option (List String)) (config after : Value)
    → (service_drift name claimed config after ≡ none) ↔ KeptAs claimed config after
unfolding service_drift
service_drift_iff name none config after = (
  λ h. elim (Bool-cases (value_eq config after)) [ inl e ↦ e | inr e ↦ absurd (ground arith) ],
  λ h. rw h refl,
)
service_drift_iff name (some claimed) config after =
    claimed_drift_iff name claimed (as_dict config) (as_dict after)

services_drift_iff :
    (written : Dict (List String)) (after services : Dict Value)
    → (services_drift written after services ≡ none)
      ↔ All (λ s. KeptAs (lookup s.0 written) s.1 (get s.0 after)) services
unfolding services_drift
services_drift_iff written after [] = (λ h. tt, λ h. refl)
services_drift_iff written after ((name, config) ∷ services) =
    let one = service_drift_iff name (lookup name written) config (get name after) in
    let more = services_drift_iff written after services in
    (
      λ h.
          let both =
            or_some-none (service_drift name (lookup name written) config (get name after))
              (services_drift written after services) h in
          (one.0 both.0, more.0 both.1),
      λ h. ap₂ or_some (one.1 h.0) (more.1 h.1),
    )

all_keys_in-has_key :
    (d e : Dict Value)
    → all_keys_in d e ≡ true
    → (k : String) → has_key k d ≡ true
    → has_key k e ≡ true
unfolding all_keys_in has_key
all_keys_in-has_key [] e h k m = absurd (cc)
all_keys_in-has_key ((j, v) ∷ d) e h k m = elim (Bool-cases (str_eq j k)) [
  | inl s ↦ subst (λ (n : String). has_key n e ≡ true) ((eq_iff j k).0 s) (ground arith)
  | inr s ↦ all_keys_in-has_key d e (ground arith) k (ground arith)
]

all_keys_in-true :
    (d e : Dict Value)
    → ((k : String) → has_key k d ≡ true → has_key k e ≡ true)
    → all_keys_in d e ≡ true
unfolding all_keys_in has_key
all_keys_in-true [] e h = refl
all_keys_in-true ((j, v) ∷ d) e h =
    rw (h j (rw (eq_refl j) refl)) (all_keys_in-true d e (λ k m. h k (ground arith)))

true_of_both : (a b : Bool) → (a ≡ true → b ≡ true) → (b ≡ true → a ≡ true) → a ≡ b
true_of_both true b h k = sym (h refl)
true_of_both false true h k = k refl
true_of_both false false h k = refl

-- The check of the structure passes exactly when the patched document preserves the original but
-- for the claims: outside the services both are equal; they have the same services; each service
-- that claims nothing is equal in both; and in each one that claims keys, where it is a mapping in
-- both, every other key, whatever it is, has equal values in both, a missing one counting as null.
pub structural_drift_iff :
    (original patched : Dict Value) (written : Dict (List String))
    → (structural_drift original patched written ≡ none) ↔ Preserves original patched written
unfolding structural_drift
structural_drift_iff original patched written =
    let before = services_in original in
    let after = services_in patched in
    let services = services_drift_iff written after before in
    (
      λ h. record {
        top = ground arith;
        names = λ name.
            true_of_both (has_key name before) (has_key name after)
              (all_keys_in-has_key before after (ground arith) name)
              (all_keys_in-has_key after before (ground arith) name);
        kept = services.0 (ground arith);
      },
      λ p. rw p.top (
          rw
            (
              all_keys_in-true before after (λ k m. sym (p.names k) ∙ m),
              all_keys_in-true after before (λ k m. p.names k ∙ m),
            )
            (services.1 p.kept)),
    )
