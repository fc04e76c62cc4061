-- ===== src/Rules/Registry.antt =====
-- The rules modelled here, in the order of their registration, and the ids on their findings.
use compose_lint.Prelude.{
  All, Bool, List, Option, String, [], false, if◌then◌else◌, map, none, refl, select, some, true, ℕ,
  ◌∷◌, ◌≡◌,
}
use compose_lint.Text.{lower, strip}
use compose_lint.Value.{Value, as_scalar_text, dict, entries, get, is_null, null}
use compose_lint.Dict.{Dict}
use compose_lint.Models.{Finding, Severity, critical, high, medium}
use compose_lint.Lines.{LineView}
use compose_lint.Engine.{EnvFileKey, Result, Rule, ok}
use compose_lint.Engine.Order.{filter_findings}
use compose_lint.Engine.Run.{Input, findings_of, run_rules}
use compose_lint.Engine.Run.Invariant.{ResultAll, Returns}
use compose_lint.Engine.Run.Suppress.{Labelled, Passes, filter_findings-disabled}
use compose_lint.Rules.{on_mapping, when_absent, when_set}
use compose_lint.Rules.Caps.{
  AddedCap, cap_drop_rule, check_cap_drop, check_caps, drops_all, findings_for, iter_cap_add,
}
use compose_lint.Rules.Caps.Tiers.{
  check_host_availability_caps, check_host_disclosure_caps, check_host_exec_caps,
  check_host_reach_caps, check_lesser_caps, check_strong_caps, host_availability_caps,
  host_availability_caps_fix, host_availability_caps_message, host_availability_caps_rule,
  host_disclosure_caps, host_disclosure_caps_fix, host_disclosure_caps_message,
  host_disclosure_caps_rule, host_exec_caps, host_exec_caps_fix, host_exec_caps_message,
  host_exec_caps_rule, host_reach_caps, host_reach_caps_fix, host_reach_caps_message,
  host_reach_caps_rule, lesser_caps, lesser_caps_fix, lesser_caps_message, lesser_caps_rule,
  strong_caps, strong_caps_fix, strong_caps_message, strong_caps_rule,
}
use compose_lint.Rules.Image.{
  check_image_no_digest, check_image_not_pinned, digest_findings, image_findings,
  image_no_digest_rule, image_not_pinned_rule, is_mutable, mutable_tag_finding, no_tag_finding,
  split_image_ref, unpinned_image,
}
use compose_lint.Rules.Settings.{
  NamespaceCheck, check_explicit_root, check_host_namespace, check_host_network,
  check_logging_disabled, check_privileged, check_read_only, explicit_root_rule,
  host_namespace_rule, host_network_rule, is_host_network, is_privileged, is_read_only,
  is_root_user, logging_disabled_rule, logs_nothing, namespace_checks, namespace_finding,
  privileged_rule, read_only_rule, root_findings, shares_namespace,
}

-- The rules of this library, in the order of their registration.
abbrev pub modelled_rules : List Rule
modelled_rules =
    privileged_rule ∷ image_not_pinned_rule ∷ cap_drop_rule ∷ read_only_rule ∷ host_network_rule
    ∷ host_namespace_rule ∷ strong_caps_rule ∷ logging_disabled_rule ∷ explicit_root_rule
    ∷ image_no_digest_rule ∷ host_exec_caps_rule ∷ lesser_caps_rule ∷ host_reach_caps_rule
    ∷ host_availability_caps_rule ∷ host_disclosure_caps_rule ∷ []

-- A check that labels its findings with `id`.
abbrev Labels : String → (String → Value → Dict Value → LineView → Result (List Finding)) → Type 0
Labels id check =
    (name : String) (config : Value) (global_config : Dict Value) (lines : LineView)
    → ResultAll (λ f. f.rule_id ≡ id) (check name config global_config lines)

on_mapping-All :
    (P : Finding → Type 0) (v : Value) (check : Dict Value → List Finding)
    → ((config : Dict Value) → All P (check config))
    → ResultAll P (on_mapping v check)
unfolding on_mapping
on_mapping-All P (dict e) check h = h (entries e)
on_mapping-All P null check h = tt
on_mapping-All P _ check h = tt

when_set-All : (P : Finding → Type 0) (b : Bool) (f : Finding) → P f → All P (when_set b f)
when_set-All P true f h = (h, tt)
when_set-All P false f h = tt

when_absent-All : (P : Finding → Type 0) (b : Bool) (f : Finding) → P f → All P (when_absent b f)
when_absent-All P true f h = tt
when_absent-All P false f h = (h, tt)

Returns-of_Labels :
    (rule : Rule)
    → Labels rule.id rule.check
    → ((n : String) (ks : List EnvFileKey) (c : Value) → rule.check_env_file_keys n ks c ≡ ok [])
    → Returns (Labelled rule) rule
Returns-of_Labels rule h k = record {
  on_check = h;
  on_keys = λ n ks c. rw (k n ks c) tt;
  on_rename = λ name f e. e;
}

findings_for-All :
    (id : String) (s : Severity) (name : String) (message : String → String → String)
    (fix : String → String) (members : Dict String) (cs : List AddedCap)
    → All (λ f. f.rule_id ≡ id) (findings_for id s name message fix members cs)
unfolding findings_for
findings_for-All id s name message fix members [] = tt
findings_for-All id s name message fix members (c ∷ cs) =
    (refl, findings_for-All id s name message fix members cs)

check_caps-Labels :
    (id : String) (s : Severity) (members : Dict String) (message : String → String → String)
    (fix : String → String)
    → Labels id (check_caps id s members message fix)
unfolding check_caps
check_caps-Labels id s members message fix name config global_config lines =
    on_mapping-All (λ f. f.rule_id ≡ id) config _
      λ c. findings_for-All id s name message fix members (iter_cap_add name c lines members)

tiers-Labels :
    Labels "CL-0011" check_strong_caps
    × Labels "CL-0024" check_host_exec_caps
    × Labels "CL-0027" check_lesser_caps
    × Labels "CL-0028" check_host_reach_caps
    × Labels "CL-0029" check_host_availability_caps
    × Labels "CL-0030" check_host_disclosure_caps
unfolding check_strong_caps check_host_exec_caps check_lesser_caps check_host_reach_caps
    check_host_availability_caps check_host_disclosure_caps
tiers-Labels = (
  check_caps-Labels "CL-0011" high strong_caps strong_caps_message strong_caps_fix,
  check_caps-Labels "CL-0024" critical host_exec_caps host_exec_caps_message host_exec_caps_fix,
  check_caps-Labels "CL-0027" medium lesser_caps lesser_caps_message lesser_caps_fix,
  check_caps-Labels "CL-0028" high host_reach_caps host_reach_caps_message host_reach_caps_fix,
  check_caps-Labels "CL-0029" high host_availability_caps host_availability_caps_message
      host_availability_caps_fix,
  check_caps-Labels "CL-0030" high host_disclosure_caps host_disclosure_caps_message
      host_disclosure_caps_fix,
)

-- A rule that yields one finding for its setting, or for want of it.
one_finding-Labels :
    Labels "CL-0002" check_privileged
    × Labels "CL-0006" check_cap_drop
    × Labels "CL-0007" check_read_only
    × Labels "CL-0008" check_host_network
    × Labels "CL-0014" check_logging_disabled
unfolding check_privileged check_cap_drop check_read_only check_host_network check_logging_disabled
one_finding-Labels = (
  λ name config _ lines.
      on_mapping-All (λ f. f.rule_id ≡ "CL-0002") config _
        λ c. when_set-All _ (is_privileged c) _ refl,
  λ name config _ lines.
      on_mapping-All (λ f. f.rule_id ≡ "CL-0006") config _
        λ c. when_absent-All _ (drops_all c) _ refl,
  λ name config _ lines.
      on_mapping-All (λ f. f.rule_id ≡ "CL-0007") config _
        λ c. when_absent-All _ (is_read_only c) _ refl,
  λ name config _ lines.
      on_mapping-All (λ f. f.rule_id ≡ "CL-0008") config _
        λ c. when_set-All _ (is_host_network c) _ refl,
  λ name config _ lines.
      on_mapping-All (λ f. f.rule_id ≡ "CL-0014") config _
        λ c. when_set-All _ (logs_nothing c) _ refl,
)

namespace-All :
    (name : String) (lines : LineView) (cs : List NamespaceCheck)
    → All (λ f. f.rule_id ≡ "CL-0010") (map (namespace_finding name lines) cs)
unfolding namespace_finding
namespace-All name lines [] = tt
namespace-All name lines (c ∷ cs) = (refl, namespace-All name lines cs)

host_namespace-Labels : Labels "CL-0010" check_host_namespace
unfolding check_host_namespace
host_namespace-Labels name config _ lines =
    on_mapping-All (λ f. f.rule_id ≡ "CL-0010") config _
      λ c. namespace-All name lines (select (shares_namespace c) namespace_checks)

root_findings-All :
    (name : String) (line : Option ℕ) (o : Option String)
    → All (λ f. f.rule_id ≡ "CL-0018") (root_findings name line o)
unfolding root_findings
root_findings-All name line none = tt
root_findings-All name line (some user) =
    when_set-All (λ f. f.rule_id ≡ "CL-0018") (is_root_user (lower (strip user))) _ refl

if-All :
    (P : Finding → Type 0) (b : Bool) (xs ys : List Finding)
    → All P xs
    → All P ys
    → All P (if b then xs else ys)
if-All P true xs ys h k = h
if-All P false xs ys h k = k

explicit_root-Labels : Labels "CL-0018" check_explicit_root
unfolding check_explicit_root
explicit_root-Labels name config _ lines =
    on_mapping-All (λ f. f.rule_id ≡ "CL-0018") config _
      λ c.
        if-All _ (is_null (get "user" c)) [] _ tt
          (root_findings-All name _ (as_scalar_text (get "user" c)))

image_findings-All :
    (name : String) (line : Option ℕ) (image : String) (s : String × Option String)
    → All (λ f. f.rule_id ≡ "CL-0004") (image_findings name line image s)
unfolding image_findings no_tag_finding mutable_tag_finding
image_findings-All name line image (ref, none) = (refl, tt)
image_findings-All name line image (ref, some tag) = if-All _ (is_mutable tag) _ [] (refl, tt) tt

digest_findings-All :
    (name : String) (line : Option ℕ) (image : String) (s : String × Option String)
    → All (λ f. f.rule_id ≡ "CL-0019") (digest_findings name line image s)
unfolding digest_findings
digest_findings-All name line image (ref, none) = tt
digest_findings-All name line image (ref, some tag) = if-All _ (is_mutable tag) [] _ tt (refl, tt)

-- `elim` on the image to look at.
elim-All :
    (P : Finding → Type 0) (o : Option String) (found : String → List Finding)
    → ((image : String) → All P (found image))
    → All P (elim o [ none ↦ [] | some image ↦ found image ])
elim-All P none found h = tt
elim-All P (some image) found h = h image

images-Labels : Labels "CL-0004" check_image_not_pinned × Labels "CL-0019" check_image_no_digest
unfolding check_image_not_pinned check_image_no_digest
images-Labels = (
  λ name config _ lines.
      on_mapping-All (λ f. f.rule_id ≡ "CL-0004") config _
        λ c.
          elim-All _ (unpinned_image c) _
            λ image. image_findings-All name _ image (split_image_ref image),
  λ name config _ lines.
      on_mapping-All (λ f. f.rule_id ≡ "CL-0019") config _
        λ c.
          elim-All _ (unpinned_image c) _
            λ image. digest_findings-All name _ image (split_image_ref image),
)

-- Every registered rule puts its own id on each finding that it returns.
pub modelled_rules-Labelled : All (λ rule. Returns (Labelled rule) rule) modelled_rules
modelled_rules-Labelled =
    let (strong, host_exec, lesser, reach, availability, disclosure) = tiers-Labels in
    let (privileged, cap_drop, read_only, network, logging) = one_finding-Labels in
    let (pinned, digest) = images-Labels in
    (
      Returns-of_Labels privileged_rule privileged (λ n ks c. refl),
      (
        Returns-of_Labels image_not_pinned_rule pinned (λ n ks c. refl),
        (
          Returns-of_Labels cap_drop_rule cap_drop (λ n ks c. refl),
          (
            Returns-of_Labels read_only_rule read_only (λ n ks c. refl),
            (
              Returns-of_Labels host_network_rule network (λ n ks c. refl),
              (
                Returns-of_Labels host_namespace_rule host_namespace-Labels (λ n ks c. refl),
                (
                  Returns-of_Labels strong_caps_rule strong (λ n ks c. refl),
                  (
                    Returns-of_Labels logging_disabled_rule logging (λ n ks c. refl),
                    (
                      Returns-of_Labels explicit_root_rule explicit_root-Labels (λ n ks c. refl),
                      (
                        Returns-of_Labels image_no_digest_rule digest (λ n ks c. refl),
                        (
                          Returns-of_Labels host_exec_caps_rule host_exec (λ n ks c. refl),
                          (
                            Returns-of_Labels lesser_caps_rule lesser (λ n ks c. refl),
                            (
                              Returns-of_Labels host_reach_caps_rule reach (λ n ks c. refl),
                              (
                                Returns-of_Labels host_availability_caps_rule availability
                                    (λ n ks c. refl),
                                (
                                  Returns-of_Labels host_disclosure_caps_rule disclosure
                                      (λ n ks c. refl),
                                  tt,
                                ),
                              ),
                            ),
                          ),
                        ),
                      ),
                    ),
                  ),
                ),
              ),
            ),
          ),
        ),
      ),
    )

-- Over the rules modelled here, whatever the settings: a finding of a rule that the settings disable
-- never passes the filter that decides the verdict, at any threshold.
pub modelled_rules-disabled :
    (input : Input) (threshold : Severity)
    → All
        (Passes input.settings)
        (filter_findings (findings_of (run_rules modelled_rules input)) threshold)
modelled_rules-disabled input threshold =
    filter_findings-disabled modelled_rules input threshold modelled_rules-Labelled
