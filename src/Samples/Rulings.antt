-- ===== src/Samples/Rulings.antt =====
-- The rules at the sample documents.
use compose_lint.Prelude.{
  [], false, if◌then◌else◌, is_some, length, map, none, refl, some, true, ◌+◌, ◌∷◌, ◌≡◌, ◌≤◌,
}
use compose_lint.Value.{as_bool, entries, int, of_entries, pos, str}
use compose_lint.Lines.{document}
use compose_lint.Text.{partition}
use compose_lint.Rules.{yield_count}
use compose_lint.Rules.Caps.Tiers.{
  check_host_availability_caps, check_host_disclosure_caps, check_host_exec_caps,
  check_host_reach_caps, check_lesser_caps, check_strong_caps,
}
use compose_lint.Rules.Caps.Disjoint.{added_entries, tiers_share}
use compose_lint.Rules.Image.{
  check_image_no_digest, check_image_not_pinned, split_image_ref, unpinned_image,
}
use compose_lint.Rules.Image.Pinning.{Splits, image_rules_share, split_image_ref-Splits}
use compose_lint.Rules.Settings.{is_root_user}
use compose_lint.Samples.{document', line_map, mapping, web_config}

split_registry :
    split_image_ref "localhost:5000/web:latest@sha256:00" ≡ ("localhost:5000/web", some "latest")
unfolding split_image_ref
split_registry = refl

split_port : split_image_ref "localhost:5000/web" ≡ ("localhost:5000/web", none)
unfolding split_image_ref
split_port = refl

root_forms :
    map is_root_user ("0" ∷ "root:wheel" ∷ "+00:1000" ∷ "1000:0" ∷ "" ∷ [])
    ≡ true ∷ true ∷ true ∷ false ∷ false ∷ []
unfolding is_root_user
root_forms = refl

bool_forms :
    map as_bool (str " Yes " ∷ str "off" ∷ str "maybe" ∷ int (pos 1) ∷ [])
    ≡ some true ∷ some false ∷ none ∷ none ∷ []
unfolding as_bool
bool_forms = refl

split_image_ref-Splits_example :
    Splits
      (partition b'@' "localhost:5000/web:latest").0
      (split_image_ref "localhost:5000/web:latest")
split_image_ref-Splits_example = split_image_ref-Splits "localhost:5000/web:latest"

image_rules_share_example :
    yield_count (check_image_not_pinned "web" (mapping web_config) document' (document line_map))
      + yield_count (check_image_no_digest "web" (mapping web_config) document' (document line_map))
    ≡ (if is_some (unpinned_image (entries (of_entries web_config))) then 1 else 0)
image_rules_share_example =
    image_rules_share "web" (of_entries web_config) document' (document line_map)

tiers_share_example :
    yield_count (check_strong_caps "web" (mapping web_config) document' (document line_map))
      + yield_count (check_host_exec_caps "web" (mapping web_config) document' (document line_map))
      + yield_count (check_lesser_caps "web" (mapping web_config) document' (document line_map))
      + yield_count (check_host_reach_caps "web" (mapping web_config) document' (document line_map))
      + yield_count
          (check_host_availability_caps "web" (mapping web_config) document' (document line_map))
      + yield_count
          (check_host_disclosure_caps "web" (mapping web_config) document' (document line_map))
    ≤ length (added_entries (entries (of_entries web_config)))
tiers_share_example = tiers_share "web" (of_entries web_config) document' (document line_map)
