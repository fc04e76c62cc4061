-- ===== src/Rules/Image/Pinning.antt =====
-- How an image reference splits, and how the two pinning rules share the images between them.
use compose_lint.Prelude.{
  Bool-cases, List, Option, String, [], false, if◌then◌else◌, inl, inr, is_some, length, none, refl,
  some, true, ℕ, ◌+◌, ◌≡◌, ◌⊎◌,
}
use compose_lint.Text.{has_char, partition, rpartition}
use compose_lint.Text.Laws.{SplitAt, rpartition-none, rpartition_lem}
use compose_lint.Value.{Entries, Value, dict, entries}
use compose_lint.Models.{Finding}
use compose_lint.Lines.{LineView, get_line}
use compose_lint.Rules.{field_path, yield_count}
use compose_lint.Rules.Image.{
  check_image_no_digest, check_image_not_pinned, digest_findings, image_findings, is_mutable,
  split_image_ref, split_tag, unpinned_image,
}

-- `image` is `name`, a colon and `tag`, and the tag holds neither a colon nor a slash.
abbrev pub IsTagged : String → String → String → Type 0
IsTagged image name tag = SplitAt b':' image name tag × (has_char b'/' tag ≡ false)

-- Nothing that follows the last colon of `image`, if it has one, can be a tag.
abbrev pub IsUntagged : String → Type 0
IsUntagged image =
    (has_char b':' image ≡ false)
    ⊎ ((name : String) × (rest : String) × SplitAt b':' image name rest
        × (has_char b'/' rest ≡ true))

-- What a split of `image` says.
abbrev pub Splits : String → String × Option String → Type 0
Splits image (name, none) = (name ≡ image) × IsUntagged image
Splits image (name, some tag) = IsTagged image name tag

split_tag-Splits :
    (image : String) (r : Option (String × String))
    → rpartition b':' image ≡ r
    → Splits image (split_tag image r)
unfolding split_tag
split_tag-Splits image none e = (refl, inl (rpartition-none b':' image e))
split_tag-Splits image (some (name, rest)) e = elim (Bool-cases (has_char b'/' rest)) [
  | inl p ↦ rw (p, split_tag) (refl, inr (name, rest, rpartition_lem b':' image name rest e, p))
  | inr p ↦ rw (p, split_tag) (rpartition_lem b':' image name rest e, p)
]

-- A reference splits, once its digest is cut off, into a name and a tag around the last colon, or is
-- all name: a tag holds no colon and no slash, and without a tag there is no colon or a slash follows
-- the last one (the port of a registry).
pub split_image_ref-Splits : (ref : String) → Splits (partition b'@' ref).0 (split_image_ref ref)
unfolding split_image_ref
split_image_ref-Splits ref =
    let image = (partition b'@' ref).0 in split_tag-Splits image (rpartition b':' image) refl

shared_out :
    (name : String) (line : Option ℕ) (image : String) (s : String × Option String)
    → length (image_findings name line image s) + length (digest_findings name line image s) ≡ 1
unfolding image_findings digest_findings
shared_out name line image (ref, none) = refl
shared_out name line image (ref, some tag) = elim (Bool-cases (is_mutable tag)) [
  | inl e ↦ rw e refl
  | inr e ↦ rw e refl
]

-- Each image that is no digest pin gets exactly one finding from the two rules together, and any
-- other service none: CL-0004 and CL-0019 neither overlap nor leave an image between them.
pub image_rules_share :
    (name : String) (config : Entries) (global_config : List (String × Value)) (lines : LineView)
    → yield_count (check_image_not_pinned name (dict config) global_config lines)
        + yield_count (check_image_no_digest name (dict config) global_config lines)
      ≡ (if is_some (unpinned_image (entries config)) then 1 else 0)
unfolding check_image_not_pinned check_image_no_digest
image_rules_share name config global_config lines = go (unpinned_image (entries config))
  where
    go :
        (o : Option String)
        → length {A = Finding} (elim o [
          | none ↦ []
          | some image ↦
              image_findings name
                (get_line lines (field_path name "image"))
                image
                (split_image_ref image)
        ])
            + length {A = Finding} (elim o [
              | none ↦ []
              | some image ↦
                  digest_findings name
                    (get_line lines (field_path name "image"))
                    image
                    (split_image_ref image)
            ])
          ≡ (if is_some o then 1 else 0)
    go none = refl
    go (some image) =
        shared_out name (get_line lines (field_path name "image")) image (split_image_ref image)
