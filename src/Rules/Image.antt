-- ===== src/Rules/Image.antt =====
-- src/compose_lint/rules/_image.py and the two rules over it: CL-0004 and CL-0019.
pub mod Pinning
use compose_lint.Prelude.{Bool, List, Option, String, [], if◌then◌else◌, none, some, ℕ, ◌∷◌}
use compose_lint.Text.{append, contains, has_char, lower, mem_text, partition, rpartition}
use compose_lint.Dict.{Dict}
use compose_lint.Value.{Value, as_scalar_text, get, is_null}
use compose_lint.Models.{Finding, finding, medium}
use compose_lint.Lines.{LineView, get_line}
use compose_lint.Engine.{Result, Rule}
use compose_lint.Rules.{field_path, inline, no_env_file_keys, on_mapping}

abbrev pub mutable_tags : List String
mutable_tags = "latest" ∷ "stable" ∷ "edge" ∷ "nightly" ∷ "dev" ∷ "test" ∷ []

-- split_image_ref: the name, and the tag if there is one.
split_tag : String → Option (String × String) → String × Option String
unfolding has_char
split_tag image none = (image, none)
split_tag image (some (name, candidate)) =
    if has_char b'/' candidate then (image, none) else (name, some candidate)

unfoldable pub split_image_ref : String → String × Option String
unfolding partition rpartition split_tag
split_image_ref ref = let image = (partition b'@' ref).0 in split_tag image (rpartition b':' image)

-- What both rules look at: the image's text, unless it is missing, no scalar or pinned by digest.
unfoldable pub unpinned_image : Dict Value → Option String
unfolding get as_scalar_text contains
unpinned_image config =
    if is_null (get "image" config) then none else elim (as_scalar_text (get "image" config)) [
      | none ↦ none
      | some image ↦ if contains "@sha256:" image then none else some image
    ]

-- `tag.lower() in MUTABLE_TAGS`
unfoldable pub is_mutable : String → Bool
unfolding lower mem_text
is_mutable tag = mem_text (lower tag) mutable_tags

unfoldable pub no_tag_finding : String → String → String → Option ℕ → Finding
unfolding inline
no_tag_finding service_name image name line =
    finding "CL-0004" medium service_name none
      (append "Image '" (
        append image
          "' has no tag, which defaults to ':latest'. Pin to a specific version for reproducible builds."))
      line (append "Pin to a specific version, e.g.: image: " (append (inline name) ":<version>"))
      ("https://cheatsheetseries.owasp.org/cheatsheets/Docker_Security_Cheat_Sheet.html#rule-13-enhance-supply-chain-security"
        ∷ "CIS Docker Benchmark 5.28 — Ensure that Docker commands always make use of the latest version of their image"
        ∷ [])

unfoldable pub mutable_tag_finding : String → String → String → String → Option ℕ → Finding
unfolding inline
mutable_tag_finding service_name image name tag line =
    finding "CL-0004" medium service_name none
      (append "Image '" (
        append image (
          append "' uses mutable tag ':"
            (append tag "'. Pin to a specific version for reproducible builds."))))
      line (append "Pin to a specific version, e.g.: image: " (append (inline name) ":<version>"))
      ("https://cheatsheetseries.owasp.org/cheatsheets/Docker_Security_Cheat_Sheet.html#rule-13-enhance-supply-chain-security"
        ∷ "CIS Docker Benchmark 5.28 — Ensure that Docker commands always make use of the latest version of their image"
        ∷ [])

unfoldable pub image_findings : String → Option ℕ → String → String × Option String → List Finding
unfolding no_tag_finding mutable_tag_finding is_mutable
image_findings service_name line image (name, none) =
    no_tag_finding service_name image name line ∷ []
image_findings service_name line image (name, some tag) =
    if is_mutable tag then mutable_tag_finding service_name image name tag line ∷ [] else []

-- CL-0004
unfoldable pub check_image_not_pinned :
    String → Value → Dict Value → LineView → Result (List Finding)
unfolding on_mapping unpinned_image split_image_ref image_findings get_line field_path
check_image_not_pinned service_name service_config global_config lines =
    on_mapping service_config λ config. elim (unpinned_image config) [
      | none ↦ []
      | some image ↦
          image_findings service_name (get_line lines (field_path service_name "image")) image
            (split_image_ref image)
    ]

unfoldable pub digest_findings : String → Option ℕ → String → String × Option String → List Finding
unfolding is_mutable inline
digest_findings service_name line image (name, none) = []
digest_findings service_name line image (name, some tag) =
    if is_mutable tag
    then []
    else finding "CL-0019" medium service_name none
        (append "Image '" (
          append image
            "' is pinned to a tag but not a digest. Tags can be overwritten on the registry, so this does not guarantee image immutability."))
        line
        (append "Add a digest pin: image: " (
          append (inline image)
            "@sha256:<digest>\nUse Dependabot or Renovate to keep digests current."))
        ("https://cheatsheetseries.owasp.org/cheatsheets/Docker_Security_Cheat_Sheet.html#rule-13-enhance-supply-chain-security"
          ∷ [])
      ∷ []

-- CL-0019
unfoldable pub check_image_no_digest :
    String → Value → Dict Value → LineView → Result (List Finding)
unfolding on_mapping unpinned_image split_image_ref digest_findings get_line field_path
check_image_no_digest service_name service_config global_config lines =
    on_mapping service_config λ config. elim (unpinned_image config) [
      | none ↦ []
      | some image ↦
          digest_findings service_name (get_line lines (field_path service_name "image")) image
            (split_image_ref image)
    ]

abbrev pub image_not_pinned_rule : Rule
image_not_pinned_rule = record {
  id = "CL-0004";
  check = check_image_not_pinned;
  check_env_file_keys = no_env_file_keys;
}

abbrev pub image_no_digest_rule : Rule
image_no_digest_rule = record {
  id = "CL-0019";
  check = check_image_no_digest;
  check_env_file_keys = no_env_file_keys;
}
