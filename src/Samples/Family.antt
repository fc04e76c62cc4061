-- ===== src/Samples/Family.antt =====
-- Services that extend each other, in one file.
use compose_lint.Prelude.{[], map, none, refl, true, ◌∷◌, ◌≡◌}
use compose_lint.Dict.{Dict}
use compose_lint.Value.{Value, bool, null, str}
use compose_lint.Extends.{Family, in_file_target, resolve_extends}
use compose_lint.Samples.{mapping, texts}

abbrev base_service : Dict Value
base_service = ("cap_drop", texts ("ALL" ∷ [])) ∷ ("read_only", bool true) ∷ []

abbrev api_service : Dict Value
api_service =
    ("extends", mapping (("service", str "base") ∷ [])) ∷ ("cap_drop", texts ("NET_RAW" ∷ [])) ∷ []

abbrev web_service : Dict Value
web_service = ("extends", str "api") ∷ ("read_only", null) ∷ []

-- `web` extends `api`, which extends `base`; `api` resets the inherited `cap_drop`.
abbrev straight : Family
straight = record {
  services =
      ("web", mapping web_service)
      ∷ ("api", mapping api_service)
      ∷ ("base", mapping base_service)
      ∷ [];
  skip = [];
  resets = "services.api.cap_drop" ∷ [];
  overrides = [];
}

-- The same beside a circle and a target that is not there.
abbrev tangled : Family
tangled = record {
  services =
      ("left", mapping (("extends", str "right") ∷ []))
      ∷ ("right", mapping (("extends", str "left") ∷ []))
      ∷ ("lost", mapping (("extends", str "nowhere") ∷ []))
      ∷ straight.services;
  skip = [];
  resets = "services.api.cap_drop" ∷ [];
  overrides = [];
}

-- A null over a flag wins.
abbrev resolved_web : Value
resolved_web =
    mapping
      (("read_only", null) ∷ ("extends", str "api") ∷ ("cap_drop", texts ("NET_RAW" ∷ [])) ∷ [])

in_file_target_cross :
    in_file_target
      (mapping (("extends", mapping (("file", str "a.yml") ∷ ("service", str "b") ∷ [])) ∷ []))
    ≡ none
unfolding in_file_target
in_file_target_cross = refl

resolve_extends_refusals : map (λ r. r.child) (resolve_extends tangled).1 ≡ "right" ∷ "lost" ∷ []
unfolding resolve_extends
resolve_extends_refusals = refl
