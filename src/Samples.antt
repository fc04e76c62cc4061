-- ===== src/Samples.antt =====
-- Small documents, runs and rules that the examples and the tests of this library use.
pub mod Runs
pub mod Rulings
pub mod References
pub mod Overlays
pub mod Dotenv
pub mod Verdicts
pub mod Patches
pub mod Fixes
pub mod Family
pub mod Quotes
use compose_lint.Prelude.{List, String, [], map, none, some, true, ℕ, ◌∷◌}
use compose_lint.Value.{Value, bool, dict, of_entries, of_items, seq, str}
use compose_lint.Dict.{Dict}
use compose_lint.Models.{Finding, finding, high, medium}
use compose_lint.Engine.{EnvFileKey, Rule, ServiceEnvFiles, Settings, no_settings, ok, raised}
use compose_lint.Engine.Run.{Input}

abbrev pub texts : List String → Value
texts ss = seq (of_items (map str ss))

abbrev pub mapping : Dict Value → Value
mapping d = dict (of_entries d)

-- A service that is privileged, adds capabilities of two tiers, and runs a hook on the host's network.
abbrev pub web_config : Dict Value
web_config =
    ("image", str "localhost:5000/web:latest")
    ∷ ("privileged", bool true)
    ∷ ("user", str "0:1000")
    ∷ ("cap_add", texts ("CAP_SYS_ADMIN" ∷ "net_raw" ∷ "CHOWN" ∷ []))
    ∷ ("pre_start", seq (of_items (mapping (("network_mode", str "host") ∷ []) ∷ [])))
    ∷ []

abbrev pub document' : Dict Value
document' =
    (
      "services",
      mapping (("web", mapping web_config) ∷ ("db", mapping (("image", str "postgres") ∷ [])) ∷ []),
    )
    ∷ ("jobs", mapping (("seed", mapping (("image", str "seed:1.2") ∷ [])) ∷ []))
    ∷ []

abbrev pub line_map : Dict ℕ
line_map =
    ("services.web", 2)
    ∷ ("services.web.image", 3)
    ∷ ("services.web.privileged", 4)
    ∷ ("services.web.cap_add", 6)
    ∷ ("services.web.cap_add[0]", 7)
    ∷ ("services.db", 11)
    ∷ ("services.db.image", 12)
    ∷ ("jobs.seed", 14)
    ∷ ("jobs.seed.image", 15)
    ∷ []

-- CL-0002 is off, CL-0006 is raised, and CL-0004 is excluded for one service.
abbrev pub strict : Settings
strict = record {
  disabled = ("CL-0002", some "a sidecar needs it") ∷ [];
  overrides = ("CL-0006", high) ∷ [];
  excluded = ("CL-0004", ("db", none) ∷ []) ∷ [];
  config_name = ".compose-lint.yml";
}

abbrev pub input : Input
input = record {
  data' = document';
  lines = line_map;
  settings = strict;
  env_files = [];
  env_values = [];
}

-- A rule that raises on every unit.
abbrev pub broken_rule : Rule
broken_rule = record {
  id = "CL-9999";
  check = λ name config data' lines. raised "KeyError: 'image'";
  check_env_file_keys = λ name ks config. ok [];
}

-- A rule of `env_file:` keys: one finding for each key.
abbrev key_findings : List EnvFileKey → List Finding
key_findings [] = []
key_findings (k ∷ ks) =
    finding "CL-9998" medium "" (some k.key) "set" (some k.line) "unset" [] ∷ key_findings ks

abbrev pub key_rule : Rule
key_rule = record {
  id = "CL-9998";
  check = λ name config data' lines. ok [];
  check_env_file_keys = λ name ks config. ok (key_findings ks);
}

abbrev pub env_keys : ServiceEnvFiles
env_keys = record {
  ident = 0;
  available =
      record {
        key = "TOKEN";
        value = "abc";
        source_file = "web.env";
        line = 1;
        path = "services.web.env_file";
      }
      ∷ [];
  shadowed = [];
}

-- Two services that share one key set.
abbrev pub env_input : Input
env_input = record {
  data' = document';
  lines = line_map;
  settings = no_settings;
  env_files = ("web", env_keys) ∷ ("db", env_keys) ∷ [];
  env_values = [];
}
