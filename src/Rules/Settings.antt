-- ===== src/Rules/Settings.antt =====
-- The rules that read one setting: CL-0002, CL-0007 (its check), CL-0008, CL-0010, CL-0014 (its check)
-- and CL-0018, each a file of src/compose_lint/rules/.
use compose_lint.Prelude.{
  Bool, List, Option, String, [], code, false, if◌then◌else◌, leb, map, none, select, some, str_eq,
  true, ℕ, ◌&&◌, ◌*◌, ◌+◌, ◌-◌, ◌==◌, ◌||◌, ◌∷◌,
}
use compose_lint.Text.{append, lower, partition, strip}
use compose_lint.Dict.{Dict}
use compose_lint.Value.{Value, as_bool, as_dict, as_scalar_text, get, get_default, is_null, str}
use compose_lint.Models.{Finding, critical, finding, high, low, medium}
use compose_lint.Lines.{LineView, get_line}
use compose_lint.Engine.{Result, Rule}
use compose_lint.Rules.{
  field_path, inline, no_env_file_keys, on_mapping, service_path, when_absent, when_set,
}

-- `as_bool(...) is True`
is_true : Value → Bool
unfolding as_bool
is_true v = elim (as_bool v) [ none ↦ false | some b ↦ b ]

unfoldable pub is_privileged : Dict Value → Bool
unfolding get is_true
is_privileged config = is_true (get "privileged" config)

-- CL-0002
unfoldable pub check_privileged : String → Value → Dict Value → LineView → Result (List Finding)
unfolding on_mapping is_privileged get_line field_path
check_privileged service_name service_config global_config lines =
    on_mapping service_config λ config. when_set (is_privileged config) (
      finding "CL-0002" critical service_name none
        "Service runs in privileged mode. This disables nearly all container isolation — the container gets all Linux capabilities and host device access, and is trivially escapable to host root."
        (get_line lines (field_path service_name "privileged"))
        "Remove 'privileged: true' and grant only the specific capabilities needed:\n  cap_drop:\n    - ALL\n  cap_add:\n    - <SPECIFIC_CAP>\nDevices need explicit devices: entries; to determine the\ncapability set, see: compose-lint --explain CL-0006"
        ("https://cheatsheetseries.owasp.org/cheatsheets/Docker_Security_Cheat_Sheet.html#rule-3-limit-capabilities-grant-only-specific-capabilities-needed-by-a-container"
          ∷ "CIS Docker Benchmark 5.5 — Ensure that privileged containers are not used" ∷ []))

abbrev pub privileged_rule : Rule
privileged_rule = record {
  id = "CL-0002";
  check = check_privileged;
  check_env_file_keys = no_env_file_keys;
}

unfoldable pub is_read_only : Dict Value → Bool
unfolding get is_true
is_read_only config = is_true (get "read_only" config)

-- CL-0007
unfoldable pub check_read_only : String → Value → Dict Value → LineView → Result (List Finding)
unfolding on_mapping is_read_only get_line service_path
check_read_only service_name service_config global_config lines =
    on_mapping service_config λ config. when_absent (is_read_only config) (
      finding "CL-0007" low service_name none
        "Service root filesystem is writable. An attacker can modify binaries, install tools, or persist malware inside the container."
        (get_line lines (service_path service_name))
        "Set the root filesystem to read-only and declare writable paths:\n  read_only: true\n  tmpfs:\n    - /tmp\n    - /run\nTo find the paths, run once without read_only and check\n`docker diff`; then map each 'Read-only file system'\nerror by path type: ephemeral (PID files, sockets,\ncaches, /tmp) -> a tmpfs entry; persistent data -> a\nnamed volume, NEVER tmpfs (erased on every restart).\nFull guide: compose-lint --explain CL-0007"
        ("https://cheatsheetseries.owasp.org/cheatsheets/Docker_Security_Cheat_Sheet.html#rule-8-set-filesystem-and-volumes-to-read-only"
          ∷ "CIS Docker Benchmark 5.13 — Ensure that the container's root filesystem is mounted as read only"
          ∷ []))

abbrev pub read_only_rule : Rule
read_only_rule = record {
  id = "CL-0007";
  check = check_read_only;
  check_env_file_keys = no_env_file_keys;
}

-- `as_scalar_text(value) == text`
is_text : String → Value → Bool
unfolding as_scalar_text
is_text text v = elim (as_scalar_text v) [ none ↦ false | some s ↦ str_eq s text ]

unfoldable pub is_host_network : Dict Value → Bool
unfolding get_default is_text
is_host_network config = is_text "host" (get_default "network_mode" (str "") config)

-- CL-0008
unfoldable pub check_host_network : String → Value → Dict Value → LineView → Result (List Finding)
unfolding on_mapping is_host_network get_line field_path
check_host_network service_name service_config global_config lines =
    on_mapping service_config λ config. when_set (is_host_network config) (
      finding "CL-0008" high service_name none
        "Service uses host network mode. This disables network isolation — the container shares the host's network stack and can bind any port or sniff traffic."
        (get_line lines (field_path service_name "network_mode"))
        "Remove 'network_mode: host' and use bridge networking with explicit port mappings:\n  ports:\n    - \"127.0.0.1:8080:8080\""
        ("https://cheatsheetseries.owasp.org/cheatsheets/Docker_Security_Cheat_Sheet.html#rule-5-be-mindful-of-inter-container-connectivity"
          ∷ "CIS Docker Benchmark 5.10 — Ensure that the host's network namespace is not shared"
          ∷ []))

abbrev pub host_network_rule : Rule
host_network_rule = record {
  id = "CL-0008";
  check = check_host_network;
  check_env_file_keys = no_env_file_keys;
}

-- `isinstance(driver, str) and driver.lower() == "none"`
names_none : Value → Bool
unfolding lower
names_none (str driver) = str_eq (lower driver) "none"
names_none _ = false

unfoldable pub logs_nothing : Dict Value → Bool
unfolding get names_none
logs_nothing config = elim (as_dict (get "logging" config)) [
  | none ↦ false
  | some logging_config ↦ names_none (get "driver" logging_config)
]

-- CL-0014
unfoldable pub check_logging_disabled :
    String → Value → Dict Value → LineView → Result (List Finding)
unfolding on_mapping logs_nothing get_line field_path
check_logging_disabled service_name service_config global_config lines =
    on_mapping service_config λ config. when_set (logs_nothing config) (
      finding "CL-0014" low service_name none
        "Logging driver is set to 'none'. No logs will be collected from this container, preventing audit trails and incident response."
        (get_line lines (field_path service_name "logging.driver"))
        "Remove 'driver: none' to use the default logging driver, or configure an appropriate driver:\n  logging:\n    driver: json-file\n    options:\n      max-size: 10m\n      max-file: '3'"
        ("https://docs.docker.com/engine/logging/configure/"
          ∷ "https://cheatsheetseries.owasp.org/cheatsheets/Logging_Cheat_Sheet.html" ∷ []))

abbrev pub logging_disabled_rule : Rule
logging_disabled_rule = record {
  id = "CL-0014";
  check = check_logging_disabled;
  check_env_file_keys = no_env_file_keys;
}

pub record NamespaceCheck : Type 0 where
  pub key : String
  pub value : String
  pub cis_ref : String
  pub desc : String

abbrev pub namespace_checks : List NamespaceCheck
namespace_checks =
    record {
      key = "pid";
      value = "host";
      cis_ref =
          "CIS Docker Benchmark 5.16 — Ensure that the host's process namespace is not shared";
      desc = "process namespace. The container can see and signal all host processes.";
    }
    ∷ record {
      key = "ipc";
      value = "host";
      cis_ref = "CIS Docker Benchmark 5.17 — Ensure that the host's IPC namespace is not shared";
      desc = "IPC namespace. The container can access host shared memory segments.";
    }
    ∷ []

unfoldable pub namespace_finding : String → LineView → NamespaceCheck → Finding
unfolding get_line field_path inline
namespace_finding service_name lines c =
    finding "CL-0010" high service_name (some c.key) (append "Service shares the host's " c.desc)
      (get_line lines (field_path service_name c.key))
      (append "Remove '" (
        append (inline c.key)
          (append ": " (append (inline c.value) "' to restore namespace isolation."))))
      ("https://cheatsheetseries.owasp.org/cheatsheets/Docker_Security_Cheat_Sheet.html#rule-3-limit-capabilities-grant-only-specific-capabilities-needed-by-a-container"
        ∷ c.cis_ref ∷ [])

unfoldable pub shares_namespace : Dict Value → NamespaceCheck → Bool
unfolding get_default is_text
shares_namespace config c = is_text c.value (get_default c.key (str "") config)

unfoldable pub check_host_namespace : String → Value → Dict Value → LineView → Result (List Finding)
unfolding on_mapping namespace_finding shares_namespace
check_host_namespace service_name service_config global_config lines =
    on_mapping service_config λ config.
      map (namespace_finding service_name lines) (select (shares_namespace config) namespace_checks)

abbrev pub host_namespace_rule : Rule
host_namespace_rule = record {
  id = "CL-0010";
  check = check_host_namespace;
  check_env_file_keys = no_env_file_keys;
}

-- `_ATOI.fullmatch` and `int`: the number behind one sign or none, in ASCII digits.
digits_value : ℕ → String → Option ℕ
digits_value n String.[] = some n
digits_value n (String.◌∷◌ c s) =
    let rest = digits_value (n * 10 + (code c - 48)) s in
    if leb 48 (code c) && leb (code c) 57 then rest else none

unsigned : String → Option ℕ
unfolding digits_value
unsigned String.[] = none
unsigned (String.◌∷◌ c s) = digits_value 0 (String.◌∷◌ c s)

-- The absolute value, which is zero when the number is.
unfoldable pub atoi : String → Option ℕ
unfolding unsigned
atoi String.[] = none
atoi (String.◌∷◌ c s) =
    if code c == b'+' || code c == b'-' then unsigned s else unsigned (String.◌∷◌ c s)

-- _is_root_user
unfoldable pub is_root_user : String → Bool
unfolding partition atoi
is_root_user user_str =
    let user_part = (partition b':' user_str).0 in
    if str_eq user_part "root" || str_eq user_part "0"
    then true
    else elim (atoi user_part) [ none ↦ false | some n ↦ n == 0 ]

unfoldable pub root_findings : String → Option ℕ → Option String → List Finding
unfolding strip lower is_root_user
root_findings service_name line none = []
root_findings service_name line (some user) = when_set (is_root_user (lower (strip user))) (
    finding "CL-0018" medium service_name none
      (append "Service explicitly runs as root (user: "
        (append user "). This overrides any non-root USER instruction in the image."))
      line
      "Remove the 'user:' directive to respect the image's USER instruction, or set a non-root user:\n  user: 1000:1000"
      ("https://cheatsheetseries.owasp.org/cheatsheets/Docker_Security_Cheat_Sheet.html#rule-2-set-a-user"
        ∷ "https://docs.docker.com/engine/security/userns-remap/" ∷ []))

-- CL-0018
unfoldable pub check_explicit_root : String → Value → Dict Value → LineView → Result (List Finding)
unfolding on_mapping get as_scalar_text root_findings get_line field_path
check_explicit_root service_name service_config global_config lines =
    on_mapping service_config λ config.
      if is_null (get "user" config)
      then []
      else root_findings service_name (get_line lines (field_path service_name "user"))
          (as_scalar_text (get "user" config))

abbrev pub explicit_root_rule : Rule
explicit_root_rule = record {
  id = "CL-0018";
  check = check_explicit_root;
  check_env_file_keys = no_env_file_keys;
}
