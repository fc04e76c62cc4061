-- ===== src/Rules/Caps/Tiers.antt =====
-- The six tiers of `cap_add`: CL-0011, CL-0024, CL-0027, CL-0028, CL-0029 and CL-0030. Each is one
-- table of src/compose_lint/rules/ over the shared scan.
use compose_lint.Prelude.{List, String, [], ◌∷◌}
use compose_lint.Text.{append}
use compose_lint.Dict.{Dict}
use compose_lint.Value.{Value}
use compose_lint.Models.{Finding, critical, high, medium}
use compose_lint.Lines.{LineView}
use compose_lint.Engine.{Result, Rule}
use compose_lint.Rules.{inline, no_env_file_keys}
use compose_lint.Rules.Caps.{check_caps}

abbrev pub strong_caps : Dict String
strong_caps =
    (
      "NET_ADMIN",
      "reconfigure interfaces, routes and firewall rules — enables transparent interception of other containers' traffic, which NET_RAW alone cannot reach",
    )
    ∷ (
      "BPF",
      "load BPF programs — kernel introspection and manipulation, and a recurring container-escape surface",
    )
    ∷ (
      "SYS_BOOT",
      "reboot or power off the host via reboot(2) — host availability. It does not load a kernel: kexec_load is blocked by the default seccomp profile even with this capability held",
    )
    ∷ []

unfoldable pub strong_caps_message : String → String → String
strong_caps_message as_written grants =
    append "Service adds " (append as_written (append ": " (append grants ".")))

unfoldable pub strong_caps_fix : String → String
unfolding inline
strong_caps_fix as_written = append "Remove " (
    append (inline as_written)
      " from cap_add. VPN and networking containers legitimately need NET_ADMIN — where that is the case, suppress with a reason naming the workload rather than leaving it unexplained.\nFull guide: compose-lint --explain CL-0011")

unfoldable pub check_strong_caps : String → Value → Dict Value → LineView → Result (List Finding)
unfolding check_caps strong_caps_message strong_caps_fix
check_strong_caps = check_caps "CL-0011" high strong_caps strong_caps_message strong_caps_fix

abbrev pub strong_caps_rule : Rule
strong_caps_rule = record {
  id = "CL-0011";
  check = check_strong_caps;
  check_env_file_keys = no_env_file_keys;
}

abbrev pub host_exec_caps : Dict String
host_exec_caps =
    (
      "ALL",
      "grants every Linux capability — functionally equivalent to disabling capability-based isolation, and the capability half of privileged: true",
    )
    ∷ (
      "SYS_ADMIN",
      "near-root: mount filesystems, configure namespaces, and the historical home of most container-escape techniques",
    )
    ∷ (
      "SYS_MODULE",
      "load and unload kernel modules — arbitrary code in kernel space, which is the host by definition",
    )
    ∷ (
      "SYS_RAWIO",
      "raw I/O port and /dev/mem-class access — read and write physical memory and device registers directly",
    )
    ∷ []

unfoldable pub host_exec_caps_message : String → String → String
host_exec_caps_message as_written grants =
    append "Service adds "
      (append as_written (append ", which grants host code execution: " (append grants ".")))

unfoldable pub host_exec_caps_fix : String → String
unfolding inline
host_exec_caps_fix as_written = append "Remove " (
    append (inline as_written)
      " from cap_add. There is no least-privilege reading of this capability — if the workload genuinely needs it, it needs a VM or a host process, not a container.\nFull guide: compose-lint --explain CL-0024")

unfoldable pub check_host_exec_caps : String → Value → Dict Value → LineView → Result (List Finding)
unfolding check_caps host_exec_caps_message host_exec_caps_fix
check_host_exec_caps =
    check_caps "CL-0024" critical host_exec_caps host_exec_caps_message host_exec_caps_fix

abbrev pub host_exec_caps_rule : Rule
host_exec_caps_rule = record {
  id = "CL-0024";
  check = check_host_exec_caps;
  check_env_file_keys = no_env_file_keys;
}

abbrev pub lesser_caps : Dict String
lesser_caps =
    (
      "SYS_PTRACE",
      "trace and read the memory of other processes — confined to this container's own PID namespace unless pid: host is also set",
    )
    ∷ (
      "DAC_READ_SEARCH",
      "bypass file-read permission checks, and read host files via open_by_handle_at — but only where a host bind mount is already present, which is flagged separately",
    )
    ∷ []

unfoldable pub lesser_caps_message : String → String → String
lesser_caps_message as_written grants =
    append "Service adds " (append as_written (append ": " (append grants ".")))

unfoldable pub lesser_caps_fix : String → String
unfolding inline
lesser_caps_fix as_written = append "Remove " (
    append (inline as_written)
      " from cap_add unless the workload demonstrably needs it (debugger sidecars need SYS_PTRACE). Scope a debugger to the container it inspects with pid: \"service:<name>\" rather than pid: host. Where it is genuinely required, suppress with a reason naming the workload.\nFull guide: compose-lint --explain CL-0027")

unfoldable pub check_lesser_caps : String → Value → Dict Value → LineView → Result (List Finding)
unfolding check_caps lesser_caps_message lesser_caps_fix
check_lesser_caps = check_caps "CL-0027" medium lesser_caps lesser_caps_message lesser_caps_fix

abbrev pub lesser_caps_rule : Rule
lesser_caps_rule = record {
  id = "CL-0027";
  check = check_lesser_caps;
  check_env_file_keys = no_env_file_keys;
}

abbrev pub host_reach_caps : Dict String
host_reach_caps =
    (
      "PERFMON",
      "perf_event_open across the whole host — kernel samples and every process on the machine, a read primitive enabling timing and side-channel attacks and kernel info disclosure",
    )
    ∷ (
      "SYS_TIME",
      "set the system clock, which is host-global — Docker does not isolate CLOCK_REALTIME, so this breaks certificate validation, TOTP, and Kerberos for every workload on the host",
    )
    ∷ []

unfoldable pub host_reach_caps_message : String → String → String
host_reach_caps_message as_written grants =
    append "Service adds " (append as_written (append ": " (append grants ".")))

unfoldable pub host_reach_caps_fix : String → String
unfolding inline
host_reach_caps_fix as_written = append "Remove " (
    append (inline as_written)
      " from cap_add. If the workload genuinely needs it — an NTP client for SYS_TIME, a profiler for PERFMON — prefer syncing the clock on the host and letting containers inherit it, or profiling from the host. Where it is truly required, suppress with a reason naming the workload.\nFull guide: compose-lint --explain CL-0028")

unfoldable pub check_host_reach_caps :
    String → Value → Dict Value → LineView → Result (List Finding)
unfolding check_caps host_reach_caps_message host_reach_caps_fix
check_host_reach_caps =
    check_caps "CL-0028" high host_reach_caps host_reach_caps_message host_reach_caps_fix

abbrev pub host_reach_caps_rule : Rule
host_reach_caps_rule = record {
  id = "CL-0028";
  check = check_host_reach_caps;
  check_env_file_keys = no_env_file_keys;
}

abbrev pub host_availability_caps : Dict String
host_availability_caps =
    (
      "SYS_NICE",
      "real-time scheduling on the host's CPUs — SCHED_FIFO puts the container's threads above every ordinary host process, and the scheduler is not namespaced",
    )
    ∷ (
      "IPC_LOCK",
      "unbounded memory locking — mlock past RLIMIT_MEMLOCK pins host RAM that cannot be reclaimed or swapped, and only a memory limit the file has to set bounds it",
    )
    ∷ (
      "LEASE",
      "file leases on any host path bind-mounted in — a write lease stalls the host's own open() of that file for the kernel's lease-break timeout, and holding it needs only a read-only bind",
    )
    ∷ []

unfoldable pub host_availability_caps_message : String → String → String
host_availability_caps_message as_written grants =
    append "Service adds " (append as_written (append ": " (append grants ".")))

unfoldable pub host_availability_caps_fix : String → String
unfolding inline
host_availability_caps_fix as_written = append "Remove " (
    append (inline as_written)
      " from cap_add. Workloads that ask for these usually have a bounded alternative: set `deploy.resources` rather than granting SYS_NICE, and size `deploy.resources.limits.memory` rather than granting IPC_LOCK — a memory limit also bounds what a workload that keeps IPC_LOCK can pin. A storage or packet-processing engine that genuinely requires them (SPDK and DPDK ask for SYS_NICE and IPC_LOCK together) should suppress with a reason naming the workload.\nFull guide: compose-lint --explain CL-0029")

unfoldable pub check_host_availability_caps :
    String → Value → Dict Value → LineView → Result (List Finding)
unfolding check_caps host_availability_caps_message host_availability_caps_fix
check_host_availability_caps =
    check_caps "CL-0029" high host_availability_caps host_availability_caps_message
      host_availability_caps_fix

abbrev pub host_availability_caps_rule : Rule
host_availability_caps_rule = record {
  id = "CL-0029";
  check = check_host_availability_caps;
  check_env_file_keys = no_env_file_keys;
}

abbrev pub host_disclosure_caps : Dict String
host_disclosure_caps =
    (
      "SYSLOG",
      "read of the host kernel ring buffer — dmesg is not namespaced, so the container sees the host's boot and driver log, including kernel pointers where kptr_restrict allows them",
    )
    ∷ []

unfoldable pub host_disclosure_caps_message : String → String → String
host_disclosure_caps_message as_written grants =
    append "Service adds " (append as_written (append ": " (append grants ".")))

unfoldable pub host_disclosure_caps_fix : String → String
unfolding inline
host_disclosure_caps_fix as_written = append "Remove " (
    append (inline as_written)
      " from cap_add. A container almost never needs the host's kernel log: read it on the host with journalctl, or ship it with a log collector that runs there. A workload that must see kernel messages about its own devices should be given those devices explicitly rather than the whole ring buffer, and where it is genuinely required, suppress with a reason naming the workload.\nFull guide: compose-lint --explain CL-0030")

unfoldable pub check_host_disclosure_caps :
    String → Value → Dict Value → LineView → Result (List Finding)
unfolding check_caps host_disclosure_caps_message host_disclosure_caps_fix
check_host_disclosure_caps =
    check_caps "CL-0030" high host_disclosure_caps host_disclosure_caps_message
      host_disclosure_caps_fix

abbrev pub host_disclosure_caps_rule : Rule
host_disclosure_caps_rule = record {
  id = "CL-0030";
  check = check_host_disclosure_caps;
  check_env_file_keys = no_env_file_keys;
}
