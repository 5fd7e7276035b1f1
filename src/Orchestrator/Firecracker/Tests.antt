-- ===== src/Orchestrator/Firecracker/Tests.antt =====
-- Runs of the Firecracker runtime (internal/orchestrator/runtime_firecracker.go) on small inputs.
use open_e2b.Prelude.{ℕ, ◌<◌, not, true, false, List, [], ◌∷◌, some, ◌≡◌, refl, arith}
use open_e2b.Prelude.Bytes.{Bytes, split, join, keep, has, has_prefix}
use open_e2b.Orchestrator.Firecracker.Hosts
use open_e2b.Prelude.Int.{pos}
use open_e2b.Prelude.Time.{seconds}
use open_e2b.Prelude.Action.{Outcome}
use open_e2b.Orchestrator.Agent
use open_e2b.Orchestrator.Agent.{CreateSandboxRequest}
use open_e2b.Orchestrator.Types.{SandboxSpec}
use open_e2b.Orchestrator.Firecracker.Examples.{
  World, codes, sys, sys-HasFile, sys-IsClock, sys-IsMountTable, sdk, host_0,
}
use open_e2b.Orchestrator.Firecracker.Search.{contains, contains-has}
use open_e2b.Orchestrator.Firecracker.Hosts.{add_hosts_entry, remove_hosts_entry}
use open_e2b.Orchestrator.Firecracker.Hosts.Laws.{file_of, hosts_round_trip}
use open_e2b.Orchestrator.Firecracker.Wait.{wait_for_envd}
use open_e2b.Orchestrator.Firecracker.Wait.Laws.{wait_for_envd-Ends}
use open_e2b.Orchestrator.Firecracker.Mounts.{live}
use open_e2b.Orchestrator.Firecracker.Rootfs.{prepare_rootfs}
use open_e2b.Orchestrator.Firecracker.Rootfs.Mounts.{prepare_rootfs-mounts}
use open_e2b.Orchestrator.Firecracker.Status.{firecracker_runtime}
use open_e2b.Orchestrator.Firecracker.Reports.{IsReported, firecracker_create-IsReported}

contains-has_example :
    contains (codes "aarch64\n") (codes "arm64") ≡ has (codes "aarch64\n") (codes "arm64")
contains-has_example = contains-has (codes "aarch64\n") (codes "arm64")

abbrev lines : List Bytes
lines = codes "127.0.0.1 host" ∷ codes "10.0.0.3\tsb10" ∷ []

abbrev with_hosts : World
with_hosts = record {
  hosts = codes "127.0.0.1 host\n10.0.0.3\tsb10\n";
  clock = 0;
  mounts = [];
  busy = false;
}

-- The line of sb10 goes with that of sb1.
hosts_round_trip_example :
    (remove_hosts_entry sys "sb1" (add_hosts_entry sys "sb1" "10.0.0.4" with_hosts).1).1.hosts
    ≡ file_of (keep (λ l. not (has l (codes "sb1"))) lines)
unfolding add_hosts_entry remove_hosts_entry file_of has has_prefix
hosts_round_trip_example =
    hosts_round_trip sys (λ w. w.hosts) "sb1" "10.0.0.4" lines with_hosts sys-HasFile refl
      (ground arith) (ground arith) (ground arith) (λ e. ground arith) refl refl

-- The entry of another sandbox, whose ID contains the one that is removed, goes too.
other_entry_lost : (remove_hosts_entry sys "sb1" with_hosts).1.hosts ≡ codes "127.0.0.1 host\n"
unfolding remove_hosts_entry Hosts.without split join keep has has_prefix
other_entry_lost = refl

wait_for_envd-Ends_example :
    (r : Outcome (Unit {0})) × (v : World) × ((f : ℕ)
      → 60 < f
      → wait_for_envd sys f "10.0.0.2" 49983 (seconds 60) with_hosts ≡ (some r, v))
wait_for_envd-Ends_example =
    wait_for_envd-Ends sys (λ w. w.clock) "10.0.0.2" 49983 with_hosts sys-IsClock

abbrev spec_a : SandboxSpec
spec_a = record {
  sandbox_id = "a";
  template_id = "base";
  build_id = "b1";
  cpu_count = 2;
  memory_mb = 512;
  disk_size_mb = 1024;
  env_vars = [];
  metadata = [];
  timeout = 1000000000;
  auto_pause = false;
  envd_token = "";
  artifact_url = "";
}

-- A host on which no umount succeeds.
abbrev busy_host : World
busy_host = record with_hosts { busy = true }

prepare_rootfs-mounts_example :
    live
      (prepare_rootfs sys "/artifacts" "/bin/envd" spec_a "/sandboxes/a/rootfs.ext4"
        busy_host).1.mounts
    ≡ []
unfolding live
prepare_rootfs-mounts_example =
    prepare_rootfs-mounts sys (λ w. w.mounts) "/artifacts" "/bin/envd" spec_a
      "/sandboxes/a/rootfs.ext4" busy_host sys-IsMountTable

abbrev request_a : CreateSandboxRequest
request_a = record {
  sandbox_id = "a";
  template_id = "base";
  build_id = "b1";
  cpu_count = 2;
  memory_mb = 512;
  disk_size_mb = 1024;
  env_vars = [];
  metadata = [];
  timeout_seconds = 60;
  auto_pause = false;
  envd_token = "";
  artifact_url = "";
}

firecracker_create-IsReported_example :
    IsReported sys sdk 61 [] request_a host_0
      (Agent.create_sandbox (firecracker_runtime sys sdk 61 []) (pos 0) [] request_a host_0)
firecracker_create-IsReported_example =
    firecracker_create-IsReported sys sdk 61 [] (pos 0) request_a host_0
