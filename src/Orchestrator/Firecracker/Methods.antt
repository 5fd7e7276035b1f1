-- ===== src/Orchestrator/Firecracker/Methods.antt =====
-- internal/orchestrator/runtime_firecracker.go: `CreateSandbox`, `StopSandbox`, `PauseSandbox` and
-- `ResumeSandbox`. The wait for envd has fuel; what it returns is only logged.
use open_e2b.Prelude.{
  ℕ, ◌+◌, String, Bool, true, false, ◌==◌, string_eq, [], ◌∷◌, Option, none, some, if◌then◌else◌,
}
use Prim.Native.String.{◌++◌ as ◌<>◌}
use open_e2b.Prelude.Int.{ℤ, pos, negsuc}
use open_e2b.Prelude.Text.{digits}
use open_e2b.Prelude.Word.{slt64}
use open_e2b.Prelude.GoMap.{get, put, remove}
use open_e2b.Prelude.GoMap.Range.{Order}
use open_e2b.Prelude.Time
use open_e2b.Prelude.Time.{Time, seconds}
use open_e2b.Prelude.Action.{Outcome, done, failed, Action, return, raise, calling, ◌>>=◌, ◌>>◌}
use open_e2b.Orchestrator.Types.{SandboxSpec, unix}
use open_e2b.Orchestrator.Client.{widen}
use open_e2b.Orchestrator.Firecracker.{
  Os, Sdk, Stat, found, missing, unreadable, Config, FirecrackerSandbox, FirecrackerRuntime, Host,
  explained, judged, ignoring,
}
use open_e2b.Orchestrator.Firecracker.Hosts.{add_hosts_entry, remove_hosts_entry}
use open_e2b.Orchestrator.Firecracker.Rootfs.{prepare_rootfs}
use open_e2b.Orchestrator.Firecracker.Wait.{wait_for_envd}

-- A CPU count or a memory that is not positive stands for a default.
abbrev positive_or : ℕ → ℕ → ℕ
positive_or default n = if slt64 0 n then n else default

-- "%d" of an int64.
abbrev show_ℤ : ℤ → String
show_ℤ (pos n) = digits 20 n
show_ℤ (negsuc n) = "-" <> digits 20 (n + 1)

-- The machine with the address that it got, and the time at which it is there.
pub record Booted (V : Type 0) : Type 0 where
  pub machine : V
  pub vm_ip : String
  pub since : Time

module _ {W V : Type 0} (os : Os W) (sdk : Sdk W V) (fuel : ℕ) where
  abbrev pub dir_of : FirecrackerRuntime V → String → String
  dir_of r id = os.join (r.sandboxes_dir ∷ id ∷ [])

  abbrev pub file_of : FirecrackerRuntime V → String → String → String
  file_of r id name = os.join (dir_of r id ∷ name ∷ [])

  -- os.IsNotExist of the error of os.Stat.
  abbrev present : String → Stat × W → Outcome (Unit {0}) × W
  present e (found, w) = (done tt, w)
  present e (missing, w) = (failed e, w)
  present e (unreadable, w) = (done tt, w)

  abbrev pub find_binary : Action W String
  find_binary w =
      let (r, w') = os.look_path "firecracker" w in
      elim r [
        | done p ↦ (done p, w')
        | failed e ↦
            (failed "firecracker not found in PATH - are you on a Linux host with KVM?", w')
      ]

  abbrev pub find_kvm : Action W (Unit {0})
  find_kvm w =
      present "/dev/kvm not available - KVM is required for Firecracker" (os.stat "/dev/kvm" w)

  abbrev pub find_kernel : FirecrackerRuntime V → Action W (Unit {0})
  find_kernel r w = present ("kernel not found at " <> r.kernel_path) (os.stat r.kernel_path w)

  unfoldable pub config_of : FirecrackerRuntime V → SandboxSpec → String → Config
  config_of r spec binary = record {
    binary = binary;
    socket_path = file_of r spec.sandbox_id "firecracker.sock";
    log_path = file_of r spec.sandbox_id "firecracker.log";
    kernel_image_path = r.kernel_path;
    kernel_args = "console=ttyS0 reboot=k panic=1 pci=off init=/sbin/init quiet";
    drive = file_of r spec.sandbox_id "rootfs.ext4";
    vcpu_count = positive_or 1 (widen spec.cpu_count);
    mem_size_mib = positive_or 512 (widen spec.memory_mb);
    network_name = r.cni_network_name;
    bin_path = r.cni_bin_path;
    conf_dir = r.cni_conf_dir;
    cache_dir = r.cni_cache_dir;
  }

  abbrev pub remove_dir : FirecrackerRuntime V → SandboxSpec → W → W
  remove_dir r spec w = os.remove_all (dir_of r spec.sandbox_id) w

  abbrev pub make_sandbox_dir : FirecrackerRuntime V → SandboxSpec → Action W (Unit {0})
  make_sandbox_dir r spec w =
      explained "failed to create sandbox directory" (λ x. x)
        (judged (os.mkdir_all (dir_of r spec.sandbox_id) w))

  abbrev pub make_rootfs : FirecrackerRuntime V → SandboxSpec → Action W (Unit {0})
  make_rootfs r spec w = explained "failed to prepare rootfs" (remove_dir r spec) (
      prepare_rootfs os r.artifacts_dir r.envd_binary_path spec
        (file_of r spec.sandbox_id "rootfs.ext4") w)

  abbrev pub make_log : FirecrackerRuntime V → SandboxSpec → Action W (Unit {0})
  make_log r spec w =
      explained "failed to create log file" (remove_dir r spec)
        (judged (os.create_file (file_of r spec.sandbox_id "firecracker.log") w))

  abbrev pub close_and_remove : FirecrackerRuntime V → SandboxSpec → W → W
  close_and_remove r spec w =
      remove_dir r spec (os.close_file (file_of r spec.sandbox_id "firecracker.log") w)

  abbrev pub make_machine : FirecrackerRuntime V → SandboxSpec → String → Action W V
  make_machine r spec binary w =
      explained "failed to create Firecracker machine" (close_and_remove r spec)
        (sdk.new_machine (config_of r spec binary) w)

  abbrev pub start_machine : FirecrackerRuntime V → SandboxSpec → V → Action W (Unit {0})
  start_machine r spec vm w =
      explained "failed to start Firecracker VM" (close_and_remove r spec) (judged (sdk.start vm w))

  abbrev known_ip : String → String
  known_ip ip = if ip == "" then "192.168.128.2" else ip

  -- What follows the start of the machine; no error of it is returned.
  unfoldable pub settle : SandboxSpec → V → Action W (Booted V)
  settle spec vm = do
    ip ← calling (sdk.address vm)
    ignoring (wait_for_envd os fuel (known_ip ip) 49983 (seconds 60))
    ignoring (add_hosts_entry os spec.sandbox_id (known_ip ip))
    now ← calling os.now
    return (record { machine = vm; vm_ip = known_ip ip; since = now })

  unfoldable pub boot : FirecrackerRuntime V → SandboxSpec → Action W (Booted V)
  boot r spec = do
    binary ← find_binary
    find_kvm
    find_kernel r
    make_sandbox_dir r spec
    make_rootfs r spec
    make_log r spec
    vm ← make_machine r spec binary
    start_machine r spec vm
    settle spec vm

  -- The record that `CreateSandbox` tracks.
  unfoldable pub tracked : FirecrackerRuntime V → SandboxSpec → Booted V → FirecrackerSandbox V
  tracked r spec b = record {
    spec = spec;
    state = "running";
    machine = some b.machine;
    socket_path = file_of r spec.sandbox_id "firecracker.sock";
    rootfs_path = file_of r spec.sandbox_id "rootfs.ext4";
    started_at = b.since;
    expires_at = Time.add b.since spec.timeout;
    envd_port = 49983;
    vm_ip = b.vm_ip;
    log_file = some (file_of r spec.sandbox_id "firecracker.log");
  }

  abbrev pub created :
      FirecrackerRuntime V → SandboxSpec → Outcome (Booted V) × W → Outcome (Unit {0}) × Host W V
  created r spec (failed e, w) = (failed e, record { runtime = r; world = w })
  created r spec (done b, w) = (
    done tt,
    record {
      runtime = record r { sandboxes = put r.sandboxes spec.sandbox_id (tracked r spec b) };
      world = w;
    },
  )

  unfoldable pub create_sandbox : Time → Order → SandboxSpec → Action (Host W V) (Unit {0})
  create_sandbox now o spec h = created h.runtime spec (boot h.runtime spec h.world)

  abbrev forced : V → Option String × W → W
  forced vm (none, w) = w
  forced vm (some e, w) = (sdk.stop_vmm vm w).1

  abbrev halt : Option V → Bool → W → W
  halt none force w = w
  halt (some vm) true w = (sdk.stop_vmm vm w).1
  halt (some vm) false w = forced vm (sdk.shutdown vm w)

  abbrev close_log : Option String → W → W
  close_log none w = w
  close_log (some path) w = os.close_file path w

  -- What is left of a sandbox that is not tracked any more is taken away, whatever fails.
  unfoldable pub take_down : FirecrackerRuntime V → String → Bool → FirecrackerSandbox V → W → W
  take_down r id force sb w =
      os.remove_all (dir_of r id)
        (remove_hosts_entry os id (close_log sb.log_file (halt sb.machine force w))).1

  unfoldable pub stop_sandbox : String → Bool → Action (Host W V) (Unit {0})
  stop_sandbox id force h = elim (get h.runtime.sandboxes id) [
    | none ↦ (failed ("sandbox not found: " <> id), h)
    | some sb ↦ (
      done tt,
      record {
        runtime = record h.runtime { sandboxes = remove h.runtime.sandboxes id };
        world = take_down h.runtime id force sb h.world;
      },
    )
  ]

  abbrev pub set_state :
      String → FirecrackerSandbox V → String → FirecrackerRuntime V → FirecrackerRuntime V
  set_state id sb st r = record r { sandboxes = put r.sandboxes id (record sb { state = st }) }

  unfoldable pub snapshot : FirecrackerRuntime V → String → V → Action W String
  snapshot r id vm = do
    now ← calling os.now
    let name = id <> "-snapshot-" <> show_ℤ (unix now)
    let dir = os.join (r.sandboxes_dir ∷ id ∷ "snapshots" ∷ name ∷ [])
    ignoring (os.mkdir_all dir)
    λ w. explained "failed to pause VM" (λ x. x) (judged (sdk.pause_vm vm w))
    λ w.
        explained "failed to create snapshot" (λ x. x)
          (judged (
            sdk.create_snapshot vm (os.join (dir ∷ "mem" ∷ [])) (os.join (dir ∷ "vmstate" ∷ [])) w))
    return name

  abbrev pub paused :
      String
      → FirecrackerSandbox V
      → FirecrackerRuntime V
      → Outcome String × W
      → Outcome String × Host W V
  paused id sb r (failed e, w) = (failed e, record { runtime = r; world = w })
  paused id sb r (done name, w) =
      (done name, record { runtime = set_state id sb "paused" r; world = w })

  abbrev pause_tracked : String → FirecrackerSandbox V → Option V → Action (Host W V) String
  pause_tracked id sb none h = (failed "sandbox machine not initialized", h)
  pause_tracked id sb (some vm) h = paused id sb h.runtime (snapshot h.runtime id vm h.world)

  unfoldable pub pause_sandbox : String → Action (Host W V) String
  pause_sandbox id h = elim (get h.runtime.sandboxes id) [
    | none ↦ (failed ("sandbox not found: " <> id), h)
    | some sb ↦ pause_tracked id sb sb.machine h
  ]

  abbrev resume_machine : Option V → Action W (Unit {0})
  resume_machine none = raise "sandbox machine not initialized"
  resume_machine (some vm) =
      λ w. explained "failed to resume VM" (λ x. x) (judged (sdk.resume_vm vm w))

  -- The state is written before the machine is asked.
  unfoldable pub resume_sandbox : String → String → Action (Host W V) (Unit {0})
  resume_sandbox id snapshot_id h = elim (get h.runtime.sandboxes id) [
    | none ↦ (failed ("sandbox not found: " <> id), h)
    | some sb ↦
        let (res, w) = resume_machine sb.machine h.world in
        (res, record { runtime = set_state id sb "running" h.runtime; world = w })
  ]
