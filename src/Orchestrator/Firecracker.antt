-- ===== src/Orchestrator/Firecracker.antt =====
-- internal/orchestrator/runtime_firecracker.go: the runtime on Firecracker microVMs. The operating
-- system and the SDK of Firecracker are records of calls, over a world of their own. Each method is one
-- step: nobody stops the sandbox while it is being created, paused or resumed.
pub mod Search
pub mod Units
pub mod Cases
pub mod Hosts
pub mod Inject
pub mod Mounts
pub mod Rootfs
pub mod Wait
pub mod Methods
pub mod Status
pub mod Clean
pub mod Reports
pub mod Examples
mod Tests
pub mod Exec
use open_e2b.Prelude.{ℕ, String, Bool, List, [], ◌∷◌, Option, none, some}
use Prim.Native.String.{◌++◌ as ◌<>◌}
use open_e2b.Prelude.GoMap.{GoMap}
use open_e2b.Prelude.Bytes.{Bytes}
use open_e2b.Prelude.Time
use open_e2b.Prelude.Time.{Time, Duration}
use open_e2b.Prelude.Action.{Outcome, done, failed, Action, Shell}
use open_e2b.Orchestrator.Types.{SandboxSpec}
use open_e2b.Orchestrator.Docker.{find_first, envd_paths}

-- What os.Stat says: a nil error, one for which os.IsNotExist holds, or another.
pub data Stat : Type 0 where
  found missing unreadable : Stat

-- A call that may fail returns the text of its error. `run` is CombinedOutput and Run of a command,
-- `output` is Output; `open_append` opens for os.O_APPEND and `append_open` writes to what was opened;
-- `context_error` is ctx.Err of the context that ends after the timeout of a wait.
pub record Os (W : Type 0) : Type 0 where
  pub run : Shell W
  pub output : Shell W
  pub now : W → Time × W
  pub sleep : Duration → W → W
  pub context_error : W → Option String × W
  pub dial : String → W → Option String × W
  pub look_path : String → W → Outcome String × W
  pub stat : String → W → Stat × W
  pub mkdir_all : String → W → Option String × W
  pub create_file : String → W → Option String × W
  pub close_file : String → W → W
  pub read_file : String → W → Outcome Bytes × W
  pub write_file : String → Bytes → W → Option String × W
  pub open_append : String → W → Option String × W
  pub append_open : String → Bytes → W → Option String × W
  pub rename : String → String → W → Option String × W
  pub remove : String → W → W
  pub remove_all : String → W → W
  pub symlink : String → String → W → W
  pub chmod : String → W → W
  -- filepath.Join and filepath.Dir, []byte(s) and "%v" of a Duration.
  pub join : List String → String
  pub dir : String → String
  pub bytes : String → Bytes
  pub show_duration : Duration → String

-- The settings that the runtime gives to firecracker.Config.
pub record Config : Type 0 where
  pub binary : String
  pub socket_path : String
  pub log_path : String
  pub kernel_image_path : String
  pub kernel_args : String
  pub drive : String
  pub vcpu_count : ℕ
  pub mem_size_mib : ℕ
  pub network_name : String
  pub bin_path : List String
  pub conf_dir : String
  pub cache_dir : String

-- A machine of the SDK; `address` is the IP of its first interface, if it has one.
pub record Sdk (W V : Type 0) : Type 0 where
  pub new_machine : Config → W → Outcome V × W
  pub start : V → W → Option String × W
  pub address : V → W → String × W
  pub stop_vmm : V → W → Option String × W
  pub shutdown : V → W → Option String × W
  pub pause_vm : V → W → Option String × W
  pub create_snapshot : V → String → String → W → Option String × W
  pub resume_vm : V → W → Option String × W

pub record FirecrackerSandbox (V : Type 0) : Type 0 where
  pub spec : SandboxSpec
  pub state : String
  pub machine : Option V
  pub socket_path : String
  pub rootfs_path : String
  pub started_at : Time
  pub expires_at : Time
  pub envd_port : ℕ
  pub vm_ip : String
  pub log_file : Option String

pub record FirecrackerRuntime (V : Type 0) : Type 0 where
  pub artifacts_dir : String
  pub sandboxes_dir : String
  pub sandboxes : GoMap String (FirecrackerSandbox V)
  pub kernel_path : String
  pub envd_binary_path : String
  pub cni_network_name : String
  pub cni_bin_path : List String
  pub cni_conf_dir : String
  pub cni_cache_dir : String

-- The runtime and the world behind its calls.
pub record Host (W V : Type 0) : Type 0 where
  pub runtime : FirecrackerRuntime V
  pub world : W

abbrev conf_dir_of : String → Stat → String
conf_dir_of custom found = custom
conf_dir_of custom missing = "/etc/cni/net.d"
conf_dir_of custom unreadable = "/etc/cni/net.d"

-- `filepath.Dir(filepath.Dir(artifactsDir))` is where the directory configs is looked for.
unfoldable pub new_firecracker_runtime : {W V : Type 0} → Os W → String → String → W → Host W V
new_firecracker_runtime os artifacts sandboxes w =
    let (path, w1) = find_first os.run envd_paths w in
    let custom = os.join (os.dir (os.dir artifacts) ∷ "configs" ∷ "cni" ∷ []) in
    let (st, w2) = os.stat custom w1 in
    record {
      runtime = record {
        artifacts_dir = artifacts;
        sandboxes_dir = sandboxes;
        sandboxes = [];
        kernel_path = "/opt/e2b/vmlinux";
        envd_binary_path = path;
        cni_network_name = "fcnet";
        cni_bin_path = "/opt/cni/bin" ∷ "/usr/lib/cni" ∷ [];
        cni_conf_dir = conf_dir_of custom st;
        cni_cache_dir = "/var/lib/cni";
      };
      world = w2;
    }

-- `fmt.Errorf("what: %w", err)`, with what is undone on the way out.
abbrev pub explained {ℓ} :
    {W : Type 0} {A : Type ℓ} → String → (W → W) → Outcome A × W → Outcome A × W
explained what undo (failed e, w) = (failed (what <> ": " <> e), undo w)
explained what undo (done a, w) = (done a, w)

-- A call that returns only an error.
abbrev pub judged : {W : Type 0} → Option String × W → Outcome (Unit {0}) × W
judged (none, w) = (done tt, w)
judged (some e, w) = (failed e, w)

-- A call whose error is only logged, or not looked at.
abbrev pub ignoring {ℓ} : {W : Type 0} {A : Type ℓ} → (W → A × W) → Action W (Unit {0})
ignoring f w = (done tt, (f w).1)
