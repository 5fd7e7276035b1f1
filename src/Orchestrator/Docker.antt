-- ===== src/Orchestrator/Docker.antt =====
-- internal/orchestrator/runtime_docker.go: the runtime on Docker containers. The commands are those
-- of a shell with a state of its own. Each method here is one step: `PauseSandbox` and `ResumeSandbox`
-- take the lock after their command, and nobody stops the sandbox in between.
pub mod Methods
pub mod Status
pub mod Ports
pub mod Safety
use open_e2b.Prelude.{
  ℕ, ◌+◌, ◌%◌, String, Bool, true, false, not, ◌&&◌, ◌==◌, string_eq, List, [], ◌∷◌, ◌++◌, Option,
  none, some, map, ltb, if◌then◌else◌,
}
use Prim.Native.String.{◌++◌ as ◌<>◌}
use open_e2b.Prelude.GoMap.{GoMap, get, put, remove}
use open_e2b.Prelude.GoMap.Range.{Order, range}
use open_e2b.Prelude.Text.{show_int32}
use open_e2b.Prelude.Time
use open_e2b.Prelude.Time.{Time}
use open_e2b.Prelude.Action.{
  Outcome, done, failed, Action, return, raise, attempt, ◌>>=◌, ◌>>◌, Output, Shell,
}
use open_e2b.Orchestrator.Types.{SandboxSpec}

pub record DockerSandbox : Type 0 where
  pub spec : SandboxSpec
  pub state : String
  pub started_at : Time
  pub expires_at : Time
  pub envd_port : ℕ
  pub envd_address : String

pub record DockerRuntime : Type 0 where
  pub artifacts_dir : String
  pub sandboxes_dir : String
  pub sandboxes : GoMap String DockerSandbox
  pub next_port : ℕ
  pub available_ports : List ℕ
  pub envd_binary_path : String

-- The runtime and the world behind its commands.
pub record Host (W : Type 0) : Type 0 where
  pub runtime : DockerRuntime
  pub world : W

-- The first of the paths for which `test -f` ends well, or "".
unfoldable pub find_first : {W : Type 0} → Shell W → List String → W → String × W
find_first sh [] w = ("", w)
find_first sh (p ∷ ps) w =
    let (out, w') = sh "test" ("-f" ∷ p ∷ []) w in
    let rest = find_first sh ps w' in elim out.error [ none ↦ (p, w') | some e ↦ rest ]

abbrev pub envd_paths : List String
envd_paths =
    "/opt/e2b/bin/envd" ∷ "./bin/envd-linux-amd64" ∷ "./bin/envd" ∷ "./envd-linux-amd64" ∷ "./envd"
    ∷ "/usr/local/bin/envd" ∷ []

unfoldable pub new_docker_runtime : {W : Type 0} → Shell W → String → String → W → Host W
new_docker_runtime sh artifacts sandboxes w =
    let (path, w') = find_first sh envd_paths w in
    record {
      runtime = record {
        artifacts_dir = artifacts;
        sandboxes_dir = sandboxes;
        sandboxes = [];
        next_port = 49983;
        available_ports = [];
        envd_binary_path = path;
      };
      world = w';
    }

-- A released port first, else the next one; `nextPort++` wraps.
unfoldable pub pick_port : DockerRuntime → List ℕ → ℕ × DockerRuntime
pick_port r [] = (r.next_port, record r { next_port = (r.next_port + 1) % 4294967296 })
pick_port r (p ∷ ps) = (p, record r { available_ports = ps })

abbrev pub allocate_port : DockerRuntime → ℕ × DockerRuntime
allocate_port r = pick_port r r.available_ports

unfoldable pub release_port : ℕ → DockerRuntime → DockerRuntime
release_port p r = record r { available_ports = r.available_ports ++ p ∷ [] }

-- `spec.CPUCount > 0`, of an int32.
abbrev is_positive : ℕ → Bool
is_positive w = ltb 0 w && ltb w 2147483648

abbrev pub optional : Bool → List String → List String
optional true xs = xs
optional false xs = []

abbrev env_args : List (String × String) → List String
env_args [] = []
env_args ((k, v) ∷ rest) = "-e" ∷ (k <> "=" <> v) ∷ env_args rest

-- The arguments of `docker run`.
unfoldable pub run_args : Order → SandboxSpec → ℕ → String → List String
run_args o spec port image =
    "run"
    ∷ "-d"
    ∷ "--name"
    ∷ spec.sandbox_id
    ∷ "--label"
    ∷ ("e2b.sandbox=" <> spec.sandbox_id)
    ∷ "--label"
    ∷ ("e2b.template=" <> spec.template_id)
    ∷ "--label"
    ∷ ("e2b.build=" <> spec.build_id)
    ∷ (optional (is_positive spec.cpu_count) (("--cpus=" <> show_int32 spec.cpu_count) ∷ [])
        ++ (optional (is_positive spec.memory_mb) (("-m=" <> show_int32 spec.memory_mb <> "m") ∷ [])
            ++ ("-p"
                ∷ (show_int32 port <> ":49983")
                ∷ (env_args (range o spec.env_vars)
                    ++ (optional (not (spec.envd_token == ""))
                          ("-e" ∷ ("E2B_ACCESS_TOKEN=" <> spec.envd_token) ∷ [])
                        ++ ("-w" ∷ "/home/user" ∷ image ∷ "sleep" ∷ "infinity" ∷ []))))))

-- The record that `CreateSandbox` tracks.
unfoldable pub tracked : SandboxSpec → Time → ℕ → DockerSandbox
tracked spec now port = record {
  spec = spec;
  state = "running";
  started_at = now;
  expires_at = Time.add now spec.timeout;
  envd_port = port;
  envd_address = "";
}

abbrev pub with_state : String → DockerSandbox → DockerSandbox
with_state st sb = record sb { state = st }
