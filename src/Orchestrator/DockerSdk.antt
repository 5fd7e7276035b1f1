-- ===== src/Orchestrator/DockerSdk.antt =====
-- internal/orchestrator/runtime_docker_sdk.go: the runtime on the Go SDK of Docker. The SDK is a record
-- of calls over a world of its own; each method holds the lock from end to end.
pub mod Stale
use open_e2b.Prelude.{
  ℕ, ◌+◌, ◌%◌, String, string_eq, Bool, true, false, List, [], ◌∷◌, Option, none, some,
}
use Prim.Native.String.{◌++◌ as ◌<>◌}
use open_e2b.Prelude.GoMap.{get, put}
use open_e2b.Prelude.GoMap.Range.{Order}
use open_e2b.Prelude.Text.{show_int32}
use open_e2b.Prelude.Time
use open_e2b.Prelude.Time.{Time}
use open_e2b.Prelude.Action.{
  Outcome, done, failed, Action, return, raise, calling, ◌>>=◌, ◌>>◌, Shell,
}
use open_e2b.Orchestrator.Types.{SandboxSpec, SandboxInfo, SandboxRuntime, unix, int32}
use open_e2b.Orchestrator.Docker.{DockerSandbox, DockerRuntime, find_first, envd_paths}

-- The options of container.Run.
pub record RunOptions : Type 0 where
  pub image : String
  pub name : String
  pub envd_path : String
  pub env : List (String × String)
  pub entrypoint : List String
  pub labels : List (String × String)
  pub exposed_ports : List String

-- `C` are the containers of the SDK. `mapped_port` is for 49983/tcp; `state` is whether it runs and
-- whether it is paused. A call that may fail returns the text of its error.
pub record Sdk (W C : Type 0) : Type 0 where
  pub run : RunOptions → W → Outcome C × W
  pub mapped_port : C → W → Outcome ℕ × W
  pub new_client : W → Outcome (Unit {0}) × W
  pub container_list : String → W → Outcome (List C) × W
  pub terminate : C → W → Outcome (Unit {0}) × W
  pub from_response : C → W → Outcome C × W
  pub from_id : String → W → Outcome C × W
  pub state : C → W → Outcome (Bool × Bool) × W
  pub now : W → Time × W

pub record Host (W : Type 0) : Type 0 where
  pub runtime : DockerRuntime
  pub world : W

unfoldable pub new_docker_runtime_sdk : {W : Type 0} → Shell W → String → String → W → Host W
new_docker_runtime_sdk sh artifacts sandboxes w =
    let (path, w') = find_first sh envd_paths w in
    record {
      runtime = record {
        artifacts_dir = artifacts;
        sandboxes_dir = sandboxes;
        sandboxes = [];
        next_port = 49983;
        available_ports = [];
        envd_binary_path = path;
      };
      world = w';
    }

-- `fmt.Errorf("what: %w", err)`
abbrev explained {ℓ} : {W : Type 0} {A : Type ℓ} → String → Outcome A × W → Outcome A × W
explained what (failed e, w) = (failed (what <> ": " <> e), w)
explained what (done a, w) = (done a, w)

unfoldable pub run_options : String → SandboxSpec → RunOptions
run_options envd spec = record {
  image = "e2b/" <> spec.template_id <> ":" <> spec.build_id;
  name = spec.sandbox_id;
  envd_path = envd;
  env = ("E2B_ACCESS_TOKEN", spec.envd_token) ∷ ("E2B_ENVD_PORT", "49983") ∷ [];
  entrypoint = "envd" ∷ [];
  labels =
      ("e2b.sandbox.id", spec.sandbox_id)
      ∷ ("e2b.template.id", spec.template_id)
      ∷ ("e2b.build.id", spec.build_id)
      ∷ [];
  exposed_ports = "49983/tcp" ∷ [];
}

-- The port with the two readings of the clock, at the start and for the end.
pub record Running : Type 0 where
  pub port : ℕ
  pub since : Time
  pub later : Time

unfoldable pub tracked : SandboxSpec → Running → DockerSandbox
tracked spec c = record {
  spec = spec;
  state = "running";
  started_at = c.since;
  expires_at = Time.add c.later spec.timeout;
  envd_port = int32 c.port;
  envd_address = "127.0.0.1";
}

module _ {W C : Type 0} (sdk : Sdk W C) where
  unfoldable pub run_container : String → SandboxSpec → Action W Running
  run_container envd spec = do
    ctr ← λ w. explained "failed to create container" (sdk.run (run_options envd spec) w)
    port ← λ w. explained "failed to get host config" (sdk.mapped_port ctr w)
    since ← calling sdk.now
    later ← calling sdk.now
    return (record { port = port; since = since; later = later })

  abbrev created : DockerRuntime → SandboxSpec → Outcome Running × W → Outcome (Unit {0}) × Host W
  created r spec (failed e, w) = (failed e, record { runtime = r; world = w })
  created r spec (done c, w) = (
    done tt,
    record {
      runtime = record r { sandboxes = put r.sandboxes spec.sandbox_id (tracked spec c) };
      world = w;
    },
  )

  unfoldable pub create_sandbox : Time → Order → SandboxSpec → Action (Host W) (Unit {0})
  create_sandbox now o spec h =
      created h.runtime spec (run_container h.runtime.envd_binary_path spec h.world)

  abbrev first_of : String → List C → Action W C
  first_of id [] = raise ("container " <> id <> " not found")
  first_of id (c ∷ cs) = λ w. explained "failed to get container" (sdk.from_response c w)

  unfoldable pub terminate_container : String → Action W (Unit {0})
  terminate_container id = do
    λ w. explained "failed to create docker client" (sdk.new_client w)
    found ←
        λ w. explained "failed to list containers" (sdk.container_list ("e2b.sandbox.id=" <> id) w)
    ctr ← first_of id found
    λ w. explained "failed to stop container" (sdk.terminate ctr w)

  -- On the world only, with the runtime as it is.
  abbrev outside {ℓ} : {A : Type ℓ} → (W → Outcome A × W) → Host W → Outcome A × Host W
  outside m h = let (r, w) = m h.world in (r, record h { world = w })

  -- The map of sandboxes is not touched.
  unfoldable pub stop_sandbox : String → Bool → Action (Host W) (Unit {0})
  stop_sandbox id force = outside (terminate_container id)

-- Nothing but the lock is touched.
unfoldable pub pause_sandbox : {W : Type 0} → String → Action (Host W) String
pause_sandbox id = return ""

unfoldable pub resume_sandbox : {W : Type 0} → String → String → Action (Host W) (Unit {0})
resume_sandbox id snapshot = return tt

unfoldable pub info_of : String → DockerSandbox → SandboxInfo
info_of id sb = record {
  sandbox_id = id;
  template_id = sb.spec.template_id;
  build_id = sb.spec.build_id;
  state = sb.state;
  envd_address = sb.envd_address;
  envd_port = sb.envd_port;
  started_at = unix sb.started_at;
  expires_at = unix sb.expires_at;
  cpu_count = sb.spec.cpu_count;
  memory_mb = sb.spec.memory_mb;
  error = "";
}

unfoldable pub list_sandboxes : {W : Type 0} → Action (Host W) (List SandboxInfo)
list_sandboxes = return []

-- What a call returns, or the panic of a nil pointer.
pub data Result {ℓ} (A : Type ℓ) : Type ℓ where
  returned : Outcome A → Result A
  panics : Result A

module _ {W C : Type 0} (sdk : Sdk W C) where
  -- The container of a sandbox that is not tracked: its state and its port are asked for.
  unfoldable pub inspect : String → Action W ℕ
  inspect id = do
    λ w. explained "failed to create docker client" (sdk.new_client w)
    ctr ← λ w. explained "failed to get container" (sdk.from_id id w)
    λ w. explained "failed to get container state" (sdk.state ctr w)
    λ w. explained "failed to get mapped port" (sdk.mapped_port ctr w)

  -- Then `sb.spec` is read, and `sb` is nil.
  abbrev inspected : Outcome ℕ → Result SandboxInfo
  inspected (failed e) = returned (failed e)
  inspected (done port) = panics

  unfoldable pub get_sandbox_status : String → Host W → Result SandboxInfo × Host W
  get_sandbox_status id h = elim (get h.runtime.sandboxes id) [
    | some sb ↦ (returned (done (info_of id sb)), h)
    | none ↦ let (r, w) = inspect id h.world in (inspected r, record h { world = w })
  ]
