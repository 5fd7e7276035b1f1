-- ===== src/Orchestrator/Agent.antt =====
-- internal/orchestrator/service.go: the methods of the agent on a node, over any runtime. Each
-- answers with a message of proto/node/node.proto; only `ListSandboxes` returns an error of its own.
use open_e2b.Prelude.{ℕ, String, Bool, true, false, List, map, Option, none, some}
use Prim.Native.String.{◌++◌ as ◌<>◌}
use open_e2b.Prelude.Int.{ℤ}
use open_e2b.Prelude.GoMap.{GoMap}
use open_e2b.Prelude.GoMap.Range.{Order}
use open_e2b.Prelude.Time.{Time, seconds}
use open_e2b.Prelude.Action.{Outcome, done, failed, Action}
use open_e2b.Orchestrator.Types.{SandboxSpec, SandboxInfo, SandboxRuntime}

pub record CreateSandboxRequest : Type 0 where
  pub sandbox_id : String
  pub template_id : String
  pub build_id : String
  pub cpu_count : ℕ
  pub memory_mb : ℕ
  pub disk_size_mb : ℕ
  pub env_vars : GoMap String String
  pub metadata : GoMap String String
  pub timeout_seconds : ℕ
  pub auto_pause : Bool
  pub envd_token : String
  pub artifact_url : String

pub record CreateSandboxResponse : Type 0 where
  pub success : Bool
  pub error : String
  pub envd_port : ℕ

pub record StopSandboxResponse : Type 0 where
  pub success : Bool
  pub error : String

pub record PauseSandboxResponse : Type 0 where
  pub success : Bool
  pub error : String
  pub snapshot_id : String

pub record ResumeSandboxResponse : Type 0 where
  pub success : Bool
  pub error : String
  pub envd_address : String

-- The message SandboxInfo has no port.
pub record SandboxMessage : Type 0 where
  pub sandbox_id : String
  pub template_id : String
  pub build_id : String
  pub state : String
  pub envd_address : String
  pub started_at : ℤ
  pub expires_at : ℤ
  pub cpu_count : ℕ
  pub memory_mb : ℕ
  pub error : String

pub record GetSandboxStatusResponse : Type 0 where
  pub exists : Bool
  pub sandbox : Option SandboxMessage

unfoldable pub spec_of : CreateSandboxRequest → SandboxSpec
spec_of req = record {
  sandbox_id = req.sandbox_id;
  template_id = req.template_id;
  build_id = req.build_id;
  cpu_count = req.cpu_count;
  memory_mb = req.memory_mb;
  disk_size_mb = req.disk_size_mb;
  env_vars = req.env_vars;
  metadata = req.metadata;
  timeout = seconds req.timeout_seconds;
  auto_pause = req.auto_pause;
  envd_token = req.envd_token;
  artifact_url = req.artifact_url;
}

unfoldable pub message_of : SandboxInfo → SandboxMessage
message_of info = record {
  sandbox_id = info.sandbox_id;
  template_id = info.template_id;
  build_id = info.build_id;
  state = info.state;
  envd_address = info.envd_address;
  started_at = info.started_at;
  expires_at = info.expires_at;
  cpu_count = info.cpu_count;
  memory_mb = info.memory_mb;
  error = info.error;
}

module _ {R : Type 0} (rt : SandboxRuntime R) where
  abbrev create_failed : String → CreateSandboxResponse
  create_failed e = record { success = false; error = e; envd_port = 0 }

  abbrev pub with_port : Outcome SandboxInfo × R → CreateSandboxResponse × R
  with_port (failed e, r) = (create_failed ("sandbox created but status unavailable: " <> e), r)
  with_port (done info, r) = (record { success = true; error = ""; envd_port = info.envd_port }, r)

  abbrev pub created : String → Outcome (Unit {0}) × R → CreateSandboxResponse × R
  created id (failed e, r) = (create_failed e, r)
  created id (done u, r) = with_port (rt.get_sandbox_status id r)

  unfoldable pub create_sandbox :
      Time → Order → CreateSandboxRequest → R → CreateSandboxResponse × R
  create_sandbox now o req r = created req.sandbox_id (rt.create_sandbox now o (spec_of req) r)

  abbrev stopped : Outcome (Unit {0}) × R → StopSandboxResponse × R
  stopped (failed e, r) = (record { success = false; error = e }, r)
  stopped (done u, r) = (record { success = true; error = "" }, r)

  unfoldable pub stop_sandbox : String → Bool → R → StopSandboxResponse × R
  stop_sandbox id force r = stopped (rt.stop_sandbox id force r)

  abbrev paused : Outcome String × R → PauseSandboxResponse × R
  paused (failed e, r) = (record { success = false; error = e; snapshot_id = "" }, r)
  paused (done snapshot, r) = (record { success = true; error = ""; snapshot_id = snapshot }, r)

  unfoldable pub pause_sandbox : String → R → PauseSandboxResponse × R
  pause_sandbox id r = paused (rt.pause_sandbox id r)

  -- The address is empty where there is no status.
  abbrev address : Outcome SandboxInfo → String
  address (failed e) = ""
  address (done info) = info.envd_address

  abbrev resumed : String → Outcome (Unit {0}) × R → ResumeSandboxResponse × R
  resumed id (failed e, r) = (record { success = false; error = e; envd_address = "" }, r)
  resumed id (done u, r) =
      let (info, r') = rt.get_sandbox_status id r in
      (record { success = true; error = ""; envd_address = address info }, r')

  unfoldable pub resume_sandbox : String → String → R → ResumeSandboxResponse × R
  resume_sandbox id snapshot r = resumed id (rt.resume_sandbox id snapshot r)

  abbrev status_of : Outcome SandboxInfo × R → GetSandboxStatusResponse × R
  status_of (failed e, r) = (record { exists = false; sandbox = none }, r)
  status_of (done info, r) = (record { exists = true; sandbox = some (message_of info) }, r)

  unfoldable pub get_sandbox_status : String → R → GetSandboxStatusResponse × R
  get_sandbox_status id r = status_of (rt.get_sandbox_status id r)

  abbrev messages : Outcome (List SandboxInfo) × R → Outcome (List SandboxMessage) × R
  messages (failed e, r) = (failed e, r)
  messages (done infos, r) = (done (map message_of infos), r)

  unfoldable pub list_sandboxes : Action R (List SandboxMessage)
  list_sandboxes r = messages (rt.list_sandboxes r)
