-- ===== src/Orchestrator/Types.antt =====
-- internal/orchestrator/service.go: the data of a node and the interface of its runtimes. An `int32`
-- is its 32-bit pattern; a Unix time is an integer count of seconds.
use open_e2b.Prelude.{ℕ, ◌/◌, ◌%◌, String, Bool, List}
use open_e2b.Prelude.Int.{ℤ, pos, negsuc}
use open_e2b.Prelude.GoMap.{GoMap}
use open_e2b.Prelude.GoMap.Range.{Order}
use open_e2b.Prelude.Time.{Time, Duration}
use open_e2b.Prelude.Action.{Action}

-- t.Unix(): rounded down.
unfoldable pub unix : Time → ℤ
unix (pos n) = pos (n / 1000000000)
unix (negsuc n) = negsuc (n / 1000000000)

-- int32(...): the low 32 bits.
abbrev pub int32 : ℕ → ℕ
int32 n = n % 4294967296

pub record SandboxSpec : Type 0 where
  pub sandbox_id : String
  pub template_id : String
  pub build_id : String
  pub cpu_count : ℕ
  pub memory_mb : ℕ
  pub disk_size_mb : ℕ
  pub env_vars : GoMap String String
  pub metadata : GoMap String String
  pub timeout : Duration
  pub auto_pause : Bool
  pub envd_token : String
  pub artifact_url : String

pub record SandboxInfo : Type 0 where
  pub sandbox_id : String
  pub template_id : String
  pub build_id : String
  pub state : String
  pub envd_address : String
  pub envd_port : ℕ
  pub started_at : ℤ
  pub expires_at : ℤ
  pub cpu_count : ℕ
  pub memory_mb : ℕ
  pub error : String

-- `SandboxRuntime` over the state `R` of a runtime. `CreateSandbox` is given the time and the order of
-- its loop over the environment. A status that comes without an error is not a nil pointer.
pub record SandboxRuntime (R : Type 0) : Type 0 where
  pub create_sandbox : Time → Order → SandboxSpec → Action R (Unit {0})
  pub stop_sandbox : String → Bool → Action R (Unit {0})
  pub pause_sandbox : String → Action R String
  pub resume_sandbox : String → String → Action R (Unit {0})
  pub get_sandbox_status : String → Action R SandboxInfo
  pub list_sandboxes : Action R (List SandboxInfo)
