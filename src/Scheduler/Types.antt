-- ===== src/Scheduler/Types.antt =====
-- internal/scheduler/scheduler.go: the data of the scheduler. An `int` is a 64-bit pattern
-- (Prelude/Word); a pointer that a map holds is the value behind it.
use open_e2b.Prelude.{ℕ, String, Bool, true, false, List, Option, ◌≡◌, refl, ◌⊎◌, inl, inr}
use open_e2b.Prelude.GoMap.{GoMap}
use open_e2b.Prelude.Time.{Time, Duration}

pub data SandboxState : Type 0 where
  pending starting running paused stopping stopped error : SandboxState

abbrev pub is_running : SandboxState → Bool
is_running running = true
is_running _ = false

abbrev pub is_paused : SandboxState → Bool
is_paused paused = true
is_paused _ = false

pub record NetworkConfig : Type 0 where
  pub allow_public_traffic : Bool
  pub allow_out : List String
  pub deny_out : List String
  pub mask_request_host : String

pub record SandboxSpec : Type 0 where
  pub id : String
  pub template_id : String
  pub build_id : String
  pub cpu_count : ℕ
  pub memory_mb : ℕ
  pub disk_size_mb : ℕ
  pub env_vars : GoMap String String
  pub metadata : GoMap String String
  pub timeout : Duration
  pub auto_pause : Bool
  pub envd_token : String
  pub network_config : Option NetworkConfig

pub record SandboxStatus : Type 0 where
  pub state : SandboxState
  pub node_id : String
  pub host_port : ℕ
  pub envd_port : ℕ
  pub started_at : Time
  pub expires_at : Time
  pub error_reason : String

pub record Sandbox : Type 0 where
  pub spec : SandboxSpec
  pub status : SandboxStatus

pub data NodeState : Type 0 where
  ready draining connecting unhealthy : NodeState

abbrev pub is_ready : NodeState → Bool
is_ready ready = true
is_ready _ = false

pub record NodeSpec : Type 0 where
  pub id : String
  pub cluster_id : String
  pub address : String
  pub cpu_count : ℕ
  pub memory_bytes : ℕ

pub record NodeStatus : Type 0 where
  pub state : NodeState
  pub allocated_cpu : ℕ
  pub allocated_memory : ℕ
  pub sandbox_count : ℕ
  pub cached_builds : List String
  pub last_heartbeat : Time

pub record Node : Type 0 where
  pub spec : NodeSpec
  pub status : NodeStatus

pub record SandboxResult : Type 0 where
  pub host_port : ℕ
  pub envd_port : ℕ

-- The errors that the scheduler makes, and those that a node's operation returns.
pub data Error : Type 0 where
  no_suitable_node : Error
  sandbox_not_found : String → Error
  node_not_found : String → Error
  sandbox_not_running : Error
  sandbox_not_paused : Error
  from_node : String → Error

pub data Result {ℓ} (A : Type ℓ) : Type ℓ where
  ok : A → Result A
  err : Error → Result A

-- The interface to the nodes. `W` is the state on the other side of it, which each call may change.
pub record NodeOperations (W : Type 0) : Type 0 where
  pub create_sandbox : Node → SandboxSpec → W → Result (Option SandboxResult) × W
  pub stop_sandbox : Node → String → W → Result (Unit {0}) × W
  pub pause_sandbox : Node → String → W → Result (Unit {0}) × W
  pub resume_sandbox : Node → String → W → Result (Unit {0}) × W
  pub get_sandbox_host : String → W → Option (String × ℕ)

-- `node_ops` is none for nil. `world` is what stands behind `node_ops`.
pub record Scheduler (W : Type 0) : Type 0 where
  pub nodes : GoMap String Node
  pub sandboxes : GoMap String Sandbox
  pub node_ops : Option (NodeOperations W)
  pub world : W

pub Result-cases {ℓ} :
    {A : Type ℓ} (r : Result A) → ((a : A) × (r ≡ ok a)) ⊎ ((e : Error) × (r ≡ err e))
Result-cases (ok a) = inl (a, refl)
Result-cases (err e) = inr (e, refl)
