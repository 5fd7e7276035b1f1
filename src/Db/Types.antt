-- ===== src/Db/Types.antt =====
-- internal/db/store.go: the records of the database. A pointer that may be nil is an Option; an
-- `int`, `int64`, `uint32` or `uint64` is its bit pattern; a nil slice reads as an empty one, but in
-- `BuildUpdate`, where nil means no change.
use open_e2b.Prelude.{ℕ, String, Bool, true, false, List, Option, none, some}
use open_e2b.Prelude.GoMap.{GoMap}
use open_e2b.Prelude.Time.{Time}

-- A result of the interface, with the message of the error.
pub data Result {ℓ} (A : Type ℓ) : Type ℓ where
  ok : A → Result A
  err : String → Result A

-- `err == nil`
abbrev pub is_ok {ℓ} : {A : Type ℓ} → Result A → Bool
is_ok (ok a) = true
is_ok (err e) = false

-- The field after `if u != nil { field = *u }`.
abbrev pub updated {ℓ} : {A : Type ℓ} → Option A → A → A
updated none a = a
updated (some b) a = b

pub record Sandbox : Type 0 where
  pub sandbox_id : String
  pub template_id : String
  pub alias : Option String
  pub client_id : String
  pub envd_version : String
  pub envd_access_token : String
  pub domain : String
  pub cpu_count : ℕ
  pub memory_mb : ℕ
  pub disk_size_mb : ℕ
  pub metadata : GoMap String String
  pub env_vars : GoMap String String
  pub state : String
  pub started_at : Time
  pub end_at : Time
  pub auto_pause : Bool
  pub node_id : String
  pub team_id : String

pub record SandboxFilter : Type 0 where
  pub metadata : GoMap String String
  pub states : List String
  pub team_id : Option String
  pub node_id : Option String

pub record SandboxUpdate : Type 0 where
  pub state : Option String
  pub end_at : Option Time
  pub node_id : Option String

-- What `UpdateSandbox` writes.
unfoldable pub apply_sandbox : SandboxUpdate → Sandbox → Sandbox
apply_sandbox u sb = record sb {
  state = updated u.state sb.state;
  end_at = updated u.end_at sb.end_at;
  node_id = updated u.node_id sb.node_id;
}

pub record Template : Type 0 where
  pub template_id : String
  pub build_id : String
  pub cpu_count : ℕ
  pub memory_mb : ℕ
  pub disk_size_mb : ℕ
  pub public : Bool
  pub aliases : List String
  pub created_at : Time
  pub updated_at : Time
  pub created_by_id : Option String
  pub last_spawned_at : Option Time
  pub spawn_count : ℕ
  pub build_count : ℕ
  pub envd_version : String
  pub build_status : String
  pub team_id : String

pub record TemplateUpdate : Type 0 where
  pub public : Option Bool
  pub build_status : Option String
  pub build_id : Option String

pub record LogEntry : Type 0 where
  pub timestamp : Time
  pub message : String
  pub level : String
  pub step : Option String

pub record Build : Type 0 where
  pub build_id : String
  pub template_id : String
  pub status : String
  pub created_at : Time
  pub updated_at : Time
  pub finished_at : Option Time
  pub cpu_count : ℕ
  pub memory_mb : ℕ
  pub disk_size_mb : Option ℕ
  pub envd_version : Option String
  pub logs : List String
  pub log_entries : List LogEntry

pub record BuildUpdate : Type 0 where
  pub status : Option String
  pub finished_at : Option Time
  pub logs : Option (List String)
  pub log_entries : Option (List LogEntry)
  pub disk_size_mb : Option ℕ
  pub envd_version : Option String

pub record DiskMetrics : Type 0 where
  pub mount_point : String
  pub device : String
  pub filesystem_type : String
  pub used_bytes : ℕ
  pub total_bytes : ℕ

pub record NodeMetrics : Type 0 where
  pub allocated_cpu : ℕ
  pub cpu_percent : ℕ
  pub cpu_count : ℕ
  pub allocated_memory_bytes : ℕ
  pub memory_used_bytes : ℕ
  pub memory_total_bytes : ℕ
  pub disks : List DiskMetrics

pub record Node : Type 0 where
  pub node_id : String
  pub id : String
  pub version : String
  pub commit : String
  pub service_instance_id : String
  pub cluster_id : String
  pub status : String
  pub sandbox_count : ℕ
  pub sandbox_starting_count : ℕ
  pub create_successes : ℕ
  pub create_fails : ℕ
  pub metrics : Option NodeMetrics
  pub cached_builds : List String
  pub created_at : Time
  pub updated_at : Time

pub record Team : Type 0 where
  pub team_id : String
  pub name : String
  pub api_key : String
  pub is_default : Bool
  pub created_at : Time
  pub updated_at : Time

pub record TeamUser : Type 0 where
  pub id : String
  pub team_id : String
  pub email : String
  pub created_at : Time

pub record ApiKey : Type 0 where
  pub id : String
  pub name : String
  pub hashed_key : String
  pub team_id : String
  pub mask_prefix : String
  pub mask_value_length : ℕ
  pub masked_value_prefix : String
  pub masked_value_suffix : String
  pub created_at : Time
  pub created_by_id : Option String
  pub last_used : Option Time
