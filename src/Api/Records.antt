-- ===== src/Api/Records.antt =====
-- internal/api/store.go: the records that the storage layer hands to the handlers.
use open_e2b.Prelude.{ℕ, String, Bool, List, Option}
use open_e2b.Prelude.GoMap.{GoMap}
use open_e2b.Prelude.Time.{Time}
use open_e2b.Api.Models.{TeamUser, BuildLogEntry, Node}

pub record SandboxRecord : Type 0 where
  pub sandbox_id : String
  pub template_id : String
  pub alias : Option String
  pub client_id : String
  pub envd_version : String
  pub envd_access_token : String
  pub domain : String
  pub cpu_count : ℕ
  pub memory_mb : ℕ
  pub disk_size_mb : ℕ
  pub metadata : GoMap String String
  pub env_vars : GoMap String String
  pub state : String
  pub started_at : Time
  pub end_at : Time
  pub auto_pause : Bool
  pub node_id : String

pub record TemplateRecord : Type 0 where
  pub template_id : String
  pub build_id : String
  pub cpu_count : ℕ
  pub memory_mb : ℕ
  pub disk_size_mb : ℕ
  pub public : Bool
  pub aliases : List String
  pub created_at : Time
  pub updated_at : Time
  pub created_by : Option TeamUser
  pub last_spawned_at : Option Time
  pub spawn_count : ℕ
  pub build_count : ℕ
  pub envd_version : String
  pub build_status : String
  pub team_id : String

pub record BuildRecord : Type 0 where
  pub build_id : String
  pub template_id : String
  pub status : String
  pub created_at : Time
  pub updated_at : Time
  pub finished_at : Option Time
  pub cpu_count : ℕ
  pub memory_mb : ℕ
  pub disk_size_mb : Option ℕ
  pub envd_version : Option String
  pub logs : List String
  pub log_entries : List BuildLogEntry

pub record NodeRecord : Type 0 where
  pub node : Node
  pub sandboxes : List String
  pub cached_builds : List String
