-- ===== src/Api/Models.antt =====
-- internal/api/models.go: the bodies of the requests and answers. A string type is a String, an
-- `int` is its bit pattern. Of `NewSandbox`, the field `Mcp`, which no code reads, is left out.
use open_e2b.Prelude.{ℕ, String, Bool, List, Option}
use open_e2b.Prelude.GoMap.{GoMap}
use open_e2b.Prelude.Time.{Time}

pub record SandboxNetworkConfig : Type 0 where
  pub allow_public_traffic : Option Bool
  pub allow_out : List String
  pub deny_out : List String
  pub mask_request_host : Option String

pub record NewSandbox : Type 0 where
  pub template_id : String
  pub timeout : Option ℕ
  pub auto_pause : Option Bool
  pub secure : Option Bool
  pub allow_internet_access : Option Bool
  pub network : Option SandboxNetworkConfig
  pub metadata : GoMap String String
  pub env_vars : GoMap String String

pub record Sandbox : Type 0 where
  pub template_id : String
  pub sandbox_id : String
  pub alias : Option String
  pub client_id : String
  pub envd_version : String
  pub envd_access_token : Option String
  pub traffic_access_token : Option String
  pub domain : Option String

pub record SandboxDetail : Type 0 where
  pub template_id : String
  pub alias : Option String
  pub sandbox_id : String
  pub client_id : String
  pub started_at : Time
  pub end_at : Time
  pub envd_version : String
  pub envd_access_token : Option String
  pub domain : Option String
  pub cpu_count : ℕ
  pub memory_mb : ℕ
  pub disk_size_mb : ℕ
  pub metadata : GoMap String String
  pub state : String

pub record ListedSandbox : Type 0 where
  pub template_id : String
  pub alias : Option String
  pub sandbox_id : String
  pub client_id : String
  pub started_at : Time
  pub end_at : Time
  pub cpu_count : ℕ
  pub memory_mb : ℕ
  pub disk_size_mb : ℕ
  pub metadata : GoMap String String
  pub state : String
  pub envd_version : String

pub record ConnectSandbox : Type 0 where
  pub timeout : ℕ

pub record ResumedSandbox : Type 0 where
  pub timeout : Option ℕ
  pub auto_pause : Option Bool

pub record SandboxTimeout : Type 0 where
  pub timeout : ℕ

pub record SandboxRefresh : Type 0 where
  pub duration : Option ℕ

pub record TeamUser : Type 0 where
  pub id : String
  pub email : String

pub record TemplateBuildRequestV3 : Type 0 where
  pub alias : String
  pub team_id : Option String
  pub cpu_count : Option ℕ
  pub memory_mb : Option ℕ

pub record TemplateUpdateRequest : Type 0 where
  pub public : Option Bool

pub record BuildLogEntry : Type 0 where
  pub timestamp : Time
  pub message : String
  pub level : String
  pub step : Option String

pub record DiskMetrics : Type 0 where
  pub mount_point : String
  pub device : String
  pub filesystem_type : String
  pub used_bytes : ℕ
  pub total_bytes : ℕ

pub record NodeMetrics : Type 0 where
  pub allocated_cpu : ℕ
  pub cpu_percent : ℕ
  pub cpu_count : ℕ
  pub allocated_memory_bytes : ℕ
  pub memory_used_bytes : ℕ
  pub memory_total_bytes : ℕ
  pub disks : List DiskMetrics

pub record Node : Type 0 where
  pub version : String
  pub commit : String
  pub node_id : String
  pub id : String
  pub service_instance_id : String
  pub cluster_id : String
  pub status : String
  pub sandbox_count : ℕ
  pub metrics : NodeMetrics
  pub create_successes : ℕ
  pub create_fails : ℕ
  pub sandbox_starting_count : ℕ

pub record NodeDetail : Type 0 where
  pub cluster_id : String
  pub version : String
  pub commit : String
  pub id : String
  pub service_instance_id : String
  pub node_id : String
  pub status : String
  pub sandboxes : List ListedSandbox
  pub metrics : NodeMetrics
  pub cached_builds : List String
  pub create_successes : ℕ
  pub create_fails : ℕ

pub record NodeStatusChange : Type 0 where
  pub cluster_id : Option String
  pub status : String
