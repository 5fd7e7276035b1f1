-- ===== src/Api/Bodies.antt =====
-- internal/api/models.go: the bodies of the requests and answers on templates and builds.
use open_e2b.Prelude.{ℕ, String, Bool, List, Option}
use open_e2b.Prelude.Time.{Time}
use open_e2b.Api.Models.{TeamUser, BuildLogEntry}

pub record Template : Type 0 where
  pub template_id : String
  pub build_id : String
  pub cpu_count : ℕ
  pub memory_mb : ℕ
  pub disk_size_mb : ℕ
  pub public : Bool
  pub aliases : List String
  pub created_at : Time
  pub updated_at : Time
  pub created_by : Option TeamUser
  pub last_spawned_at : Option Time
  pub spawn_count : ℕ
  pub build_count : ℕ
  pub envd_version : String
  pub build_status : String

pub record TemplateBuild : Type 0 where
  pub build_id : String
  pub status : String
  pub created_at : Time
  pub updated_at : Time
  pub finished_at : Option Time
  pub cpu_count : ℕ
  pub memory_mb : ℕ
  pub disk_size_mb : Option ℕ
  pub envd_version : Option String

pub record TemplateWithBuilds : Type 0 where
  pub template_id : String
  pub public : Bool
  pub aliases : List String
  pub created_at : Time
  pub updated_at : Time
  pub last_spawned_at : Option Time
  pub spawn_count : ℕ
  pub builds : List TemplateBuild

pub record TemplateRequestResponseV3 : Type 0 where
  pub template_id : String
  pub build_id : String
  pub public : Bool
  pub aliases : List String

pub record TemplateBuildFileUpload : Type 0 where
  pub present : Bool
  pub url : Option String

-- `kind` is the field `Type`.
pub record TemplateStep : Type 0 where
  pub kind : String
  pub args : List String
  pub force : Option Bool
  pub files_hash : Option String

pub record FromImageRegistry : Type 0 where
  pub url : String
  pub username : Option String
  pub password : Option String

pub record TemplateBuildStartV2 : Type 0 where
  pub from_image : Option String
  pub from_template : Option String
  pub from_image_registry : Option FromImageRegistry
  pub force : Option Bool
  pub steps : List TemplateStep
  pub start_cmd : Option String
  pub ready_cmd : Option String

-- No handler sets the field `Reason`.
pub record TemplateBuildInfo : Type 0 where
  pub logs : List String
  pub log_entries : List BuildLogEntry
  pub template_id : String
  pub build_id : String
  pub status : String
