-- ===== src/TemplateBuild/Types.antt =====
-- internal/templatebuild/service.go: the data of a build, and what it uses of the packages os,
-- os/exec, path/filepath, time, fmt and encoding/json.
use open_e2b.Prelude.{ℕ, String, Bool, List, Option}
use open_e2b.Prelude.Time.{Time}
use open_e2b.Prelude.Action.{Shell}

pub data BuildStatus : Type 0 where
  waiting building ready error : BuildStatus

abbrev pub status_name : BuildStatus → String
status_name waiting = "waiting"
status_name building = "building"
status_name ready = "ready"
status_name error = "error"

pub data LogLevel : Type 0 where
  debug info warn error : LogLevel

abbrev pub level_name : LogLevel → String
level_name debug = "debug"
level_name info = "info"
level_name warn = "warn"
level_name error = "error"

pub record LogEntry : Type 0 where
  pub timestamp : Time
  pub message : String
  pub level : LogLevel
  pub step : Option String

-- `kind` is the field `Type`.
pub record Step : Type 0 where
  pub kind : String
  pub args : List String
  pub files_hash : String
  pub force : Bool

pub record Config : Type 0 where
  pub from_image : String
  pub from_template : String
  pub registry_url : String
  pub registry_username : String
  pub registry_password : String
  pub steps : List Step
  pub start_cmd : String
  pub ready_cmd : String
  pub force : Bool

pub record Build : Type 0 where
  pub id : String
  pub template_id : String
  pub status : BuildStatus
  pub config : Option Config
  pub cpu_count : ℕ
  pub memory_mb : ℕ
  pub logs : List String
  pub log_entries : List LogEntry
  pub started_at : Time
  pub finished_at : Option Time
  pub error : Option String

-- A value in the metadata of the artifacts.
pub data Json : Type 0 where
  text : String → Json
  int : ℕ → Json

-- The machine of the service: its commands, clock and files, over a state `W`. A call that may fail
-- returns the text of its error; `stat` returns the size. The rest is pure: filepath.Join and Dir,
-- "%.1f MB" of a size in bytes, json.MarshalIndent and the RFC 3339 form of a time.
pub record Machine (W : Type 0) : Type 0 where
  pub run : Shell W
  pub now : W → Time × W
  pub mkdir_all : String → W → Option String × W
  pub write_file : String → String → W → Option String × W
  pub stat : String → W → Option ℕ × W
  pub executable : W → Option String × W
  pub chmod : String → W → W
  pub remove : String → W → W
  pub remove_all : String → W → W
  pub symlink : String → String → W → W
  pub join : List String → String
  pub dir : String → String
  pub megabytes : ℕ → String
  pub marshal : List (String × Json) → Option String
  pub rfc3339 : Time → String
