-- ===== src/Db/Supabase.antt =====
-- internal/db/supabase.go: the rows of the tables, what becomes of the records in them, and the
-- requests. The server is a call with an answer, over a state of its own; encoding/json decodes the
-- body of an answer as an argument, and so does url.QueryEscape its text.
pub mod Sandboxes
pub mod Templates
pub mod Nodes
pub mod Rows
use open_e2b.Prelude.{
  ℕ, String, Bool, List, [], ◌∷◌, Option, none, some, or_default, ◌==◌, string_eq, leb, map,
  if◌then◌else◌,
}
use Prim.Native.String.{◌++◌ as ◌<>◌}
use open_e2b.Prelude.GoMap.{GoMap}
use open_e2b.Prelude.Text.{show_int}
use open_e2b.Prelude.Time.{Time}
use open_e2b.Db.Types.{
  Result, ok, err, LogEntry, NodeMetrics, Sandbox, Template, Build, Node, Team, ApiKey,
}

pub record SupabaseSandbox : Type 0 where
  pub sandbox_id : String
  pub template_id : String
  pub alias : Option String
  pub client_id : String
  pub envd_version : String
  pub envd_access_token : String
  pub domain : String
  pub cpu_count : ℕ
  pub memory_mb : ℕ
  pub disk_size_mb : ℕ
  pub metadata : GoMap String String
  pub env_vars : GoMap String String
  pub state : String
  pub started_at : Time
  pub end_at : Time
  pub auto_pause : Bool
  pub node_id : Option String
  pub team_id : Option String

pub record SupabaseTemplate : Type 0 where
  pub template_id : String
  pub build_id : String
  pub cpu_count : ℕ
  pub memory_mb : ℕ
  pub disk_size_mb : ℕ
  pub public : Bool
  pub aliases : List String
  pub created_at : Time
  pub updated_at : Time
  pub created_by_id : Option String
  pub last_spawned_at : Option Time
  pub spawn_count : ℕ
  pub build_count : ℕ
  pub envd_version : String
  pub build_status : String
  pub team_id : Option String

pub record SupabaseBuild : Type 0 where
  pub build_id : String
  pub template_id : String
  pub status : String
  pub created_at : Time
  pub updated_at : Time
  pub finished_at : Option Time
  pub cpu_count : ℕ
  pub memory_mb : ℕ
  pub disk_size_mb : Option ℕ
  pub envd_version : Option String
  pub logs : List String
  pub log_entries : List LogEntry

pub record SupabaseNode : Type 0 where
  pub node_id : String
  pub id : String
  pub version : String
  pub commit : String
  pub service_instance_id : String
  pub cluster_id : String
  pub status : String
  pub sandbox_count : ℕ
  pub sandbox_starting_count : ℕ
  pub create_successes : ℕ
  pub create_fails : ℕ
  pub metrics : Option NodeMetrics
  pub cached_builds : List String
  pub created_at : Time
  pub updated_at : Time

pub record SupabaseTeam : Type 0 where
  pub team_id : String
  pub name : String
  pub api_key : String
  pub is_default : Bool
  pub created_at : Time
  pub updated_at : Time

pub record SupabaseApiKey : Type 0 where
  pub id : String
  pub name : String
  pub hashed_key : String
  pub team_id : String
  pub mask_prefix : String
  pub mask_value_length : ℕ
  pub masked_value_prefix : String
  pub masked_value_suffix : String
  pub created_at : Time
  pub created_by_id : Option String
  pub last_used : Option Time

-- `if s != "" { field = &s }`
abbrev non_empty : String → Option String
non_empty s = if s == "" then none else some s

unfoldable pub sandbox_row : Sandbox → SupabaseSandbox
sandbox_row sb = record {
  sandbox_id = sb.sandbox_id;
  template_id = sb.template_id;
  alias = sb.alias;
  client_id = sb.client_id;
  envd_version = sb.envd_version;
  envd_access_token = sb.envd_access_token;
  domain = sb.domain;
  cpu_count = sb.cpu_count;
  memory_mb = sb.memory_mb;
  disk_size_mb = sb.disk_size_mb;
  metadata = sb.metadata;
  env_vars = sb.env_vars;
  state = sb.state;
  started_at = sb.started_at;
  end_at = sb.end_at;
  auto_pause = sb.auto_pause;
  node_id = non_empty sb.node_id;
  team_id = non_empty sb.team_id;
}

unfoldable pub sandbox_of : SupabaseSandbox → Sandbox
sandbox_of r = record {
  sandbox_id = r.sandbox_id;
  template_id = r.template_id;
  alias = r.alias;
  client_id = r.client_id;
  envd_version = r.envd_version;
  envd_access_token = r.envd_access_token;
  domain = r.domain;
  cpu_count = r.cpu_count;
  memory_mb = r.memory_mb;
  disk_size_mb = r.disk_size_mb;
  metadata = r.metadata;
  env_vars = r.env_vars;
  state = r.state;
  started_at = r.started_at;
  end_at = r.end_at;
  auto_pause = r.auto_pause;
  node_id = or_default "" r.node_id;
  team_id = or_default "" r.team_id;
}

unfoldable pub template_row : Template → SupabaseTemplate
template_row t = record {
  template_id = t.template_id;
  build_id = t.build_id;
  cpu_count = t.cpu_count;
  memory_mb = t.memory_mb;
  disk_size_mb = t.disk_size_mb;
  public = t.public;
  aliases = t.aliases;
  created_at = t.created_at;
  updated_at = t.updated_at;
  created_by_id = t.created_by_id;
  last_spawned_at = t.last_spawned_at;
  spawn_count = t.spawn_count;
  build_count = t.build_count;
  envd_version = t.envd_version;
  build_status = t.build_status;
  team_id = non_empty t.team_id;
}

unfoldable pub template_of : SupabaseTemplate → Template
template_of r = record {
  template_id = r.template_id;
  build_id = r.build_id;
  cpu_count = r.cpu_count;
  memory_mb = r.memory_mb;
  disk_size_mb = r.disk_size_mb;
  public = r.public;
  aliases = r.aliases;
  created_at = r.created_at;
  updated_at = r.updated_at;
  created_by_id = r.created_by_id;
  last_spawned_at = r.last_spawned_at;
  spawn_count = r.spawn_count;
  build_count = r.build_count;
  envd_version = r.envd_version;
  build_status = r.build_status;
  team_id = or_default "" r.team_id;
}

unfoldable pub build_row : Build → SupabaseBuild
build_row b = record {
  build_id = b.build_id;
  template_id = b.template_id;
  status = b.status;
  created_at = b.created_at;
  updated_at = b.updated_at;
  finished_at = b.finished_at;
  cpu_count = b.cpu_count;
  memory_mb = b.memory_mb;
  disk_size_mb = b.disk_size_mb;
  envd_version = b.envd_version;
  logs = b.logs;
  log_entries = b.log_entries;
}

unfoldable pub build_of : SupabaseBuild → Build
build_of r = record {
  build_id = r.build_id;
  template_id = r.template_id;
  status = r.status;
  created_at = r.created_at;
  updated_at = r.updated_at;
  finished_at = r.finished_at;
  cpu_count = r.cpu_count;
  memory_mb = r.memory_mb;
  disk_size_mb = r.disk_size_mb;
  envd_version = r.envd_version;
  logs = r.logs;
  log_entries = r.log_entries;
}

unfoldable pub node_row : Node → SupabaseNode
node_row n = record {
  node_id = n.node_id;
  id = n.id;
  version = n.version;
  commit = n.commit;
  service_instance_id = n.service_instance_id;
  cluster_id = n.cluster_id;
  status = n.status;
  sandbox_count = n.sandbox_count;
  sandbox_starting_count = n.sandbox_starting_count;
  create_successes = n.create_successes;
  create_fails = n.create_fails;
  metrics = n.metrics;
  cached_builds = n.cached_builds;
  created_at = n.created_at;
  updated_at = n.updated_at;
}

unfoldable pub node_of : SupabaseNode → Node
node_of r = record {
  node_id = r.node_id;
  id = r.id;
  version = r.version;
  commit = r.commit;
  service_instance_id = r.service_instance_id;
  cluster_id = r.cluster_id;
  status = r.status;
  sandbox_count = r.sandbox_count;
  sandbox_starting_count = r.sandbox_starting_count;
  create_successes = r.create_successes;
  create_fails = r.create_fails;
  metrics = r.metrics;
  cached_builds = r.cached_builds;
  created_at = r.created_at;
  updated_at = r.updated_at;
}

unfoldable pub team_row : Team → SupabaseTeam
team_row t = record {
  team_id = t.team_id;
  name = t.name;
  api_key = t.api_key;
  is_default = t.is_default;
  created_at = t.created_at;
  updated_at = t.updated_at;
}

unfoldable pub team_of : SupabaseTeam → Team
team_of r = record {
  team_id = r.team_id;
  name = r.name;
  api_key = r.api_key;
  is_default = r.is_default;
  created_at = r.created_at;
  updated_at = r.updated_at;
}

unfoldable pub api_key_row : ApiKey → SupabaseApiKey
api_key_row k = record {
  id = k.id;
  name = k.name;
  hashed_key = k.hashed_key;
  team_id = k.team_id;
  mask_prefix = k.mask_prefix;
  mask_value_length = k.mask_value_length;
  masked_value_prefix = k.masked_value_prefix;
  masked_value_suffix = k.masked_value_suffix;
  created_at = k.created_at;
  created_by_id = k.created_by_id;
  last_used = k.last_used;
}

unfoldable pub api_key_of : SupabaseApiKey → ApiKey
api_key_of r = record {
  id = r.id;
  name = r.name;
  hashed_key = r.hashed_key;
  team_id = r.team_id;
  mask_prefix = r.mask_prefix;
  mask_value_length = r.mask_value_length;
  masked_value_prefix = r.masked_value_prefix;
  masked_value_suffix = r.masked_value_suffix;
  created_at = r.created_at;
  created_by_id = r.created_by_id;
  last_used = r.last_used;
}

-- A value of a PATCH.
pub data Value : Type 0 where
  text : String → Value
  time : Time → Value
  flag : Bool → Value
  number : ℕ → Value
  texts : List String → Value
  entries : List LogEntry → Value
  metrics : Option NodeMetrics → Value

-- The body of a request, before json.Marshal.
pub data Body : Type 0 where
  no_body : Body
  sandbox : SupabaseSandbox → Body
  template : SupabaseTemplate → Body
  build : SupabaseBuild → Body
  node : SupabaseNode → Body
  team : SupabaseTeam → Body
  api_key : SupabaseApiKey → Body
  patch : List (String × Value) → Body

pub record Response (T : Type 0) : Type 0 where
  pub status : ℕ
  pub text : T

-- `send` is a request up to the body of its answer: the method, the path and the body; its error has
-- the text of `doRequest`. A body is a text `T`, which may be empty; the lists are what json.Unmarshal
-- makes of it.
pub record Rest (S T : Type 0) : Type 0 where
  pub send : String → String → Body → S → Result (Response T) × S
  pub escape : String → String
  pub is_empty : T → Bool
  pub show : T → String
  pub sandboxes : T → Result (List SupabaseSandbox)
  pub templates : T → Result (List SupabaseTemplate)
  pub builds : T → Result (List SupabaseBuild)
  pub nodes : T → Result (List SupabaseNode)
  pub teams : T → Result (List SupabaseTeam)
  pub api_keys : T → Result (List SupabaseApiKey)

abbrev pub then_ok {ℓ κ} : {A : Type ℓ} {B : Type κ} → (A → B) → Result A → Result B
then_ok f (ok a) = ok (f a)
then_ok f (err e) = err e

abbrev first {ℓ} : {A : Type ℓ} → List A → Option A
first [] = none
first (a ∷ xs) = some a

module _ {S T : Type 0} (rest : Rest S T) where
  abbrev checked : Result (Response T) × S → Result T × S
  checked (err e, s) = (err e, s)
  checked (ok r, s) =
      if leb 400 r.status
      then (err ("API error " <> show_int r.status <> ": " <> rest.show r.text), s)
      else (ok r.text, s)

  -- `doRequest`, up to the decoding of the body.
  unfoldable pub do_request : String → String → Body → S → Result T × S
  do_request method path body s = checked (rest.send method path body s)

  -- A request without a result.
  abbrev ignored : Result T × S → Result (Unit {0}) × S
  ignored (r, s) = (then_ok (λ t. tt) r, s)

  unfoldable pub write : String → String → Body → S → Result (Unit {0}) × S
  write method path body s = ignored (do_request method path body s)

  -- An empty body is not decoded.
  abbrev decoded {ℓ} : {A : Type ℓ} → (T → Result (List A)) → Result T → Result (List A)
  decoded decode (err e) = err e
  decoded decode (ok t) = if rest.is_empty t then ok [] else elim (decode t) [
    | ok rows ↦ ok rows
    | err e ↦ err ("failed to unmarshal response: " <> e)
  ]

  -- A GET, and the rows that it returns.
  unfoldable pub query {ℓ} : {A : Type ℓ} → (T → Result (List A)) → String → S → Result (List A) × S
  query decode path s = let (r, s') = do_request "GET" path no_body s in (decoded decode r, s')

  -- The first row, as a record, or nil.
  unfoldable pub find {ℓ κ} :
      {A : Type ℓ} {B : Type κ}
      → (T → Result (List A))
      → (A → B)
      → String
      → S
      → Result (Option B) × S
  find decode f path s =
      let (r, s') = query decode path s in (then_ok (λ rows. first (map f rows)) r, s')

  unfoldable pub find_all {ℓ κ} :
      {A : Type ℓ} {B : Type κ} → (T → Result (List A)) → (A → B) → String → S → Result (List B) × S
  find_all decode f path s = let (r, s') = query decode path s in (then_ok (map f) r, s')

  -- A PATCH of something.
  abbrev pub patched : String → List (String × Value) → S → Result (Unit {0}) × S
  patched path [] s = (ok tt, s)
  patched path (v ∷ vs) s = write "PATCH" path (patch (v ∷ vs)) s

abbrev pub given {ℓ} : {A : Type ℓ} → String → (A → Value) → Option A → List (String × Value)
given name f none = []
given name f (some a) = (name, f a) ∷ []
