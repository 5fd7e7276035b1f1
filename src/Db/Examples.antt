-- ===== src/Db/Examples.antt =====
-- A store in memory with a template and with given sandboxes.
use open_e2b.Prelude.{String, true, false, [], ◌∷◌, none, some}
use open_e2b.Prelude.Int.{pos}
use open_e2b.Prelude.GoMap.{GoMap}
use open_e2b.Db.Types
use open_e2b.Db.Memory.{MemoryStore}

abbrev pub template : Types.Template
template = record {
  template_id = "base";
  build_id = "b";
  cpu_count = 2;
  memory_mb = 512;
  disk_size_mb = 512;
  public = true;
  aliases = "py" ∷ [];
  created_at = pos 0;
  updated_at = pos 0;
  created_by_id = none;
  last_spawned_at = none;
  spawn_count = 0;
  build_count = 1;
  envd_version = "0.1.0";
  build_status = "ready";
  team_id = "default";
}

abbrev pub row_in : String → Types.Sandbox
row_in state = record {
  sandbox_id = "s1";
  template_id = "base";
  alias = some "py";
  client_id = "s1";
  envd_version = "0.1.0";
  envd_access_token = "t";
  domain = "e2b.local";
  cpu_count = 2;
  memory_mb = 512;
  disk_size_mb = 512;
  metadata = [];
  env_vars = [];
  state = state;
  started_at = pos 0;
  end_at = pos 60000000000;
  auto_pause = false;
  node_id = "";
  team_id = "";
}

abbrev pub node : Types.Node
node = record {
  node_id = "n1";
  id = "n1";
  version = "1";
  commit = "";
  service_instance_id = "";
  cluster_id = "c";
  status = "ready";
  sandbox_count = 1;
  sandbox_starting_count = 0;
  create_successes = 1;
  create_fails = 0;
  metrics = none;
  cached_builds = [];
  created_at = pos 0;
  updated_at = pos 0;
}

abbrev pub build : Types.Build
build = record {
  build_id = "b";
  template_id = "base";
  status = "ready";
  created_at = pos 0;
  updated_at = pos 0;
  finished_at = some (pos 5);
  cpu_count = 2;
  memory_mb = 512;
  disk_size_mb = none;
  envd_version = none;
  logs = "done" ∷ [];
  log_entries = [];
}

abbrev pub team : Types.Team
team = record {
  team_id = "default";
  name = "Default Team";
  api_key = "k";
  is_default = true;
  created_at = pos 0;
  updated_at = pos 0;
}

abbrev pub key : Types.ApiKey
key = record {
  id = "k1";
  name = "key";
  hashed_key = "h";
  team_id = "default";
  mask_prefix = "e2b_";
  mask_value_length = 8;
  masked_value_prefix = "ab";
  masked_value_suffix = "yz";
  created_at = pos 0;
  created_by_id = none;
  last_used = none;
}

abbrev pub store_of : GoMap String Types.Sandbox → MemoryStore
store_of rows = record {
  sandboxes = rows;
  templates = ("base", template) ∷ [];
  builds = [];
  nodes = ("n1", node) ∷ [];
  teams = [];
  api_keys = [];
}
