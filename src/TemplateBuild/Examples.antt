-- ===== src/TemplateBuild/Examples.antt =====
-- A machine that obliges, and a store with one template and one build that waits.
use open_e2b.Prelude.{ℕ, suc, false, [], ◌∷◌, none, some}
use open_e2b.Prelude.Int.{pos}
use open_e2b.Db.Types
use open_e2b.Db.Memory.{MemoryStore}
use open_e2b.TemplateBuild.Types.{Machine}

-- Every call is counted, and ends well.
abbrev pub machine : Machine ℕ
machine = record {
  run = λ name args n. (record { text = "ok"; error = none }, suc n);
  now = λ n. (pos n, suc n);
  mkdir_all = λ path n. (none, suc n);
  write_file = λ path text n. (none, suc n);
  stat = λ path n. (some 1024, suc n);
  executable = λ n. (none, suc n);
  chmod = λ path n. suc n;
  remove = λ path n. suc n;
  remove_all = λ path n. suc n;
  symlink = λ old path n. suc n;
  join = λ parts. "path";
  dir = λ path. "dir";
  megabytes = λ size. "0.0 MB";
  marshal = λ fields. some "{}";
  rfc3339 = λ t. "now";
}

abbrev pub row : Types.Build
row = record {
  build_id = "b1";
  template_id = "t1";
  status = "waiting";
  created_at = pos 1;
  updated_at = pos 1;
  finished_at = none;
  cpu_count = 2;
  memory_mb = 1024;
  disk_size_mb = none;
  envd_version = none;
  logs = [];
  log_entries = [];
}

abbrev pub template : Types.Template
template = record {
  template_id = "t1";
  build_id = "b1";
  cpu_count = 2;
  memory_mb = 1024;
  disk_size_mb = 2048;
  public = false;
  aliases = [];
  created_at = pos 1;
  updated_at = pos 1;
  created_by_id = none;
  last_spawned_at = none;
  spawn_count = 0;
  build_count = 1;
  envd_version = "";
  build_status = "waiting";
  team_id = "default";
}

abbrev pub store : MemoryStore
store = record {
  sandboxes = [];
  templates = ("t1", template) ∷ [];
  builds = ("b1", row) ∷ [];
  nodes = [];
  teams = [];
  api_keys = [];
}
