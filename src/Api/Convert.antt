-- ===== src/Api/Convert.antt =====
-- internal/api/store.go and handlers.go: the conversions between the records of the database, the
-- records of the storage layer and the bodies of the answers.
use open_e2b.Prelude.{none, some, map}
use open_e2b.Db.Types
use open_e2b.Api.Models.{Sandbox, SandboxDetail, ListedSandbox, BuildLogEntry}
use open_e2b.Api.Records.{SandboxRecord, TemplateRecord, BuildRecord}

-- The record that `CreateSandbox` hands to the database.
unfoldable pub sandbox_to_db : SandboxRecord → Types.Sandbox
sandbox_to_db rec = record {
  sandbox_id = rec.sandbox_id;
  template_id = rec.template_id;
  alias = rec.alias;
  client_id = rec.client_id;
  envd_version = rec.envd_version;
  envd_access_token = rec.envd_access_token;
  domain = rec.domain;
  cpu_count = rec.cpu_count;
  memory_mb = rec.memory_mb;
  disk_size_mb = rec.disk_size_mb;
  metadata = rec.metadata;
  env_vars = rec.env_vars;
  state = rec.state;
  started_at = rec.started_at;
  end_at = rec.end_at;
  auto_pause = rec.auto_pause;
  node_id = rec.node_id;
  team_id = "";
}

unfoldable pub sandbox_from_db : Types.Sandbox → SandboxRecord
sandbox_from_db sb = record {
  sandbox_id = sb.sandbox_id;
  template_id = sb.template_id;
  alias = sb.alias;
  client_id = sb.client_id;
  envd_version = sb.envd_version;
  envd_access_token = sb.envd_access_token;
  domain = sb.domain;
  cpu_count = sb.cpu_count;
  memory_mb = sb.memory_mb;
  disk_size_mb = sb.disk_size_mb;
  metadata = sb.metadata;
  env_vars = sb.env_vars;
  state = sb.state;
  started_at = sb.started_at;
  end_at = sb.end_at;
  auto_pause = sb.auto_pause;
  node_id = sb.node_id;
}

unfoldable pub template_to_db : TemplateRecord → Types.Template
template_to_db rec = record {
  template_id = rec.template_id;
  build_id = rec.build_id;
  cpu_count = rec.cpu_count;
  memory_mb = rec.memory_mb;
  disk_size_mb = rec.disk_size_mb;
  public = rec.public;
  aliases = rec.aliases;
  created_at = rec.created_at;
  updated_at = rec.updated_at;
  last_spawned_at = none;
  spawn_count = rec.spawn_count;
  build_count = rec.build_count;
  envd_version = rec.envd_version;
  build_status = rec.build_status;
  team_id = rec.team_id;
  created_by_id = none;
}

unfoldable pub template_from_db : Types.Template → TemplateRecord
template_from_db t = record {
  template_id = t.template_id;
  build_id = t.build_id;
  cpu_count = t.cpu_count;
  memory_mb = t.memory_mb;
  disk_size_mb = t.disk_size_mb;
  public = t.public;
  aliases = t.aliases;
  created_at = t.created_at;
  updated_at = t.updated_at;
  last_spawned_at = t.last_spawned_at;
  spawn_count = t.spawn_count;
  build_count = t.build_count;
  envd_version = t.envd_version;
  build_status = t.build_status;
  team_id = t.team_id;
  created_by = none;
}

abbrev entry_from_db : Types.LogEntry → BuildLogEntry
entry_from_db e = record {
  timestamp = e.timestamp;
  message = e.message;
  level = e.level;
  step = e.step;
}

unfoldable pub build_from_db : Types.Build → BuildRecord
build_from_db b = record {
  build_id = b.build_id;
  template_id = b.template_id;
  status = b.status;
  created_at = b.created_at;
  updated_at = b.updated_at;
  finished_at = b.finished_at;
  cpu_count = b.cpu_count;
  memory_mb = b.memory_mb;
  disk_size_mb = b.disk_size_mb;
  envd_version = b.envd_version;
  logs = b.logs;
  log_entries = map entry_from_db b.log_entries;
}

unfoldable pub to_sandbox : SandboxRecord → Sandbox
to_sandbox rec = record {
  template_id = rec.template_id;
  sandbox_id = rec.sandbox_id;
  alias = rec.alias;
  client_id = rec.client_id;
  envd_version = rec.envd_version;
  envd_access_token = some rec.envd_access_token;
  traffic_access_token = none;
  domain = some rec.domain;
}

unfoldable pub to_sandbox_detail : SandboxRecord → SandboxDetail
to_sandbox_detail rec = record {
  template_id = rec.template_id;
  alias = rec.alias;
  sandbox_id = rec.sandbox_id;
  client_id = rec.client_id;
  started_at = rec.started_at;
  end_at = rec.end_at;
  envd_version = rec.envd_version;
  envd_access_token = some rec.envd_access_token;
  domain = some rec.domain;
  cpu_count = rec.cpu_count;
  memory_mb = rec.memory_mb;
  disk_size_mb = rec.disk_size_mb;
  metadata = rec.metadata;
  state = rec.state;
}

unfoldable pub to_listed_sandbox : SandboxRecord → ListedSandbox
to_listed_sandbox rec = record {
  template_id = rec.template_id;
  alias = rec.alias;
  sandbox_id = rec.sandbox_id;
  client_id = rec.client_id;
  started_at = rec.started_at;
  end_at = rec.end_at;
  cpu_count = rec.cpu_count;
  memory_mb = rec.memory_mb;
  disk_size_mb = rec.disk_size_mb;
  metadata = rec.metadata;
  state = rec.state;
  envd_version = rec.envd_version;
}
