-- ===== src/Db/Memory/Implements.antt =====
-- The store in memory as an implementation of the interface.
use open_e2b.Prelude.{String, ◌≡◌, refl, inl, Option, none, some, string_eq, arith}
use open_e2b.Prelude.GoMap.{get, get-put, get-remove}
use open_e2b.Db.Types.{Sandbox, SandboxUpdate, apply_sandbox}
use open_e2b.Db.Store.{Store}
use open_e2b.Db.Store.Table.{IsTable, Sets, Fails}
use open_e2b.Db.Memory.{MemoryStore, ping, close}
use open_e2b.Db.Memory.Sandboxes
use open_e2b.Db.Memory.Templates
use open_e2b.Db.Memory.Builds
use open_e2b.Db.Memory.Nodes
use open_e2b.Db.Memory.Keys

abbrev pub memory_db : Store MemoryStore
memory_db = record {
  create_sandbox = Sandboxes.create_sandbox;
  get_sandbox = Sandboxes.get_sandbox;
  list_sandboxes = Sandboxes.list_sandboxes;
  update_sandbox = Sandboxes.update_sandbox;
  delete_sandbox = Sandboxes.delete_sandbox;
  create_template = Templates.create_template;
  get_template = Templates.get_template;
  list_templates = Templates.list_templates;
  update_template = Templates.update_template;
  delete_template = Templates.delete_template;
  increment_template_spawn_count = Templates.increment_template_spawn_count;
  create_build = Builds.create_build;
  get_build = Builds.get_build;
  list_builds_for_template = Builds.list_builds_for_template;
  update_build = Builds.update_build;
  create_node = Nodes.create_node;
  get_node = Nodes.get_node;
  list_nodes = Nodes.list_nodes;
  update_node_status = Nodes.update_node_status;
  update_node_metrics = Nodes.update_node_metrics;
  get_team = Nodes.get_team;
  list_teams = Nodes.list_teams;
  create_team = Nodes.create_team;
  create_api_key = Keys.create_api_key;
  get_api_key_by_hash = Keys.get_api_key_by_hash;
  list_api_keys = Keys.list_api_keys;
  delete_api_key = Keys.delete_api_key;
  update_api_key_last_used = Keys.update_api_key_last_used;
  ping = ping;
  close = close;
}

abbrev pub memory_rows : MemoryStore → String → Option Sandbox
memory_rows s id = get s.sandboxes id

create_lem :
    (sb : Sandbox) (s : MemoryStore)
    → Sets memory_rows s sb.sandbox_id (some sb) (Sandboxes.create_sandbox sb s)
unfolding Sandboxes.create_sandbox
create_lem sb s = (refl, λ j. get-put s.sandboxes sb.sandbox_id j sb)

update_lem :
    (id : String) (u : SandboxUpdate) (sb : Sandbox) (s : MemoryStore)
    → get s.sandboxes id ≡ some sb
    → Sets memory_rows s id (some (apply_sandbox u sb)) (Sandboxes.update_sandbox id u s)
unfolding Sandboxes.update_sandbox
update_lem id u sb s h = (
  rw (h, Sandboxes.update_sandbox),
  λ j. rw (h, Sandboxes.update_sandbox, get-put s.sandboxes id j (apply_sandbox u sb)),
)

update-missing_lem :
    (id : String) (u : SandboxUpdate) (s : MemoryStore)
    → get s.sandboxes id ≡ none
    → Fails memory_rows s (Sandboxes.update_sandbox id u s)
unfolding Sandboxes.update_sandbox
update-missing_lem id u s h =
    (("sandbox not found", rw (h, Sandboxes.update_sandbox)), λ j. rw (h, Sandboxes.update_sandbox))

delete_lem :
    (id : String) (sb : Sandbox) (s : MemoryStore)
    → get s.sandboxes id ≡ some sb
    → Sets memory_rows s id none (Sandboxes.delete_sandbox id s)
unfolding Sandboxes.delete_sandbox
delete_lem id sb s h = (
  rw (h, Sandboxes.delete_sandbox),
  λ j. rw (h, Sandboxes.delete_sandbox, get-remove s.sandboxes id j),
)

delete-missing_lem :
    (id : String) (s : MemoryStore)
    → get s.sandboxes id ≡ none
    → Fails memory_rows s (Sandboxes.delete_sandbox id s)
unfolding Sandboxes.delete_sandbox
delete-missing_lem id s h =
    (("sandbox not found", rw (h, Sandboxes.delete_sandbox)), λ j. rw (h, Sandboxes.delete_sandbox))

-- The sandboxes of the store in memory are a table: every operation on sandboxes reads or writes
-- the row of its ID and no other, `CreateSandbox` writes it, an update or a delete without a row
-- fails and changes nothing, and counting a spawn changes no row.
pub memory-IsTable : IsTable memory_db memory_rows
unfolding Sandboxes.get_sandbox Templates.increment_template_spawn_count
memory-IsTable = record {
  get-rows = λ id s. refl;
  create-rows = λ sb s. inl (create_lem sb s);
  update-rows = update_lem;
  update-missing = update-missing_lem;
  delete-rows = delete_lem;
  delete-missing = delete-missing_lem;
  spawn-rows = λ now id j s. ground arith;
}
