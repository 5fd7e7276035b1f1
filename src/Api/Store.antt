-- ===== src/Api/Store.antt =====
-- internal/api/store.go: the methods of `Store` on sandboxes, over any implementation of the
-- interface of the database. `uuid.New()` and `time.Now()` are arguments.
pub mod Templates
pub mod Nodes
use open_e2b.Prelude.{
  ℕ, String, Bool, true, false, List, [], ◌∷◌, Option, none, some, map, or_default,
}
use open_e2b.Prelude.GoMap.{GoMap}
use open_e2b.Prelude.GoMap.Range.{Order}
use open_e2b.Prelude.Time
use open_e2b.Prelude.Time.{Time, seconds}
use open_e2b.Db.Types
use open_e2b.Db.Types.{Result, ok, err, is_ok}
use open_e2b.Db.Store.{Store}
use open_e2b.Api.Models.{NewSandbox}
use open_e2b.Api.Records.{SandboxRecord, TemplateRecord}
use open_e2b.Api.Convert.{sandbox_to_db, sandbox_from_db}

abbrev pub state_running : String
state_running = "running"

abbrev pub state_paused : String
state_paused = "paused"

abbrev pub first_alias : List String → Option String
first_alias [] = none
first_alias (a ∷ rest) = some a

-- The record that `CreateSandbox` makes; the default timeout is 15 seconds.
unfoldable pub new_record :
    String → String → Time → NewSandbox → TemplateRecord → String → SandboxRecord
new_record id token now req t domain = record {
  sandbox_id = id;
  template_id = t.template_id;
  alias = first_alias t.aliases;
  client_id = id;
  envd_version = t.envd_version;
  envd_access_token = token;
  domain = domain;
  cpu_count = t.cpu_count;
  memory_mb = t.memory_mb;
  disk_size_mb = t.disk_size_mb;
  metadata = req.metadata;
  env_vars = req.env_vars;
  state = state_running;
  started_at = now;
  end_at = Time.add now (seconds (or_default 15 req.timeout));
  auto_pause = or_default false req.auto_pause;
  node_id = "";
}

-- `err != nil || x == nil`
abbrev pub found {ℓ} : {A : Type ℓ} → Result (Option A) → Option A
found (ok o) = o
found (err e) = none

-- A list, or nil on an error.
abbrev pub listed {ℓ} : {A : Type ℓ} → Result (List A) → List A
listed (ok xs) = xs
listed (err e) = []

abbrev pub convert {ℓ κ} : {A : Type ℓ} {B : Type κ} → (A → B) → Option A → Option B
convert f none = none
convert f (some a) = some (f a)

abbrev pub succeeded : {S : Type 0} → Result (Unit {0}) × S → Bool × S
succeeded (r, s) = (is_ok r, s)

module _ {S : Type 0} (db : Store S) where
  -- Only if the database took the record is the spawn counted, with the result dropped.
  abbrev pub counted : Time → SandboxRecord → Result (Unit {0}) × S → Result SandboxRecord × S
  counted now rec (ok u, s) = (ok rec, (db.increment_template_spawn_count now rec.template_id s).1)
  counted now rec (err e, s) = (err e, s)

  unfoldable pub create_sandbox :
      String
      → String
      → Time
      → Time
      → NewSandbox
      → TemplateRecord
      → String
      → S
      → Result SandboxRecord × S
  create_sandbox id token now counted_at req t domain s =
      let rec = new_record id token now req t domain in
      counted counted_at rec (db.create_sandbox (sandbox_to_db rec) s)

  unfoldable pub get_sandbox : String → S → Option SandboxRecord
  get_sandbox id s = convert sandbox_from_db (found (db.get_sandbox id s))

  unfoldable pub list_sandboxes :
      Order → Order → GoMap String String → List String → S → List SandboxRecord
  list_sandboxes o om metadata states s = map sandbox_from_db (
      listed (
        db.list_sandboxes o om
          (some (record { metadata = metadata; states = states; team_id = none; node_id = none }))
          s))

  unfoldable pub delete_sandbox : String → S → Bool × S
  delete_sandbox id s = succeeded (db.delete_sandbox id s)

  unfoldable pub update_sandbox_timeout : Time → String → ℕ → S → Bool × S
  update_sandbox_timeout now id timeout s = succeeded (
      db.update_sandbox id
        (record { state = none; end_at = some (Time.add now (seconds timeout)); node_id = none }) s)

  unfoldable pub update_sandbox_state : String → String → S → Bool × S
  update_sandbox_state id state s =
      succeeded
        (db.update_sandbox id (record { state = some state; end_at = none; node_id = none }) s)
