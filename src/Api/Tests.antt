-- ===== src/Api/Tests.antt =====
-- The theorems of the handlers on a store in memory with a template and a sandbox.
use open_e2b.Prelude.{ℕ, ◌≡◌, refl, String, List, [], ◌∷◌, none, some, arith, ◌⊎◌, string_eq}
use mathlib.Core.Option.{some-injective}
use open_e2b.Prelude.Int.{pos}
use open_e2b.Prelude.GoMap.{get}
use open_e2b.Prelude.Time
use open_e2b.Prelude.Time.{seconds}
use open_e2b.Db.Types
use open_e2b.Db.Memory.{MemoryStore}
use open_e2b.Db.Examples.{row_in, store_of}
use open_e2b.Db.Memory.Implements.{memory_db, memory_rows, memory-IsTable}
use open_e2b.Scheduler.Types.{Sandbox, Scheduler, running}
use open_e2b.Scheduler.Examples.{thousandths, one_node, spec}
use open_e2b.Api.Convert.{sandbox_from_db, to_sandbox}
use open_e2b.Api.Models.{NewSandbox}
use open_e2b.Api.Store.{state_running, state_paused}
use open_e2b.Api.Handlers.{Server, answer, sandbox}
use open_e2b.Api.Handlers.Create.{Run, create_sandbox}
use open_e2b.Api.Handlers.Methods.{connect_sandbox}
use open_e2b.Api.Handlers.Agreement.{InStep}
use open_e2b.Api.Handlers.InStep.{
  Request, pauses, resumes, deletes, serve, serve-InStep, connect-only_store,
}
use open_e2b.Api.Handlers.Rollback.{Refused, Placed, create-both_or_neither}

abbrev held : Scheduler ℕ
held = record one_node {
  sandboxes =
      (
        "s1",
        record {
          spec = spec;
          status = record {
            state = running;
            node_id = "n1";
            host_port = 8080;
            envd_port = 49983;
            started_at = pos 0;
            expires_at = pos 60000000000;
            error_reason = "";
          };
        },
      )
      ∷ [];
}

abbrev server : Server MemoryStore ℕ
server = record { store = store_of (("s1", row_in state_running) ∷ []); scheduler = some held }

row_running :
    (id : String) (sb : Types.Sandbox)
    → memory_rows server.store id ≡ some sb
    → sb.state ≡ state_running
unfolding get
row_running id sb h = ground arith

entry_running :
    (id : String) (x : Sandbox) → get held.sandboxes id ≡ some x → x.status.state ≡ running
unfolding get
entry_running id x h = ground arith

server-InStep : InStep memory_rows server
server-InStep s e id sb x h k =
    let same : held ≡ s = some-injective held s e in
    rw (row_running id sb h, entry_running id x (rw (← same) at k)) refl

abbrev requests : List Request
requests =
    pauses "s1"
    ∷ resumes (pos 5) "s1" (some (record { timeout = some 30; auto_pause = none }))
    ∷ deletes "s1"
    ∷ []

serve-InStep_example : InStep memory_rows (serve memory_db requests server)
serve-InStep_example =
    serve-InStep memory_db memory_rows memory-IsTable requests server server-InStep

abbrev paused_server : Server MemoryStore ℕ
paused_server = record {
  store = store_of (("s1", row_in state_paused) ∷ []);
  scheduler = some held;
}

paused_row : memory_rows paused_server.store "s1" ≡ some (row_in state_paused)
unfolding get
paused_row = refl

connect-only_store_example :
    let (a, v') =
      connect_sandbox memory_db (pos 5) "s1" (some (record { timeout = 30 })) paused_server in
    let row = record (row_in state_paused) {
      state = state_running;
      end_at = Time.add (pos 5) (seconds 30);
    } in
    (a ≡ answer 201 (sandbox (to_sandbox (sandbox_from_db row))))
    × (memory_rows v'.store "s1" ≡ some row)
    × (v'.scheduler ≡ some held)
connect-only_store_example =
    connect-only_store memory_db memory_rows memory-IsTable paused_server (pos 5) "s1"
      (record { timeout = 30 }) (row_in state_paused) paused_row refl

abbrev new_run : Run
new_run = record {
  id = "s2";
  token = "t2";
  now = pos 10;
  counted_at = pos 11;
  scheduled_at = pos 12;
  expires_from = pos 13;
  template_order = [];
  node_order = [];
}

abbrev request : NewSandbox
request = record {
  template_id = "py";
  timeout = none;
  auto_pause = none;
  secure = none;
  allow_internet_access = none;
  network = none;
  metadata = [];
  env_vars = [];
}

unused_id : memory_rows server.store "s2" ≡ none
unfolding get
unused_id = refl

create-both_or_neither_example :
    let z = create_sandbox memory_db thousandths "e2b.local" new_run (some request) server in
    Refused memory_db memory_rows memory-IsTable thousandths "e2b.local" new_run server z
    ⊎ Placed memory_db memory_rows memory-IsTable thousandths "e2b.local" new_run server request z
create-both_or_neither_example =
    create-both_or_neither memory_db memory_rows memory-IsTable thousandths "e2b.local" new_run
      server request unused_id
