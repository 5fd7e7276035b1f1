-- ===== src/Api/Handlers/Create.antt =====
-- internal/api/sandbox.go: `CreateSandbox`.
use open_e2b.Prelude.{String, false, Option, none, some, or_default, ◌==◌, string_eq, if◌then◌else◌}
use open_e2b.Prelude.GoMap.Range.{Order}
use open_e2b.Prelude.Time.{Time, seconds}
use open_e2b.Db.Types.{Result, ok, err}
use open_e2b.Db.Store.{Store}
use open_e2b.Scheduler.Types
use open_e2b.Scheduler.Types.{Scheduler, SandboxSpec}
use open_e2b.Scheduler.Select.{Float64}
use open_e2b.Scheduler.Ops
use open_e2b.Api.Models.{NewSandbox}
use open_e2b.Api.Records.{SandboxRecord, TemplateRecord}
use open_e2b.Api.Convert.{to_sandbox}
use open_e2b.Api
use open_e2b.Api.Store.{state_running, state_paused}
use open_e2b.Api.Store.Templates
use open_e2b.Api.Handlers.{
  text, wrapped, sandbox, Answer, answer, fail, bad_body, Server, ask_scheduler, on_store,
}

-- The specification that `CreateSandbox` hands to the scheduler; the default timeout is 300 seconds.
unfoldable pub spec_of : NewSandbox → TemplateRecord → SandboxRecord → SandboxSpec
spec_of req t rec = record {
  id = rec.sandbox_id;
  template_id = rec.template_id;
  build_id = t.build_id;
  cpu_count = rec.cpu_count;
  memory_mb = rec.memory_mb;
  disk_size_mb = rec.disk_size_mb;
  env_vars = req.env_vars;
  metadata = req.metadata;
  timeout = seconds (or_default 300 req.timeout);
  auto_pause = or_default false req.auto_pause;
  envd_token = rec.envd_access_token;
  network_config = none;
}

-- What a run of `CreateSandbox` reads besides its request: new IDs, the clock at each reading of it,
-- and the orders of the loops over maps.
pub record Run : Type 0 where
  pub id : String
  pub token : String
  pub now : Time
  pub counted_at : Time
  pub scheduled_at : Time
  pub expires_from : Time
  pub template_order : Order
  pub node_order : Order

module _ {S W : Type 0} (db : Store S) where
  unfoldable pub clean_up :
      String → Option Types.Error × Server S W → SandboxRecord → Answer × Server S W
  clean_up id (none, v) rec = (answer 201 (sandbox (to_sandbox rec)), v)
  clean_up id (some e, v) rec = (
    fail 500 (wrapped "Failed to create sandbox: " e),
    on_store (Api.Store.delete_sandbox db id) v,
  )

  unfoldable pub schedule_record :
      Float64
      → Run
      → NewSandbox
      → TemplateRecord
      → Server S W
      → Result SandboxRecord × S
      → Answer × Server S W
  schedule_record fl run req t v (err m, s) = (fail 500 (text m), record v { store = s })
  schedule_record fl run req t v (ok rec, s) =
      clean_up rec.sandbox_id
        (ask_scheduler
          (Ops.schedule fl run.node_order (spec_of req t rec) run.scheduled_at run.expires_from)
          (record v { store = s }))
        rec

  unfoldable pub create_from :
      Float64 → String → Run → NewSandbox → Server S W → Answer × Server S W
  create_from fl domain run req v =
      elim (Templates.get_template db run.template_order req.template_id v.store) [
        | none ↦ (fail 404 (text "Template not found"), v)
        | some t ↦ schedule_record fl run req t v (
            Api.Store.create_sandbox db run.id run.token run.now run.counted_at req t domain
              v.store)
      ]

  unfoldable pub create_sandbox :
      Float64 → String → Run → Option NewSandbox → Server S W → Answer × Server S W
  create_sandbox fl domain run none v = (bad_body, v)
  create_sandbox fl domain run (some req) v =
      if req.template_id == ""
      then (fail 400 (text "templateID is required"), v)
      else create_from fl domain run req v
