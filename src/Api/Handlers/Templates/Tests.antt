-- ===== src/Api/Handlers/Templates/Tests.antt =====
-- The theorems of the template handlers on one template with one build.
use open_e2b.Prelude.{true, ◌≡◌, ◌≢◌, refl, [], ◌∷◌, ◌++◌, none, some, string_eq, arith, length}
use open_e2b.Prelude.Int.{pos}
use open_e2b.Prelude.GoMap.{get, put}
use open_e2b.Db.Types
use open_e2b.Db.Memory.{MemoryStore}
use open_e2b.Db.Memory.Implements.{memory_db}
use open_e2b.Db.Memory.Builds
use open_e2b.Db.Memory.Templates as Tables
use open_e2b.TemplateBuild.Examples.{machine, row, template, store}
use open_e2b.TemplateBuild.Service.{Service, new_service, new_build}
use open_e2b.TemplateBuild.Service.Worker.{Finished}
use open_e2b.Api.Models.{BuildLogEntry}
use open_e2b.Api.Bodies.{TemplateBuildStartV2}
use open_e2b.Api.Convert.{build_from_db, template_from_db}
use open_e2b.Api.Store.Templates as Layer
use open_e2b.Api.Handlers.Templates.{
  Server, Start, info, config_of, start_build_v2, get_build_status,
}
use open_e2b.Api.Handlers.Templates.Poll.{get_build_status-rest}
use open_e2b.Api.Handlers.Templates.Flow.{start_build_v2-once}
use open_e2b.Api.Handlers.Templates.Build.{served, accepted_build_finishes}

abbrev request : TemplateBuildStartV2
request = record {
  from_image = some "debian:12";
  from_template = none;
  from_image_registry = none;
  force = none;
  steps = [];
  start_cmd = none;
  ready_cmd = none;
}

abbrev server : Server MemoryStore
server = record { store = store; has_service = true; spawned = [] }

accepted_202 : (start_build_v2 memory_db [] (pos 7) "t1" "b1" (some request) server).0.code ≡ 202
unfolding start_build_v2 Layer.get_template Layer.get_build Layer.update_build_status
    Tables.get_template Builds.get_build Builds.update_build Builds.apply_build build_from_db
    template_from_db get put
accepted_202 = refl

start_build_v2-once_example :
    (start_build_v2 memory_db []
      (pos 9)
      "t1"
      "b1"
      (some request)
      (start_build_v2 memory_db [] (pos 7) "t1" "b1" (some request) server).1).0.code
    ≢ 202
start_build_v2-once_example =
    start_build_v2-once [] [] (pos 7) (pos 9) "t1" "t1" "b1" request request server accepted_202

abbrev service : Service
service = new_service "example.com" "" 2

abbrev call : Start
call = record { template_id = "t1"; build_id = "b1"; config = config_of request }

has_template : get server.store.templates "t1" ≡ some template
unfolding get
has_template = refl

accepted_build_finishes_example :
    ((start_build_v2 memory_db [] (pos 7) "t1" "b1" (some request) server).1.spawned
      ≡ server.spawned ++ call ∷ [])
    × (r : Types.Build) × Finished
        (served machine []
          (pos 8)
          (pos 9)
          (pos 10)
          call
          service
          (start_build_v2 memory_db [] (pos 7) "t1" "b1" (some request) server).1.store
          0).0
        (served machine []
          (pos 8)
          (pos 9)
          (pos 10)
          call
          service
          (start_build_v2 memory_db [] (pos 7) "t1" "b1" (some request) server).1.store
          0).2
        "b1"
        (new_build (pos 8) "t1" "b1" (some (config_of request)) r)
unfolding new_service
accepted_build_finishes_example =
    accepted_build_finishes machine [] [] (pos 7) (pos 8) (pos 9) (pos 10) "t1" "b1" request server
      service 0 template refl has_template refl refl accepted_202

abbrev entry : Types.LogEntry
entry = record { timestamp = pos 8; message = "Build started"; level = "info"; step = none }

abbrev logged : Types.Build
logged = record row {
  logs = "Build started" ∷ "Sandbox started" ∷ [];
  log_entries = entry ∷ record entry { message = "Sandbox started" } ∷ [];
}

abbrev polled : Server MemoryStore
polled = record server { store = record store { builds = ("b1", logged) ∷ [] } }

abbrev seen : BuildLogEntry
seen = record { timestamp = pos 8; message = "Build started"; level = "info"; step = none }

get_build_status-rest_example :
    get_build_status memory_db [] "t1" "b1" (length (seen ∷ [])) polled ≡ (
      record {
        code = 200;
        body = info (record {
          logs = logged.logs;
          log_entries = record seen { message = "Sandbox started" } ∷ [];
          template_id = "t1";
          build_id = "b1";
          status = logged.status;
        });
      },
      polled,
    )
unfolding get Tables.get_template build_from_db
get_build_status-rest_example =
    get_build_status-rest [] "t1" "b1" polled template logged (seen ∷ [])
      (record seen { message = "Sandbox started" } ∷ []) refl refl refl (ground arith)
