-- ===== src/Api/Handlers/Templates.antt =====
-- internal/api/template.go: the handlers of templates and builds. What was in the path and the query
-- is an argument, and so is what a body decoded to, with none where it did not. The build service is
-- asked in a goroutine of its own: `spawned` holds the calls that are still to be made.
pub mod Poll
pub mod Flow
pub mod Build
mod Tests
use open_e2b.Prelude.{
  ℕ, zero, suc, String, Bool, true, false, not, ◌&&◌, ◌==◌, string_eq, List, [], ◌∷◌, ◌++◌, Option,
  none, some, map, or_default, length, is_some, if◌then◌else◌,
}
use open_e2b.Prelude.Word.{slt64}
use open_e2b.Prelude.GoMap.Range.{Order}
use open_e2b.Prelude.Time.{Time}
use open_e2b.Db.Types.{Result, ok, err}
use open_e2b.Db.Store.{Store}
use open_e2b.TemplateBuild.Types.{Step, Config}
use open_e2b.Api.Models.{TemplateBuildRequestV3, TemplateUpdateRequest, BuildLogEntry}
use open_e2b.Api.Records.{TemplateRecord, BuildRecord}
use open_e2b.Api.Bodies.{
  Template, TemplateBuild, TemplateWithBuilds, TemplateRequestResponseV3, TemplateBuildFileUpload,
  TemplateStep, FromImageRegistry, TemplateBuildStartV2, TemplateBuildInfo,
}
use open_e2b.Api.Store.Templates
use open_e2b.Api.Store.Templates.{waiting}

pub data Body : Type 0 where
  empty : Body
  error : String → Body
  templates : List Template → Body
  requested : TemplateRequestResponseV3 → Body
  upload : TemplateBuildFileUpload → Body
  info : TemplateBuildInfo → Body
  with_builds : TemplateWithBuilds → Body

pub record Answer : Type 0 where
  pub code : ℕ
  pub body : Body

abbrev pub fail : ℕ → String → Answer
fail code message = record { code = code; body = error message }

-- A call of `StartBuild` that a goroutine makes.
pub record Start : Type 0 where
  pub template_id : String
  pub build_id : String
  pub config : Config

-- `has_service` tells whether there is a build service.
pub record Server (S : Type 0) : Type 0 where
  pub store : S
  pub has_service : Bool
  pub spawned : List Start

unfoldable pub to_template : TemplateRecord → Template
to_template rec = record {
  template_id = rec.template_id;
  build_id = rec.build_id;
  cpu_count = rec.cpu_count;
  memory_mb = rec.memory_mb;
  disk_size_mb = rec.disk_size_mb;
  public = rec.public;
  aliases = rec.aliases;
  created_at = rec.created_at;
  updated_at = rec.updated_at;
  created_by = rec.created_by;
  last_spawned_at = rec.last_spawned_at;
  spawn_count = rec.spawn_count;
  build_count = rec.build_count;
  envd_version = rec.envd_version;
  build_status = rec.build_status;
}

unfoldable pub to_build : BuildRecord → TemplateBuild
to_build rec = record {
  build_id = rec.build_id;
  status = rec.status;
  created_at = rec.created_at;
  updated_at = rec.updated_at;
  finished_at = rec.finished_at;
  cpu_count = rec.cpu_count;
  memory_mb = rec.memory_mb;
  disk_size_mb = rec.disk_size_mb;
  envd_version = rec.envd_version;
}

abbrev step_of : TemplateStep → Step
step_of s = record {
  kind = s.kind;
  args = s.args;
  files_hash = or_default "" s.files_hash;
  force = or_default false s.force;
}

abbrev from_registry : (FromImageRegistry → String) → Option FromImageRegistry → String
from_registry f none = ""
from_registry f (some r) = f r

unfoldable pub config_of : TemplateBuildStartV2 → Config
config_of req = record {
  from_image = or_default "" req.from_image;
  from_template = or_default "" req.from_template;
  registry_url = from_registry (λ r. r.url) req.from_image_registry;
  registry_username = from_registry (λ r. or_default "" r.username) req.from_image_registry;
  registry_password = from_registry (λ r. or_default "" r.password) req.from_image_registry;
  steps = map step_of req.steps;
  start_cmd = or_default "" req.start_cmd;
  ready_cmd = or_default "" req.ready_cmd;
  force = or_default false req.force;
}

-- xs[n:]
abbrev pub skip {ℓ} : {A : Type ℓ} → ℕ → List A → List A
skip zero xs = xs
skip (suc n) [] = []
skip (suc n) (x ∷ xs) = skip n xs

-- The entries from an offset on; an offset that is not positive leaves all of them.
unfoldable pub entries_from : ℕ → List BuildLogEntry → List BuildLogEntry
entries_from offset entries =
    if slt64 0 offset && slt64 offset (length entries)
    then skip offset entries
    else if not (slt64 offset (length entries))
    then []
    else entries

module _ {S : Type 0} (db : Store S) where
  unfoldable pub list_templates : Order → String → Server S → Answer × Server S
  list_templates o team v = (
    record {
      code = 200;
      body = templates (
          map to_template
            (Templates.list_templates db o (if team == "" then none else some team) v.store));
    },
    v,
  )

  abbrev created : Server S → Result (TemplateRecord × BuildRecord) × S → Answer × Server S
  created v (err e, s) = (fail 500 e, record v { store = s })
  created v (ok (t, b), s) = (
    record {
      code = 202;
      body = requested (record {
        template_id = t.template_id;
        build_id = b.build_id;
        public = t.public;
        aliases = t.aliases;
      });
    },
    record v { store = s },
  )

  -- `id` and `build_id` are the new IDs.
  unfoldable pub create_template_v3 :
      String → String → Time → Option TemplateBuildRequestV3 → Server S → Answer × Server S
  create_template_v3 id build_id now none v = (fail 400 "Invalid request body", v)
  create_template_v3 id build_id now (some req) v =
      if req.alias == ""
      then (fail 400 "alias is required", v)
      else created v (Templates.create_template db id build_id now req v.store)

  abbrev upload_answer : Result (String × Bool) → Answer
  upload_answer (err e) = fail 500 e
  upload_answer (ok (url, present)) = record {
    code = 201;
    body = upload (record {
      present = present;
      url = if not present && not (url == "") then some url else none;
    });
  }

  abbrev upload_to : Option (String → String → Result (String × Bool)) → String → String → Answer
  upload_to none id hash = record {
    code = 201;
    body = upload (record { present = true; url = none });
  }
  upload_to (some get_upload_url) id hash = upload_answer (get_upload_url id hash)

  -- The storage of files is an interface that nothing implements; it may be nil.
  unfoldable pub get_file_upload_link :
      Option (String → String → Result (String × Bool))
      → Order
      → String
      → String
      → Server S
      → Answer × Server S
  get_file_upload_link storage o id hash v = elim (Templates.get_template db o id v.store) [
    | none ↦ (fail 404 "Template not found", v)
    | some t ↦ (upload_to storage id hash, v)
  ]

  abbrev spawn : Start → Server S → Server S
  spawn call v = if v.has_service then record v { spawned = v.spawned ++ call ∷ [] } else v

  abbrev transitioned : Start → Server S → Bool × S → Answer × Server S
  transitioned call v (true, s) =
      (record { code = 202; body = empty }, spawn call (record v { store = s }))
  transitioned call v (false, s) =
      (fail 500 "Failed to update build status", record v { store = s })

  abbrev start_found :
      Time
      → String
      → TemplateBuildStartV2
      → Server S
      → Option TemplateRecord
      → Option BuildRecord
      → Answer × Server S
  start_found now id req v none b = (fail 404 "Template not found", v)
  start_found now id req v (some t) none = (fail 404 "Build not found", v)
  start_found now id req v (some t) (some b) =
      if b.status == waiting
      then transitioned
          (record { template_id = t.template_id; build_id = id; config = config_of req }) v
          (Templates.update_build_status db now id "building" v.store)
      else (fail 409 "Build is not in waiting state", v)

  unfoldable pub start_build_v2 :
      Order → Time → String → String → Option TemplateBuildStartV2 → Server S → Answer × Server S
  start_build_v2 o now template id none v = (fail 400 "Invalid request body", v)
  start_build_v2 o now template id (some req) v =
      start_found now id req v (Templates.get_template db o template v.store)
        (Templates.get_build db id v.store)

  abbrev status_found : String → String → ℕ → Option TemplateRecord → Option BuildRecord → Answer
  status_found template id offset none b = fail 404 "Template not found"
  status_found template id offset (some t) none = fail 404 "Build not found"
  status_found template id offset (some t) (some b) = record {
    code = 200;
    body = info (record {
      logs = b.logs;
      log_entries = entries_from offset b.log_entries;
      template_id = template;
      build_id = id;
      status = b.status;
    });
  }

  -- The offset is 0 where the query has none that is a number.
  unfoldable pub get_build_status : Order → String → String → ℕ → Server S → Answer × Server S
  get_build_status o template id offset v = (
    status_found template id offset (Templates.get_template db o template v.store)
        (Templates.get_build db id v.store),
    v,
  )

  unfoldable pub get_template : Order → Order → String → Server S → Answer × Server S
  get_template o o' id v = elim (Templates.get_template db o id v.store) [
    | none ↦ (fail 404 "Template not found", v)
    | some t ↦ (
      record {
        code = 200;
        body = with_builds (record {
          template_id = t.template_id;
          public = t.public;
          aliases = t.aliases;
          created_at = t.created_at;
          updated_at = t.updated_at;
          last_spawned_at = t.last_spawned_at;
          spawn_count = t.spawn_count;
          builds = map to_build (Templates.get_builds_for_template db o' t.template_id v.store);
        });
      },
      v,
    )
  ]

  abbrev written : ℕ → Server S → Bool × S → Answer × Server S
  written code v (true, s) = (record { code = code; body = empty }, record v { store = s })
  written code v (false, s) = (fail 404 "Template not found", record v { store = s })

  unfoldable pub delete_template : String → Server S → Answer × Server S
  delete_template id v = written 204 v (Templates.delete_template db id v.store)

  unfoldable pub update_template :
      Time → String → Option TemplateUpdateRequest → Server S → Answer × Server S
  update_template now id none v = (fail 400 "Invalid request body", v)
  update_template now id (some req) v =
      written 200 v (Templates.update_template db now id req v.store)
