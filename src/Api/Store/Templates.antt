-- ===== src/Api/Store/Templates.antt =====
-- internal/api/store.go: the methods of `Store` on templates and builds.
use open_e2b.Prelude.{ℕ, String, Bool, false, List, [], ◌∷◌, Option, none, some, map, or_default}
use open_e2b.Prelude.GoMap.Range.{Order}
use open_e2b.Prelude.Time.{Time}
use open_e2b.Db.Types
use open_e2b.Db.Types.{Result, ok, err}
use open_e2b.Db.Store.{Store}
use open_e2b.Api.Models.{TemplateBuildRequestV3, TemplateUpdateRequest}
use open_e2b.Api.Records.{TemplateRecord, BuildRecord}
use open_e2b.Api.Convert.{template_to_db, template_from_db, build_from_db}
use open_e2b.Api.Store.{found, listed, convert, succeeded}

abbrev pub waiting : String
waiting = "waiting"

unfoldable pub new_template : String → String → Time → TemplateBuildRequestV3 → TemplateRecord
new_template id build_id now req = record {
  template_id = id;
  build_id = build_id;
  cpu_count = or_default 1 req.cpu_count;
  memory_mb = or_default 512 req.memory_mb;
  disk_size_mb = 512;
  public = false;
  aliases = req.alias ∷ [];
  created_at = now;
  updated_at = now;
  created_by = none;
  last_spawned_at = none;
  spawn_count = 0;
  build_count = 1;
  envd_version = "0.1.0";
  build_status = waiting;
  team_id = or_default "" req.team_id;
}

-- The build, as `CreateTemplate` and `CreateBuild` hand it to the database.
unfoldable pub new_build : String → String → Time → ℕ → ℕ → Types.Build
new_build id template_id now cpu memory = record {
  build_id = id;
  template_id = template_id;
  status = waiting;
  created_at = now;
  updated_at = now;
  finished_at = none;
  cpu_count = cpu;
  memory_mb = memory;
  disk_size_mb = none;
  envd_version = none;
  logs = [];
  log_entries = [];
}

-- The error carries the ID of the template: "template not found: %s".
pub data CreateBuild : Type 0 where
  made : BuildRecord → CreateBuild
  template_not_found : String → CreateBuild
  failed : String → CreateBuild

module _ {S : Type 0} where
  abbrev build_answer : BuildRecord → Result (Unit {0}) × S → CreateBuild × S
  build_answer rec (ok u, s) = (made rec, s)
  build_answer rec (err e, s) = (failed e, s)

  abbrev created {ℓ} : {A : Type ℓ} → A → Result (Unit {0}) × S → Result A × S
  created a (ok u, s) = (ok a, s)
  created a (err e, s) = (err e, s)

module _ {S : Type 0} (db : Store S) where
  unfoldable pub create_template :
      String
      → String
      → Time
      → TemplateBuildRequestV3
      → S
      → Result (TemplateRecord × BuildRecord) × S
  create_template id build_id now req s =
      let t = new_template id build_id now req in
      let b = new_build build_id id now t.cpu_count t.memory_mb in
      created (t, build_from_db b) (db.create_template (template_to_db t) (some b) s)

  unfoldable pub get_template : Order → String → S → Option TemplateRecord
  get_template o name s = convert template_from_db (found (db.get_template o name s))

  unfoldable pub list_templates : Order → Option String → S → List TemplateRecord
  list_templates o team s = map template_from_db (listed (db.list_templates o team s))

  unfoldable pub delete_template : String → S → Bool × S
  delete_template id s = succeeded (db.delete_template id s)

  unfoldable pub update_template : Time → String → TemplateUpdateRequest → S → Bool × S
  update_template now id req s = succeeded (
      db.update_template now id
        (record { public = req.public; build_status = none; build_id = none }) s)

  unfoldable pub get_build : String → S → Option BuildRecord
  get_build id s = convert build_from_db (found (db.get_build id s))

  -- The build gets the name it was asked under, which may be an alias of the template.
  unfoldable pub create_build : Order → String → Time → Time → String → ℕ → ℕ → S → CreateBuild × S
  create_build o id now counted_at template_id cpu memory s =
      let b = new_build id template_id now cpu memory in
      elim (found (db.get_template o template_id s)) [
        | none ↦ (template_not_found template_id, s)
        | some t ↦ build_answer (build_from_db b) (db.create_build counted_at b s)
      ]

  unfoldable pub update_build_status : Time → String → String → S → Bool × S
  update_build_status now id status s = succeeded (
      db.update_build now id
        (record {
          status = some status;
          finished_at = none;
          logs = none;
          log_entries = none;
          disk_size_mb = none;
          envd_version = none;
        })
        s)

  unfoldable pub get_builds_for_template : Order → String → S → List BuildRecord
  get_builds_for_template o id s = map build_from_db (listed (db.list_builds_for_template o id s))
