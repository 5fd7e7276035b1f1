-- ===== src/TemplateBuild/Process/Rows.antt =====
-- `processBuild` of internal/templatebuild/service.go on the store of internal/db/memory.go.
use open_e2b.Prelude.{String, ◌≡◌, refl, ap, ◌∙◌, Option, none, some, string_eq, arith}
use Prim.Native.String.{◌++◌ as ◌<>◌}
use open_e2b.Prelude.GoMap.{get, get-put_self}
use open_e2b.Prelude.Time.{Time}
use open_e2b.Prelude.Action.{Outcome, done, failed}
use open_e2b.Db.Types
use open_e2b.Db.Types.{TemplateUpdate}
use open_e2b.Db.Memory.{MemoryStore}
use open_e2b.Db.Memory.Implements.{memory_db}
use open_e2b.Db.Memory.Builds.{update_build, apply_build}
use open_e2b.Db.Memory.Templates.{update_template}
use open_e2b.TemplateBuild.Types.{status_name, Build, Machine}
use open_e2b.TemplateBuild.Log
use open_e2b.TemplateBuild.Log.{Job, log, to_db_log_entries}
use open_e2b.TemplateBuild.Process
use open_e2b.TemplateBuild.Process.{
  Shop, final_update, save, fail_build, complete_build, start_sandbox, build_image,
  remove_container, process_build,
}
use open_e2b.TemplateBuild.Process.Image.{start_sandbox-Keeps, build_image-Keeps}

-- The row says what the build says.
pub record Tells (row : Types.Build) (b : Build) : Type 0 where
  pub status : row.status ≡ status_name b.status
  pub finished_at : row.finished_at ≡ b.finished_at
  pub logs : row.logs ≡ b.logs
  pub log_entries : row.log_entries ≡ to_db_log_entries b.log_entries

abbrev pub IsRecorded : {W : Type 0} → Shop W MemoryStore → Type 0
IsRecorded sh =
    (row : Types.Build) × (get sh.store.builds sh.job.build.id ≡ some row) × Tells row sh.job.build

update_template-builds :
    (now : Time) (id : String) (u : TemplateUpdate) (s : MemoryStore)
    → (update_template now id u s).1.builds ≡ s.builds
unfolding update_template get
update_template-builds now id u s = ground arith

update_build-found :
    (now : Time) (id : String) (u : _) (s : MemoryStore) (row : Types.Build)
    → get s.builds id ≡ some row
    → get (update_build now id u s).1.builds id ≡ some (apply_build now u row)
unfolding update_build
update_build-found now id u s row e =
    rw (e, update_build) (get-put_self s.builds id (apply_build now u row))

module _ {W : Type 0} (m : Machine W) where
  save-IsRecorded :
      (envd id : Option String) (j : Job W) (s : MemoryStore) (row : Types.Build) (t : Time)
      → get s.builds j.build.id ≡ some row
      → j.build.finished_at ≡ some t
      → IsRecorded (save m memory_db envd id j s)
  unfolding save apply_build final_update
  save-IsRecorded envd id j s row t e f =
      let (now, w) = m.now j.world in
      let u = final_update j.build envd in
      (
        apply_build now u row,
        ap (λ b. get b j.build.id) (update_template-builds _ _ _ _)
            ∙ update_build-found now j.build.id u s row e,
        record { status = refl; finished_at = rw f refl; logs = refl; log_entries = refl },
      )

  fail-IsRecorded :
      (e : String) (sh : Shop W MemoryStore) (row : Types.Build)
      → get sh.store.builds sh.job.build.id ≡ some row
      → IsRecorded (fail_build m memory_db e sh)
  unfolding fail_build log Log.add_log
  fail-IsRecorded e sh row h = save-IsRecorded none none _ sh.store row _ h refl

  complete-IsRecorded :
      (sh : Shop W MemoryStore) (row : Types.Build)
      → get sh.store.builds sh.job.build.id ≡ some row
      → IsRecorded (complete_build m memory_db sh)
  unfolding complete_build
  complete-IsRecorded sh row h = save-IsRecorded (some "0.1.0") _ _ sh.store row _ h refl

  finish-IsRecorded :
      (s : MemoryStore) (x : Outcome (Unit {0}) × Job W) (row : Types.Build)
      → get s.builds x.1.build.id ≡ some row
      → IsRecorded (Process.finish m memory_db s x)
  finish-IsRecorded s (failed e, j) row h = fail-IsRecorded e (record { job = j; store = s }) row h
  finish-IsRecorded s (done u, j) row h = complete-IsRecorded (record { job = j; store = s }) row h

  build_in-IsRecorded :
      (artifacts sandbox : String) (b : Build) (s : MemoryStore) (x : Outcome (Unit {0}) × Job W)
      (row : Types.Build)
      → get s.builds x.1.build.id ≡ some row
      → IsRecorded (Process.build_in m memory_db artifacts sandbox b s x)
  unfolding remove_container
  build_in-IsRecorded artifacts sandbox b s (failed e, j) row h =
      fail-IsRecorded e (record { job = j; store = s }) row h
  build_in-IsRecorded artifacts sandbox b s (done u, j) row h =
      finish-IsRecorded s (build_image m artifacts sandbox b j) row
        (ap (get s.builds) ((build_image-Keeps m artifacts sandbox b).moved j).id ∙ h)

  -- On the store in memory, where there is a row for the build: after `processBuild` the row has the
  -- status of the build, the time of its end, the lines of its log and the entries of its log.
  pub process_build-IsRecorded :
      (artifacts : String) (sh : Shop W MemoryStore) (row : Types.Build)
      → get sh.store.builds sh.job.build.id ≡ some row
      → IsRecorded (process_build m memory_db artifacts sh)
  unfolding process_build
  process_build-IsRecorded artifacts sh row h =
      let b = sh.job.build in
      build_in-IsRecorded artifacts ("build-" <> b.id) b sh.store
        (start_sandbox m ("build-" <> b.id) b sh.job) row
        (ap (get sh.store.builds) ((start_sandbox-Keeps m ("build-" <> b.id) b).moved sh.job).id
          ∙ h)
