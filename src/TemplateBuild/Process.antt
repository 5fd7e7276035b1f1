-- ===== src/TemplateBuild/Process.antt =====
-- internal/templatebuild/service.go: `failBuild` and `processBuild`, over any store. `processBuild`
-- is cut where it sets its deferred call, which removes the container.
pub mod Keeps
pub mod Steps
pub mod Artifacts
pub mod Image
pub mod Laws
pub mod Rows
use open_e2b.Prelude.{
  ℕ, String, Bool, true, false, List, [], ◌∷◌, Option, none, some, ◌==◌, string_eq, if◌then◌else◌,
}
use Prim.Native.String.{◌++◌ as ◌<>◌}
use open_e2b.Prelude.Time.{Time}
use open_e2b.Prelude.Action.{Outcome, done, failed, Action, return, raise, ◌>>=◌, ◌>>◌, Output}
use open_e2b.Db.Types.{BuildUpdate, TemplateUpdate}
use open_e2b.Db.Store.{Store}
use open_e2b.TemplateBuild.Types.{
  BuildStatus, ready, error, status_name, info, Step, Config, Build, Machine,
}
use open_e2b.TemplateBuild.Log.{Job, add_log, to_db_log_entries, log, command}
use open_e2b.TemplateBuild.Steps.{base_image, execute_steps, start_command}
use open_e2b.TemplateBuild.Artifacts.{export_artifacts}

-- What the two ends of a build write to its row.
unfoldable pub final_update : Build → Option String → BuildUpdate
final_update b envd = record {
  status = some (status_name b.status);
  finished_at = b.finished_at;
  logs = some b.logs;
  log_entries = some (to_db_log_entries b.log_entries);
  disk_size_mb = none;
  envd_version = envd;
}

abbrev template_update : BuildStatus → Option String → TemplateUpdate
template_update st id = record {
  public = none;
  build_status = some (status_name st);
  build_id = id;
}

-- A build, the machine and the store.
pub record Shop (W S : Type 0) : Type 0 where
  pub job : Job W
  pub store : S

module _ {W S : Type 0} (m : Machine W) (db : Store S) where
  -- The two writes; each reads the clock, and its error is not looked at.
  unfoldable pub save : Option String → Option String → Job W → S → Shop W S
  save envd id j s =
      let (t, w) = m.now j.world in
      let (u, w') = m.now w in
      record {
        job = record j { world = w' };
        store =
            (db.update_template u j.build.template_id (template_update j.build.status id)
              (db.update_build t j.build.id (final_update j.build envd) s).1).1;
      }

  unfoldable pub fail_build : String → Shop W S → Shop W S
  fail_build e sh =
      let (now, w) = m.now sh.job.world in
      let b = record sh.job.build { status = error; error = some e; finished_at = some now } in
      let (r, job) = log m error ("Build failed: " <> e) none (record { build = b; world = w }) in
      save none none job sh.store

  unfoldable pub complete_build : Shop W S → Shop W S
  complete_build sh =
      let (now, w) = m.now sh.job.world in
      let b = record sh.job.build { status = ready; finished_at = some now } in
      save (some "0.1.0") (some b.id) (record { build = b; world = w }) sh.store

module _ {W : Type 0} (m : Machine W) where
  abbrev pub log_template : Option Config → Action (Job W) (Unit {0})
  log_template none = return tt
  log_template (some c) =
      if c.from_image == ""
      then (if c.from_template == ""
          then return tt
          else log m info ("Using base template: " <> c.from_template) none)
      else return tt

  abbrev pub or_raise : String → String → Option String → Action (Job W) (Unit {0})
  or_raise what output none = return tt
  or_raise what output (some e) = raise (what <> ": " <> output <> ": " <> e)

  unfoldable pub start_sandbox : String → Build → Action (Job W) (Unit {0})
  start_sandbox sandbox b = do
    log m info "Build started" none
    log_template b.config
    log m info ("Using base image: " <> base_image b.config) none
    log m info ("Creating build sandbox: " <> sandbox) none
    out ←
        command m "docker"
          ("run" ∷ "-d" ∷ "--name" ∷ sandbox ∷ base_image b.config ∷ "sleep" ∷ "infinity" ∷ [])
    or_raise "failed to start sandbox" out.text out.error

  abbrev pub follow : String → Option Config → Action (Job W) (Unit {0})
  follow sandbox none = return tt
  follow sandbox (some c) =
      execute_steps m sandbox 1 c.steps >>= λ u. start_command m sandbox c.start_cmd

  unfoldable pub build_image : String → String → Build → Action (Job W) (Unit {0})
  build_image artifacts sandbox b = do
    let image = "e2b/" <> b.template_id <> ":" <> b.id
    log m info "Sandbox started" none
    follow sandbox b.config
    log m info "Committing container as template image..." none
    out ← command m "docker" ("commit" ∷ sandbox ∷ image ∷ [])
    or_raise "failed to commit container" out.text out.error
    log m info ("Created image: " <> image) none
    export_artifacts m
        (m.join
          ((if artifacts == "" then "data/artifacts" else artifacts) ∷ b.template_id ∷ b.id ∷ []))
        sandbox image (base_image b.config)
    log m info "Build completed successfully" none

module _ {W S : Type 0} (m : Machine W) (db : Store S) where
  abbrev pub finish : S → Outcome (Unit {0}) × Job W → Shop W S
  finish s (failed e, j) = fail_build m db e (record { job = j; store = s })
  finish s (done u, j) = complete_build m db (record { job = j; store = s })

  -- The deferred call of `processBuild`.
  unfoldable pub remove_container : String → Shop W S → Shop W S
  remove_container sandbox sh = record sh {
    job = record sh.job { world = (m.run "docker" ("rm" ∷ "-f" ∷ sandbox ∷ []) sh.job.world).1 };
  }

  abbrev pub build_in : String → String → Build → S → Outcome (Unit {0}) × Job W → Shop W S
  build_in artifacts sandbox b s (failed e, j) = fail_build m db e (record { job = j; store = s })
  build_in artifacts sandbox b s (done u, j) =
      remove_container sandbox (finish s (build_image m artifacts sandbox b j))

  unfoldable pub process_build : String → Shop W S → Shop W S
  process_build artifacts sh =
      let b = sh.job.build in
      let sandbox = "build-" <> b.id in
      build_in artifacts sandbox b sh.store (start_sandbox m sandbox b sh.job)
