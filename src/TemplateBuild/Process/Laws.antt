-- ===== src/TemplateBuild/Process/Laws.antt =====
-- How `processBuild` of internal/templatebuild/service.go ends.
use open_e2b.Prelude.{String, ◌≡◌, refl, ◌⊎◌, inl, inr, [], ◌∷◌, none, some}
use Prim.Native.String.{◌++◌ as ◌<>◌}
use open_e2b.Prelude.Time.{Time}
use open_e2b.Prelude.Action.{Outcome, done, failed}
use open_e2b.Db.Store.{Store}
use open_e2b.TemplateBuild.Types.{ready, error, Build, Machine}
use open_e2b.TemplateBuild.Log
use open_e2b.TemplateBuild.Log.{Job, log}
use open_e2b.TemplateBuild.Process
use open_e2b.TemplateBuild.Process.{
  Shop, save, fail_build, complete_build, start_sandbox, build_image, remove_container,
  process_build,
}
use open_e2b.TemplateBuild.Process.Keeps.{Later, Later-trans, add_log-Later}
use open_e2b.TemplateBuild.Process.Image.{start_sandbox-Keeps, build_image-Keeps}

-- A build that is over: ready, or failed with an error, and with the time of its end.
pub record IsSettled (b : Build) : Type 0 where
  pub over : (b.status ≡ ready) ⊎ ((b.status ≡ error) × (e : String) × (b.error ≡ some e))
  pub time : (t : Time) × (b.finished_at ≡ some t)

-- A build that is over and was `a` before.
abbrev pub Settles : Build → Build → Type 0
Settles a b = Later a b × IsSettled b

module _ {W S : Type 0} (m : Machine W) (db : Store S) where
  fail-Settles :
      (a : Build) (e : String) (sh : Shop W S)
      → Later a sh.job.build
      → Settles a (fail_build m db e sh).job.build
  unfolding fail_build save log Log.add_log
  fail-Settles a e sh h = (
    Later-trans
        (record {
          id = h.id;
          template_id = h.template_id;
          config = h.config;
          more = h.more;
          logs = h.logs;
          aligned = h.aligned;
        })
        (add_log-Later _ error _ none _),
    record { over = inr (refl, e, refl); time = (_, refl) },
  )

  complete-Settles :
      (a : Build) (sh : Shop W S)
      → Later a sh.job.build
      → Settles a (complete_build m db sh).job.build
  unfolding complete_build save
  complete-Settles a sh h = (
    record {
      id = h.id;
      template_id = h.template_id;
      config = h.config;
      more = h.more;
      logs = h.logs;
      aligned = h.aligned;
    },
    record { over = inl refl; time = (_, refl) },
  )

  finish-Settles :
      (a : Build) (s : S) (x : Outcome (Unit {0}) × Job W)
      → Later a x.1.build
      → Settles a (Process.finish m db s x).job.build
  finish-Settles a s (failed e, j) h = fail-Settles a e (record { job = j; store = s }) h
  finish-Settles a s (done u, j) h = complete-Settles a (record { job = j; store = s }) h

  build_in-Settles :
      (artifacts sandbox : String) (a b : Build) (s : S) (x : Outcome (Unit {0}) × Job W)
      → Later a x.1.build
      → Settles a (Process.build_in m db artifacts sandbox b s x).job.build
  unfolding remove_container
  build_in-Settles artifacts sandbox a b s (failed e, j) h =
      fail-Settles a e (record { job = j; store = s }) h
  build_in-Settles artifacts sandbox a b s (done u, j) h =
      finish-Settles a s (build_image m artifacts sandbox b j)
        (Later-trans h ((build_image-Keeps m artifacts sandbox b).moved j))

  -- Whatever the commands, the file system and the store answer, `processBuild` ends, with the build
  -- ready or failed with an error, and with the time of its end. The build is the one that was queued,
  -- with its configuration; its log has the lines that it had and then others; and if the lines
  -- were the messages of the entries before, they are so after.
  pub process_build-Settles :
      (artifacts : String) (sh : Shop W S)
      → Settles sh.job.build (process_build m db artifacts sh).job.build
  unfolding process_build
  process_build-Settles artifacts sh =
      let b = sh.job.build in
      build_in-Settles artifacts ("build-" <> b.id) b b sh.store
        (start_sandbox m ("build-" <> b.id) b sh.job)
        ((start_sandbox-Keeps m ("build-" <> b.id) b).moved sh.job)

  build_in-removed :
      (artifacts sandbox : String) (b : Build) (s : S) (x : Outcome (Unit {0}) × Job W)
      → ((e : String) × (x.0 ≡ failed e))
        ⊎ ((w : W) × ((Process.build_in m db artifacts sandbox b s x).job.world
              ≡ (m.run "docker" ("rm" ∷ "-f" ∷ sandbox ∷ []) w).1))
  unfolding remove_container
  build_in-removed artifacts sandbox b s (failed e, j) = inl (e, refl)
  build_in-removed artifacts sandbox b s (done u, j) = inr (_, refl)

  -- The container of a build is started with an error, or the last that `processBuild` does on the
  -- machine is to remove it by force, whether the build succeeds or fails.
  pub container_removed :
      (artifacts : String) (sh : Shop W S)
      → ((e : String) × ((start_sandbox m ("build-" <> sh.job.build.id) sh.job.build sh.job).0
            ≡ failed e))
        ⊎ ((w : W) × ((process_build m db artifacts sh).job.world
              ≡ (m.run "docker" ("rm" ∷ "-f" ∷ ("build-" <> sh.job.build.id) ∷ []) w).1))
  unfolding process_build
  container_removed artifacts sh =
      let b = sh.job.build in
      build_in-removed artifacts ("build-" <> b.id) b sh.store
        (start_sandbox m ("build-" <> b.id) b sh.job)
