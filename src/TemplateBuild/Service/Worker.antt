-- ===== src/TemplateBuild/Service/Worker.antt =====
-- A worker of internal/templatebuild/service.go and a build from its start to its end.
use open_e2b.Prelude.{ℕ, String, ◌≡◌, refl, sym, ap, ◌∙◌, [], ◌∷◌, Option, some, string_eq, nat_eq}
use mathlib.Core.Path.{subst}
use open_e2b.Prelude.GoMap.{get, put, get-put_self}
use open_e2b.Prelude.GoMap.Range.{Order}
use open_e2b.Prelude.Time.{Time}
use open_e2b.Prelude.Action.{Outcome, done}
use open_e2b.Db.Types
use open_e2b.Db.Memory.{MemoryStore}
use open_e2b.Db.Memory.Implements.{memory_db}
use open_e2b.TemplateBuild.Types.{building, Config, Build, Machine}
use open_e2b.TemplateBuild.Process.{process_build}
use open_e2b.TemplateBuild.Process.Laws.{Settles, process_build-Settles}
use open_e2b.TemplateBuild.Process.Rows.{Tells, process_build-IsRecorded}
use open_e2b.TemplateBuild.Service.{
  Service, new_build, copy_build, keep_build, start_build, get_build, worker,
}
use open_e2b.TemplateBuild.Service.Laws.{Admits, row_with, start_build-eval}

-- What stands when the build `a` is over: the queue, and a later state of the build, which is
-- settled, which `GetBuild` shows and which the row tells.
pub record Finished (sv : Service) (s : MemoryStore) (id : String) (a : Build) : Type 0 where
  pub build : Build
  pub waits : sv.work_queue ≡ []
  pub settles : Settles a build
  pub shown : get_build id sv ≡ some (copy_build build)
  pub row : Types.Build
  pub found : get s.builds id ≡ some row
  pub tells : Tells row build

module _ {W : Type 0} (m : Machine W) where
  worker-Finished :
      (sv : Service) (w : W) (s : MemoryStore) (id : String) (pointer : ℕ) (b : Build)
      (row : Types.Build)
      → sv.work_queue ≡ pointer ∷ []
      → get sv.builds id ≡ some pointer
      → get sv.heap pointer ≡ some b
      → b.id ≡ id
      → get s.builds id ≡ some row
      → Finished (worker m memory_db sv w s).0 (worker m memory_db sv w s).2 id b
  unfolding worker get_build
  worker-Finished sv w s id pointer b row q p h i r =
      rw (q, worker)
        (rw h (
          let sh =
            process_build m memory_db sv.artifacts_dir
              (record { job = record { build = b; world = w }; store = s }) in
          let settled : Settles b sh.job.build =
            process_build-Settles m memory_db sv.artifacts_dir
              (record { job = record { build = b; world = w }; store = s }) in
          let (last, e, t) =
            process_build-IsRecorded m sv.artifacts_dir
              (record { job = record { build = b; world = w }; store = s }) row
              (ap (get s.builds) i ∙ r) in
          record {
            build = sh.job.build;
            waits = refl;
            settles = settled;
            shown = rw (p, get-put_self sv.heap pointer sh.job.build) refl;
            row = last;
            found = ap (get sh.store.builds) (sym (settled.0.id ∙ i)) ∙ e;
            tells = t;
          }))

  -- On the store in memory, with the template there, a row of the build that waits or is being built,
  -- and an empty queue: once `StartBuild` has been called and a worker has taken the build, whatever
  -- the machine answers, the build that was started is ready or failed with an error, its log has only
  -- grown, `GetBuild` shows it so, its row tells the same, and the queue is empty.
  pub started_build_finishes :
      (o : Order) (now then_ later : Time) (template_id id : String) (config : Option Config)
      (sv : Service) (s : MemoryStore) (row : Types.Build) (w : W)
      → Admits o template_id id s row
      → sv.work_queue ≡ []
      → let (r, sv', s') = start_build memory_db o now then_ later template_id id config sv s in
        let (sv'', w', s'') = worker m memory_db sv' w s' in
        Finished sv'' s'' id (new_build now template_id id config row)
  unfolding keep_build new_build
  started_build_finishes o now then_ later template_id id config sv s row w a e =
      let b = new_build now template_id id config row in
      let sv1 : Service = record (keep_build id b sv) { work_queue = sv.allocated ∷ [] } in
      let s1 : MemoryStore = record s { builds = put s.builds id (row_with then_ building row) } in
      let queued : start_build memory_db o now then_ later template_id id config sv s
          ≡ (done tt, sv1, s1) =
        start_build-eval o now then_ later template_id id config sv s row a ∙ rw e refl in
      subst
        (λ (x : Outcome (Unit {0}) × Service × MemoryStore).
          Finished (worker m memory_db x.1 w x.2).0 (worker m memory_db x.1 w x.2).2 id b)
        (sym queued)
        (worker-Finished sv1 w s1 id sv.allocated b (row_with then_ building row) refl
          (get-put_self sv.builds id sv.allocated) (get-put_self sv.heap sv.allocated b) refl
          (get-put_self s.builds id (row_with then_ building row)))
