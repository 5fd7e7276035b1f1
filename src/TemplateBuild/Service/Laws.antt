-- ===== src/TemplateBuild/Service/Laws.antt =====
-- `StartBuild`, `GetBuild` and the workers of internal/templatebuild/service.go, on the store of
-- internal/db/memory.go.
use open_e2b.Prelude.{
  ℕ, ◌<◌, ◌≤◌, String, true, false, ◌≡◌, refl, List, [], ◌∷◌, ◌++◌, Option, some, string_eq, nat_eq,
  arith, length, ltb,
}
use open_e2b.Prelude.GoMap.{get, put, get-put_self}
use open_e2b.Prelude.GoMap.Range.{Order}
use open_e2b.Prelude.Time.{Time}
use open_e2b.Prelude.Action.{Outcome, done, failed}
use open_e2b.Db.Types
use open_e2b.Db.Types.{Template, ok}
use open_e2b.Db.Memory.{MemoryStore}
use open_e2b.Db.Memory.Implements.{memory_db}
use open_e2b.Db.Memory.Builds
use open_e2b.Db.Memory.Builds.{update_build, apply_build}
use open_e2b.Db.Memory.Templates.{get_template}
use open_e2b.TemplateBuild.Types.{BuildStatus, building, error, status_name, Config, Build}
use open_e2b.TemplateBuild.Service
use open_e2b.TemplateBuild.Service.{
  Service, is_startable, check_start, new_build, copy_build, keep_build, start_build, get_build,
  worker, status_update,
}

-- What `StartBuild` asks of the store: the template, and a row that waits or is being built.
pub record Admits (o : Order) (template_id id : String) (s : MemoryStore) (row : Types.Build)
    : Type 0 where
  pub template : Template
  pub found : get_template o template_id s ≡ ok (some template)
  pub has_row : get s.builds id ≡ some row
  pub startable : is_startable row.status ≡ true

check-Admits :
    (o : Order) (template_id id : String) (s : MemoryStore) (row : Types.Build)
    → Admits o template_id id s row
    → check_start memory_db o template_id id s ≡ done row
unfolding check_start Builds.get_build
check-Admits o template_id id s row a = rw (a.found, a.has_row) (rw a.startable refl)

-- The row once it is marked with a status.
abbrev pub row_with : Time → BuildStatus → Types.Build → Types.Build
row_with t st row = apply_build t (status_update st) row

update_build-put :
    (t : Time) (id : String) (u : Types.BuildUpdate) (s : MemoryStore) (row : Types.Build)
    → get s.builds id ≡ some row
    → update_build t id u s ≡ (ok tt, record s { builds = put s.builds id (apply_build t u row) })
unfolding update_build
update_build-put t id u s row e = rw (e, update_build) refl

get_build-keep :
    (id : String) (b : Build) (sv : Service) (queue : List ℕ)
    → get_build id (record (keep_build id b sv) { work_queue = queue }) ≡ some (copy_build b)
unfolding get_build keep_build
get_build-keep id b sv queue =
    rw (get-put_self sv.builds id sv.allocated, get-put_self sv.heap sv.allocated b) refl

module _ (o : Order) (now then_ later : Time) (template_id id : String) (config : Option Config)
    (sv : Service) (s : MemoryStore) (row : Types.Build) (a : Admits o template_id id s row) where
  abbrev pub kept : Service
  kept = keep_build id (new_build now template_id id config row) sv

  pub start_build-eval :
      start_build memory_db o now then_ later template_id id config sv s
      ≡ Service.enqueue memory_db later id sv.allocated kept
          (record s { builds = put s.builds id (row_with then_ building row) })
  unfolding start_build
  start_build-eval =
      rw
        (
          check-Admits o template_id id s row a,
          update_build-put then_ id (status_update building) s row a.has_row,
        )
        refl

-- The builds that wait and what is known of one: its queue, its build as `GetBuild` shows it, and
-- the status of its row.
pub record Stands (sv : Service) (s : MemoryStore) (id : String) (queue : List ℕ) (b : Build)
    (st : BuildStatus) : Type 0 where
  pub waits : sv.work_queue ≡ queue
  pub shown : get_build id sv ≡ some (copy_build b)
  pub marked : (row : Types.Build) × (get s.builds id ≡ some row) × (row.status ≡ status_name st)

-- What a call of `StartBuild` returned, as one predicate.
abbrev pub Leaves :
    Outcome (Unit {0})
    → String
    → List ℕ
    → Build
    → BuildStatus
    → Outcome (Unit {0}) × Service × MemoryStore
    → Type 0
Leaves result id queue b st (r, sv, s) = (r ≡ result) × Stands sv s id queue b st

-- `StartBuild` on the store in memory, with the template there, a row of the build that waits or is
-- being built, and fewer than 100 builds in the queue: it succeeds, the build is at the end of
-- the queue, `GetBuild` shows it as building with an empty log, and its row says building.
pub start_build_queues :
    (o : Order) (now then_ later : Time) (template_id id : String) (config : Option Config)
    (sv : Service) (s : MemoryStore) (row : Types.Build)
    → Admits o template_id id s row
    → length sv.work_queue < 100
    → Leaves
        (done tt)
        id
        (sv.work_queue ++ sv.allocated ∷ [])
        (new_build now template_id id config row)
        building
        (start_build memory_db o now then_ later template_id id config sv s)
unfolding keep_build apply_build
start_build_queues o now then_ later template_id id config sv s row a room =
    let fits : ltb (length sv.work_queue) 100 ≡ true = ground arith in
    rw (start_build-eval o now then_ later template_id id config sv s row a) (
      rw fits (
        refl,
        record {
          waits = refl;
          shown =
              get_build-keep id (new_build now template_id id config row) sv
                (sv.work_queue ++ sv.allocated ∷ []);
          marked = (
            row_with then_ building row,
            get-put_self s.builds id (row_with then_ building row),
            refl,
          );
        },
      ))

-- The same call with 100 builds or more in the queue: it fails, the queue is as it was and the row says
-- error, while `GetBuild` still shows a build that is building.
pub start_build_full :
    (o : Order) (now then_ later : Time) (template_id id : String) (config : Option Config)
    (sv : Service) (s : MemoryStore) (row : Types.Build)
    → Admits o template_id id s row
    → 100 ≤ length sv.work_queue
    → Leaves
        (failed "build queue is full")
        id
        sv.work_queue
        (new_build now template_id id config row)
        error
        (start_build memory_db o now then_ later template_id id config sv s)
unfolding keep_build apply_build
start_build_full o now then_ later template_id id config sv s row a full =
    let over : ltb (length sv.work_queue) 100 ≡ false = ground arith in
    let s1 : MemoryStore = record s { builds = put s.builds id (row_with then_ building row) } in
    let first : get s1.builds id ≡ some (row_with then_ building row) =
      get-put_self s.builds id (row_with then_ building row) in
    rw (start_build-eval o now then_ later template_id id config sv s row a) (
      rw
        (
          over,
          update_build-put later id (status_update error) s1 (row_with then_ building row) first,
        )
        (
          refl,
          record {
            waits = refl;
            shown = get_build-keep id (new_build now template_id id config row) sv sv.work_queue;
            marked = (
              row_with later error (row_with then_ building row),
              get-put_self s1.builds id _,
              refl,
            );
          },
        ))
