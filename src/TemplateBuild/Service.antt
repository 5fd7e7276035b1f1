-- ===== src/TemplateBuild/Service.antt =====
-- internal/templatebuild/service.go: `Service`, over any store. The builds are on a heap, since the
-- map and the queue hold pointers to them: a build that is started again is a new one, and the queue
-- keeps the old one. `StartBuild` is one step, though it holds the lock only around the map.
pub mod Laws
pub mod Worker
use open_e2b.Prelude.{
  ℕ, suc, ◌+◌, String, Bool, true, false, not, ◌&&◌, ◌||◌, ◌==◌, string_eq, nat_eq, List, [], ◌∷◌,
  ◌++◌, Option, none, some, length, ltb, if◌then◌else◌,
}
use Prim.Native.String.{◌++◌ as ◌<>◌}
use open_e2b.Prelude.Word.{slt64}
use open_e2b.Prelude.GoMap.{GoMap, get, put}
use open_e2b.Prelude.GoMap.Range.{Order}
use open_e2b.Prelude.Time.{Time}
use open_e2b.Prelude.Action.{Outcome, done, failed}
use open_e2b.Db.Types
use open_e2b.Db.Types.{Result, ok, err, Template, BuildUpdate}
use open_e2b.Db.Store.{Store}
use open_e2b.TemplateBuild.Types.{
  BuildStatus, waiting, building, error, status_name, Config, Build, Machine,
}
use open_e2b.TemplateBuild.Log.{Job}
use open_e2b.TemplateBuild.Process.{Shop, process_build}

pub record Service : Type 0 where
  pub domain : String
  pub artifacts_dir : String
  pub heap : GoMap ℕ Build
  pub allocated : ℕ
  pub builds : GoMap String ℕ
  pub workers : ℕ
  pub work_queue : List ℕ

-- The defaults: two workers where the number is not positive, and a directory.
unfoldable pub new_service : String → String → ℕ → Service
new_service domain artifacts workers = record {
  domain = domain;
  artifacts_dir = if artifacts == "" then "data/artifacts" else artifacts;
  heap = [];
  allocated = 0;
  builds = [];
  workers = if slt64 0 workers then workers else 2;
  work_queue = [];
}

-- The row behind an answer of the store, or an error.
abbrev pub row_or : {A : Type 0} → String → String → String → Result (Option A) → Outcome A
row_or what missing id (err e) = failed (what <> ": " <> e)
row_or what missing id (ok none) = failed (missing <> ": " <> id)
row_or what missing id (ok (some a)) = done a

abbrev pub is_startable : String → Bool
is_startable status = status == status_name waiting || (status == status_name building)

abbrev pub startable : Outcome Types.Build → Outcome Types.Build
startable (failed e) = failed e
startable (done row) =
    if is_startable row.status
    then done row
    else failed ("build is not in waiting state: " <> row.status)

abbrev pub and_row : {A : Type 0} → Outcome A → Outcome Types.Build → Outcome Types.Build
and_row (failed e) next = failed e
and_row (done a) next = startable next

unfoldable pub new_build : Time → String → String → Option Config → Types.Build → Build
new_build now template_id id config row = record {
  id = id;
  template_id = template_id;
  status = building;
  config = config;
  cpu_count = row.cpu_count;
  memory_mb = row.memory_mb;
  logs = [];
  log_entries = [];
  started_at = now;
  finished_at = none;
  error = none;
}

abbrev pub status_update : BuildStatus → BuildUpdate
status_update st = record {
  status = some (status_name st);
  finished_at = none;
  logs = none;
  log_entries = none;
  disk_size_mb = none;
  envd_version = none;
}

-- `s.builds[buildID] = build`
unfoldable pub keep_build : String → Build → Service → Service
keep_build id b sv = record sv {
  heap = put sv.heap sv.allocated b;
  allocated = suc sv.allocated;
  builds = put sv.builds id sv.allocated;
}

module _ {S : Type 0} (db : Store S) where
  -- The checks of `StartBuild`, and the row of the build.
  unfoldable pub check_start : Order → String → String → S → Outcome Types.Build
  check_start o template_id id s =
      and_row
        (row_or "template not found" "template not found" template_id
          (db.get_template o template_id s))
        (row_or "failed to get build" "build not found" id (db.get_build id s))

  -- The channel has room for 100 builds.
  abbrev pub enqueue : Time → String → ℕ → Service → S → Outcome (Unit {0}) × Service × S
  enqueue later id pointer sv s =
      if ltb (length sv.work_queue) 100
      then (done tt, record sv { work_queue = sv.work_queue ++ pointer ∷ [] }, s)
      else (failed "build queue is full", sv, (db.update_build later id (status_update error) s).1)

  abbrev marked :
      Time → String → ℕ → Service → Result (Unit {0}) × S → Outcome (Unit {0}) × Service × S
  marked later id pointer sv (err e, s) = (failed ("failed to update build status: " <> e), sv, s)
  marked later id pointer sv (ok u, s) = enqueue later id pointer sv s

  abbrev pub launch :
      Time
      → Time
      → Time
      → String
      → String
      → Option Config
      → Outcome Types.Build
      → Service
      → S
      → Outcome (Unit {0}) × Service × S
  launch now then_ later template_id id config (failed e) sv s = (failed e, sv, s)
  launch now then_ later template_id id config (done row) sv s =
      marked later id sv.allocated (keep_build id (new_build now template_id id config row) sv)
        (db.update_build then_ id (status_update building) s)

  -- The clock is read for the build, for the first write and for the second.
  unfoldable pub start_build :
      Order
      → Time
      → Time
      → Time
      → String
      → String
      → Option Config
      → Service
      → S
      → Outcome (Unit {0}) × Service × S
  start_build o now then_ later template_id id config sv s =
      launch now then_ later template_id id config (check_start o template_id id s) sv s

  -- A build that is handed out and not stored; `build_id` is the new UUID.
  unfoldable pub create_new_build : Order → Time → String → String → ℕ → ℕ → S → Outcome Types.Build
  create_new_build o now build_id template_id cpu memory s =
      elim (db.get_template o template_id s) [
        | err e ↦ failed ("template not found: " <> template_id)
        | ok none ↦ failed ("template not found: " <> template_id)
        | ok (some t) ↦ done (record {
          build_id = build_id;
          template_id = template_id;
          status = status_name waiting;
          created_at = now;
          updated_at = now;
          finished_at = none;
          cpu_count = cpu;
          memory_mb = memory;
          disk_size_mb = none;
          envd_version = none;
          logs = [];
          log_entries = [];
        })
      ]

-- The copy has neither the CPU count nor the memory.
unfoldable pub copy_build : Build → Build
copy_build b = record b { cpu_count = 0; memory_mb = 0 }

abbrev pub at : Service → Option ℕ → Option Build
at sv none = none
at sv (some pointer) = get sv.heap pointer

abbrev pub copied : Option Build → Option Build
copied none = none
copied (some b) = some (copy_build b)

unfoldable pub get_build : String → Service → Option Build
get_build id sv = copied (at sv (get sv.builds id))

module _ {W S : Type 0} (m : Machine W) (db : Store S) where
  abbrev pub processed : ℕ → List ℕ → Service → Option Build → W → S → Service × W × S
  processed pointer rest sv none w s = (record sv { work_queue = rest }, w, s)
  processed pointer rest sv (some b) w s =
      let sh =
        process_build m db sv.artifacts_dir
          (record { job = record { build = b; world = w }; store = s }) in
      (
        record sv { work_queue = rest; heap = put sv.heap pointer sh.job.build },
        sh.job.world,
        sh.store,
      )

  abbrev pub taken : List ℕ → Service → W → S → Service × W × S
  taken [] sv w s = (sv, w, s)
  taken (pointer ∷ rest) sv w s = processed pointer rest sv (get sv.heap pointer) w s

  -- A worker takes the build at the head of the queue and processes it; it waits on an empty queue.
  unfoldable pub worker : Service → W → S → Service × W × S
  worker sv w s = taken sv.work_queue sv w s
