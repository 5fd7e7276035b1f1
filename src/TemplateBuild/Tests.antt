-- ===== src/TemplateBuild/Tests.antt =====
-- The theorems of the template builds on a machine that obliges.
use open_e2b.Prelude.{
  ℕ, zero, suc, String, false, ◌≡◌, refl, ◌⊎◌, List, [], ◌∷◌, ◌++◌, some, arith, string_eq,
}
use open_e2b.Prelude.Int.{pos}
use open_e2b.Prelude.GoMap.{get}
use open_e2b.Prelude.Action.{failed}
use open_e2b.Db.Memory.{MemoryStore}
use open_e2b.Db.Memory.Implements.{memory_db}
use open_e2b.Db.Memory.Templates.{get_template}
use open_e2b.TemplateBuild.Types.{error, Step, Config, Build}
use open_e2b.TemplateBuild.Examples.{machine, row, template, store}
use open_e2b.TemplateBuild.Process.{Shop, start_sandbox, process_build}
use open_e2b.TemplateBuild.Process.Laws.{Settles, process_build-Settles, container_removed}
use open_e2b.TemplateBuild.Process.Rows.{IsRecorded, process_build-IsRecorded}
use open_e2b.TemplateBuild.Service.{Service, new_service, new_build, start_build, worker}
use open_e2b.TemplateBuild.Service.Laws.{Admits, Leaves, start_build_full}
use open_e2b.TemplateBuild.Service.Worker.{Finished, started_build_finishes}

abbrev step_of : String → List String → Step
step_of kind args = record { kind = kind; args = args; files_hash = ""; force = false }

abbrev config : Config
config = record {
  from_image = "";
  from_template = "";
  registry_url = "";
  registry_username = "";
  registry_password = "";
  steps = step_of "RUN" ("make" ∷ []) ∷ step_of "RUN" [] ∷ [];
  start_cmd = "";
  ready_cmd = "";
  force = false;
}

abbrev build : Build
build = new_build (pos 3) "t1" "b1" (some config) row

abbrev shop : Shop ℕ MemoryStore
shop = record { job = record { build = build; world = 0 }; store = store }

process_build-Settles_example : Settles build (process_build machine memory_db "" shop).job.build
process_build-Settles_example = process_build-Settles machine memory_db "" shop

container_removed_example :
    ((e : String) × ((start_sandbox machine "build-b1" build shop.job).0 ≡ failed e))
    ⊎ ((w : ℕ) × ((process_build machine memory_db "" shop).job.world
          ≡ (machine.run "docker" ("rm" ∷ "-f" ∷ "build-b1" ∷ []) w).1))
unfolding new_build
container_removed_example = container_removed machine memory_db "" shop

has_row : get store.builds "b1" ≡ some row
unfolding get
has_row = refl

process_build-IsRecorded_example : IsRecorded (process_build machine memory_db "" shop)
unfolding new_build
process_build-IsRecorded_example = process_build-IsRecorded machine "" shop row has_row

abbrev service : Service
service = new_service "example.com" "" 2

admits : Admits [] "t1" "b1" store row
unfolding get get_template
admits = record { template = template; found = refl; has_row = refl; startable = refl }

-- 2 ^ n places for the queue.
abbrev doubled : ℕ → List ℕ → List ℕ
doubled zero q = q
doubled (suc n) q = doubled n (q ++ q)

abbrev busy : Service
busy = record service { work_queue = doubled 7 (0 ∷ []) }

start_build_full_example :
    Leaves
      (failed "build queue is full")
      "b1"
      busy.work_queue
      build
      error
      (start_build memory_db [] (pos 3) (pos 4) (pos 5) "t1" "b1" (some config) busy store)
unfolding new_service
start_build_full_example =
    start_build_full [] (pos 3) (pos 4) (pos 5) "t1" "b1" (some config) busy store row admits
      (ground arith)

started_build_finishes_example :
    Finished
      (worker machine memory_db
        (start_build memory_db [] (pos 3) (pos 4) (pos 5) "t1" "b1" (some config) service store).1
        0
        (start_build memory_db []
          (pos 3)
          (pos 4)
          (pos 5)
          "t1"
          "b1"
          (some config)
          service
          store).2).0
      (worker machine memory_db
        (start_build memory_db [] (pos 3) (pos 4) (pos 5) "t1" "b1" (some config) service store).1
        0
        (start_build memory_db []
          (pos 3)
          (pos 4)
          (pos 5)
          "t1"
          "b1"
          (some config)
          service
          store).2).2
      "b1"
      build
unfolding new_service
started_build_finishes_example =
    started_build_finishes machine [] (pos 3) (pos 4) (pos 5) "t1" "b1" (some config) service store
      row 0 admits refl
