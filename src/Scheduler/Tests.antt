-- ===== src/Scheduler/Tests.antt =====
-- The theorems of the scheduler on a cluster of one node.
use open_e2b.Prelude.{
  inr, ℕ, ◌≡◌, refl, String, List, ==_iff, true, false, [], ◌∷◌, none, some, arith, string_eq,
  shuffle,
}
use open_e2b.Prelude.Int.{pos, ◌+ℤ◌}
use open_e2b.Prelude.GoMap.{GoMap, get, put}
use open_e2b.Prelude.GoMap.Keys.{Distinct}
use open_e2b.Prelude.GoMap.Sum.{sum_by}
use open_e2b.Prelude.GoMap.Range.{range}
use open_e2b.Prelude.Word.{add64, sub64, mul64, slt64, to_ℤ}
use open_e2b.Prelude.Time.{add, after}
use open_e2b.Scheduler.Types.{Node, Sandbox, SandboxSpec, sandbox_not_found, ok, err, running}
use open_e2b.Scheduler.Select.{
  memory_bytes, available_cpu, available_memory, eligible, contains, score, consider, consider_all,
  select_node,
}
use open_e2b.Scheduler.Ops.{
  new_scheduler, register_node, unregister_node, new_sandbox, with_ports, allocate, place, schedule,
  stop, pause,
}
use open_e2b.Scheduler.Expiry.{Others, check_expirations}
use open_e2b.Scheduler.Books.{IsBooked, load}
use open_e2b.Scheduler.Accounts.{Accounts}
use open_e2b.Scheduler.Balance.{new_scheduler-Accounts, Reach-Accounts}
use open_e2b.Scheduler.Capacity.{WithinCapacity, Reach-WithinCapacity}
use open_e2b.Scheduler.Room.{Fits, IsRequest}
use open_e2b.Scheduler.Steps.{Reach, here, next, registers, schedules, pauses}
use open_e2b.Scheduler.Lifecycle.{phase, Transition, IsAlive, Step-Transition, Reach-IsAlive}
use open_e2b.Scheduler.Placement.{select_node-some}
use open_e2b.Scheduler.Errors.{SameMaps, perform, stops, failed_keeps_maps}
use open_e2b.Scheduler.Ticks.{AllSpare, pause-Spares, tick_spares}
use open_e2b.Scheduler.Clean.{IsFresh, tick_cleans}
use open_e2b.Scheduler.Sweep.{IsHoused}
use open_e2b.Scheduler.Outcomes.{Obliging}
use open_e2b.Scheduler.RoundTrip.{stop-schedule}
use open_e2b.Scheduler.Examples.{
  thousandths, node_of, node, spec_with, spec, ops, empty, one_node, scheduled,
}

abbrev nodes : GoMap String Node
nodes = ("n1", node) ∷ []

chosen : select_node thousandths [] nodes spec ≡ some ("n1", node)
unfolding select_node consider consider_all eligible available_cpu available_memory memory_bytes
    score contains range shuffle sub64 slt64 mul64 ◌+ℤ◌
chosen = refl

select_node-some_example :
    (get nodes "n1" ≡ some node)
    × (eligible spec node ≡ true)
    × ((j : String) (m : Node)
        → get nodes j ≡ some m
        → eligible spec m ≡ true
        → thousandths.gt (score thousandths spec m) (score thousandths spec node) ≡ false)
unfolding get
select_node-some_example = select_node-some thousandths [] nodes spec "n1" node (refl, tt) chosen

-- A node without CPUs and memory passes the tests for a request of nothing; its score is NaN.
abbrev bare : Node
bare = node_of "n0" 0 0

abbrev nothing_asked : SandboxSpec
nothing_asked = spec_with "s0" 0 0

not_chosen : select_node thousandths [] (("n0", bare) ∷ []) nothing_asked ≡ none
unfolding select_node consider consider_all eligible available_cpu available_memory memory_bytes
    score contains range shuffle sub64 slt64 mul64
not_chosen = refl

bare_registered : get {K = String} (("n0", bare) ∷ []) "n0" ≡ some bare
unfolding get
bare_registered = refl

bare_passes : eligible nothing_asked bare ≡ true
unfolding eligible available_cpu available_memory memory_bytes sub64 slt64 mul64
bare_passes = refl

node-IsBooked : IsBooked [] node
unfolding load sum_by
node-IsBooked = record { cpu = refl; memory = refl; count = refl }

spec-IsRequest : IsRequest spec
unfolding memory_bytes mul64
spec-IsRequest = omega arith

node-Fits : Fits [] node
unfolding load sum_by
node-Fits = record {
  cpu_nonneg = omega arith;
  memory_nonneg = omega arith;
  cpu = omega arith;
  memory = omega arith;
}

-- A node is registered, and a sandbox is scheduled.
run : Reach thousandths Fits IsRequest empty scheduled
unfolding new_scheduler register_node get
run =
    next (next here (registers node node-IsBooked node-Fits))
      (schedules [] spec (pos 0) (pos 0) refl spec-IsRequest)

empty-WithinCapacity : WithinCapacity empty
unfolding new_scheduler get
empty-WithinCapacity = record { accounts = new_scheduler-Accounts (some ops) 0; fits = λ k n h. cc }

Reach-Accounts_example : Accounts scheduled
Reach-Accounts_example =
    Reach-Accounts thousandths Fits IsRequest (new_scheduler-Accounts (some ops) 0) run

Reach-WithinCapacity_example : WithinCapacity scheduled
Reach-WithinCapacity_example = Reach-WithinCapacity thousandths empty-WithinCapacity run

Reach-IsAlive_example : IsAlive (phase "s1" scheduled)
Reach-IsAlive_example = Reach-IsAlive thousandths Fits IsRequest (some ops) 0 run "s1"

Step-Transition_example : Transition (phase "s1" scheduled) (phase "s1" (pause "s1" scheduled).1)
Step-Transition_example = Step-Transition thousandths Fits IsRequest (pauses "s1") "s1"

unknown : (perform thousandths (stops "s9") empty).0 ≡ err (sandbox_not_found "s9")
unfolding perform stop new_scheduler get
unknown = refl

failed_keeps_maps_example : SameMaps empty (perform thousandths (stops "s9") empty).1
failed_keeps_maps_example =
    failed_keeps_maps thousandths (stops "s9") empty (sandbox_not_found "s9") unknown

-- The sandbox as it is recorded, due after 60 seconds.
abbrev recorded : Sandbox
recorded = record {
  spec = spec;
  status = record {
    state = running;
    node_id = "n1";
    host_port = 8080;
    envd_port = 49983;
    started_at = pos 0;
    expires_at = pos 60000000000;
    error_reason = "";
  };
}

scheduled_sandboxes : scheduled.sandboxes ≡ ("s1", recorded) ∷ []
unfolding schedule select_node consider consider_all eligible available_cpu available_memory
    memory_bytes score contains range shuffle sub64 slt64 mul64 ◌+ℤ◌ put get new_sandbox with_ports
    place allocate add64 to_ℤ add new_scheduler register_node
scheduled_sandboxes = refl

recorded_there : get scheduled.sandboxes "s1" ≡ some recorded
unfolding get
recorded_there = rw scheduled_sandboxes refl

scheduled-Distinct : Distinct scheduled.sandboxes
unfolding get
scheduled-Distinct = rw scheduled_sandboxes (refl, tt)

not_due : after (pos 59000000000) (pos 60000000000) ≡ false
not_due = refl

-- Meanwhile another goroutine pauses a sandbox that is not there, and the node is taken away.
abbrev meanwhile : List (Others ℕ × Others ℕ)
meanwhile = ((λ s. (pause "s2" s).1), unregister_node "n1") ∷ []

meanwhile-AllSpare : AllSpare "s1" meanwhile
unfolding unregister_node
meanwhile-AllSpare =
    ((pause-Spares "s1" "s2" (λ e. ground (arith, ==_iff {A = String} "s2" "s1")), λ s. refl), tt)

tick_spares_example :
    get (check_expirations [] (pos 59000000000) meanwhile scheduled).sandboxes "s1" ≡ some recorded
tick_spares_example =
    tick_spares [] (pos 59000000000) meanwhile scheduled "s1" recorded scheduled-Distinct
      recorded_there (inr not_due) meanwhile-AllSpare

granted : Obliging scheduled
unfolding schedule select_node consider consider_all eligible available_cpu available_memory
    memory_bytes score contains range shuffle sub64 slt64 mul64 ◌+ℤ◌ put get new_sandbox with_ports
    place allocate add64 to_ℤ add new_scheduler register_node
granted = record {
  stops = λ o n id w h. ground arith;
  pauses = λ o n id w h. ground arith;
  resumes = λ o n id w h. ground arith;
}

scheduled_nodes : scheduled.nodes ≡ ("n1", allocate spec node) ∷ []
unfolding schedule select_node consider consider_all eligible available_cpu available_memory
    memory_bytes score contains range shuffle sub64 slt64 mul64 ◌+ℤ◌ put get new_sandbox with_ports
    place allocate add64 to_ℤ add new_scheduler register_node
scheduled_nodes = refl

on_n1 :
    (k : String) (sb : Sandbox) → get (("s1", recorded) ∷ []) k ≡ some sb → sb.status.node_id ≡ "n1"
unfolding get
on_n1 k sb h = ground arith

n1_registered : get scheduled.nodes "n1" ≡ some (allocate spec node)
unfolding get
n1_registered = rw scheduled_nodes refl

housed : IsHoused scheduled
housed k sb h = (allocate spec node, rw (on_n1 k sb (rw scheduled_sandboxes at h)) n1_registered)

tick_cleans_example :
    IsFresh (pos 61000000000) "s1" (check_expirations [] (pos 61000000000) [] scheduled)
tick_cleans_example = tick_cleans [] (pos 61000000000) scheduled "s1" granted housed

one_node-Accounts : Accounts one_node
unfolding new_scheduler get
one_node-Accounts =
    Reach-Accounts thousandths Fits IsRequest (new_scheduler-Accounts (some ops) 0)
      (next here (registers node node-IsBooked node-Fits))

scheduled_ok : (schedule thousandths [] spec (pos 0) (pos 0) one_node).0 ≡ ok recorded
unfolding schedule select_node consider consider_all eligible available_cpu available_memory
    memory_bytes score contains range shuffle sub64 slt64 mul64 ◌+ℤ◌ put get new_sandbox with_ports
    place allocate add64 to_ℤ add new_scheduler register_node
scheduled_ok = refl

stopped_ok : (stop "s1" scheduled).0 ≡ ok tt
unfolding stop schedule select_node consider consider_all eligible available_cpu available_memory
    memory_bytes score contains range shuffle sub64 slt64 mul64 ◌+ℤ◌ put get new_sandbox with_ports
    place allocate add64 to_ℤ add new_scheduler register_node
stopped_ok = refl

unused : get one_node.sandboxes "s1" ≡ none
unfolding register_node new_scheduler get
unused = refl

stop-schedule_example :
    (get (stop "s1" scheduled).1.nodes "n1" ≡ get one_node.nodes "n1")
    × (get (stop "s1" scheduled).1.sandboxes "n1" ≡ get one_node.sandboxes "n1")
stop-schedule_example =
    stop-schedule thousandths [] spec (pos 0) (pos 0) one_node recorded one_node-Accounts unused
      scheduled_ok stopped_ok "n1"
