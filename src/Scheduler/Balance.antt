-- ===== src/Scheduler/Balance.antt =====
-- The books balance in every reachable state.
use open_e2b.Prelude.{String, ◌≡◌, refl, Option, none, some, arith, ==_iff, string_eq}
use open_e2b.Prelude.GoMap.{GoMap, get, get-put, get-put_cases, get-remove}
use open_e2b.Prelude.GoMap.Keys.{put-Distinct, remove-Distinct}
use open_e2b.Prelude.Time.{Time}
use open_e2b.Scheduler.Types.{Node, Sandbox, SandboxSpec, SandboxResult, Scheduler, NodeOperations}
use open_e2b.Scheduler.Select.{Float64}
use open_e2b.Scheduler.Placement.{select_node-some}
use open_e2b.Scheduler.Ops.{new_scheduler, register_node, unregister_node, with_ports, new_sandbox}
use open_e2b.Scheduler.Books.{IsBooked}
use open_e2b.Scheduler.Cases.{
  in_world, stop_cases, pause_cases, resume_cases, extend_timeout_cases, schedule_cases,
}
use open_e2b.Scheduler.Accounts.{
  Accounts, in_world-Accounts, update_sandbox-Accounts, place-Accounts, drop_sandbox-Accounts,
}
use open_e2b.Scheduler.Steps.{
  Step, Reach, registers, unregisters, schedules, stops, pauses, resumes, extends, here, next,
}

-- The sandbox that `Schedule` makes has the spec that it was given, on the node that was chosen.
pub new_sandbox_fields :
    (r : Option SandboxResult) (spec : SandboxSpec) (n : Node) (started now : Time)
    → let sb = with_ports r (new_sandbox spec n started now) in
      (sb.spec ≡ spec) × (sb.status.node_id ≡ n.spec.id)
unfolding with_ports new_sandbox
new_sandbox_fields none spec n started now = (refl, refl)
new_sandbox_fields (some r) spec n started now = (refl, refl)

module _ {W : Type 0} where
  pub new_scheduler-Accounts :
      (ops : Option (NodeOperations W)) (w : W) → Accounts (new_scheduler ops w)
  unfolding new_scheduler get
  new_scheduler-Accounts ops w = record {
    nodes_distinct = tt;
    sandboxes_distinct = tt;
    node_ids = λ k n h. cc;
    sandbox_ids = λ k sb h. cc;
    booked = λ k n h. absurd (cc);
  }

module _ {W : Type 0} {s : Scheduler W} (a : Accounts s) where
  pub register_node-Accounts : (n : Node) → IsBooked s.sandboxes n → Accounts (register_node n s)
  unfolding register_node
  register_node-Accounts n b = record {
    nodes_distinct = put-Distinct s.nodes n.spec.id n a.nodes_distinct;
    sandboxes_distinct = a.sandboxes_distinct;
    node_ids =
        λ k x q. ground (arith, get-put s.nodes n.spec.id k n, ==_iff n.spec.id k, a.node_ids k x);
    sandbox_ids = a.sandbox_ids;
    booked = λ k x q.
        get-put_cases (IsBooked s.sandboxes) s.nodes n.spec.id k n x q (λ _. b) (λ _. a.booked k x);
  }

  pub unregister_node-Accounts : (id : String) → Accounts (unregister_node id s)
  unfolding unregister_node
  unregister_node-Accounts id = record {
    nodes_distinct = remove-Distinct s.nodes id a.nodes_distinct;
    sandboxes_distinct = a.sandboxes_distinct;
    node_ids = λ k x q. ground (arith, get-remove s.nodes id k, a.node_ids k x);
    sandbox_ids = a.sandbox_ids;
    booked = λ k x q. a.booked k x (ground (arith, get-remove s.nodes id k));
  }

  module _ (fl : Float64) (Regs : GoMap String Sandbox → Node → Type 0)
      (Reqs : SandboxSpec → Type 0) where
    Step-Accounts : {t : Scheduler W} → Step fl Regs Reqs s t → Accounts t
    Step-Accounts (registers n b _) = register_node-Accounts n b
    Step-Accounts (unregisters id) = unregister_node-Accounts id
    Step-Accounts (schedules o spec started now new _) =
        schedule_cases Accounts s (in_world-Accounts s a) fl o spec started now λ key n r w e.
          let sb = with_ports r (new_sandbox spec n started now) in
          let (made, on) = new_sandbox_fields r spec n started now in
          place-Accounts (in_world s w) (in_world-Accounts s a w) key n sb
            (select_node-some fl o s.nodes spec key n a.nodes_distinct e).0 (rw made new) on
    Step-Accounts (stops id) =
        stop_cases Accounts s (in_world-Accounts s a) id
          λ sb n w e h. drop_sandbox-Accounts (in_world s w) (in_world-Accounts s a w) id n sb e h
    Step-Accounts (pauses id) = pause_cases Accounts s (in_world-Accounts s a) id λ sb w e _.
        update_sandbox-Accounts (in_world s w) (in_world-Accounts s a w) id sb _ e refl refl
    Step-Accounts (resumes id) = resume_cases Accounts s (in_world-Accounts s a) id λ sb w e _.
        update_sandbox-Accounts (in_world s w) (in_world-Accounts s a w) id sb _ e refl refl
    Step-Accounts (extends id d now) =
        extend_timeout_cases Accounts s (in_world-Accounts s a) id d now
          λ sb e. update_sandbox-Accounts s a id sb _ e refl refl

module _ {W : Type 0} {s : Scheduler W} (fl : Float64) (Regs : GoMap String Sandbox → Node → Type 0)
    (Reqs : SandboxSpec → Type 0) (a : Accounts s) where
  -- In every state that is reachable from one whose books balance, they balance: each registered
  -- node has allocated the sums of what the sandboxes on it ask for, and counts them, all modulo
  -- 2 ^ 64. The steps are those of `Step`: any methods in any order and with any answers of the
  -- nodes, where a node is registered with figures that fit, and no sandbox ID is used twice.
  pub Reach-Accounts : {t : Scheduler W} → Reach fl Regs Reqs s t → Accounts t
  Reach-Accounts here = a
  Reach-Accounts (next {t = t} r st) = Step-Accounts (Reach-Accounts r) fl Regs Reqs st
