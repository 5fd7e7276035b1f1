-- ===== src/Scheduler/Outcomes.antt =====
-- When the calls succeed, and what they have written then.
use open_e2b.Prelude.{String, ◌≡◌, some, inl, inr, true, arith, string_eq, Option-cases}
use open_e2b.Prelude.GoMap.{get}
use open_e2b.Scheduler.Types.{
  Node, Sandbox, Scheduler, NodeOperations, ok, is_running, is_paused, running, paused,
}
use open_e2b.Scheduler.Ops.{stop, pause, resume, drop_sandbox, update_sandbox, with_state}
use open_e2b.Scheduler.Errors.{SameMaps}

-- The nodes grant every request to stop, to pause and to resume. Without node operations there is
-- nobody to refuse.
pub record Obliging {W : Type 0} (s : Scheduler W) : Type 0 where
  pub stops :
      (ops : NodeOperations W) (n : Node) (id : String) (w : W)
      → s.node_ops ≡ some ops
      → (ops.stop_sandbox n id w).0 ≡ ok tt
  pub pauses :
      (ops : NodeOperations W) (n : Node) (id : String) (w : W)
      → s.node_ops ≡ some ops
      → (ops.pause_sandbox n id w).0 ≡ ok tt
  pub resumes :
      (ops : NodeOperations W) (n : Node) (id : String) (w : W)
      → s.node_ops ≡ some ops
      → (ops.resume_sandbox n id w).0 ≡ ok tt

module _ {W : Type 0} (s : Scheduler W) (o : Obliging s) (id : String) (sb : Sandbox)
    (found : get s.sandboxes id ≡ some sb) where
  pub stop-ok :
      (n : Node)
      → get s.nodes sb.status.node_id ≡ some n
      → ((stop id s).0 ≡ ok tt)
        × SameMaps (drop_sandbox id n sb s) (stop id s).1
        × ((stop id s).1.node_ops ≡ s.node_ops)
  unfolding stop drop_sandbox
  stop-ok n h = elim (Option-cases s.node_ops) [
    | inl e ↦ (ground arith, ground arith, ground arith)
    | inr (ops, e) ↦
        let granted = o.stops ops n id s.world e in (ground arith, ground arith, ground arith)
  ]

  pub pause-ok :
      is_running sb.status.state ≡ true
      → ((pause id s).0 ≡ ok tt)
        × SameMaps (update_sandbox id (with_state paused sb) s) (pause id s).1
        × ((pause id s).1.node_ops ≡ s.node_ops)
  unfolding pause update_sandbox
  pause-ok r = elim (Option-cases (get s.nodes sb.status.node_id)) [
    | inl f ↦ (ground arith, ground arith, ground arith)
    | inr (n, f) ↦ elim (Option-cases s.node_ops) [
      | inl e ↦ (ground arith, ground arith, ground arith)
      | inr (ops, e) ↦
          let granted = o.pauses ops n id s.world e in (ground arith, ground arith, ground arith)
    ]
  ]

  pub resume-ok :
      is_paused sb.status.state ≡ true
      → ((resume id s).0 ≡ ok tt)
        × SameMaps (update_sandbox id (with_state running sb) s) (resume id s).1
        × ((resume id s).1.node_ops ≡ s.node_ops)
  unfolding resume update_sandbox
  resume-ok r = elim (Option-cases (get s.nodes sb.status.node_id)) [
    | inl f ↦ (ground arith, ground arith, ground arith)
    | inr (n, f) ↦ elim (Option-cases s.node_ops) [
      | inl e ↦ (ground arith, ground arith, ground arith)
      | inr (ops, e) ↦
          let granted = o.resumes ops n id s.world e in (ground arith, ground arith, ground arith)
    ]
  ]
