-- ===== src/Scheduler/Cases.antt =====
-- Case analysis for the methods: to prove a property of the state after a call, prove it of the
-- state with another world behind the nodes, and of the state that the method's write leaves.
use open_e2b.Prelude.{
  String, ◌≡◌, true, Option, none, some, inl, inr, Bool-cases, Option-cases, string_eq,
}
use open_e2b.Prelude.GoMap.{get}
use open_e2b.Prelude.GoMap.Range.{Order}
use open_e2b.Prelude.Time
use open_e2b.Prelude.Time.{Time, Duration}
use open_e2b.Scheduler.Types.{
  Node, Sandbox, SandboxSpec, SandboxResult, Scheduler, NodeOperations, Result, ok, err,
  SandboxState, is_running, is_paused, running, paused,
}
use open_e2b.Scheduler.Select.{Float64, select_node}
use open_e2b.Scheduler.Monad.{Method, continue, ask, return, modify, ◌>>=◌, ◌>>◌}
use open_e2b.Scheduler.Ops.{
  new_sandbox, with_ports, with_state, with_expiry, place, drop_sandbox, update_sandbox, schedule,
  stop, pause, resume, extend_timeout, on_node_if,
}

module _ {W : Type 0} where
  abbrev pub in_world : Scheduler W → W → Scheduler W
  in_world s w = record s { world = w }

module _ {κ} {W : Type 0} (P : Scheduler W → Type κ) (s : Scheduler W)
    (same : (w : W) → P (in_world s w)) where
  module _ {A B : Type 0} (f : A → Method W B) where
    answer_cases :
        (r : Result A) (w : W)
        → ((a : A) → P (f a (in_world s w)).1)
        → P (continue r f (in_world s w)).1
    answer_cases (ok a) w h = h a
    answer_cases (err e) w h = same w

    ask_cases :
        (skip : A) (call : NodeOperations W → W → Result A × W) (ops : Option (NodeOperations W))
        → ((a : A) (w : W) → P (f a (in_world s w)).1)
        → P ((ask skip call ops >>= f) s).1
    ask_cases skip call none h = h skip s.world
    ask_cases skip call (some ops) h =
        let (r, w) = call ops s.world in answer_cases r w (λ a. h a w)

module _ {κ} {W : Type 0} (P : Scheduler W → Type κ) (s : Scheduler W)
    (same : (w : W) → P (in_world s w)) where
  pub stop_cases :
      (id : String)
      → ((sb : Sandbox) (n : Node) (w : W)
          → get s.sandboxes id ≡ some sb
          → get s.nodes sb.status.node_id ≡ some n
          → P (drop_sandbox id n sb (in_world s w)))
      → P (stop id s).1
  unfolding stop
  stop_cases id drop = elim (Option-cases (get s.sandboxes id)) [
    | inl e ↦ rw e (same s.world)
    | inr (sb, e) ↦ elim (Option-cases (get s.nodes sb.status.node_id)) [
      | inl f ↦ rw (e, f) (same s.world)
      | inr (n, f) ↦
          simp (e, f)
            (ask_cases P s same (λ _. modify (drop_sandbox id n sb)) tt
              (λ ops. ops.stop_sandbox n id) s.node_ops (λ _ w. drop sb n w e f))
    ]
  ]

  module _ (id : String) (st : SandboxState) (sb : Sandbox)
      (update : (w : W) → P (update_sandbox id (with_state st sb) (in_world s w)))
      (call : NodeOperations W → Node → W → Result (Unit {0}) × W) where
    on_node_if_cases :
        (n : Option Node)
        → P ((on_node_if n call >>= λ _. modify (update_sandbox id (with_state st sb))) s).1
    on_node_if_cases none = update s.world
    on_node_if_cases (some n) =
        ask_cases P s same (λ _. modify (update_sandbox id (with_state st sb))) tt
          (λ ops. call ops n) s.node_ops (λ _ w. update w)

  pub pause_cases :
      (id : String)
      → ((sb : Sandbox) (w : W)
          → get s.sandboxes id ≡ some sb
          → is_running sb.status.state ≡ true
          → P (update_sandbox id (with_state paused sb) (in_world s w)))
      → P (pause id s).1
  unfolding pause
  pause_cases id update = elim (Option-cases (get s.sandboxes id)) [
    | inl e ↦ rw e (same s.world)
    | inr (sb, e) ↦ elim (Bool-cases (is_running sb.status.state)) [
      | inl r ↦
          simp (e, r)
            (on_node_if_cases id paused sb (λ w. update sb w e r) (λ ops n. ops.pause_sandbox n id)
              (get s.nodes sb.status.node_id))
      | inr r ↦ simp (e, r) (same s.world)
    ]
  ]

  pub resume_cases :
      (id : String)
      → ((sb : Sandbox) (w : W)
          → get s.sandboxes id ≡ some sb
          → is_paused sb.status.state ≡ true
          → P (update_sandbox id (with_state running sb) (in_world s w)))
      → P (resume id s).1
  unfolding resume
  resume_cases id update = elim (Option-cases (get s.sandboxes id)) [
    | inl e ↦ rw e (same s.world)
    | inr (sb, e) ↦ elim (Bool-cases (is_paused sb.status.state)) [
      | inl r ↦
          simp (e, r)
            (on_node_if_cases id running sb (λ w. update sb w e r)
              (λ ops n. ops.resume_sandbox n id) (get s.nodes sb.status.node_id))
      | inr r ↦ simp (e, r) (same s.world)
    ]
  ]

  pub extend_timeout_cases :
      (id : String) (d : Duration) (now : Time)
      → ((sb : Sandbox)
          → get s.sandboxes id ≡ some sb
          → P (update_sandbox id (with_expiry (Time.add now d) sb) s))
      → P (extend_timeout id d now s).1
  unfolding extend_timeout
  extend_timeout_cases id d now update = elim (Option-cases (get s.sandboxes id)) [
    | inl e ↦ rw e (same s.world)
    | inr (sb, e) ↦ simp e (update sb e)
  ]

  pub schedule_cases :
      (fl : Float64) (o : Order) (spec : SandboxSpec) (started now : Time)
      → ((key : String) (n : Node) (r : Option SandboxResult) (w : W)
          → select_node fl o s.nodes spec ≡ some (key, n)
          → P (place key n (with_ports r (new_sandbox spec n started now)) (in_world s w)))
      → P (schedule fl o spec started now s).1
  unfolding schedule
  schedule_cases fl o spec started now add = elim (Option-cases (select_node fl o s.nodes spec)) [
    | inl e ↦ rw e (same s.world)
    | inr ((key, n), e) ↦ simp e (
        ask_cases P s same
          (λ result.
            modify (place key n (with_ports result (new_sandbox spec n started now)))
            >> return (with_state running (with_ports result (new_sandbox spec n started now))))
          none (λ ops. ops.create_sandbox n spec) s.node_ops (λ r w. add key n r w e))
  ]
