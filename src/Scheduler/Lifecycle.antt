-- ===== src/Scheduler/Lifecycle.antt =====
-- The life of a sandbox, as the scheduler records it: an abstract state machine that every step
-- refines.
use open_e2b.Prelude.{
  String, ◌≡◌, refl, Option, none, some, inl, inr, ◌⊎◌, arith, ◌==◌, ==_iff, string_eq, Bool-cases,
}
use open_e2b.Prelude.GoMap.{GoMap, get, put, remove, get-put, get-remove}
use open_e2b.Scheduler.Types.{
  Node, Sandbox, SandboxSpec, SandboxState, Scheduler, NodeOperations, running, paused, stopped,
}
use open_e2b.Scheduler.Select.{Float64}
use open_e2b.Scheduler.Ops.{
  place, drop_sandbox, update_sandbox, register_node, unregister_node, with_state, new_scheduler,
}
use open_e2b.Scheduler.Cases.{
  stop_cases, pause_cases, resume_cases, extend_timeout_cases, schedule_cases,
}
use open_e2b.Scheduler.Steps.{
  Step, Reach, registers, unregisters, schedules, stops, pauses, resumes, extends, here, next,
}
use open_e2b.Scheduler.Balance.{new_sandbox_fields}

abbrev pub state_of : Option Sandbox → Option SandboxState
state_of none = none
state_of (some sb) = some sb.status.state

-- The recorded state of a sandbox, if there is one.
abbrev pub phase : {W : Type 0} → String → Scheduler W → Option SandboxState
phase id s = state_of (get s.sandboxes id)

-- A sandbox appears running, goes between running and paused, and disappears.
pub data Transition (p q : Option SandboxState) : Type 0 where
  stays : q ≡ p → Transition p q
  launches : p ≡ none → q ≡ some running → Transition p q
  suspends : p ≡ some running → q ≡ some paused → Transition p q
  wakes : p ≡ some paused → q ≡ some running → Transition p q
  ends : q ≡ none → Transition p q

abbrev pub IsAlive : Option SandboxState → Type 0
IsAlive p = (p ≡ none) ⊎ (p ≡ some running) ⊎ (p ≡ some paused)

Transition-IsAlive : {p q : Option SandboxState} → IsAlive p → Transition p q → IsAlive q
Transition-IsAlive h (stays e) = rw e h
Transition-IsAlive h (launches _ e) = inr (inl e)
Transition-IsAlive h (suspends _ e) = inr (inr e)
Transition-IsAlive h (wakes _ e) = inr (inl e)
Transition-IsAlive h (ends e) = inl e

module _ {W : Type 0} (s : Scheduler W) (id : String) where
  abbrev Lawful : Scheduler W → Type 0
  Lawful t = Transition (phase id s) (phase id t)

  -- A write to one sandbox is lawful if it is for that sandbox.
  written :
      (m : GoMap String Sandbox) (k : String) (sb : Sandbox)
      → get m ≡ get s.sandboxes
      → (k ≡ id → Transition (phase id s) (some sb.status.state))
      → Transition (phase id s) (state_of (get (put m k sb) id))
  written m k sb e t = elim (Bool-cases (k == id)) [
    | inl b ↦ rw (get-put m k id sb, b) (t ((==_iff k id).0 b))
    | inr b ↦ rw (get-put m k id sb, b, e) (stays refl)
  ]

  dropped :
      (k : String) (sb : Sandbox)
      → Transition (phase id s) (state_of (get (remove (put s.sandboxes k sb) k) id))
  dropped k sb = elim (Bool-cases (k == id)) [
    | inl b ↦ rw (get-remove (put s.sandboxes k sb) k id, b) (ends refl)
    | inr b ↦
        rw (get-remove (put s.sandboxes k sb) k id, b, get-put s.sandboxes k id sb, b) (stays refl)
  ]

module _ {W : Type 0} (fl : Float64) (Regs : GoMap String Sandbox → Node → Type 0)
    (Reqs : SandboxSpec → Type 0) where
  -- Each step moves each sandbox along the state machine: it appears running, goes from running to
  -- paused and back, and disappears from any state.
  pub Step-Transition :
      {s t : Scheduler W}
      → Step fl Regs Reqs s t
      → (id : String) → Transition (phase id s) (phase id t)
  unfolding register_node unregister_node place drop_sandbox update_sandbox
  Step-Transition {s} (registers n _ _) id = stays refl
  Step-Transition {s} (unregisters _) id = stays refl
  Step-Transition {s} (schedules o spec started now new _) id =
      schedule_cases (Lawful s id) s (λ _. stays refl) fl o spec started now
        λ key n r w e.
          let (made, _) = new_sandbox_fields r spec n started now in
          written s id s.sandboxes _ _ refl λ k. launches (rw (← k, made, new)) refl
  Step-Transition {s} (stops k) id =
      stop_cases (Lawful s id) s (λ _. stays refl) k
        λ sb n w e h. dropped s id k (with_state stopped sb)
  Step-Transition {s} (pauses k) id =
      pause_cases (Lawful s id) s (λ _. stays refl) k
        λ sb w e r.
          written s id s.sandboxes k _ refl λ p. suspends (rw (← p, e) (ground arith)) refl
  Step-Transition {s} (resumes k) id =
      resume_cases (Lawful s id) s (λ _. stays refl) k
        λ sb w e r. written s id s.sandboxes k _ refl λ p. wakes (rw (← p, e) (ground arith)) refl
  Step-Transition {s} (extends k d now) id =
      extend_timeout_cases (Lawful s id) s (λ _. stays refl) k d now
        λ sb e. written s id s.sandboxes k _ refl λ p. stays (rw (← p, e))

  -- In every state that is reachable from an empty scheduler, a sandbox that it holds is recorded
  -- as running or as paused: no other of the seven states is ever recorded.
  pub Reach-IsAlive :
      (ops : Option (NodeOperations W)) (w : W) {t : Scheduler W}
      → Reach fl Regs Reqs (new_scheduler ops w) t
      → (id : String) → IsAlive (phase id t)
  unfolding new_scheduler get
  Reach-IsAlive ops w here id = inl refl
  Reach-IsAlive ops w (next r st) id =
      Transition-IsAlive (Reach-IsAlive ops w r id) (Step-Transition st id)
