-- ===== src/Scheduler/Steps.antt =====
-- The scheduler as a transition system: one step for each method, in any order, whoever calls it.
use open_e2b.Prelude.{String, ◌≡◌, none, string_eq}
use open_e2b.Prelude.GoMap.{GoMap, get}
use open_e2b.Prelude.GoMap.Range.{Order}
use open_e2b.Prelude.Time.{Time, Duration}
use open_e2b.Scheduler.Types.{Node, Sandbox, SandboxSpec, Scheduler}
use open_e2b.Scheduler.Select.{Float64}
use open_e2b.Scheduler.Ops.{
  register_node, unregister_node, schedule, stop, pause, resume, extend_timeout,
}
use open_e2b.Scheduler.Books.{IsBooked}

-- What the caller keeps to: a node is registered with figures that fit the sandboxes on it, and
-- `Schedule` is not given the ID of a sandbox that is there. `Regs` and `Reqs` are further
-- conditions on what is registered and on what is requested.
module _ {W : Type 0} (fl : Float64) (Regs : GoMap String Sandbox → Node → Type 0)
    (Reqs : SandboxSpec → Type 0) where
  pub data Step : Scheduler W → Scheduler W → Type 0 where
    registers :
        {s : Scheduler W} (n : Node)
        → IsBooked s.sandboxes n
        → Regs s.sandboxes n
        → Step s (register_node n s)
    unregisters : {s : Scheduler W} (id : String) → Step s (unregister_node id s)
    schedules :
        {s : Scheduler W} (o : Order) (spec : SandboxSpec) (started now : Time)
        → get s.sandboxes spec.id ≡ none
        → Reqs spec
        → Step s (schedule fl o spec started now s).1
    stops : {s : Scheduler W} (id : String) → Step s (stop id s).1
    pauses : {s : Scheduler W} (id : String) → Step s (pause id s).1
    resumes : {s : Scheduler W} (id : String) → Step s (resume id s).1
    extends :
        {s : Scheduler W} (id : String) (d : Duration) (now : Time)
        → Step s (extend_timeout id d now s).1

  pub data Reach (s : Scheduler W) : Scheduler W → Type 0 where
    here : Reach s s
    next : {t u : Scheduler W} → Reach s t → Step t u → Reach s u

  pub Reach-trans : {s t u : Scheduler W} → Reach s t → Reach t u → Reach s u
  Reach-trans p here = p
  Reach-trans p (next q st) = next (Reach-trans p q) st
