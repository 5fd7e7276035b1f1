-- ===== src/Orchestrator/Client/Agreement.antt =====
-- The scheduler of internal/scheduler/scheduler.go over the client of
-- internal/scheduler/orchestrator_client.go, as one transition system.
use open_e2b.Prelude.{
  ℕ, String, ◌≡◌, refl, none, some, string_eq, Option-cases, inl, inr, ap, arith,
}
use open_e2b.Prelude.GoMap.{get}
use open_e2b.Prelude.GoMap.Range.{Order}
use open_e2b.Prelude.Time.{Time, Duration}
use open_e2b.Prelude.Action.{Outcome, done, failed}
use open_e2b.Scheduler.Types.{Node, Sandbox, SandboxSpec, Scheduler}
use open_e2b.Scheduler.Select.{Float64}
use open_e2b.Scheduler.Ops.{
  new_scheduler, register_node, unregister_node, schedule, stop, pause, resume, extend_timeout,
}
use open_e2b.Orchestrator.Client
use open_e2b.Orchestrator.Client.{
  NodeAgentClient, OrchestratorClient, SandboxLocation, new_orchestrator_client, node_operations,
  get_sandbox_host,
}
use open_e2b.Orchestrator.Client.Routes.{
  HasPlace, IsRouted, place-IsRouted, stop-IsRouted, pause-IsRouted, resume-IsRouted,
  extend-IsRouted,
}

abbrev pub System : Type 0 → Type 0
System W = Scheduler (OrchestratorClient W)

abbrev on_client :
    {W : Type 0} → (OrchestratorClient W → OrchestratorClient W) → System W → System W
on_client f s = record s { world = f s.world }

abbrev pub start : {W : Type 0} → (Duration → ℕ) → W → System W
start ws w = new_scheduler (some (node_operations ws)) (new_orchestrator_client w)

module _ {W : Type 0} (fl : Float64) (connect : String → NodeAgentClient W)
    (ws : Duration → ℕ) where
  -- One call of a method of the scheduler or of the registration of nodes with the client.
  pub data Move : System W → System W → Type 0 where
    connects :
        {s : System W} (id address : String)
        → Move s (on_client (λ o. (Client.register_node connect id address o).1) s)
    disconnects : {s : System W} (id : String) → Move s (on_client (Client.unregister_node id) s)
    registers : {s : System W} (n : Node) → Move s (register_node n s)
    unregisters : {s : System W} (id : String) → Move s (unregister_node id s)
    schedules :
        {s : System W} (o : Order) (spec : SandboxSpec) (started now : Time)
        → Move s (schedule fl o spec started now s).1
    stops : {s : System W} (id : String) → Move s (stop id s).1
    pauses : {s : System W} (id : String) → Move s (pause id s).1
    resumes : {s : System W} (id : String) → Move s (resume id s).1
    extends :
        {s : System W} (id : String) (d : Duration) (now : Time)
        → Move s (extend_timeout id d now s).1

  pub data Moves (s : System W) : System W → Type 0 where
    here : Moves s s
    next : {t u : System W} → Moves s t → Move t u → Moves s u

  registered_cases :
      (s : System W) (id address : String)
      → IsRouted ws s
      → (x : Outcome (Unit {0}) × W)
      → IsRouted ws
          (record s { world = (Client.registered id address (connect address) x s.world).1 })
  registered_cases s id address h (failed e, w) = record {
    ops = h.ops;
    places = h.places;
    only = h.only;
  }
  registered_cases s id address h (done u, w) = record {
    ops = h.ops;
    places = h.places;
    only = h.only;
  }

  connect-IsRouted :
      (s : System W) (id address : String)
      → IsRouted ws s
      → IsRouted ws (on_client (λ o. (Client.register_node connect id address o).1) s)
  unfolding Client.register_node
  connect-IsRouted s id address h =
      registered_cases s id address h ((connect address).heartbeat id s.world.world)

  Moves-IsRouted : (w : W) {s : System W} → Moves (start ws w) s → IsRouted ws s
  unfolding new_scheduler new_orchestrator_client register_node unregister_node
      Client.unregister_node get
  Moves-IsRouted w here = record {
    ops = refl;
    places = λ id sb e. ground arith;
    only = λ id e. refl;
  }
  Moves-IsRouted w (next {t} p (connects id address)) =
      connect-IsRouted t id address (Moves-IsRouted w p)
  Moves-IsRouted w (next {t} p (disconnects id)) =
      let h = Moves-IsRouted w p in record { ops = h.ops; places = h.places; only = h.only }
  Moves-IsRouted w (next {t} p (registers n)) =
      let h = Moves-IsRouted w p in record { ops = h.ops; places = h.places; only = h.only }
  Moves-IsRouted w (next {t} p (unregisters id)) =
      let h = Moves-IsRouted w p in record { ops = h.ops; places = h.places; only = h.only }
  Moves-IsRouted w (next {t} p (schedules o spec started now)) =
      place-IsRouted ws t (Moves-IsRouted w p) fl o spec started now
  Moves-IsRouted w (next {t} p (stops id)) = stop-IsRouted ws t (Moves-IsRouted w p) id
  Moves-IsRouted w (next {t} p (pauses id)) = pause-IsRouted ws t (Moves-IsRouted w p) id
  Moves-IsRouted w (next {t} p (resumes id)) = resume-IsRouted ws t (Moves-IsRouted w p) id
  Moves-IsRouted w (next {t} p (extends id d now)) =
      extend-IsRouted ws t (Moves-IsRouted w p) id d now

host_of_place :
    {W : Type 0} (o : OrchestratorClient W) (id : String) (sb : Sandbox)
    → HasPlace (get o.sandbox_ports id) sb
    → (host : String) × (get_sandbox_host id o ≡ some (host, sb.status.host_port))
unfolding get_sandbox_host
host_of_place o id sb h = elim (Option-cases (get o.sandbox_ports id)) [
  | inl e ↦ elim (rw e at h) [ ]
  | inr (l, e) ↦
      let place : HasPlace (some l) sb = rw e at h in
      (l.host, rw (e, get_sandbox_host) (ap (λ x. some (l.host, x)) place.port))
]

host-none :
    {W : Type 0} (o : OrchestratorClient W) (id : String)
    → get o.sandbox_ports id ≡ none
    → get_sandbox_host id o ≡ none
unfolding get_sandbox_host
host-none o id e = rw (e, get_sandbox_host) refl

-- The scheduler and its client start empty and run together: methods of the scheduler and
-- registrations of nodes, in any order, whatever the nodes answer. Then for each sandbox that the
-- scheduler holds the client gives a host with the port that the scheduler has, and for an ID that
-- the scheduler does not hold the client gives no host.
pub tables_agree :
    {W : Type 0} (fl : Float64) (connect : String → NodeAgentClient W) (ws : Duration → ℕ) (w : W)
    (s : System W) (id : String)
    → Moves fl connect ws (start ws w) s
    → ((sb : Sandbox)
        → get s.sandboxes id ≡ some sb
        → (host : String) × (get_sandbox_host id s.world ≡ some (host, sb.status.host_port)))
      × (get s.sandboxes id ≡ none → get_sandbox_host id s.world ≡ none)
tables_agree fl connect ws w s id p =
    let h = Moves-IsRouted fl connect ws w p in
    (
      λ sb e. host_of_place s.world id sb (h.places id sb e),
      λ e. host-none s.world id (h.only id e),
    )
