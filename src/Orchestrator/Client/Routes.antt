-- ===== src/Orchestrator/Client/Routes.antt =====
-- The scheduler over the client of internal/scheduler/orchestrator_client.go: the two tables that
-- say where a sandbox is, `sandboxes` of the scheduler and `sandboxPorts` of the client.
use open_e2b.Prelude.{
  ℕ, String, ◌≡◌, ◌≢◌, refl, sym, ◌∙◌, Option, none, some, arith, inl, inr, Bool-cases,
  Option-cases, ==_iff, string_eq,
}
use mathlib.Core.Path.{subst}
use open_e2b.Prelude.GoMap.{
  GoMap, get, put, remove, get-put, get-put_cases, get-remove, get-remove_kept,
}
use open_e2b.Prelude.GoMap.Range.{Order}
use open_e2b.Prelude.Time
use open_e2b.Prelude.Time.{Time, Duration}
use open_e2b.Scheduler.Types.{
  Node, Sandbox, SandboxSpec, Scheduler, running, paused, stopped, SandboxState, is_running,
  is_paused,
}
use open_e2b.Scheduler.Select.{Float64, select_node}
use open_e2b.Scheduler.Monad.{continue, modify, return, ◌>>◌, ◌>>=◌}
use open_e2b.Scheduler.Ops
use open_e2b.Scheduler.Ops.{
  schedule, stop, pause, resume, extend_timeout, register_node, unregister_node, new_scheduler,
  with_state, with_expiry, on_node_if,
}
use open_e2b.Orchestrator.Client.Cases.{create_cases, stop_cases, pause_cases, resume_cases}
use open_e2b.Orchestrator.Client.{
  SandboxLocation, OrchestratorClient, location, widen, node_operations,
}

-- The client has a place for a sandbox, on its node and with its port.
pub record Place (l : SandboxLocation) (sb : Sandbox) : Type 0 where
  pub node : l.node_id ≡ sb.status.node_id
  pub port : l.host_port ≡ sb.status.host_port

abbrev pub HasPlace : Option SandboxLocation → Sandbox → Type 0
HasPlace none sb = ⊥
HasPlace (some l) sb = Place l sb

module _ (m : GoMap String SandboxLocation) (k j : String) (sb : Sandbox) where
  new-HasPlace : (l : SandboxLocation) → k ≡ j → Place l sb → HasPlace (get (put m k l) j) sb
  new-HasPlace l same h =
      let found : some l ≡ get (put m k l) j = ground (arith, get-put m k j l, ==_iff k j) in
      subst (λ x. HasPlace x sb) found h

  put-HasPlace :
      (l : SandboxLocation) → k ≢ j → HasPlace (get m j) sb → HasPlace (get (put m k l) j) sb
  put-HasPlace l other h =
      subst (λ x. HasPlace x sb) (ground (arith, get-put m k j l, ==_iff k j)) h

  remove-HasPlace : k ≢ j → HasPlace (get m j) sb → HasPlace (get (remove m k) j) sb
  remove-HasPlace other h =
      subst (λ x. HasPlace x sb) (ground (arith, get-remove m k j, ==_iff k j)) h

-- A place depends only on the node and the port of a sandbox.
moved-HasPlace :
    (l : Option SandboxLocation) (a b : Sandbox)
    → b.status.node_id ≡ a.status.node_id
    → b.status.host_port ≡ a.status.host_port
    → HasPlace l a
    → HasPlace l b
moved-HasPlace none a b node port h = elim h [ ]
moved-HasPlace (some l) a b node port h = record {
  node = h.node ∙ sym node;
  port = h.port ∙ sym port;
}

module _ {W : Type 0} (ws : Duration → ℕ) where
  -- The scheduler calls the client, which knows a place for each sandbox and for no other.
  pub record IsRouted (s : Scheduler (OrchestratorClient W)) : Type 0 where
    pub ops : s.node_ops ≡ some (node_operations ws)
    pub places :
        (id : String) (sb : Sandbox)
        → get s.sandboxes id ≡ some sb
        → HasPlace (get s.world.sandbox_ports id) sb
    pub only : (id : String) → get s.sandboxes id ≡ none → get s.world.sandbox_ports id ≡ none

  module _ (s : Scheduler (OrchestratorClient W)) (h : IsRouted s) where
    in_world-IsRouted : (w : W) → IsRouted (record s { world = record s.world { world = w } })
    in_world-IsRouted w = record { ops = h.ops; places = h.places; only = h.only }

    pub place-IsRouted :
        (fl : Float64) (o : Order) (spec : SandboxSpec) (started now : Time)
        → IsRouted (schedule fl o spec started now s).1
    unfolding schedule node_operations Ops.place Ops.with_ports Ops.new_sandbox location
    place-IsRouted fl o spec started now = elim (Option-cases (select_node fl o s.nodes spec)) [
      | inl e ↦ rw e h
      | inr ((key, n), e) ↦
          simp (e, h.ops)
            (create_cases s.world n
              (λ x.
                IsRouted
                  (continue x.0
                    (λ r.
                      modify
                        (Ops.place key n (Ops.with_ports r (Ops.new_sandbox spec n started now)))
                      >> return (
                          with_state running
                            (Ops.with_ports r (Ops.new_sandbox spec n started now))))
                    (record s { node_ops = some (node_operations ws); world = x.1 })).1)
              spec (λ e w. record { ops = refl; places = h.places; only = h.only })
              (λ p w. record {
                ops = refl;
                places = λ j x g.
                    get-put_cases
                      (HasPlace (get (put s.world.sandbox_ports spec.id (location n p)) j))
                      s.sandboxes spec.id j _ x g
                      (λ same.
                        new-HasPlace s.world.sandbox_ports spec.id j _ (location n p) same
                          (record { node = refl; port = refl }))
                      (λ other old.
                        put-HasPlace s.world.sandbox_ports spec.id j x (location n p) other
                          (h.places j x old));
                only = λ j g. ground (
                  arith,
                  get-put s.sandboxes spec.id j (
                      with_state running (
                        Ops.with_ports (some (record { host_port = widen p; envd_port = widen p }))
                          (Ops.new_sandbox spec n started now))),
                  get-put s.world.sandbox_ports spec.id j (location n p),
                  h.only j,
                );
              })
              ws)
    ]

    pub stop-IsRouted : (id : String) → IsRouted (stop id s).1
    unfolding stop node_operations Ops.drop_sandbox
    stop-IsRouted id = elim (Option-cases (get s.sandboxes id)) [
      | inl e ↦ rw e h
      | inr (sb, e) ↦ elim (Option-cases (get s.nodes sb.status.node_id)) [
        | inl f ↦ rw (e, f) h
        | inr (n, f) ↦
            simp (e, f, h.ops)
              (stop_cases s.world n
                (λ x.
                  IsRouted
                    (continue x.0 (λ (u : Unit {0}). modify (Ops.drop_sandbox id n sb))
                      (record s { node_ops = some (node_operations ws); world = x.1 })).1)
                id (λ e w. record { ops = refl; places = h.places; only = h.only })
                (λ w. record {
                  ops = refl;
                  places = λ j x g.
                      let (kept, other) =
                        get-remove_kept (put s.sandboxes id (with_state stopped sb)) id j x g in
                      remove-HasPlace s.world.sandbox_ports id j x other (
                        h.places j x (
                          ground (
                            arith,
                            get-put s.sandboxes id j (with_state stopped sb),
                            ==_iff id j,
                          )));
                  only = λ j g. ground (
                    arith,
                    get-remove (put s.sandboxes id (with_state stopped sb)) id j,
                    get-put s.sandboxes id j (with_state stopped sb),
                    get-remove s.world.sandbox_ports id j,
                    h.only j,
                  );
                }))
      ]
    ]

    -- A sandbox that is written back where it was.
    restate-IsRouted :
        (id : String) (sb new : Sandbox) (w : W)
        → get s.sandboxes id ≡ some sb
        → new.status.node_id ≡ sb.status.node_id
        → new.status.host_port ≡ sb.status.host_port
        → IsRouted
            (record s { sandboxes = put s.sandboxes id new; world = record s.world { world = w } })
    restate-IsRouted id sb new w e node port = record {
      ops = h.ops;
      places = λ j x g.
          get-put_cases (HasPlace (get s.world.sandbox_ports j)) s.sandboxes id j new x g
            (λ same.
              moved-HasPlace (get s.world.sandbox_ports j) sb new node port
                (h.places j sb (subst (λ k. get s.sandboxes k ≡ some sb) same e)))
            (λ other old. h.places j x old);
      only = λ j g. h.only j (ground (arith, get-put s.sandboxes id j new));
    }

    module _ (id : String) (st : SandboxState) (sb : Sandbox)
        (e : get s.sandboxes id ≡ some sb) where
      written-IsRouted :
          (w : W)
          → IsRouted (record s {
            sandboxes = put s.sandboxes id (with_state st sb);
            world = record s.world { world = w };
          })
      written-IsRouted w = restate-IsRouted id sb (with_state st sb) w e refl refl

      paused-IsRouted :
          (n : Option Node)
          → IsRouted
              ((on_node_if n (λ ops n. ops.pause_sandbox n id) >>= λ _.
                  modify (Ops.update_sandbox id (with_state st sb)))
                s).1
      unfolding node_operations Ops.update_sandbox
      paused-IsRouted none = written-IsRouted s.world.world
      paused-IsRouted (some n) = simp h.ops (
          pause_cases s.world n
            (λ x.
              IsRouted
                (continue x.0 (λ (u : Unit {0}). modify (Ops.update_sandbox id (with_state st sb)))
                  (record s { node_ops = some (node_operations ws); world = x.1 })).1)
            id (λ e w. record { ops = refl; places = h.places; only = h.only })
            (λ w. record {
              ops = refl;
              places = (written-IsRouted w).places;
              only = (written-IsRouted w).only;
            }))

      resumed-IsRouted :
          (n : Option Node)
          → IsRouted
              ((on_node_if n (λ ops n. ops.resume_sandbox n id) >>= λ _.
                  modify (Ops.update_sandbox id (with_state st sb)))
                s).1
      unfolding node_operations Ops.update_sandbox
      resumed-IsRouted none = written-IsRouted s.world.world
      resumed-IsRouted (some n) = simp h.ops (
          resume_cases s.world n
            (λ x.
              IsRouted
                (continue x.0 (λ (u : Unit {0}). modify (Ops.update_sandbox id (with_state st sb)))
                  (record s { node_ops = some (node_operations ws); world = x.1 })).1)
            id (λ e w. record { ops = refl; places = h.places; only = h.only })
            (λ w. record {
              ops = refl;
              places = (written-IsRouted w).places;
              only = (written-IsRouted w).only;
            }))

    pub pause-IsRouted : (id : String) → IsRouted (pause id s).1
    unfolding pause
    pause-IsRouted id = elim (Option-cases (get s.sandboxes id)) [
      | inl e ↦ rw e h
      | inr (sb, e) ↦ elim (Bool-cases (is_running sb.status.state)) [
        | inl r ↦ simp (e, r) (paused-IsRouted id paused sb e (get s.nodes sb.status.node_id))
        | inr r ↦ simp (e, r) h
      ]
    ]

    pub resume-IsRouted : (id : String) → IsRouted (resume id s).1
    unfolding resume
    resume-IsRouted id = elim (Option-cases (get s.sandboxes id)) [
      | inl e ↦ rw e h
      | inr (sb, e) ↦ elim (Bool-cases (is_paused sb.status.state)) [
        | inl r ↦ simp (e, r) (resumed-IsRouted id running sb e (get s.nodes sb.status.node_id))
        | inr r ↦ simp (e, r) h
      ]
    ]

    pub extend-IsRouted :
        (id : String) (d : Duration) (now : Time) → IsRouted (extend_timeout id d now s).1
    unfolding extend_timeout Ops.update_sandbox
    extend-IsRouted id d now = elim (Option-cases (get s.sandboxes id)) [
      | inl e ↦ rw e h
      | inr (sb, e) ↦
          simp e
            (restate-IsRouted id sb (with_expiry (Time.add now d) sb) s.world.world e refl refl)
    ]
