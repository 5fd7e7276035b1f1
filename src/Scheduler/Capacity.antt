-- ===== src/Scheduler/Capacity.antt =====
-- No node is overcommitted: the sandboxes on it never ask for more, in sum, than it has.
use open_e2b.Prelude.{String, ◌≡◌, ◌≢◌, refl, none, some, true, arith, ==_iff, string_eq}
use open_e2b.Prelude.GoMap.{GoMap, get, put, remove, get-put_cases, get-remove_kept}
use open_e2b.Scheduler.Types.{Node, Sandbox, Scheduler, running, stopped}
use open_e2b.Scheduler.Select.{Float64, eligible}
use open_e2b.Scheduler.Placement.{select_node-some}
use open_e2b.Scheduler.Ops.{
  place, drop_sandbox, update_sandbox, register_node, unregister_node, allocate, release,
  with_state, with_ports, new_sandbox,
}
use open_e2b.Scheduler.Books.{Quantity, load, load-put_new, load-put_same, load-drop, IsBooked}
use open_e2b.Scheduler.Cases.{
  in_world, stop_cases, pause_cases, resume_cases, extend_timeout_cases, schedule_cases,
}
use open_e2b.Scheduler.Room.{Fits, IsRequest, Fits-mono, allocate-Fits, release-Fits}
use open_e2b.Scheduler.Accounts.{
  Accounts, in_world-Accounts, update_sandbox-Accounts, place-Accounts, drop_sandbox-Accounts,
  replaced,
}
use open_e2b.Scheduler.Steps.{
  Step, Reach, registers, unregisters, schedules, stops, pauses, resumes, extends, here, next,
}
use open_e2b.Scheduler.Balance.{
  register_node-Accounts, unregister_node-Accounts, new_sandbox_fields,
}

pub record WithinCapacity {W : Type 0} (s : Scheduler W) : Type 0 where
  pub accounts : Accounts s
  pub fits : (k : String) (n : Node) → get s.nodes k ≡ some n → Fits s.sandboxes n

in_world-WithinCapacity :
    {W : Type 0} (s : Scheduler W) → WithinCapacity s → (w : W) → WithinCapacity (in_world s w)
in_world-WithinCapacity s v w = record {
  accounts = in_world-Accounts s v.accounts w;
  fits = v.fits;
}

module _ {W : Type 0} (s : Scheduler W) (v : WithinCapacity s) where
  update_sandbox-WithinCapacity :
      (id : String) (old sb : Sandbox)
      → get s.sandboxes id ≡ some old
      → sb.spec ≡ old.spec
      → sb.status.node_id ≡ old.status.node_id
      → WithinCapacity (update_sandbox id sb s)
  update_sandbox-WithinCapacity id old sb h e p = record {
    accounts = update_sandbox-Accounts s v.accounts id old sb h e p;
    fits =
        unfold update_sandbox in
        λ k n q.
          Fits-mono s.sandboxes (put s.sandboxes id sb) n (λ f. omega (arith, same f n))
            (v.fits k n q);
  }
    where
      same :
          (f : Quantity) (n : Node)
          → load f n.spec.id (put s.sandboxes id sb) ≡ load f n.spec.id s.sandboxes
      same f n = load-put_same f n.spec.id s.sandboxes id old sb h (rw (e, p))

  place-WithinCapacity :
      (key : String) (n : Node) (sb : Sandbox)
      → get s.nodes key ≡ some n
      → get s.sandboxes sb.spec.id ≡ none
      → sb.status.node_id ≡ n.spec.id
      → eligible sb.spec n ≡ true
      → IsRequest sb.spec
      → WithinCapacity (place key n sb s)
  place-WithinCapacity key n sb h new e chosen r = record {
    accounts = place-Accounts s v.accounts key n sb h new e;
    fits =
        unfold place in
        λ k x q.
          (replaced s.nodes v.accounts.node_ids (Fits after) key n (allocate sb.spec n) h
            (unfold allocate in refl)
            (allocate-Fits s.sandboxes n sb.spec.id (with_state running sb) new e
              (v.accounts.booked key n h) (v.fits key n h) r chosen)
            others k x q).1;
  }
    where
      after : GoMap String Sandbox
      after = put s.sandboxes sb.spec.id (with_state running sb)

      others :
          (k : String) (x : Node) → get s.nodes k ≡ some x → n.spec.id ≢ x.spec.id → Fits after x
      others k x q differ =
          Fits-mono s.sandboxes after x
            (λ f. ground (
              arith,
              load-put_new f x.spec.id s.sandboxes sb.spec.id (with_state running sb) new,
              ==_iff sb.status.node_id x.spec.id,
            ))
            (v.fits k x q)

  drop_sandbox-WithinCapacity :
      (id : String) (n : Node) (sb : Sandbox)
      → get s.sandboxes id ≡ some sb
      → get s.nodes sb.status.node_id ≡ some n
      → WithinCapacity (drop_sandbox id n sb s)
  drop_sandbox-WithinCapacity id n sb h e = record {
    accounts = drop_sandbox-Accounts s v.accounts id n sb h e;
    fits =
        unfold drop_sandbox in
        λ k x q.
          (replaced s.nodes v.accounts.node_ids (Fits after) sb.status.node_id n (release sb.spec n)
            e (unfold release in refl) (release-Fits after n sb.spec (less n (v.fits _ n e)))
            (λ j y p _. less y (v.fits j y p)) k x q).1;
  }
    where
      after : GoMap String Sandbox
      after = remove (put s.sandboxes id (with_state stopped sb)) id

      less : (x : Node) → Fits s.sandboxes x → Fits after x
      less x = Fits-mono s.sandboxes after x λ f. omega (
        arith,
        load-drop f x.spec.id s.sandboxes id sb (with_state stopped sb)
            v.accounts.sandboxes_distinct h refl,
      )

  register_node-WithinCapacity :
      (n : Node) → IsBooked s.sandboxes n → Fits s.sandboxes n → WithinCapacity (register_node n s)
  register_node-WithinCapacity n b f = record {
    accounts = register_node-Accounts v.accounts n b;
    fits =
        unfold register_node in
        λ k x q.
          get-put_cases (Fits s.sandboxes) s.nodes n.spec.id k n x q (λ _. f) (λ _. v.fits k x);
  }

  unregister_node-WithinCapacity : (id : String) → WithinCapacity (unregister_node id s)
  unregister_node-WithinCapacity id = record {
    accounts = unregister_node-Accounts v.accounts id;
    fits = unfold unregister_node in λ k x q. v.fits k x (get-remove_kept s.nodes id k x q).0;
  }

module _ {W : Type 0} (fl : Float64) where
  Step-WithinCapacity :
      {s t : Scheduler W} → WithinCapacity s → Step fl Fits IsRequest s t → WithinCapacity t
  Step-WithinCapacity {s} v (registers n b f) = register_node-WithinCapacity s v n b f
  Step-WithinCapacity {s} v (unregisters id) = unregister_node-WithinCapacity s v id
  Step-WithinCapacity {s} v (schedules o spec started now new r) =
      schedule_cases WithinCapacity s (in_world-WithinCapacity s v) fl o spec started now
        λ key n a w e.
          let sb = with_ports a (new_sandbox spec n started now) in
          let (made, on) = new_sandbox_fields a spec n started now in
          let (found, chosen, _) =
            select_node-some fl o s.nodes spec key n v.accounts.nodes_distinct e in
          place-WithinCapacity (in_world s w) (in_world-WithinCapacity s v w) key n sb found
            (rw made new) on (rw made chosen) (rw made r)
  Step-WithinCapacity {s} v (stops id) =
      stop_cases WithinCapacity s (in_world-WithinCapacity s v) id λ sb n w e h.
        drop_sandbox-WithinCapacity (in_world s w) (in_world-WithinCapacity s v w) id n sb e h
  Step-WithinCapacity {s} v (pauses id) =
      pause_cases WithinCapacity s (in_world-WithinCapacity s v) id λ sb w e _.
        update_sandbox-WithinCapacity (in_world s w) (in_world-WithinCapacity s v w) id sb _ e refl
          refl
  Step-WithinCapacity {s} v (resumes id) =
      resume_cases WithinCapacity s (in_world-WithinCapacity s v) id λ sb w e _.
        update_sandbox-WithinCapacity (in_world s w) (in_world-WithinCapacity s v w) id sb _ e refl
          refl
  Step-WithinCapacity {s} v (extends id d now) =
      extend_timeout_cases WithinCapacity s (in_world-WithinCapacity s v) id d now
        λ sb e. update_sandbox-WithinCapacity s v id sb _ e refl refl

  -- From a state whose books balance and whose nodes are not overcommitted, no sequence of steps
  -- overcommits a node: the sums of the CPUs and of the bytes of the sandboxes on it, taken without
  -- wrapping, stay within its sizes. The nodes that are registered fit themselves, and no request
  -- is for a negative amount.
  pub Reach-WithinCapacity :
      {s t : Scheduler W} → WithinCapacity s → Reach fl Fits IsRequest s t → WithinCapacity t
  Reach-WithinCapacity v here = v
  Reach-WithinCapacity v (next r st) = Step-WithinCapacity (Reach-WithinCapacity v r) st
