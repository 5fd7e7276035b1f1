-- ===== src/Orchestrator/Docker/Safety.antt =====
-- The docker runtime as a transition system: its methods in any order, whatever the commands answer.
use open_e2b.Prelude.{
  ℕ, suc, ◌+◌, ◌≤◌, ◌<◌, String, Bool, ◌≡◌, ◌≢◌, refl, some, All, string_eq, arith, Option-cases,
  Bool-cases, ◌==◌, inl, inr,
}
use open_e2b.Prelude.GoMap.{get}
use open_e2b.Prelude.GoMap.Range.{Order}
use open_e2b.Prelude.Time.{Time}
use open_e2b.Prelude.Action.{Outcome, done, failed, Shell}
use open_e2b.Orchestrator.Types.{SandboxSpec}
use open_e2b.Orchestrator.Docker.{
  DockerSandbox, DockerRuntime, Host, new_docker_runtime, allocate_port, with_state, tracked,
  run_args,
}
use open_e2b.Orchestrator.Docker.Methods.{
  docker, find_image, after, create_sandbox, finish_create, forget, set_state, stop_sandbox,
  pause_sandbox, resume_sandbox,
}
use open_e2b.Orchestrator.Docker.Ports.{
  Free, HasPorts, release-HasPorts, put-HasPorts, remove-HasPorts, remove-Free, restate-HasPorts,
  allocate-HasPorts,
}

module _ {n : ℕ} where
  forget-HasPorts : (id : String) (r : DockerRuntime) → HasPorts n r → HasPorts n (forget id r)
  unfolding forget
  forget-HasPorts id r h = elim (Option-cases (get r.sandboxes id)) [
    | inl e ↦ rw (e, forget) (remove-HasPorts h id)
    | inr (sb, e) ↦
        rw (e, forget)
          (release-HasPorts (remove-HasPorts h id) sb.envd_port (remove-Free h id sb e))
  ]

  set_state-HasPorts :
      (id st : String) (r : DockerRuntime) → HasPorts n r → HasPorts n (set_state id st r)
  unfolding set_state
  set_state-HasPorts id st r h = elim (Option-cases (get r.sandboxes id)) [
    | inl e ↦ rw (e, set_state) h
    | inr (sb, e) ↦ rw (e, set_state) (restate-HasPorts h id sb (with_state st sb) e refl)
  ]

  after-HasPorts {ℓ} :
      {W : Type 0} {A : Type ℓ} (a : A) (f : DockerRuntime → DockerRuntime) (r : DockerRuntime)
      (x : Outcome String × W)
      → HasPorts n r
      → HasPorts n (f r)
      → HasPorts n (after a f r x).1.runtime
  after-HasPorts a f r (failed e, w) h k = h
  after-HasPorts a f r (done text, w) h k = k

module _ {W : Type 0} (sh : Shell W) where
  -- The number of calls of `CreateSandbox` is counted.
  pub data Reach (h : Host W) : ℕ → Host W → Type 0 where
    here : Reach h 0 h
    creates :
        {n : ℕ} {g : Host W} (now : Time) (o : Order) (spec : SandboxSpec)
        → Reach h n g
        → Reach h (suc n) (create_sandbox sh now o spec g).1
    stops :
        {n : ℕ} {g : Host W} (id : String) (force : Bool)
        → Reach h n g
        → Reach h n (stop_sandbox sh id force g).1
    pauses : {n : ℕ} {g : Host W} (id : String) → Reach h n g → Reach h n (pause_sandbox sh id g).1
    resumes :
        {n : ℕ} {g : Host W} (id snapshot : String)
        → Reach h n g
        → Reach h n (resume_sandbox sh id snapshot g).1

  finish-HasPorts :
      {n : ℕ} (now : Time) (spec : SandboxSpec) (p : ℕ) (r : DockerRuntime) (x : Outcome String × W)
      → HasPorts n r
      → Free p r
      → HasPorts n (finish_create sh now spec p r x).1.runtime
  unfolding finish_create tracked
  finish-HasPorts now spec p r (failed e, w) h f = release-HasPorts h p f
  finish-HasPorts now spec p r (done text, w) h f = elim (Bool-cases (r.envd_binary_path == "")) [
    | inl b ↦ rw b (put-HasPorts h spec.sandbox_id (tracked spec now p) f)
    | inr b ↦ rw b (put-HasPorts h spec.sandbox_id (tracked spec now p) f)
  ]

  create-HasPorts :
      {n : ℕ} (now : Time) (o : Order) (spec : SandboxSpec) (g : Host W)
      → 49983 + suc n < 4294967296
      → HasPorts n g.runtime
      → HasPorts (suc n) (create_sandbox sh now o spec g).1.runtime
  unfolding create_sandbox
  create-HasPorts now o spec g small h =
      let (image, w) = find_image sh spec g.world in
      let (h', f) = allocate-HasPorts h small in
      finish-HasPorts now spec (allocate_port g.runtime).0 (allocate_port g.runtime).1
        (docker sh "docker run failed" (run_args o spec (allocate_port g.runtime).0 image) w) h' f

  -- An invariant of any host that the methods reach, for as long as the ports last.
  Reach-HasPorts :
      {h g : Host W} {n : ℕ}
      → Reach h n g
      → HasPorts 0 h.runtime
      → 49983 + n < 4294967296
      → HasPorts n g.runtime
  unfolding stop_sandbox pause_sandbox resume_sandbox
  Reach-HasPorts here i small = i
  Reach-HasPorts (creates now o spec p) i small =
      create-HasPorts now o spec _ small (Reach-HasPorts p i (ground arith))
  Reach-HasPorts (stops {g} id force p) i small =
      let k = Reach-HasPorts p i small in
      after-HasPorts tt (forget id) g.runtime _ k (forget-HasPorts id g.runtime k)
  Reach-HasPorts (pauses {g} id p) i small =
      let k = Reach-HasPorts p i small in
      after-HasPorts id (set_state id "paused") g.runtime _ k
        (set_state-HasPorts id "paused" g.runtime k)
  Reach-HasPorts (resumes {g} id snapshot p) i small =
      let k = Reach-HasPorts p i small in
      after-HasPorts tt (set_state id "running") g.runtime _ k
        (set_state-HasPorts id "running" g.runtime k)

  new-HasPorts :
      (artifacts sandboxes : String) (w : W)
      → HasPorts 0 (new_docker_runtime sh artifacts sandboxes w).runtime
  unfolding new_docker_runtime get
  new-HasPorts artifacts sandboxes w = record {
    start = ground arith;
    bound = ground arith;
    low = λ id sb e. ground arith;
    high = λ id sb e. ground arith;
    apart = λ i j a b e f same. ground arith;
    pool_range = tt;
    pool_unique = tt;
    pool_free = λ id sb e. tt;
  }

-- From a new runtime on, after n calls of `CreateSandbox` and any calls of the other methods, whatever
-- the commands answer: two sandboxes that are tracked under different IDs have different ports, and
-- no port of a tracked sandbox is in the pool, provided that the ports have not wrapped around,
-- 49983 + n < 2^32.
pub docker_ports_apart :
    {W : Type 0} (sh : Shell W) (artifacts sandboxes : String) (w : W) (n : ℕ) (g : Host W)
    (i j : String) (a b : DockerSandbox)
    → Reach sh (new_docker_runtime sh artifacts sandboxes w) n g
    → 49983 + n < 4294967296
    → get g.runtime.sandboxes i ≡ some a
    → get g.runtime.sandboxes j ≡ some b
    → i ≢ j
    → (a.envd_port ≢ b.envd_port) × All (λ q. q ≢ a.envd_port) g.runtime.available_ports
docker_ports_apart sh artifacts sandboxes w n g i j a b p small e f other =
    let h = Reach-HasPorts sh p (new-HasPorts sh artifacts sandboxes w) small in
    (λ same. other (h.apart i j a b e f same), h.pool_free i a e)

-- From a new runtime on, after at most 15553 calls of `CreateSandbox` and any calls of the other
-- methods, the port of each tracked sandbox is a TCP port from 49983 to 65535.
pub docker_ports_bounded :
    {W : Type 0} (sh : Shell W) (artifacts sandboxes : String) (w : W) (n : ℕ) (g : Host W)
    (id : String) (sb : DockerSandbox)
    → Reach sh (new_docker_runtime sh artifacts sandboxes w) n g
    → n ≤ 15553
    → get g.runtime.sandboxes id ≡ some sb
    → (49983 ≤ sb.envd_port) × (sb.envd_port ≤ 65535)
docker_ports_bounded sh artifacts sandboxes w n g id sb p few e =
    let h = Reach-HasPorts sh p (new-HasPorts sh artifacts sandboxes w) (ground arith) in
    (h.low id sb e, ground (arith, h.high id sb e, h.bound))
