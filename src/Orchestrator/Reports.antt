-- ===== src/Orchestrator/Reports.antt =====
-- The agent of internal/orchestrator/service.go over the runtime of
-- internal/orchestrator/runtime_docker.go: what its answers say of the sandboxes.
use open_e2b.Prelude.{
  ℕ, String, true, false, ◌≡◌, refl, ap, ◌∙◌, List, some, string_eq, ◌==◌, Bool-cases, inl, inr,
  arith,
}
use open_e2b.Prelude.GoMap.{get, put, get-put_self}
use open_e2b.Prelude.GoMap.Range.{Order}
use open_e2b.Prelude.Time.{Time}
use open_e2b.Prelude.Action.{Outcome, done, failed, Shell}
use open_e2b.Orchestrator.Types.{SandboxSpec}
use open_e2b.Orchestrator.Agent
use open_e2b.Orchestrator.Agent.{CreateSandboxRequest, CreateSandboxResponse, spec_of}
use open_e2b.Orchestrator.Docker.{
  DockerSandbox, DockerRuntime, Host, tracked, allocate_port, pick_port, release_port, run_args,
}
use open_e2b.Orchestrator.Docker.Methods
use open_e2b.Orchestrator.Docker.Methods.{docker, find_image, finish_create}
use open_e2b.Orchestrator.Docker.Status.{Container, docker_runtime, get_sandbox_status, info_of}

pick-sandboxes : (r : DockerRuntime) (ps : List ℕ) → (pick_port r ps).1.sandboxes ≡ r.sandboxes
unfolding pick_port
pick-sandboxes r ps = ground arith

module _ {W : Type 0} (sh : Shell W) (decode : String → Outcome (List Container)) where
  injected-runtime :
      (spec : SandboxSpec) (r : DockerRuntime) (w : W) → (Methods.injected sh spec r w).runtime ≡ r
  injected-runtime spec r w = elim (Bool-cases (r.envd_binary_path == "")) [
    | inl b ↦ rw b refl
    | inr b ↦ rw b refl
  ]

  -- What an answer to `CreateSandbox` must say, from the runtime before and the host after.
  abbrev pub IsReported :
      Time → CreateSandboxRequest → Host W → CreateSandboxResponse × Host W → Type 0
  IsReported now req h (resp, g) =
      (resp.success ≡ true
        → (resp.envd_port ≡ (allocate_port h.runtime).0)
          × (get g.runtime.sandboxes req.sandbox_id
              ≡ some (tracked (spec_of req) now resp.envd_port)))
      × (resp.success ≡ false → g.runtime.sandboxes ≡ h.runtime.sandboxes)

  status-tracked :
      (g : Host W) (id : String) (sb : DockerSandbox)
      → get g.runtime.sandboxes id ≡ some sb
      → get_sandbox_status sh decode id g ≡ (done (info_of id sb), g)
  unfolding get_sandbox_status
  status-tracked g id sb e = rw (e, get_sandbox_status) refl

  tracked-IsReported :
      (now : Time) (req : CreateSandboxRequest) (h g : Host W) (p : ℕ)
      → p ≡ (allocate_port h.runtime).0
      → get g.runtime.sandboxes req.sandbox_id ≡ some (tracked (spec_of req) now p)
      → IsReported now req h (
          Agent.with_port
            (docker_runtime sh decode)
            (get_sandbox_status sh decode req.sandbox_id g))
  unfolding info_of tracked
  tracked-IsReported now req h g p q e =
      rw (status-tracked g req.sandbox_id (tracked (spec_of req) now p) e)
        (λ y. (q, e), λ n. ground arith)

  finish-IsReported :
      (now : Time) (req : CreateSandboxRequest) (h : Host W) (p : ℕ) (r : DockerRuntime)
      → p ≡ (allocate_port h.runtime).0
      → r.sandboxes ≡ h.runtime.sandboxes
      → (x : Outcome String × W)
      → IsReported now req h (
          Agent.created
            (docker_runtime sh decode)
            req.sandbox_id
            (finish_create sh now (spec_of req) p r x))
  unfolding finish_create release_port docker_runtime spec_of
  finish-IsReported now req h p r q e (failed err, w) = (λ y. ground arith, λ n. e)
  finish-IsReported now req h p r q e (done text, w) =
      let r' : DockerRuntime = record r {
        sandboxes = put r.sandboxes req.sandbox_id (tracked (spec_of req) now p);
      } in
      tracked-IsReported now req h (Methods.injected sh (spec_of req) r' w) p q (
        ap (λ x. get x.sandboxes req.sandbox_id) (injected-runtime (spec_of req) r' w)
        ∙ get-put_self r.sandboxes req.sandbox_id (tracked (spec_of req) now p))

-- `CreateSandbox` of an agent on docker, whatever the commands answer. With success in the answer,
-- the runtime tracks a sandbox under the ID of the request with the answered port, which is the one
-- that it allocated, as running, with the request's specification and a timeout that counts from
-- the time of the call. Without it, the runtime tracks the sandboxes that it tracked before.
pub create-IsReported :
    {W : Type 0} (sh : Shell W) (decode : String → Outcome (List Container)) (now : Time)
    (o : Order) (req : CreateSandboxRequest) (h : Host W)
    → IsReported sh decode now req h (Agent.create_sandbox (docker_runtime sh decode) now o req h)
unfolding Agent.create_sandbox docker_runtime Methods.create_sandbox
create-IsReported sh decode now o req h =
    let (image, w) = find_image sh (spec_of req) h.world in
    finish-IsReported sh decode now req h (allocate_port h.runtime).0 (allocate_port h.runtime).1
      refl (pick-sandboxes h.runtime h.runtime.available_ports)
      (docker sh "docker run failed" (run_args o (spec_of req) (allocate_port h.runtime).0 image) w)
