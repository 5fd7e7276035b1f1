-- ===== src/Orchestrator/DockerSdk/Stale.antt =====
-- What the runtime of internal/orchestrator/runtime_docker_sdk.go says of a sandbox, in whatever order
-- its methods are called.
use open_e2b.Prelude.{
  String, string_eq, Bool, ◌==◌, ◌≡◌, refl, some, ap, ◌∙◌, Bool-cases, Option-cases, inl, inr,
}
use open_e2b.Prelude.GoMap.{get, get-put}
use open_e2b.Prelude.GoMap.Range.{Order}
use open_e2b.Prelude.Time.{Time}
use open_e2b.Prelude.Action.{Outcome, done, failed}
use open_e2b.Orchestrator.Types.{SandboxSpec, SandboxInfo}
use open_e2b.Orchestrator.Docker.{DockerSandbox}
use open_e2b.Orchestrator.DockerSdk
use open_e2b.Orchestrator.DockerSdk.{
  Sdk, Host, Running, tracked, run_container, create_sandbox, stop_sandbox, pause_sandbox,
  resume_sandbox, get_sandbox_status, info_of, Result, returned,
}

module _ {W C : Type 0} (sdk : Sdk W C) where
  pub data Reach (h : Host W) : Host W → Type 0 where
    here : Reach h h
    creates :
        {g : Host W} (now : Time) (o : Order) (spec : SandboxSpec)
        → Reach h g
        → Reach h (create_sandbox sdk now o spec g).1
    stops :
        {g : Host W} (id : String) (force : Bool)
        → Reach h g
        → Reach h (stop_sandbox sdk id force g).1
    pauses : {g : Host W} (id : String) → Reach h g → Reach h (pause_sandbox id g).1
    resumes :
        {g : Host W} (id snapshot : String) → Reach h g → Reach h (resume_sandbox id snapshot g).1
    asks : {g : Host W} (id : String) → Reach h g → Reach h (get_sandbox_status sdk id g).1

  -- The runtime tracks a sandbox as one that runs.
  abbrev Runs : String → Host W → Type 0
  Runs id h = (sb : DockerSandbox) × (get h.runtime.sandboxes id ≡ some sb) × (sb.state ≡ "running")

  created-Runs :
      (id : String) (spec : SandboxSpec) (h : Host W) (x : Outcome Running × W)
      → Runs id h
      → Runs id (DockerSdk.created sdk h.runtime spec x).1
  unfolding tracked
  created-Runs id spec h (failed e, w) s = s
  created-Runs id spec h (done c, w) (sb, e, st) = elim (Bool-cases (spec.sandbox_id == id)) [
    | inl y ↦ (
      tracked spec c,
      rw (get-put h.runtime.sandboxes spec.sandbox_id id (tracked spec c), y) refl,
      refl,
    )
    | inr n ↦ (sb, rw (get-put h.runtime.sandboxes spec.sandbox_id id (tracked spec c), n) e, st)
  ]

  asked-runtime : (id : String) (g : Host W) → (get_sandbox_status sdk id g).1.runtime ≡ g.runtime
  unfolding get_sandbox_status
  asked-runtime id g = elim (Option-cases (get g.runtime.sandboxes id)) [
    | inl e ↦ rw (e, get_sandbox_status) refl
    | inr (sb, e) ↦ rw (e, get_sandbox_status) refl
  ]

  Reach-Runs : (id : String) {h g : Host W} → Reach h g → Runs id h → Runs id g
  unfolding create_sandbox stop_sandbox pause_sandbox resume_sandbox
  Reach-Runs id here s = s
  Reach-Runs id (creates {g} now o spec p) s =
      created-Runs id spec g (run_container sdk g.runtime.envd_binary_path spec g.world)
        (Reach-Runs id p s)
  Reach-Runs id (stops other force p) s = Reach-Runs id p s
  Reach-Runs id (pauses other p) s = Reach-Runs id p s
  Reach-Runs id (resumes other snapshot p) s = Reach-Runs id p s
  Reach-Runs id (asks {g} other p) s =
      let (sb, e, st) = Reach-Runs id p s in
      (sb, ap (λ r. get r.sandboxes id) (asked-runtime other g) ∙ e, st)

-- Once a sandbox runs on the Docker SDK, `GetSandboxStatus` says that it runs for ever after, whatever is
-- done: also when it has been stopped with success, or paused.
pub sdk_status-stale :
    {W C : Type 0} (sdk : Sdk W C) (id : String) (sb : DockerSandbox) (h g : Host W)
    → get h.runtime.sandboxes id ≡ some sb
    → sb.state ≡ "running"
    → Reach sdk h g
    → (info : SandboxInfo) × (get_sandbox_status sdk id g ≡ (returned (done info), g))
      × (info.state ≡ "running")
unfolding get_sandbox_status info_of
sdk_status-stale sdk id sb h g tracked running p =
    let (now, e, st) = Reach-Runs sdk id p (sb, tracked, running) in
    (info_of id now, rw (e, get_sandbox_status) refl, st)
