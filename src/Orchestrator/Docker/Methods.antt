-- ===== src/Orchestrator/Docker/Methods.antt =====
-- internal/orchestrator/runtime_docker.go: the methods that run commands.
use open_e2b.Prelude.{
  ℕ, String, Bool, ◌==◌, string_eq, List, [], ◌∷◌, ◌++◌, none, some, if◌then◌else◌,
}
use Prim.Native.String.{◌++◌ as ◌<>◌}
use open_e2b.Prelude.GoMap.{get, put, remove}
use open_e2b.Prelude.GoMap.Range.{Order}
use open_e2b.Prelude.Time.{Time}
use open_e2b.Prelude.Action.{Outcome, done, failed, Action, ◌>>◌, Output, Shell}
use open_e2b.Orchestrator.Types.{SandboxSpec}
use open_e2b.Orchestrator.Docker.{
  DockerRuntime, Host, allocate_port, release_port, optional, run_args, tracked, with_state,
}

unfoldable pub forget : String → DockerRuntime → DockerRuntime
forget id r = elim (get r.sandboxes id) [
  | none ↦ record r { sandboxes = remove r.sandboxes id }
  | some sb ↦ release_port sb.envd_port (record r { sandboxes = remove r.sandboxes id })
]

unfoldable pub set_state : String → String → DockerRuntime → DockerRuntime
set_state id st r = elim (get r.sandboxes id) [
  | none ↦ r
  | some sb ↦ record r { sandboxes = put r.sandboxes id (with_state st sb) }
]

-- The runtime changes only where the command ended well.
abbrev pub after {ℓ} :
    {W : Type 0} {A : Type ℓ}
    → A
    → (DockerRuntime → DockerRuntime)
    → DockerRuntime
    → Outcome String × W
    → Outcome A × Host W
after a f r (failed e, w) = (failed e, record { runtime = r; world = w })
after a f r (done text, w) = (done a, record { runtime = f r; world = w })

module _ {W : Type 0} (sh : Shell W) where
  abbrev judged : String → Output × W → Outcome String × W
  judged what (out, w) = elim out.error [
    | none ↦ (done out.text, w)
    | some e ↦ (failed (what <> ": " <> out.text <> ": " <> e), w)
  ]

  -- A docker command; an error is "what: output: error".
  abbrev pub docker : String → List String → Action W String
  docker what args w = judged what (sh "docker" args w)

  abbrev envd_seen : String → Output × W → Outcome (Unit {0}) × W
  envd_seen id (out, w) = elim out.error [
    | none ↦ (done tt, w)
    | some e ↦
        let (log, w') = sh "docker" ("exec" ∷ id ∷ "cat" ∷ "/var/log/envd.log" ∷ []) w in
        (failed ("envd not running, log: " <> log.text), w')
  ]

  unfoldable pub inject_and_start_envd : String → String → String → Action W (Unit {0})
  inject_and_start_envd path id token = do
    docker "failed to copy envd binary" ("cp" ∷ path ∷ (id <> ":/usr/local/bin/envd") ∷ [])
    docker "failed to chmod envd" ("exec" ∷ id ∷ "chmod" ∷ "+x" ∷ "/usr/local/bin/envd" ∷ [])
    docker "failed to start envd" (
        "exec"
        ∷ "-d"
        ∷ id
        ∷ "/bin/sh"
        ∷ "-c"
        ∷ ("E2B_ACCESS_TOKEN=" <> token
            <> " E2B_ENVD_PORT=49983 /usr/local/bin/envd > /var/log/envd.log 2>&1")
        ∷ [])
    λ w. envd_seen id (sh "docker" ("exec" ∷ id ∷ "pgrep" ∷ "-f" ∷ "envd" ∷ []) w)

  abbrev image_of : String → Output × W → String × W
  image_of image (out, w) = elim out.error [ none ↦ (image, w) | some e ↦ ("ubuntu:22.04", w) ]

  -- The image of the template, or a plain one where there is none.
  unfoldable pub find_image : SandboxSpec → W → String × W
  find_image spec w =
      let image = "e2b/" <> spec.template_id <> ":" <> spec.build_id in
      image_of image (sh "docker" ("image" ∷ "inspect" ∷ image ∷ []) w)

  -- An error of the injection is only logged.
  abbrev pub injected : SandboxSpec → DockerRuntime → W → Host W
  injected spec r w =
      if r.envd_binary_path == "" then record { runtime = r; world = w } else record {
        runtime = r;
        world = (inject_and_start_envd r.envd_binary_path spec.sandbox_id spec.envd_token w).1;
      }

  -- What follows `docker run`: the port is released on an error, the sandbox tracked otherwise.
  unfoldable pub finish_create :
      Time → SandboxSpec → ℕ → DockerRuntime → Outcome String × W → Outcome (Unit {0}) × Host W
  finish_create now spec port r (failed e, w) =
      (failed e, record { runtime = release_port port r; world = w })
  finish_create now spec port r (done text, w) = (
    done tt,
    injected spec (record r { sandboxes = put r.sandboxes spec.sandbox_id (tracked spec now port) })
        w,
  )

  unfoldable pub create_sandbox : Time → Order → SandboxSpec → Action (Host W) (Unit {0})
  create_sandbox now o spec h =
      let (image, w) = find_image spec h.world in
      let (port, r) = allocate_port h.runtime in
      finish_create now spec port r (docker "docker run failed" (run_args o spec port image) w)

  unfoldable pub stop_sandbox : String → Bool → Action (Host W) (Unit {0})
  stop_sandbox id force h =
      after tt (forget id) h.runtime
        (docker "docker rm failed" ("rm" ∷ (optional force ("-f" ∷ []) ++ (id ∷ []))) h.world)

  -- The ID of the snapshot is the ID of the sandbox.
  unfoldable pub pause_sandbox : String → Action (Host W) String
  pause_sandbox id h =
      after id (set_state id "paused") h.runtime
        (docker "docker pause failed" ("pause" ∷ id ∷ []) h.world)

  unfoldable pub resume_sandbox : String → String → Action (Host W) (Unit {0})
  resume_sandbox id snapshot h =
      after tt (set_state id "running") h.runtime
        (docker "docker unpause failed" ("unpause" ∷ id ∷ []) h.world)
