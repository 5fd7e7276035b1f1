-- ===== src/Orchestrator/Docker/Status.antt =====
-- internal/orchestrator/runtime_docker.go: `GetSandboxStatus` and `ListSandboxes`. What json.Unmarshal
-- makes of the output of `docker inspect` is an argument.
use open_e2b.Prelude.{
  ℕ, String, Bool, true, false, ◌==◌, string_eq, List, [], ◌∷◌, Option, none, some, or_default,
  if◌then◌else◌,
}
use Prim.Native.String.{◌++◌ as ◌<>◌}
use open_e2b.Prelude.Int.{pos}
use open_e2b.Prelude.GoMap.{GoMap, get}
use open_e2b.Prelude.Text.{show_int32, split, trim_space, parse_digits}
use open_e2b.Prelude.Action.{Outcome, done, failed, Action, Output, Shell}
use open_e2b.Orchestrator.Types.{SandboxInfo, SandboxRuntime, unix, int32}
use open_e2b.Orchestrator.Docker.{DockerSandbox, Host}
use open_e2b.Orchestrator.Docker.Methods.{
  create_sandbox, stop_sandbox, pause_sandbox, resume_sandbox,
}

-- What is read of a container; each port maps to the host ports bound to it.
pub record Container : Type 0 where
  pub running : Bool
  pub paused : Bool
  pub labels : GoMap String String
  pub ports : GoMap String (List String)

-- The info of a tracked sandbox.
unfoldable pub info_of : String → DockerSandbox → SandboxInfo
info_of id sb = record {
  sandbox_id = id;
  template_id = sb.spec.template_id;
  build_id = sb.spec.build_id;
  state = sb.state;
  envd_address = "localhost:" <> show_int32 sb.envd_port;
  envd_port = sb.envd_port;
  started_at = unix sb.started_at;
  expires_at = unix sb.expires_at;
  cpu_count = sb.spec.cpu_count;
  memory_mb = sb.spec.memory_mb;
  error = "";
}

abbrev port_of : Option (List String) → ℕ
port_of none = 49983
port_of (some []) = 49983
port_of (some (p ∷ ps)) = int32 (or_default 49983 (parse_digits 0 p))

abbrev state_name : Bool → Bool → String
state_name true paused = "running"
state_name false true = "paused"
state_name false false = "stopped"

unfoldable pub inspected : String → Container → SandboxInfo
inspected id c =
    let port = port_of (get c.ports "49983/tcp") in
    record {
      sandbox_id = id;
      template_id = or_default "" (get c.labels "e2b.template");
      build_id = or_default "" (get c.labels "e2b.build");
      state = state_name c.running c.paused;
      envd_address = "localhost:" <> show_int32 port;
      envd_port = port;
      started_at = pos 0;
      expires_at = pos 0;
      cpu_count = 0;
      memory_mb = 0;
      error = "";
    }

module _ {W : Type 0} (sh : Shell W) (decode : String → Outcome (List Container)) where
  abbrev read_containers : String → Outcome (List Container) → Outcome SandboxInfo
  read_containers id (failed e) = failed e
  read_containers id (done []) = failed ("sandbox not found: " <> id)
  read_containers id (done (c ∷ cs)) = done (inspected id c)

  abbrev read_output : String → Output → Outcome SandboxInfo
  read_output id out = elim out.error [
    | none ↦ read_containers id (decode out.text)
    | some e ↦ failed ("sandbox not found: " <> id)
  ]

  -- A tracked sandbox as it is tracked, any other as `docker inspect` shows it.
  unfoldable pub get_sandbox_status : String → Action (Host W) SandboxInfo
  get_sandbox_status id h = elim (get h.runtime.sandboxes id) [
    | some sb ↦ (done (info_of id sb), h)
    | none ↦
        let (out, w) = sh "docker" ("inspect" ∷ id ∷ []) h.world in
        (read_output id out, record h { world = w })
  ]

  abbrev add_info : Outcome SandboxInfo → List SandboxInfo → List SandboxInfo
  add_info (failed e) rest = rest
  add_info (done i) rest = i ∷ rest

  -- A sandbox whose status is not found is left out.
  unfoldable pub infos : List String → Host W → List SandboxInfo × Host W
  infos [] h = ([], h)
  infos (name ∷ names) h =
      let skipped = infos names h in
      let (r, h') = get_sandbox_status name h in
      let (rest, h'') = infos names h' in if name == "" then skipped else (add_info r rest, h'')

  abbrev listed : Output × W → Host W → Outcome (List SandboxInfo) × Host W
  listed (out, w) h = elim out.error [
    | some e ↦ (failed e, record h { world = w })
    | none ↦
        let (is, h') = infos (split 10 (trim_space out.text)) (record h { world = w }) in
        (done is, h')
  ]

  unfoldable pub list_sandboxes : Action (Host W) (List SandboxInfo)
  list_sandboxes h =
      listed
        (sh "docker"
          ("ps" ∷ "-a" ∷ "--filter" ∷ "label=e2b.sandbox" ∷ "--format" ∷ "{{.Names}}" ∷ []) h.world)
        h

  unfoldable pub docker_runtime : SandboxRuntime (Host W)
  docker_runtime = record {
    create_sandbox = create_sandbox sh;
    stop_sandbox = stop_sandbox sh;
    pause_sandbox = pause_sandbox sh;
    resume_sandbox = resume_sandbox sh;
    get_sandbox_status = get_sandbox_status;
    list_sandboxes = list_sandboxes;
  }
