-- ===== src/Orchestrator/Firecracker/Status.antt =====
-- internal/orchestrator/runtime_firecracker.go: `GetSandboxStatus`, `ListSandboxes` and what
-- `ExecCommand` makes of the answer of envd.
use open_e2b.Prelude.{ℕ, String, string_eq, List, map, none, some}
use Prim.Native.String.{◌++◌ as ◌<>◌}
use open_e2b.Prelude.GoMap.{get}
use open_e2b.Prelude.GoMap.Range.{Order, range}
use open_e2b.Prelude.Text.{show_int32}
use open_e2b.Prelude.Action.{done, failed, Action}
use open_e2b.Orchestrator.Types.{SandboxInfo, SandboxRuntime, unix}
use open_e2b.Orchestrator.Firecracker.{Os, Sdk, FirecrackerSandbox, Host}
use open_e2b.Orchestrator.Firecracker.Methods.{
  create_sandbox, stop_sandbox, pause_sandbox, resume_sandbox,
}

unfoldable pub info_of : {V : Type 0} → String → FirecrackerSandbox V → SandboxInfo
info_of id sb = record {
  sandbox_id = id;
  template_id = sb.spec.template_id;
  build_id = sb.spec.build_id;
  state = sb.state;
  envd_address = sb.vm_ip <> ":" <> show_int32 sb.envd_port;
  envd_port = sb.envd_port;
  started_at = unix sb.started_at;
  expires_at = unix sb.expires_at;
  cpu_count = sb.spec.cpu_count;
  memory_mb = sb.spec.memory_mb;
  error = "";
}

abbrev info_at : {V : Type 0} → String × FirecrackerSandbox V → SandboxInfo
info_at (id, sb) = info_of id sb

module _ {W V : Type 0} where
  unfoldable pub get_sandbox_status : String → Action (Host W V) SandboxInfo
  get_sandbox_status id h = elim (get h.runtime.sandboxes id) [
    | none ↦ (failed ("sandbox not found: " <> id), h)
    | some sb ↦ (done (info_of id sb), h)
  ]

  unfoldable pub list_sandboxes : Order → Action (Host W V) (List SandboxInfo)
  list_sandboxes o h = (done (map info_at (range o h.runtime.sandboxes)), h)

  unfoldable pub firecracker_runtime : Os W → Sdk W V → ℕ → Order → SandboxRuntime (Host W V)
  firecracker_runtime os sdk fuel o = record {
    create_sandbox = create_sandbox os sdk fuel;
    stop_sandbox = stop_sandbox os sdk fuel;
    pause_sandbox = pause_sandbox os sdk fuel;
    resume_sandbox = resume_sandbox os sdk fuel;
    get_sandbox_status = get_sandbox_status;
    list_sandboxes = list_sandboxes o;
  }
