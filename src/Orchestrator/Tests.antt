-- ===== src/Orchestrator/Tests.antt =====
-- Runs of the runtime, the agent and the client on small inputs.
use open_e2b.Prelude.{
  ℕ, suc, String, false, ◌≡◌, ◌≢◌, refl, List, [], ◌∷◌, none, some, All, string_eq, arith, true,
  ==_iff, ◌≤◌, ◌/◌,
}
use open_e2b.Prelude.Int.{pos}
use open_e2b.Prelude.GoMap.{get, put}
use open_e2b.Prelude.Action.{Outcome, done, failed, Shell}
use open_e2b.Orchestrator.Types.{SandboxSpec, SandboxInfo}
use open_e2b.Orchestrator.DockerSdk
use open_e2b.Orchestrator.DockerSdk.{new_docker_runtime_sdk, returned}
use open_e2b.Orchestrator.DockerSdk.Stale
use open_e2b.Orchestrator.DockerSdk.Stale.{sdk_status-stale}
use open_e2b.Orchestrator.Docker.{
  DockerSandbox, Host, find_first, new_docker_runtime, pick_port, tracked, run_args,
}
use open_e2b.Orchestrator.Docker.Methods.{
  create_sandbox, find_image, finish_create, inject_and_start_envd,
}
use open_e2b.Orchestrator.Docker.Safety
use open_e2b.Orchestrator.Docker.Safety.{Reach, creates, docker_ports_apart, docker_ports_bounded}
use open_e2b.Orchestrator.Agent
use open_e2b.Orchestrator.Agent.{CreateSandboxRequest, spec_of}
use open_e2b.Orchestrator.Docker.Status.{Container, docker_runtime, get_sandbox_status, info_of}
use open_e2b.Orchestrator.Reports.{IsReported, create-IsReported}
use open_e2b.Prelude.Text.{show_int32}
use open_e2b.Orchestrator.Edge.{Request, proxy, sandbox_of, target_of, serve_http}
use open_e2b.Orchestrator.Client.{NodeAgentClient, get_sandbox_host, register_node}
use open_e2b.Orchestrator.Client.Agreement.{
  System, start, here, next, connects, registers, schedules, tables_agree,
}
use open_e2b.Scheduler.Types.{Sandbox}
use open_e2b.Scheduler.Ops
use open_e2b.Scheduler.Examples.{thousandths, node, spec}

-- A shell whose commands all end well and that counts them.
abbrev quiet : Shell ℕ
quiet name args n = (record { text = ""; error = none }, suc n)

abbrev spec_a : SandboxSpec
spec_a = record {
  sandbox_id = "a";
  template_id = "base";
  build_id = "b1";
  cpu_count = 2;
  memory_mb = 512;
  disk_size_mb = 1024;
  env_vars = [];
  metadata = [];
  timeout = 1000000000;
  auto_pause = false;
  envd_token = "";
  artifact_url = "";
}

abbrev spec_b : SandboxSpec
spec_b = record spec_a { sandbox_id = "b" }

abbrev host_0 : Host ℕ
host_0 = new_docker_runtime quiet "/artifacts" "/sandboxes" 0

abbrev host_2 : Host ℕ
host_2 =
    (create_sandbox quiet (pos 7) [] spec_b (create_sandbox quiet (pos 5) [] spec_a host_0).1).1

abbrev two_creates : Reach quiet host_0 2 host_2
two_creates = creates (pos 7) [] spec_b (creates (pos 5) [] spec_a Safety.here)

tracked_a : get host_2.runtime.sandboxes "a" ≡ some (tracked spec_a (pos 5) 49983)
unfolding create_sandbox new_docker_runtime find_first find_image finish_create pick_port get put
    inject_and_start_envd tracked run_args
tracked_a = refl

tracked_b : get host_2.runtime.sandboxes "b" ≡ some (tracked spec_b (pos 7) 49984)
unfolding create_sandbox new_docker_runtime find_first find_image finish_create pick_port get put
    inject_and_start_envd tracked run_args
tracked_b = refl

docker_ports_apart_example :
    ((tracked spec_a (pos 5) 49983).envd_port ≢ (tracked spec_b (pos 7) 49984).envd_port)
    × All (λ q. q ≢ (tracked spec_a (pos 5) 49983).envd_port) host_2.runtime.available_ports
docker_ports_apart_example =
    docker_ports_apart quiet "/artifacts" "/sandboxes" 0 2 host_2 "a" "b"
      (tracked spec_a (pos 5) 49983) (tracked spec_b (pos 7) 49984) two_creates (ground arith)
      tracked_a tracked_b (λ e. ground (arith, (==_iff {A = String} "a" "b").1 e))

docker_ports_bounded_example :
    (49983 ≤ (tracked spec_b (pos 7) 49984).envd_port)
    × ((tracked spec_b (pos 7) 49984).envd_port ≤ 65535)
docker_ports_bounded_example =
    docker_ports_bounded quiet "/artifacts" "/sandboxes" 0 2 host_2 "b"
      (tracked spec_b (pos 7) 49984) two_creates (ground arith) tracked_b

abbrev no_containers : String → Outcome (List Container)
no_containers text = failed "no containers"

abbrev request_a : CreateSandboxRequest
request_a = record {
  sandbox_id = "a";
  template_id = "base";
  build_id = "b1";
  cpu_count = 2;
  memory_mb = 512;
  disk_size_mb = 1024;
  env_vars = [];
  metadata = [];
  timeout_seconds = 60;
  auto_pause = false;
  envd_token = "";
  artifact_url = "";
}

create-IsReported_example :
    IsReported quiet no_containers
      (pos 5)
      request_a
      host_0
      (Agent.create_sandbox (docker_runtime quiet no_containers) (pos 5) [] request_a host_0)
create-IsReported_example = create-IsReported quiet no_containers (pos 5) [] request_a host_0

-- A node that does all that it is asked.
abbrev obliging : String → NodeAgentClient ℕ
obliging address = record {
  heartbeat = λ id n. (done tt, suc n);
  create_sandbox =
      λ req n. (done (record { success = true; error = ""; envd_port = 49983 }), suc n);
  stop_sandbox = λ id force n. (done (record { success = true; error = "" }), suc n);
  pause_sandbox = λ id n. (done (record { success = true; error = ""; snapshot_id = id }), suc n);
  resume_sandbox =
      λ id snapshot n. (done (record { success = true; error = ""; envd_address = "" }), suc n);
}

abbrev whole_seconds : ℕ → ℕ
whole_seconds d = d / 1000000000

abbrev system_1 : System ℕ
system_1 = record (start whole_seconds 0) {
  world = (register_node obliging "n1" "http://10.0.0.1" (start whole_seconds 0).world).1;
}

abbrev system_3 : System ℕ
system_3 = (Ops.schedule thousandths [] spec (pos 5) (pos 5) (Ops.register_node node system_1)).1

tables_agree_example :
    ((sb : Sandbox)
      → get system_3.sandboxes spec.id ≡ some sb
      → (host : String) × (get_sandbox_host spec.id system_3.world
          ≡ some (host, sb.status.host_port)))
    × (get system_3.sandboxes spec.id ≡ none → get_sandbox_host spec.id system_3.world ≡ none)
tables_agree_example = tables_agree thousandths obliging whole_seconds 0 system_3 spec.id (
    next (next (next here (connects "n1" "http://10.0.0.1")) (registers node))
      (schedules [] spec (pos 5) (pos 5)))

abbrev to_a : Request
to_a = record { path = "/files"; header = ""; in_host = some "a" }

named_a : sandbox_of to_a ≡ some "a"
unfolding sandbox_of
named_a = refl

-- The port stands twice in the URL.
to_a_proxied :
    (serve_http (docker_runtime quiet no_containers) (λ url. true) to_a host_2).0
    ≡ proxy "http://localhost:49983:49983"
unfolding serve_http docker_runtime get_sandbox_status info_of target_of tracked show_int32
to_a_proxied = rw named_a (rw (tracked_a, get_sandbox_status) refl)

-- The Docker SDK, over a count of its calls: everything succeeds.
abbrev sdk : DockerSdk.Sdk ℕ ℕ
sdk = record {
  run = λ o n. (done n, suc n);
  mapped_port = λ c n. (done 32768, suc n);
  new_client = λ n. (done tt, suc n);
  container_list = λ label n. (done (0 ∷ []), suc n);
  terminate = λ c n. (done tt, suc n);
  from_response = λ c n. (done c, suc n);
  from_id = λ id n. (done 0, suc n);
  state = λ c n. (done (true, false), suc n);
  now = λ n. (pos n, suc n);
}

abbrev sdk_host : DockerSdk.Host ℕ
sdk_host =
    (DockerSdk.create_sandbox sdk (pos 0) [] spec_a
      (new_docker_runtime_sdk quiet "/artifacts" "/sandboxes" 0)).1

abbrev sdk_tracked : DockerSandbox
sdk_tracked = DockerSdk.tracked spec_a (record { port = 32768; since = pos 3; later = pos 4 })

sdk_status-stale_example :
    (info : SandboxInfo) × (DockerSdk.get_sandbox_status sdk "a"
        (DockerSdk.stop_sandbox sdk "a" true sdk_host).1
      ≡ (returned (done info), (DockerSdk.stop_sandbox sdk "a" true sdk_host).1))
    × (info.state ≡ "running")
unfolding DockerSdk.create_sandbox DockerSdk.run_container DockerSdk.tracked new_docker_runtime_sdk
    find_first get put
sdk_status-stale_example =
    sdk_status-stale sdk "a" sdk_tracked sdk_host (DockerSdk.stop_sandbox sdk "a" true sdk_host).1
      refl refl (Stale.stops "a" true Stale.here)
