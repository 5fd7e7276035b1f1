-- ===== src/Orchestrator/Client.antt =====
-- internal/scheduler/orchestrator_client.go: `OrchestratorClient`, the scheduler's side of the calls
-- to the nodes. The client of a node is that of connectrpc.com/connect: a record of calls over the
-- state `W` of all the nodes, each of which may also return an error of the transport.
pub mod Cases
pub mod Routes
pub mod Agreement
use open_e2b.Prelude.{
  ℕ, ◌+◌, String, Bool, true, false, Option, none, some, [], ltb, string_eq, if◌then◌else◌,
}
use Prim.Native.String.{◌++◌ as ◌<>◌}
use open_e2b.Prelude.GoMap.{GoMap, get, put, remove}
use open_e2b.Prelude.Time.{Duration}
use open_e2b.Prelude.Action.{Outcome, done, failed, Action}
use open_e2b.Orchestrator.Types.{int32}
use open_e2b.Orchestrator.Agent.{
  CreateSandboxRequest, CreateSandboxResponse, StopSandboxResponse, PauseSandboxResponse,
  ResumeSandboxResponse,
}
use open_e2b.Scheduler.Types.{
  Node, SandboxSpec, SandboxResult, NodeOperations, Result, ok, err, from_node,
}

pub record NodeAgentClient (W : Type 0) : Type 0 where
  pub heartbeat : String → Action W (Unit {0})
  pub create_sandbox : CreateSandboxRequest → Action W CreateSandboxResponse
  pub stop_sandbox : String → Bool → Action W StopSandboxResponse
  pub pause_sandbox : String → Action W PauseSandboxResponse
  pub resume_sandbox : String → String → Action W ResumeSandboxResponse

pub record SandboxLocation : Type 0 where
  pub node_id : String
  pub host : String
  pub host_port : ℕ
  pub envd_port : ℕ

-- The two maps, and the world that the clients act on.
pub record OrchestratorClient (W : Type 0) : Type 0 where
  pub clients : GoMap String (NodeAgentClient W)
  pub sandbox_ports : GoMap String SandboxLocation
  pub world : W

-- int(...) of an int32: the sign is kept.
unfoldable pub widen : ℕ → ℕ
widen w = if ltb w 2147483648 then w else w + 18446744069414584320

abbrev failure {ℓ} : {A : Type ℓ} → String → String → Node → String → Result A
failure before at n e = err (from_node (before <> at <> n.spec.id <> ": " <> e))

-- `int64(spec.Timeout.Seconds())` is an argument, since it goes through a float64.
unfoldable pub request : (Duration → ℕ) → SandboxSpec → CreateSandboxRequest
request whole_seconds spec = record {
  sandbox_id = spec.id;
  template_id = spec.template_id;
  build_id = spec.build_id;
  cpu_count = int32 spec.cpu_count;
  memory_mb = int32 spec.memory_mb;
  disk_size_mb = int32 spec.disk_size_mb;
  env_vars = spec.env_vars;
  metadata = spec.metadata;
  timeout_seconds = whole_seconds spec.timeout;
  auto_pause = spec.auto_pause;
  envd_token = spec.envd_token;
  artifact_url = "";
}

unfoldable pub location : Node → ℕ → SandboxLocation
location n port = record {
  node_id = n.spec.id;
  host = n.spec.address;
  host_port = widen port;
  envd_port = widen port;
}

module _ {W : Type 0} where
  unfoldable pub new_orchestrator_client : W → OrchestratorClient W
  new_orchestrator_client w = record { clients = []; sandbox_ports = []; world = w }

  abbrev registered :
      String
      → String
      → NodeAgentClient W
      → Outcome (Unit {0}) × W
      → Action (OrchestratorClient W) (Unit {0})
  registered id address client (failed e, w) o = (
    failed ("failed to connect to orchestrator " <> id <> " at " <> address <> ": " <> e),
    record o { world = w },
  )
  registered id address client (done u, w) o =
      (done tt, record o { clients = put o.clients id client; world = w })

  -- `connect` is nodeconnect.NewNodeAgentClient at an address.
  unfoldable pub register_node :
      (String → NodeAgentClient W) → String → String → Action (OrchestratorClient W) (Unit {0})
  register_node connect id address o =
      let client = connect address in registered id address client (client.heartbeat id o.world) o

  unfoldable pub unregister_node : String → OrchestratorClient W → OrchestratorClient W
  unregister_node id o = record o { clients = remove o.clients id }

  -- What a method does with the client of the node, or the error that there is none.
  abbrev pub ask_client {ℓ} :
      {A : Type ℓ}
      → Node
      → (NodeAgentClient W → OrchestratorClient W → Result A × OrchestratorClient W)
      → Option (NodeAgentClient W)
      → OrchestratorClient W
      → Result A × OrchestratorClient W
  ask_client n f none o = (err (from_node ("no client for node " <> n.spec.id)), o)
  ask_client n f (some client) o = f client o

  abbrev with_client {ℓ} :
      {A : Type ℓ}
      → Node
      → (NodeAgentClient W → OrchestratorClient W → Result A × OrchestratorClient W)
      → OrchestratorClient W
      → Result A × OrchestratorClient W
  with_client n f o = ask_client n f (get o.clients n.spec.id) o

  abbrev created :
      Node
      → SandboxSpec
      → Outcome CreateSandboxResponse × W
      → OrchestratorClient W
      → Result (Option SandboxResult) × OrchestratorClient W
  created n spec (failed e, w) o =
      (failure "failed to create sandbox" " on node " n e, record o { world = w })
  created n spec (done resp, w) o =
      if resp.success
      then (
        ok (some (record { host_port = widen resp.envd_port; envd_port = widen resp.envd_port })),
        record o {
          sandbox_ports = put o.sandbox_ports spec.id (location n resp.envd_port);
          world = w;
        },
      )
      else (failure "sandbox creation failed" " on node " n resp.error, record o { world = w })

  unfoldable pub create_sandbox :
      (Duration → ℕ)
      → Node
      → SandboxSpec
      → OrchestratorClient W
      → Result (Option SandboxResult) × OrchestratorClient W
  create_sandbox whole_seconds n spec =
      with_client n
        λ client o. created n spec (client.create_sandbox (request whole_seconds spec) o.world) o

  abbrev stopped :
      Node
      → String
      → Outcome StopSandboxResponse × W
      → OrchestratorClient W
      → Result (Unit {0}) × OrchestratorClient W
  stopped n id (failed e, w) o =
      (failure "failed to stop sandbox" " on node " n e, record o { world = w })
  stopped n id (done resp, w) o =
      if resp.success
      then (ok tt, record o { sandbox_ports = remove o.sandbox_ports id; world = w })
      else (failure "sandbox stop failed" " on node " n resp.error, record o { world = w })

  unfoldable pub stop_sandbox :
      Node → String → OrchestratorClient W → Result (Unit {0}) × OrchestratorClient W
  stop_sandbox n id = with_client n λ client o. stopped n id (client.stop_sandbox id true o.world) o

  abbrev paused :
      Node
      → Outcome PauseSandboxResponse × W
      → OrchestratorClient W
      → Result (Unit {0}) × OrchestratorClient W
  paused n (failed e, w) o =
      (failure "failed to pause sandbox" " on node " n e, record o { world = w })
  paused n (done resp, w) o = (
    (if resp.success then ok tt else failure "sandbox pause failed" " on node " n resp.error),
    record o { world = w },
  )

  unfoldable pub pause_sandbox :
      Node → String → OrchestratorClient W → Result (Unit {0}) × OrchestratorClient W
  pause_sandbox n id = with_client n λ client o. paused n (client.pause_sandbox id o.world) o

  abbrev resumed :
      Node
      → Outcome ResumeSandboxResponse × W
      → OrchestratorClient W
      → Result (Unit {0}) × OrchestratorClient W
  resumed n (failed e, w) o =
      (failure "failed to resume sandbox" " on node " n e, record o { world = w })
  resumed n (done resp, w) o = (
    (if resp.success then ok tt else failure "sandbox resume failed" " on node " n resp.error),
    record o { world = w },
  )

  -- The snapshot is named by the ID of the sandbox.
  unfoldable pub resume_sandbox :
      Node → String → OrchestratorClient W → Result (Unit {0}) × OrchestratorClient W
  resume_sandbox n id = with_client n λ client o. resumed n (client.resume_sandbox id id o.world) o

  unfoldable pub get_sandbox_host : String → OrchestratorClient W → Option (String × ℕ)
  get_sandbox_host id o = elim (get o.sandbox_ports id) [
    | none ↦ none
    | some l ↦ some (l.host, l.host_port)
  ]

  -- The client is what the scheduler calls.
  unfoldable pub node_operations : (Duration → ℕ) → NodeOperations (OrchestratorClient W)
  node_operations whole_seconds = record {
    create_sandbox = create_sandbox whole_seconds;
    stop_sandbox = stop_sandbox;
    pause_sandbox = pause_sandbox;
    resume_sandbox = resume_sandbox;
    get_sandbox_host = get_sandbox_host;
  }
