-- ===== src/Scheduler/Ops.antt =====
-- internal/scheduler/scheduler.go: the methods of `Scheduler`. Each holds the lock from start to
-- end, but `check_expirations`, which takes it again for each sandbox. `time.Now()` is an argument,
-- once for each call of it, and so is the order of each `range` over a map.
use open_e2b.Prelude.{
  ℕ, String, Bool, true, false, List, [], Option, none, some, map, ◌==◌, string_eq, if◌then◌else◌,
}
use open_e2b.Prelude.Word.{add64, sub64}
use open_e2b.Prelude.GoMap.{get, put, remove}
use open_e2b.Prelude.GoMap.Range.{Order, range}
use open_e2b.Prelude.Time
use open_e2b.Prelude.Time.{Time, Duration, after}
use open_e2b.Scheduler.Types.{
  SandboxState, SandboxSpec, Sandbox, SandboxResult, Node, NodeOperations, Scheduler, Result,
  no_suitable_node, sandbox_not_found, node_not_found, sandbox_not_running, sandbox_not_paused,
  is_running, is_paused, starting, running, paused, stopped,
}
use open_e2b.Scheduler.Select.{Float64, memory_bytes, select_node}
use open_e2b.Scheduler.Monad.{
  Method, return, or_throw, on_node, get_state, modify, require, ◌>>=◌, ◌>>◌,
}

module _ {W : Type 0} where
  unfoldable pub new_scheduler : Option (NodeOperations W) → W → Scheduler W
  new_scheduler ops w = record { nodes = []; sandboxes = []; node_ops = ops; world = w }

  unfoldable pub register_node : Node → Scheduler W → Scheduler W
  register_node n s = record s { nodes = put s.nodes n.spec.id n }

  unfoldable pub unregister_node : String → Scheduler W → Scheduler W
  unregister_node id s = record s { nodes = remove s.nodes id }

-- The record that `Schedule` makes before it asks the node.
unfoldable pub new_sandbox : SandboxSpec → Node → Time → Time → Sandbox
new_sandbox spec n started now = record {
  spec = spec;
  status = record {
    state = starting;
    node_id = n.spec.id;
    host_port = 0;
    envd_port = 0;
    started_at = started;
    expires_at = Time.add now spec.timeout;
    error_reason = "";
  };
}

abbrev pub with_state : SandboxState → Sandbox → Sandbox
with_state st sb = record sb { status = record sb.status { state = st } }

abbrev pub with_expiry : Time → Sandbox → Sandbox
with_expiry t sb = record sb { status = record sb.status { expires_at = t } }

-- A nil result leaves the ports as they are.
unfoldable pub with_ports : Option SandboxResult → Sandbox → Sandbox
with_ports none sb = sb
with_ports (some r) sb = record sb {
  status = record sb.status { host_port = r.host_port; envd_port = r.envd_port };
}

-- The updates of a node's allocations, in `Schedule` and in `Stop`.
unfoldable pub allocate : SandboxSpec → Node → Node
allocate spec n = record n {
  status = record n.status {
    allocated_cpu = add64 n.status.allocated_cpu spec.cpu_count;
    allocated_memory = add64 n.status.allocated_memory (memory_bytes spec);
    sandbox_count = add64 n.status.sandbox_count 1;
  };
}

unfoldable pub release : SandboxSpec → Node → Node
release spec n = record n {
  status = record n.status {
    allocated_cpu = sub64 n.status.allocated_cpu spec.cpu_count;
    allocated_memory = sub64 n.status.allocated_memory (memory_bytes spec);
    sandbox_count = sub64 n.status.sandbox_count 1;
  };
}

-- The address, with the default for local development.
unfoldable pub host_of : Node → String
host_of n = if n.spec.address == "" then "localhost" else n.spec.address

-- host, port, state and ok of `GetSandboxHost`; the state is none for "".
pub record HostAnswer : Type 0 where
  pub host : String
  pub port : ℕ
  pub state : Option SandboxState
  pub found : Bool

module _ {W : Type 0} where
  -- What `Schedule` writes when the node has answered.
  unfoldable pub place : String → Node → Sandbox → Scheduler W → Scheduler W
  place key n sb s = record s {
    sandboxes = put s.sandboxes sb.spec.id (with_state running sb);
    nodes = put s.nodes key (allocate sb.spec n);
  }

  -- What `Stop` writes when the node has answered: the sandbox is marked, then deleted.
  unfoldable pub drop_sandbox : String → Node → Sandbox → Scheduler W → Scheduler W
  drop_sandbox id n sb s = record s {
    nodes = put s.nodes sb.status.node_id (release sb.spec n);
    sandboxes = remove (put s.sandboxes id (with_state stopped sb)) id;
  }

  unfoldable pub update_sandbox : String → Sandbox → Scheduler W → Scheduler W
  update_sandbox id sb s = record s { sandboxes = put s.sandboxes id sb }

  abbrev find_sandbox : String → Method W Sandbox
  find_sandbox id = do s ← get_state; or_throw (get s.sandboxes id) (sandbox_not_found id)

  unfoldable pub schedule : Float64 → Order → SandboxSpec → Time → Time → Method W Sandbox
  schedule fl o spec started now = do
    s ← get_state
    (key, n) ← or_throw (select_node fl o s.nodes spec) no_suitable_node
    result ← on_node none (λ ops. ops.create_sandbox n spec)
    let sb = with_ports result (new_sandbox spec n started now)
    modify (place key n sb)
    return (with_state running sb)

  unfoldable pub stop : String → Method W (Unit {0})
  stop id = do
    sb ← find_sandbox id
    s ← get_state
    n ← or_throw (get s.nodes sb.status.node_id) (node_not_found sb.status.node_id)
    on_node tt (λ ops. ops.stop_sandbox n id)
    modify (drop_sandbox id n sb)

  -- `Pause` and `Resume` ask the node only if it is still registered.
  abbrev pub on_node_if :
      Option Node → (NodeOperations W → Node → W → Result (Unit {0}) × W) → Method W (Unit {0})
  on_node_if none call = return tt
  on_node_if (some n) call = on_node tt (λ ops. call ops n)

  unfoldable pub pause : String → Method W (Unit {0})
  pause id = do
    sb ← find_sandbox id
    require (is_running sb.status.state) sandbox_not_running
    s ← get_state
    on_node_if (get s.nodes sb.status.node_id) (λ ops n. ops.pause_sandbox n id)
    modify (update_sandbox id (with_state paused sb))

  unfoldable pub resume : String → Method W (Unit {0})
  resume id = do
    sb ← find_sandbox id
    require (is_paused sb.status.state) sandbox_not_paused
    s ← get_state
    on_node_if (get s.nodes sb.status.node_id) (λ ops n. ops.resume_sandbox n id)
    modify (update_sandbox id (with_state running sb))

  unfoldable pub extend_timeout : String → Duration → Time → Method W (Unit {0})
  extend_timeout id d now = do
    sb ← find_sandbox id
    modify (update_sandbox id (with_expiry (Time.add now d) sb))

  unfoldable pub get_sandbox : String → Scheduler W → Option Sandbox
  get_sandbox id s = get s.sandboxes id

  unfoldable pub get_sandbox_host : String → Scheduler W → HostAnswer
  unfolding host_of
  get_sandbox_host id s = elim (get s.sandboxes id) [
    | none ↦ record { host = ""; port = 0; state = none; found = false }
    | some sb ↦ elim (get s.nodes sb.status.node_id) [
      | none ↦ record { host = ""; port = 0; state = some sb.status.state; found = false }
      | some n ↦ record {
        host = host_of n;
        port = sb.status.host_port;
        state = some sb.status.state;
        found = true;
      }
    ]
  ]

  unfoldable pub list_sandboxes : Order → Scheduler W → List Sandbox
  list_sandboxes o s = map (λ (p : String × Sandbox). p.1) (range o s.sandboxes)

  unfoldable pub list_nodes : Order → Scheduler W → List Node
  list_nodes o s = map (λ (p : String × Node). p.1) (range o s.nodes)
