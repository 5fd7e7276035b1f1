-- ===== src/Scheduler/Examples.antt =====
-- A small cluster, on which the theorems of the scheduler are tried.
use open_e2b.Prelude.{
  ℕ, ◌+◌, ◌*◌, ◌/◌, ◌≡◌, String, Bool, true, false, [], Option, none, some, arith, if◌then◌else◌,
  nat_beq,
}
use open_e2b.Prelude.Int.{ℤ, pos, negsuc, pos_part, ◌+ℤ◌, ltb_ℤ}
use open_e2b.Scheduler.Types.{Node, SandboxSpec, NodeOperations, Scheduler, ok, ready}
use open_e2b.Scheduler.Select.{Float64}
use open_e2b.Scheduler.Ops.{new_scheduler, register_node, schedule}

-- Thousandths, with none for NaN.
abbrev Thousandths : Type 0
Thousandths = Option ℤ

abbrev gt : Thousandths → Thousandths → Bool
gt none y = false
gt (some a) none = false
gt (some a) (some b) = ltb_ℤ b a

pub gt_irrefl : (x : Thousandths) → gt x x ≡ false
gt_irrefl x = ground arith

pub gt_trans : (x y z : Thousandths) → gt x y ≡ true → gt y z ≡ true → gt x z ≡ true
gt_trans x y z p q = ground arith

abbrev div : Thousandths → Thousandths → Thousandths
div none y = none
div (some a) none = none
div (some a) (some b) =
    if nat_beq (pos_part b) 0 then none else some (pos (1000 * pos_part a / pos_part b))

abbrev plus : Thousandths → Thousandths → Thousandths
plus none y = none
plus (some a) none = none
plus (some a) (some b) = some (a +ℤ b)

abbrev pub thousandths : Float64
thousandths = record {
  Float = Thousandths;
  of_int64 = λ n. some (pos (1000 * n));
  div = div;
  plus = plus;
  half = some (pos 500);
  minus_one = some (negsuc 999);
  gt = gt;
  gt_irrefl = gt_irrefl;
  gt_trans = gt_trans;
}

abbrev pub node_of : String → ℕ → ℕ → Node
node_of id cpu memory = record {
  spec = record {
    id = id;
    cluster_id = "c";
    address = "10.0.0.1";
    cpu_count = cpu;
    memory_bytes = memory;
  };
  status = record {
    state = ready;
    allocated_cpu = 0;
    allocated_memory = 0;
    sandbox_count = 0;
    cached_builds = [];
    last_heartbeat = pos 0;
  };
}

abbrev pub node : Node
node = node_of "n1" 8 8589934592

abbrev pub spec_with : String → ℕ → ℕ → SandboxSpec
spec_with id cpu memory = record {
  id = id;
  template_id = "base";
  build_id = "b";
  cpu_count = cpu;
  memory_mb = memory;
  disk_size_mb = 512;
  env_vars = [];
  metadata = [];
  timeout = 60000000000;
  auto_pause = false;
  envd_token = "t";
  network_config = none;
}

abbrev pub spec : SandboxSpec
spec = spec_with "s1" 2 512

-- Nodes that grant everything, and count the calls.
abbrev pub ops : NodeOperations ℕ
ops = record {
  create_sandbox = λ n spec w. (ok (some (record { host_port = 8080; envd_port = 49983 })), w + 1);
  stop_sandbox = λ n id w. (ok tt, w + 1);
  pause_sandbox = λ n id w. (ok tt, w + 1);
  resume_sandbox = λ n id w. (ok tt, w + 1);
  get_sandbox_host = λ id w. none;
}

abbrev pub empty : Scheduler ℕ
empty = new_scheduler (some ops) 0

abbrev pub one_node : Scheduler ℕ
one_node = register_node node empty

abbrev pub scheduled : Scheduler ℕ
scheduled = (schedule thousandths [] spec (pos 0) (pos 0) one_node).1
