-- ===== src/Scheduler/Room.antt =====
-- Room on a node: the sandboxes on it ask, in sum, for no more than it has.
use open_e2b.Prelude.{◌+◌, ◌≤◌, String, ◌≡◌, none, true, arith, ==_iff, string_eq}
use open_e2b.Prelude.Word.{IsNonneg, room}
use open_e2b.Prelude.GoMap.{GoMap, get, put}
use open_e2b.Scheduler.Types.{Node, Sandbox, SandboxSpec}
use open_e2b.Scheduler.Select.{memory_bytes, available_cpu, available_memory, eligible}
use open_e2b.Scheduler.Ops.{allocate, release}
use open_e2b.Scheduler.Books.{Quantity, load, load-put_new, IsBooked}

-- The node's sizes are not negative, and the loads, which do not wrap, stay within them.
pub record Fits (m : GoMap String Sandbox) (n : Node) : Type 0 where
  pub cpu_nonneg : IsNonneg n.spec.cpu_count
  pub memory_nonneg : IsNonneg n.spec.memory_bytes
  pub cpu : load (λ spec. spec.cpu_count) n.spec.id m ≤ n.spec.cpu_count
  pub memory : load memory_bytes n.spec.id m ≤ n.spec.memory_bytes

-- The request is for no negative amount.
pub record IsRequest (spec : SandboxSpec) : Type 0 where
  pub cpu : IsNonneg spec.cpu_count
  pub memory : IsNonneg (memory_bytes spec)

-- The tests of `selectNode` leave room for the request.
pub eligible_room :
    (m : GoMap String Sandbox) (n : Node) (spec : SandboxSpec)
    → IsBooked m n
    → Fits m n
    → IsRequest spec
    → eligible spec n ≡ true
    → (load (λ x. x.cpu_count) n.spec.id m + spec.cpu_count ≤ n.spec.cpu_count)
      × (load memory_bytes n.spec.id m + memory_bytes spec ≤ n.spec.memory_bytes)
unfolding eligible available_cpu available_memory
eligible_room m n spec b f r e = (
  room n.spec.cpu_count n.status.allocated_cpu (load (λ x. x.cpu_count) n.spec.id m) spec.cpu_count
      f.cpu_nonneg r.cpu f.cpu b.cpu (ground arith),
  room n.spec.memory_bytes n.status.allocated_memory (load memory_bytes n.spec.id m)
      (memory_bytes spec) f.memory_nonneg r.memory f.memory b.memory (ground arith),
)

-- Fewer or equal loads fit too.
pub Fits-mono :
    (m m' : GoMap String Sandbox) (n : Node)
    → ((f : Quantity) → load f n.spec.id m' ≤ load f n.spec.id m)
    → Fits m n
    → Fits m' n
Fits-mono m m' n h f = omega (arith, h (λ spec. spec.cpu_count), h memory_bytes)

-- A node that is chosen for a request still fits when it is charged for it.
pub allocate-Fits :
    (m : GoMap String Sandbox) (n : Node) (k : String) (sb : Sandbox)
    → get m k ≡ none
    → sb.status.node_id ≡ n.spec.id
    → IsBooked m n
    → Fits m n
    → IsRequest sb.spec
    → eligible sb.spec n ≡ true
    → Fits (put m k sb) (allocate sb.spec n)
unfolding allocate
allocate-Fits m n k sb new e b f r chosen =
    let (cpu, memory) = eligible_room m n sb.spec b f r chosen in
    record {
      cpu_nonneg = f.cpu_nonneg;
      memory_nonneg = f.memory_nonneg;
      cpu = omega (arith, more (λ spec. spec.cpu_count), cpu);
      memory = omega (arith, more memory_bytes, memory);
    }
  where
    more : (q : Quantity) → load q n.spec.id (put m k sb) ≡ load q n.spec.id m + q sb.spec
    more q = ground (arith, load-put_new q n.spec.id m k sb new, ==_iff sb.status.node_id n.spec.id)

-- Crediting a node changes none of its sizes.
pub release-Fits :
    (m : GoMap String Sandbox) (n : Node) (spec : SandboxSpec) → Fits m n → Fits m (release spec n)
unfolding release
release-Fits m n spec f = record {
  cpu_nonneg = f.cpu_nonneg;
  memory_nonneg = f.memory_nonneg;
  cpu = f.cpu;
  memory = f.memory;
}
