-- ===== src/Scheduler/Books.antt =====
-- What the sandboxes of a node ask for in sum, and how the writes of the scheduler change it.
use open_e2b.Prelude.{
  ℕ, ◌+◌, ◌%◌, String, ◌≡◌, ◌≢◌, sym, ap, ◌∙◌, none, some, arith, ◌==◌, ==_iff, string_eq,
  if◌then◌else◌,
}
use open_e2b.Prelude.Word.{word_mod, add64, sub64}
use open_e2b.Prelude.GoMap.{GoMap, get, put, remove, get-put_self}
use open_e2b.Prelude.GoMap.Keys.{Distinct, put-Distinct}
use open_e2b.Prelude.GoMap.Sum.{sum_by, sum-put_new, sum-put_old, sum-remove}
use open_e2b.Scheduler.Types.{Node, Sandbox, SandboxSpec}
use open_e2b.Scheduler.Select.{memory_bytes}
use open_e2b.Scheduler.Ops.{allocate, release}

-- A quantity that a sandbox asks for: its CPUs, its bytes of memory, or 1 to count it.
abbrev pub Quantity : Type 0
Quantity = SandboxSpec → ℕ

-- What a sandbox takes on the node of that ID.
abbrev pub share : Quantity → String → Sandbox → ℕ
share f id sb = if sb.status.node_id == id then f sb.spec else 0

unfoldable pub load : Quantity → String → GoMap String Sandbox → ℕ
load f id m = sum_by (share f id) m

module _ (f : Quantity) (id : String) (m : GoMap String Sandbox) where
  pub load-put_new :
      (k : String) (sb : Sandbox)
      → get m k ≡ none
      → load f id (put m k sb) ≡ load f id m + share f id sb
  unfolding load
  load-put_new k sb h = sum-put_new (share f id) m k sb h

  -- A write that keeps the spec and the node of a sandbox changes no load.
  pub load-put_same :
      (k : String) (old sb : Sandbox)
      → get m k ≡ some old
      → share f id sb ≡ share f id old
      → load f id (put m k sb) ≡ load f id m
  unfolding load
  load-put_same k old sb h e = omega (arith, sum-put_old (share f id) m k sb old h)

  -- The two writes of `Stop` take the sandbox's share off.
  pub load-drop :
      (k : String) (old sb : Sandbox)
      → Distinct m
      → get m k ≡ some old
      → share f id sb ≡ share f id old
      → load f id (remove (put m k sb) k) + share f id old ≡ load f id m
  unfolding load
  load-drop k old sb d h e = omega (
    arith,
    sum-put_old (share f id) m k sb old h,
    sum-remove (share f id) (put m k sb) k sb (put-Distinct m k sb d) (get-put_self m k sb),
  )

-- The figures of a node that its allocations are kept in.
pub record IsBooked (m : GoMap String Sandbox) (n : Node) : Type 0 where
  pub cpu : n.status.allocated_cpu ≡ load (λ spec. spec.cpu_count) n.spec.id m % word_mod
  pub memory : n.status.allocated_memory ≡ load memory_bytes n.spec.id m % word_mod
  pub count : n.status.sandbox_count ≡ load (λ _. 1) n.spec.id m % word_mod

module _ (m : GoMap String Sandbox) (n : Node) (b : IsBooked m n) (k : String) where
  pub put_same-IsBooked :
      (old sb : Sandbox)
      → get m k ≡ some old
      → sb.spec ≡ old.spec
      → sb.status.node_id ≡ old.status.node_id
      → IsBooked (put m k sb) n
  put_same-IsBooked old sb h e p = record {
    cpu = b.cpu ∙ ap (λ (t : ℕ). t % word_mod) (sym (same (λ spec. spec.cpu_count)));
    memory = b.memory ∙ ap (λ (t : ℕ). t % word_mod) (sym (same memory_bytes));
    count = b.count ∙ ap (λ (t : ℕ). t % word_mod) (sym (same (λ _. 1)));
  }
    where
      same : (f : Quantity) → load f n.spec.id (put m k sb) ≡ load f n.spec.id m
      same f = load-put_same f n.spec.id m k old sb h (rw (e, p))

  -- `Schedule`: the sandbox is new, and its node is charged.
  pub allocate-IsBooked :
      (sb : Sandbox)
      → get m k ≡ none
      → sb.status.node_id ≡ n.spec.id
      → IsBooked (put m k sb) (allocate sb.spec n)
  unfolding allocate add64
  allocate-IsBooked sb h e = record {
    cpu = omega (arith, b.cpu, more (λ spec. spec.cpu_count));
    memory = omega (arith, b.memory, more memory_bytes);
    count = omega (arith, b.count, more (λ _. 1));
  }
    where
      more : (f : Quantity) → load f n.spec.id (put m k sb) ≡ load f n.spec.id m + f sb.spec
      more f = ground (arith, load-put_new f n.spec.id m k sb h, ==_iff sb.status.node_id n.spec.id)

  pub put_other-IsBooked :
      (sb : Sandbox) → get m k ≡ none → sb.status.node_id ≢ n.spec.id → IsBooked (put m k sb) n
  put_other-IsBooked sb h e = record {
    cpu = omega (arith, b.cpu, same (λ spec. spec.cpu_count));
    memory = omega (arith, b.memory, same memory_bytes);
    count = omega (arith, b.count, same (λ _. 1));
  }
    where
      same : (f : Quantity) → load f n.spec.id (put m k sb) ≡ load f n.spec.id m
      same f = ground (arith, load-put_new f n.spec.id m k sb h, ==_iff sb.status.node_id n.spec.id)

  module _ (d : Distinct m) (old sb : Sandbox) (h : get m k ≡ some old) (e : sb.spec ≡ old.spec)
      (p : sb.status.node_id ≡ old.status.node_id) where
    dropped :
        (f : Quantity)
        → load f n.spec.id (remove (put m k sb) k) + share f n.spec.id old ≡ load f n.spec.id m
    dropped f = load-drop f n.spec.id m k old sb d h (rw (e, p))

    -- `Stop`: the sandbox goes, and its node is credited.
    pub release-IsBooked :
        old.status.node_id ≡ n.spec.id → IsBooked (remove (put m k sb) k) (release old.spec n)
    unfolding release sub64
    release-IsBooked q = record {
      cpu = omega (arith, b.cpu, less (λ spec. spec.cpu_count));
      memory = omega (arith, b.memory, less memory_bytes);
      count = omega (arith, b.count, less (λ _. 1));
    }
      where
        less :
            (f : Quantity)
            → load f n.spec.id (remove (put m k sb) k) + f old.spec ≡ load f n.spec.id m
        less f = ground (arith, dropped f, ==_iff old.status.node_id n.spec.id)

    pub drop_other-IsBooked : old.status.node_id ≢ n.spec.id → IsBooked (remove (put m k sb) k) n
    drop_other-IsBooked q = record {
      cpu = omega (arith, b.cpu, same (λ spec. spec.cpu_count));
      memory = omega (arith, b.memory, same memory_bytes);
      count = omega (arith, b.count, same (λ _. 1));
    }
      where
        same : (f : Quantity) → load f n.spec.id (remove (put m k sb) k) ≡ load f n.spec.id m
        same f = ground (arith, dropped f, ==_iff old.status.node_id n.spec.id)
