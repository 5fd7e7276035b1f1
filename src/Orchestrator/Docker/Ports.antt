-- ===== src/Orchestrator/Docker/Ports.antt =====
-- The ports of the docker runtime: what is in use and what is free never overlap.
use open_e2b.Prelude.{
  ℕ, suc, ◌+◌, ◌≤◌, ◌<◌, String, ◌≡◌, ◌≢◌, refl, sym, List, [], ◌∷◌, ◌++◌, some, arith, All,
  All-imp, string_eq, ==_iff, ◌%◌,
}
use open_e2b.Prelude.GoMap.{get, put, remove, get-put, get-remove, get-put_cases}
use open_e2b.Orchestrator.Docker.{
  DockerSandbox, DockerRuntime, pick_port, allocate_port, release_port,
}

abbrev pub Unique : List ℕ → Type 0
Unique [] = Unit
Unique (p ∷ ps) = All (λ q. q ≢ p) ps × Unique ps

-- A port that was handed out and that neither a sandbox nor the pool has.
pub record Free (p : ℕ) (r : DockerRuntime) : Type 0 where
  pub low : 49983 ≤ p
  pub high : p < r.next_port
  pub unused : (id : String) (sb : DockerSandbox) → get r.sandboxes id ≡ some sb → sb.envd_port ≢ p
  pub unpooled : All (λ q. q ≢ p) r.available_ports

-- After at most n ports were handed out.
pub record HasPorts (n : ℕ) (r : DockerRuntime) : Type 0 where
  pub start : 49983 ≤ r.next_port
  pub bound : r.next_port ≤ 49983 + n
  pub low : (id : String) (sb : DockerSandbox) → get r.sandboxes id ≡ some sb → 49983 ≤ sb.envd_port
  pub high :
      (id : String) (sb : DockerSandbox) → get r.sandboxes id ≡ some sb → sb.envd_port < r.next_port
  pub apart :
      (i j : String) (a b : DockerSandbox)
      → get r.sandboxes i ≡ some a
      → get r.sandboxes j ≡ some b
      → a.envd_port ≡ b.envd_port
      → i ≡ j
  pub pool_range : All (λ q. (49983 ≤ q) × (q < r.next_port)) r.available_ports
  pub pool_unique : Unique r.available_ports
  pub pool_free :
      (id : String) (sb : DockerSandbox)
      → get r.sandboxes id ≡ some sb
      → All (λ q. q ≢ sb.envd_port) r.available_ports

All-snoc : (P : ℕ → Type 0) (ps : List ℕ) (p : ℕ) → All P ps → P p → All P (ps ++ p ∷ [])
All-snoc P [] p a h = (h, tt)
All-snoc P (q ∷ ps) p a h = (a.0, All-snoc P ps p a.1 h)

Unique-snoc : (ps : List ℕ) (p : ℕ) → Unique ps → All (λ q. q ≢ p) ps → Unique (ps ++ p ∷ [])
Unique-snoc [] p u a = (tt, tt)
Unique-snoc (q ∷ ps) p u a =
    (All-snoc (λ x. x ≢ q) ps p u.0 (λ e. a.0 (sym e)), Unique-snoc ps p u.1 a.1)

module _ {n : ℕ} {r : DockerRuntime} (h : HasPorts n r) where
  pub release-HasPorts : (p : ℕ) → Free p r → HasPorts n (release_port p r)
  unfolding release_port
  release-HasPorts p f = record {
    start = h.start;
    bound = h.bound;
    low = h.low;
    high = h.high;
    apart = h.apart;
    pool_range =
        All-snoc (λ q. (49983 ≤ q) × (q < r.next_port)) r.available_ports p h.pool_range
          (f.low, f.high);
    pool_unique = Unique-snoc r.available_ports p h.pool_unique f.unpooled;
    pool_free = λ id sb e.
        All-snoc (λ q. q ≢ sb.envd_port) r.available_ports p (h.pool_free id sb e)
          (λ same. f.unused id sb e (sym same));
  }

  pub put-HasPorts :
      (id : String) (sb : DockerSandbox)
      → Free sb.envd_port r
      → HasPorts n (record r { sandboxes = put r.sandboxes id sb })
  put-HasPorts id sb f = record {
    start = h.start;
    bound = h.bound;
    low = λ j x e. ground (arith, get-put r.sandboxes id j sb, h.low j x, f.low);
    high = λ j x e. ground (arith, get-put r.sandboxes id j sb, h.high j x, f.high);
    apart = λ i j a b e g same. ground (
      arith,
      get-put r.sandboxes id i sb,
      get-put r.sandboxes id j sb,
      ==_iff id i,
      ==_iff id j,
      h.apart i j a b,
      f.unused i a,
      f.unused j b,
    );
    pool_range = h.pool_range;
    pool_unique = h.pool_unique;
    pool_free = λ j x e.
        get-put_cases (λ y. All (λ q. q ≢ y.envd_port) r.available_ports) r.sandboxes id j sb x e
          (λ same. f.unpooled) (λ other g. h.pool_free j x g);
  }

  -- A sandbox that is removed frees its port.
  pub remove-HasPorts : (id : String) → HasPorts n (record r { sandboxes = remove r.sandboxes id })
  remove-HasPorts id = record {
    start = h.start;
    bound = h.bound;
    low = λ j x e. ground (arith, get-remove r.sandboxes id j, h.low j x);
    high = λ j x e. ground (arith, get-remove r.sandboxes id j, h.high j x);
    apart = λ i j a b e g same.
        ground (arith, get-remove r.sandboxes id i, get-remove r.sandboxes id j, h.apart i j a b);
    pool_range = h.pool_range;
    pool_unique = h.pool_unique;
    pool_free = λ j x e. h.pool_free j x (ground (arith, get-remove r.sandboxes id j));
  }

  pub remove-Free :
      (id : String) (sb : DockerSandbox)
      → get r.sandboxes id ≡ some sb
      → Free sb.envd_port (record r { sandboxes = remove r.sandboxes id })
  remove-Free id sb e = record {
    low = h.low id sb e;
    high = h.high id sb e;
    unused =
        λ j x g same. ground (arith, get-remove r.sandboxes id j, ==_iff id j, h.apart id j sb x);
    unpooled = h.pool_free id sb e;
  }

  -- A sandbox that is written back with its port.
  pub restate-HasPorts :
      (id : String) (sb new : DockerSandbox)
      → get r.sandboxes id ≡ some sb
      → new.envd_port ≡ sb.envd_port
      → HasPorts n (record r { sandboxes = put r.sandboxes id new })
  restate-HasPorts id sb new e k = record {
    start = h.start;
    bound = h.bound;
    low = λ j x g. ground (arith, get-put r.sandboxes id j new, h.low j x, h.low id sb e);
    high = λ j x g. ground (arith, get-put r.sandboxes id j new, h.high j x, h.high id sb e);
    apart = λ i j a b g l same. ground (
      arith,
      get-put r.sandboxes id i new,
      get-put r.sandboxes id j new,
      ==_iff id i,
      ==_iff id j,
      h.apart i j a b,
      h.apart id j sb b,
      h.apart i id a sb,
    );
    pool_range = h.pool_range;
    pool_unique = h.pool_unique;
    pool_free = λ j x g.
        get-put_cases (λ y. All (λ q. q ≢ y.envd_port) r.available_ports) r.sandboxes id j new x g
          (λ same. rw k (h.pool_free id sb e)) (λ other old. h.pool_free j x old);
  }

  fresh-HasPorts :
      49983 + suc n < 4294967296
      → HasPorts (suc n) (record r { next_port = (r.next_port + 1) % 4294967296 })
        × Free r.next_port (record r { next_port = (r.next_port + 1) % 4294967296 })
  fresh-HasPorts small =
      let step : (r.next_port + 1) % 4294967296 ≡ r.next_port + 1 = ground (arith, h.bound) in
      (
        record {
          start = ground (arith, h.start, step);
          bound = ground (arith, h.bound, step);
          low = h.low;
          high = λ j x g. ground (arith, h.high j x g, step);
          apart = h.apart;
          pool_range =
              All-imp (λ q. (49983 ≤ q) × (q < r.next_port))
                (λ q. (49983 ≤ q) × (q < (r.next_port + 1) % 4294967296))
                (λ q b. (b.0, ground (arith, b.1, step))) r.available_ports h.pool_range;
          pool_unique = h.pool_unique;
          pool_free = h.pool_free;
        },
        record {
          low = h.start;
          high = ground (arith, step);
          unused = λ j x g same. ground (arith, h.high j x g, same);
          unpooled =
              All-imp (λ q. (49983 ≤ q) × (q < r.next_port)) (λ q. q ≢ r.next_port)
                (λ q b same. ground (arith, b.1, same)) r.available_ports h.pool_range;
        },
      )

  taken-HasPorts :
      (p : ℕ) (ps : List ℕ)
      → r.available_ports ≡ p ∷ ps
      → HasPorts (suc n) (record r { available_ports = ps })
        × Free p (record r { available_ports = ps })
  taken-HasPorts p ps e =
      let range : All (λ q. (49983 ≤ q) × (q < r.next_port)) (p ∷ ps) = rw e at h.pool_range in
      let unique : Unique (p ∷ ps) = rw e at h.pool_unique in
      let apart_of : (j : String) (x : DockerSandbox)
          → get r.sandboxes j ≡ some x
          → All (λ q. q ≢ x.envd_port) (p ∷ ps) =
        λ j x g. rw e at h.pool_free j x g in
      (
        record {
          start = h.start;
          bound = ground (arith, h.bound);
          low = h.low;
          high = h.high;
          apart = h.apart;
          pool_range = range.1;
          pool_unique = unique.1;
          pool_free = λ j x g. (apart_of j x g).1;
        },
        record {
          low = range.0.0;
          high = range.0.1;
          unused = λ j x g same. (apart_of j x g).0 (sym same);
          unpooled = unique.0;
        },
      )

  pick-HasPorts :
      (ps : List ℕ)
      → r.available_ports ≡ ps
      → 49983 + suc n < 4294967296
      → HasPorts (suc n) (pick_port r ps).1 × Free (pick_port r ps).0 (pick_port r ps).1
  unfolding pick_port
  pick-HasPorts [] e small = fresh-HasPorts small
  pick-HasPorts (p ∷ ps) e small = taken-HasPorts p ps e

  -- The port that is handed out is free, and one more port may have been handed out.
  pub allocate-HasPorts :
      49983 + suc n < 4294967296
      → HasPorts (suc n) (allocate_port r).1 × Free (allocate_port r).0 (allocate_port r).1
  allocate-HasPorts small = pick-HasPorts r.available_ports refl small
