-- ===== src/Scheduler/Select.antt =====
-- internal/scheduler/scheduler.go: `selectNode`, the choice of a node for a sandbox.
use open_e2b.Prelude.{
  ℕ, String, ◌≡◌, ◌==◌, Bool, true, false, not, ◌&&◌, List, [], ◌∷◌, Option, none, some, string_eq,
  if◌then◌else◌,
}
use open_e2b.Prelude.Word.{sub64, mul64, slt64}
use open_e2b.Prelude.GoMap.{GoMap}
use open_e2b.Prelude.GoMap.Range.{Order, range}
use open_e2b.Scheduler.Types.{Node, SandboxSpec, is_ready}

-- Go's float64, with the IEEE 754 facts on `>` that hold of every value, NaN among them.
pub record Float64 : Type 1 where
  pub Float : Type 0
  pub of_int64 : ℕ → Float
  pub div : Float → Float → Float
  pub plus : Float → Float → Float
  pub half : Float
  pub minus_one : Float
  pub gt : Float → Float → Bool
  pub gt_irrefl : (x : Float) → gt x x ≡ false
  pub gt_trans : (x y z : Float) → gt x y ≡ true → gt y z ≡ true → gt x z ≡ true

-- int64(spec.MemoryMB) * 1024 * 1024
unfoldable pub memory_bytes : SandboxSpec → ℕ
memory_bytes spec = mul64 (mul64 spec.memory_mb 1024) 1024

unfoldable pub available_cpu : Node → ℕ
available_cpu n = sub64 n.spec.cpu_count n.status.allocated_cpu

unfoldable pub available_memory : Node → ℕ
available_memory n = sub64 n.spec.memory_bytes n.status.allocated_memory

-- The three tests that skip a node.
unfoldable pub eligible : SandboxSpec → Node → Bool
eligible spec n =
    is_ready n.status.state
    && not (slt64 (available_cpu n) spec.cpu_count)
    && not (slt64 (available_memory n) (memory_bytes spec))

unfoldable pub contains : List String → String → Bool
contains [] b = false
contains (x ∷ xs) b = if x == b then true else contains xs b

module _ (fl : Float64) where
  open fl use {Float, of_int64, div, plus, half, minus_one, gt}

  unfoldable pub score : SandboxSpec → Node → Float
  score spec n =
      let free =
        plus (div (of_int64 (available_cpu n)) (of_int64 n.spec.cpu_count))
          (div (of_int64 (available_memory n)) (of_int64 n.spec.memory_bytes)) in
      if contains n.status.cached_builds spec.build_id then plus free half else free

  -- bestNode, with its key in `s.nodes`, and bestScore.
  pub record Best : Type 0 where
    pub node : Option (String × Node)
    pub best_score : Float

  -- The body of the loop.
  unfoldable pub consider : SandboxSpec → Best → String × Node → Best
  consider spec b (k, n) =
      if eligible spec n && gt (score spec n) b.best_score
      then record { node = some (k, n); best_score = score spec n }
      else b

  unfoldable pub consider_all : SandboxSpec → Best → List (String × Node) → Best
  consider_all spec b [] = b
  consider_all spec b (p ∷ ps) = consider_all spec (consider spec b p) ps

  unfoldable pub select_node : Order → GoMap String Node → SandboxSpec → Option (String × Node)
  select_node o nodes spec =
      (consider_all spec (record { node = none; best_score = minus_one }) (range o nodes)).node
