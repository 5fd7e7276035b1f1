-- ===== src/Scheduler/Placement.antt =====
-- What `selectNode` chooses, in whatever order it visits the nodes.
use open_e2b.Prelude.{
  String, ◌≡◌, refl, true, false, List, [], ◌∷◌, none, some, arith, All, string_eq,
}
use open_e2b.Prelude.GoMap.{GoMap, get}
use open_e2b.Prelude.GoMap.Keys.{Distinct}
use open_e2b.Prelude.GoMap.Range.{Order, range, Found, range-Found, All-range}
use open_e2b.Scheduler.Types.{Node, SandboxSpec}
use open_e2b.Scheduler.Select.{Float64, Best, eligible, score, consider, consider_all, select_node}

module _ (fl : Float64) (spec : SandboxSpec) where
  open fl use {minus_one, gt, gt_irrefl, gt_trans}

  -- The best entry so far, if any, was visited, passed the tests, and has the best score.
  abbrev Chosen : (String × Node → Type 0) → Best fl → Type 0
  Chosen P b = elim b.node [
    | none ↦ b.best_score ≡ minus_one
    | some (k, n) ↦ P (k, n) × (eligible spec n ≡ true) × (b.best_score ≡ score fl spec n)
  ]

  consider-Chosen :
      (P : String × Node → Type 0) (b : Best fl) (k : String) (n : Node)
      → P (k, n)
      → Chosen P b
      → Chosen P (consider fl spec b (k, n))
  unfolding consider
  consider-Chosen P b k n v h = ground arith

  consider_all-Chosen :
      (P : String × Node → Type 0) (b : Best fl) (ps : List (String × Node))
      → All P ps
      → Chosen P b
      → Chosen P (consider_all fl spec b ps)
  unfolding consider_all
  consider_all-Chosen P b [] a h = h
  consider_all-Chosen P b ((k, n) ∷ ps) a h =
      consider_all-Chosen P (consider fl spec b (k, n)) ps a.1 (consider-Chosen P b k n a.0 h)

  -- An entry that does not beat the best score.
  abbrev Beaten : Best fl → String × Node → Type 0
  Beaten b (k, n) = eligible spec n ≡ true → gt (score fl spec n) b.best_score ≡ false

  consider-le :
      (b : Best fl) (x : fl.Float) (k : String) (n : Node)
      → gt x b.best_score ≡ false
      → gt x (consider fl spec b (k, n)).best_score ≡ false
  unfolding consider
  consider-le b x k n h = ground (arith, gt_trans x (score fl spec n) b.best_score)

  consider_all-le :
      (b : Best fl) (x : fl.Float) (ps : List (String × Node))
      → gt x b.best_score ≡ false
      → gt x (consider_all fl spec b ps).best_score ≡ false
  unfolding consider_all
  consider_all-le b x [] h = h
  consider_all-le b x ((k, n) ∷ ps) h =
      consider_all-le (consider fl spec b (k, n)) x ps (consider-le b x k n h)

  consider-Beaten :
      (b : Best fl) (k : String) (n : Node) → Beaten (consider fl spec b (k, n)) (k, n)
  unfolding consider
  consider-Beaten b k n e = ground (arith, gt_irrefl (score fl spec n))

  consider_all-Beaten :
      (b : Best fl) (ps : List (String × Node)) → All (Beaten (consider_all fl spec b ps)) ps
  unfolding consider_all
  consider_all-Beaten b [] = tt
  consider_all-Beaten b ((k, n) ∷ ps) = (
    λ e. consider_all-le (consider fl spec b (k, n)) (score fl spec n) ps (consider-Beaten b k n e),
    consider_all-Beaten (consider fl spec b (k, n)) ps,
  )

module _ (fl : Float64) (o : Order) (nodes : GoMap String Node) (spec : SandboxSpec) where
  abbrev start : Best fl
  start = record { node = none; best_score = fl.minus_one }

  abbrev final : Best fl
  final = consider_all fl spec start (range o nodes)

  every : (ps : List (String × Node)) → All (λ _. Unit {0}) ps
  every [] = tt
  every (p ∷ ps) = (tt, every ps)

  final-Chosen : Distinct nodes → Chosen fl spec (Found nodes) final
  final-Chosen d =
      consider_all-Chosen fl spec (Found nodes) start (range o nodes) (range-Found o nodes d) refl

  final-Beaten : (j : String) (m : Node) → get nodes j ≡ some m → Beaten fl spec final (j, m)
  final-Beaten j m h =
      All-range (Beaten fl spec final) o nodes j m
        (consider_all-Beaten fl spec start (range o nodes)) h

  -- In a map without a double key, the chosen node is registered under its key, passes the tests,
  -- and no registered node that passes them has a greater score.
  pub select_node-some :
      (k : String) (n : Node)
      → Distinct nodes
      → select_node fl o nodes spec ≡ some (k, n)
      → (get nodes k ≡ some n)
        × (eligible spec n ≡ true)
        × ((j : String) (m : Node)
            → get nodes j ≡ some m
            → eligible spec m ≡ true
            → fl.gt (score fl spec m) (score fl spec n) ≡ false)
  unfolding select_node
  select_node-some k n d e = (
    ground (arith, final-Chosen d),
    ground (arith, final-Chosen d),
    λ j m h p. ground (arith, final-Chosen d, final-Beaten j m h p),
  )

  -- The best score moves only together with the best node.
  none-minus_one : final.node ≡ none → final.best_score ≡ fl.minus_one
  none-minus_one e = ground (
    arith,
    consider_all-Chosen fl spec (λ _. Unit {0}) start (range o nodes) (every (range o nodes)) refl,
  )

  -- If no node is chosen, no registered node passes the tests and scores above -1.
  pub select_node-none :
      (j : String) (m : Node)
      → select_node fl o nodes spec ≡ none
      → get nodes j ≡ some m
      → eligible spec m ≡ true
      → fl.gt (score fl spec m) fl.minus_one ≡ false
  unfolding select_node
  select_node-none j m e h p = ground (arith, none-minus_one e, final-Beaten j m h p)
