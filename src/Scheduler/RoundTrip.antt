-- ===== src/Scheduler/RoundTrip.antt =====
-- `Stop` undoes `Schedule`.
use open_e2b.Prelude.{
  String, ◌≡◌, sym, ap, ◌∙◌, Option, none, some, inl, inr, arith, ==_iff, string_eq, Option-cases,
}
use mathlib.Core.Path.{subst}
use mathlib.Core.Option.{some-injective}
use open_e2b.Prelude.Word.{add64, sub64, sub64-add64}
use open_e2b.Prelude.GoMap.{GoMap, get, put, get-put, get-put_self, get-remove}
use open_e2b.Prelude.GoMap.Range.{Order}
use open_e2b.Prelude.Time.{Time}
use open_e2b.Scheduler.Types.{
  Node, Sandbox, SandboxSpec, SandboxResult, Scheduler, ok, Result-cases, running, stopped,
}
use open_e2b.Scheduler.Select.{Float64, select_node, memory_bytes}
use open_e2b.Scheduler.Placement.{select_node-some}
use open_e2b.Scheduler.Ops.{
  schedule, stop, place, drop_sandbox, allocate, release, with_ports, new_sandbox, with_state,
}
use open_e2b.Scheduler.Books.{IsBooked}
use open_e2b.Scheduler.Accounts.{Accounts}
use open_e2b.Scheduler.Balance.{new_sandbox_fields}
use open_e2b.Scheduler.Errors.{SameMaps}

module _ {W : Type 0} (s : Scheduler W) where
  -- A successful `Schedule` has chosen a node and placed the sandbox there.
  schedule_inv :
      (fl : Float64) (o : Order) (spec : SandboxSpec) (started now : Time) (sb : Sandbox)
      → (schedule fl o spec started now s).0 ≡ ok sb
      → (key : String) × (n : Node) × (r : Option SandboxResult) × (select_node fl o s.nodes spec
          ≡ some (key, n))
        × SameMaps
            (place key n (with_ports r (new_sandbox spec n started now)) s)
            (schedule fl o spec started now s).1
  unfolding schedule place
  schedule_inv fl o spec started now sb h = elim (Option-cases (select_node fl o s.nodes spec)) [
    | inl e ↦ absurd (ground arith)
    | inr ((key, n), e) ↦ elim (Option-cases s.node_ops) [
      | inl f ↦ (key, n, none, e, ground arith)
      | inr (ops, f) ↦ elim (Result-cases (ops.create_sandbox n spec s.world).0) [
        | inl (r, a) ↦ (key, n, r, e, ground arith)
        | inr (x, a) ↦ absurd (ground arith)
      ]
    ]
  ]

  -- A successful `Stop` has found the sandbox and its node, and dropped the one from the other.
  pub stop_inv :
      (id : String)
      → (stop id s).0 ≡ ok tt
      → (sb : Sandbox) × (n : Node) × (get s.sandboxes id ≡ some sb)
        × (get s.nodes sb.status.node_id ≡ some n)
        × SameMaps (drop_sandbox id n sb s) (stop id s).1
  unfolding stop drop_sandbox
  stop_inv id h = elim (Option-cases (get s.sandboxes id)) [
    | inl e ↦ absurd (ground arith)
    | inr (sb, e) ↦ elim (Option-cases (get s.nodes sb.status.node_id)) [
      | inl f ↦ absurd (ground arith)
      | inr (n, f) ↦ (sb, n, e, f, ground arith)
    ]
  ]

-- Charging a booked node and crediting it again changes nothing.
release-allocate :
    (m : GoMap String Sandbox) (n : Node) (spec : SandboxSpec)
    → IsBooked m n
    → release spec (allocate spec n) ≡ n
unfolding release allocate
release-allocate m n spec b =
    let cpu : sub64 (add64 n.status.allocated_cpu spec.cpu_count) spec.cpu_count
        ≡ n.status.allocated_cpu =
      sub64-add64 n.status.allocated_cpu spec.cpu_count ∙ omega (arith, b.cpu) in
    let memory : sub64 (add64 n.status.allocated_memory (memory_bytes spec)) (memory_bytes spec)
        ≡ n.status.allocated_memory =
      sub64-add64 n.status.allocated_memory (memory_bytes spec) ∙ omega (arith, b.memory) in
    let count : sub64 (add64 n.status.sandbox_count 1) 1 ≡ n.status.sandbox_count =
      sub64-add64 n.status.sandbox_count 1 ∙ omega (arith, b.count) in
    rw (cpu, memory, count)

module _ {W : Type 0} (s : Scheduler W) (a : Accounts s) (key : String) (n : Node) (sb : Sandbox)
    (h : get s.nodes key ≡ some n) (e : sb.status.node_id ≡ key)
    (new : get s.sandboxes sb.spec.id ≡ none) where
  abbrev placed : Scheduler W
  placed = place key n sb s

  -- Dropping what was placed restores each lookup.
  drop_sandbox-place :
      (k : String)
      → let t = drop_sandbox sb.spec.id (allocate sb.spec n) (with_state running sb) placed in
        (get t.nodes k ≡ get s.nodes k) × (get t.sandboxes k ≡ get s.sandboxes k)
  unfolding drop_sandbox place
  drop_sandbox-place k =
      let put_nodes = put s.nodes key (allocate sb.spec n) in
      let put_sandboxes = put s.sandboxes sb.spec.id (with_state running sb) in
      let freed = release sb.spec (allocate sb.spec n) in
      (
        ground (
          arith,
          get-put put_nodes sb.status.node_id k freed,
          get-put s.nodes key k (allocate sb.spec n),
          release-allocate s.sandboxes n sb.spec (a.booked key n h),
          ==_iff key k,
          ==_iff sb.status.node_id k,
        ),
        ground (
          arith,
          get-remove (put put_sandboxes sb.spec.id (with_state stopped sb)) sb.spec.id k,
          get-put put_sandboxes sb.spec.id k (with_state stopped sb),
          get-put s.sandboxes sb.spec.id k (with_state running sb),
          ==_iff sb.spec.id k,
        ),
      )

  -- What a lookup finds after the placement.
  placed_found :
      (get placed.sandboxes sb.spec.id ≡ some (with_state running sb))
      × (get placed.nodes sb.status.node_id ≡ some (allocate sb.spec n))
  unfolding place
  placed_found = (
    get-put_self s.sandboxes sb.spec.id (with_state running sb),
    rw e (get-put_self s.nodes key (allocate sb.spec n)),
  )

  -- So in any state with the maps of the placement.
  restored :
      (t : Scheduler W) (id : String) (sb' : Sandbox) (n' : Node)
      → SameMaps placed t
      → sb.spec.id ≡ id
      → get t.sandboxes id ≡ some sb'
      → get t.nodes sb'.status.node_id ≡ some n'
      → (k : String)
      → (get (drop_sandbox id n' sb' t).nodes k ≡ get s.nodes k)
        × (get (drop_sandbox id n' sb' t).sandboxes k ≡ get s.sandboxes k)
  restored t id sb' n' (nodes, sandboxes) same f p k =
      subst (λ j. Back j n' sb' t) same
        (subst (λ x. Back sb.spec.id n' x t) (sym at_sb)
          (subst (λ y. Back sb.spec.id y (with_state running sb) t) (sym at_n) maps))
    where
      Back : String → Node → Sandbox → Scheduler W → Type 0
      Back j y x u =
          (get (drop_sandbox j y x u).nodes k ≡ get s.nodes k)
          × (get (drop_sandbox j y x u).sandboxes k ≡ get s.sandboxes k)

      at_sb : sb' ≡ with_state running sb
      at_sb = some-injective _ _ (sym f ∙ rw (sandboxes, ← same) placed_found.0)

      at_n : n' ≡ allocate sb.spec n
      at_n = some-injective _ _ (sym p ∙ rw (at_sb, nodes) placed_found.1)

      maps : Back sb.spec.id (allocate sb.spec n) (with_state running sb) t
      maps = unfold drop_sandbox in rw (nodes, sandboxes) (drop_sandbox-place k)

-- From a state whose books balance, if `Schedule` succeeds with an ID that is not in use, and then
-- `Stop` with that ID does, every lookup of a node and of a sandbox finds what it found before:
-- nothing is leaked.
pub stop-schedule :
    {W : Type 0} (fl : Float64) (o : Order) (spec : SandboxSpec) (started now : Time)
    (s : Scheduler W) (sb : Sandbox)
    → Accounts s
    → get s.sandboxes spec.id ≡ none
    → (schedule fl o spec started now s).0 ≡ ok sb
    → (stop spec.id (schedule fl o spec started now s).1).0 ≡ ok tt
    → let t = (stop spec.id (schedule fl o spec started now s).1).1 in
      (k : String) → (get t.nodes k ≡ get s.nodes k) × (get t.sandboxes k ≡ get s.sandboxes k)
stop-schedule fl o spec started now s sb a new h g k =
    let s₁ = (schedule fl o spec started now s).1 in
    let (key, n, r, e, (nodes, sandboxes)) = schedule_inv s fl o spec started now sb h in
    let (sb', n', f, p, (nodes', sandboxes')) = stop_inv s₁ spec.id g in
    let x = with_ports r (new_sandbox spec n started now) in
    let (made, on) = new_sandbox_fields r spec n started now in
    let found = (select_node-some fl o s.nodes spec key n a.nodes_distinct e).0 in
    let at_key : x.status.node_id ≡ key = on ∙ a.node_ids key n found in
    let new' : get s.sandboxes x.spec.id ≡ none = rw made new in
    let (node_back, sandbox_back) =
      restored s a key n x found at_key new' s₁ spec.id sb' n' (nodes, sandboxes)
        (ap (λ (y : SandboxSpec). y.id) made) f p k in
    (ap (λ m. get m k) nodes' ∙ node_back, ap (λ m. get m k) sandboxes' ∙ sandbox_back)
