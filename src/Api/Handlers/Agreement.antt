-- ===== src/Api/Handlers/Agreement.antt =====
-- The handlers keep the state of a sandbox in the store and in the scheduler in step.
use open_e2b.Prelude.{
  String, ◌≡◌, ◌⊎◌, inl, inr, ◌==◌, string_eq, Option, some, arith, Option-cases, ==_iff,
}
use open_e2b.Prelude.GoMap.{GoMap, get, put, get-put, get-remove}
use open_e2b.Db.Types.{Sandbox}
use open_e2b.Db.Store.{Store}
use open_e2b.Db.Store.Table.{IsTable}
use open_e2b.Scheduler.Types
use open_e2b.Scheduler.Types.{Scheduler, Error, ok, err, is_paused, paused, running, Result-cases}
use open_e2b.Scheduler.RoundTrip.{stop_inv}
use open_e2b.Scheduler.Ops
use open_e2b.Scheduler.Ops.{with_state}
use open_e2b.Api.Store.{state_paused}
use open_e2b.Api.Rows.{Writes}
use open_e2b.Api.Handlers.{Server}

module _ {W : Type 0} (s : Scheduler W) (id : String) where
  -- What a call that sets a sandbox's state does to the sandboxes.
  abbrev Moved : Types.SandboxState → Types.Result (Unit {0}) × Scheduler W → Type 0
  Moved st (r, s') =
      ((r ≡ ok tt)
        × (x : Types.Sandbox) × (get s.sandboxes id ≡ some x)
        × (s'.sandboxes ≡ put s.sandboxes id (with_state st x)))
      ⊎ ((e : Error) × (r ≡ err e) × (s'.sandboxes ≡ s.sandboxes))

  pub pause-Moved : Moved paused (Ops.pause id s)
  unfolding Ops.pause Ops.update_sandbox
  pause-Moved = elim (Result-cases (Ops.pause id s).0) [
    | inr (e, h) ↦ inr (e, h, ground arith)
    | inl (u, h) ↦ elim (Option-cases (get s.sandboxes id)) [
      | inl f ↦ absurd (ground arith)
      | inr (x, f) ↦ inl (h, x, f, ground arith)
    ]
  ]

  pub resume-Moved : Moved running (Ops.resume id s)
  unfolding Ops.resume Ops.update_sandbox
  resume-Moved = elim (Result-cases (Ops.resume id s).0) [
    | inr (e, h) ↦ inr (e, h, ground arith)
    | inl (u, h) ↦ elim (Option-cases (get s.sandboxes id)) [
      | inl f ↦ absurd (ground arith)
      | inr (x, f) ↦ inl (h, x, f, ground arith)
    ]
  ]

  -- A stop takes at most the sandbox of the ID away.
  pub stop-get :
      (j : String) (x : Types.Sandbox)
      → get (Ops.stop id s).1.sandboxes j ≡ some x
      → get s.sandboxes j ≡ some x
  unfolding Ops.stop Ops.drop_sandbox
  stop-get j x h = elim (Result-cases (Ops.stop id s).0) [
    | inr (e, f) ↦ ground arith
    | inl (u, f) ↦
        let (sb, n, a, b, same) = stop_inv s id f in
        ground (
          arith,
          get-remove (put s.sandboxes id (with_state Types.stopped sb)) id j,
          get-put s.sandboxes id j (with_state Types.stopped sb),
        )
  ]

module _ {S : Type 0} (rows : S → String → Option Sandbox) where
  -- A sandbox that both know is paused in both or in neither.
  abbrev pub Agree : S → GoMap String Types.Sandbox → Type 0
  Agree st m =
      (id : String) (sb : Sandbox) (x : Types.Sandbox)
      → rows st id ≡ some sb
      → get m id ≡ some x
      → (sb.state == state_paused) ≡ is_paused x.status.state

  abbrev pub InStep : {W : Type 0} → Server S W → Type 0
  InStep {W} v = (s : Scheduler W) → v.scheduler ≡ some s → Agree v.store s.sandboxes

module _ {S : Type 0} (db : Store S) (rows : S → String → Option Sandbox)
    (t : IsTable db rows) where
  -- One write on each side, of the same state.
  pub Agree-both :
      (st st' : S) (m m' : GoMap String Types.Sandbox) (id : String) (sb : Sandbox)
      (x : Types.Sandbox)
      → Agree rows st m
      → Writes db rows t st id st' (some sb)
      → m' ≡ put m id x
      → (sb.state == state_paused) ≡ is_paused x.status.state
      → Agree rows st' m'
  Agree-both st st' m m' id sb x a w e same j sb' x' h k =
      ground (arith, w j, get-put m id j x, a j sb' x')

  -- A write of a row that leaves its state.
  pub Agree-row :
      (st st' : S) (m : GoMap String Types.Sandbox) (id : String) (sb sb' : Sandbox)
      → Agree rows st m
      → rows st id ≡ some sb
      → Writes db rows t st id st' (some sb')
      → sb'.state ≡ sb.state
      → Agree rows st' m
  Agree-row st st' m id sb sb' a r w same j sb'' x h k =
      ground (arith, w j, a j sb x, a j sb'' x, ==_iff id j)

  -- Both may forget.
  pub Agree-less :
      (st st' : S) (m m' : GoMap String Types.Sandbox)
      → Agree rows st m
      → ((j : String) (sb : Sandbox) → rows st' j ≡ some sb → rows st j ≡ some sb)
      → ((j : String) (x : Types.Sandbox) → get m' j ≡ some x → get m j ≡ some x)
      → Agree rows st' m'
  Agree-less st st' m m' a f g j sb x h k = a j sb x (f j sb h) (g j x k)
