-- ===== src/Api/Handlers/Steps.antt =====
-- Each handler of one sandbox keeps the store and the scheduler in step.
use open_e2b.Prelude.{
  ℕ, String, ◌≡◌, refl, ◌⊎◌, inl, inr, ◌==◌, string_eq, Option, none, some, arith, Bool-cases,
  Option-cases, ==_refl, or_default,
}
use mathlib.Core.Path.{subst, sym}
use mathlib.Core.Option.{some-injective}
use open_e2b.Prelude.GoMap.{GoMap, get, put}
use open_e2b.Prelude.Time
use open_e2b.Prelude.Time.{Time, seconds}
use open_e2b.Db.Types.{Sandbox}
use open_e2b.Db.Store.{Store}
use open_e2b.Db.Store.Table.{IsTable}
use open_e2b.Scheduler.Types
use open_e2b.Scheduler.Types.{Scheduler, Error, ok, err, is_paused, paused, running, Result-cases}
use open_e2b.Scheduler.Ops
use open_e2b.Scheduler.Ops.{with_state}
use open_e2b.Api
use open_e2b.Api.Store.{state_running, state_paused}
use open_e2b.Api.Convert.{sandbox_from_db}
use open_e2b.Api.Rows.{
  get_sandbox-rows, update_sandbox_state-Writes, update_sandbox_timeout-Writes,
  delete_sandbox-Writes, delete_sandbox-missing,
}
use open_e2b.Api.Models.{ResumedSandbox, SandboxTimeout, SandboxRefresh}
use open_e2b.Api.Handlers.{Server}
use open_e2b.Api.Handlers.Methods.{
  pause_sandbox, resume_sandbox, delete_sandbox, set_sandbox_timeout, refresh_sandbox,
}
use open_e2b.Api.Handlers.Agreement.{
  Agree, InStep, Agree-both, Agree-row, Agree-less, pause-Moved, resume-Moved, stop-get,
}

module _ {S : Type 0} (db : Store S) (rows : S → String → Option Sandbox)
    (t : IsTable db rows) where
  module _ {W : Type 0} (v : Server S W) (id : String) (before : InStep rows v) where
    abbrev row_paused : Sandbox → Sandbox
    row_paused sb = record sb { state = state_paused }

    -- A server with known parts.
    step_to :
        (v' : Server S W) (st : S) (s : Scheduler W)
        → v' ≡ record { store = st; scheduler = some s }
        → Agree rows st s.sandboxes
        → InStep rows v'
    step_to v' st s e a s' f =
        subst (λ (z : Server S W). Agree rows z.store s'.sandboxes) (sym e)
          (subst (λ (z : Scheduler W). Agree rows st z.sandboxes)
            (some-injective s s' (ground arith)) a)

    known : rows v.store id ≡ none ⊎ ((sb : Sandbox) × (rows v.store id ≡ some sb))
    known = Option-cases (rows v.store id)

    -- The scheduler has moved the sandbox, and the store writes the same state.
    moved :
        (s : Scheduler W) (st : Types.SandboxState) (to : String)
        (r : Types.Result (Unit {0}) × Scheduler W) (sb : Sandbox)
        → v.scheduler ≡ some s
        → rows v.store id ≡ some sb
        → (x : Types.Sandbox) × (get s.sandboxes id ≡ some x)
          × (r.1.sandboxes ≡ put s.sandboxes id (with_state st x))
        → (to == state_paused) ≡ is_paused st
        → Agree rows (Api.Store.update_sandbox_state db id to v.store).1 r.1.sandboxes
    moved s st to r sb e h (x, f, g) same =
        Agree-both db rows t v.store (Api.Store.update_sandbox_state db id to v.store).1 s.sandboxes
          r.1.sandboxes id (record sb { state = to }) (with_state st x) (before s e)
          (update_sandbox_state-Writes db rows t v.store id sb h to) g same

    pub pause-InStep : InStep rows (pause_sandbox db id v).1
    unfolding pause_sandbox sandbox_from_db
    pause-InStep =
        let g = get_sandbox-rows db rows t v.store id in
        elim known [
          | inl h ↦ subst (InStep rows) (ground arith) before
          | inr (sb, h) ↦ elim (Bool-cases (sb.state == state_paused)) [
            | inl b ↦ subst (InStep rows) (ground arith) before
            | inr b ↦ elim (Option-cases v.scheduler) [
              | inl n ↦ λ s' e. absurd (ground arith)
              | inr (s, n) ↦ elim (pause-Moved s id) [
                | inl (o, x, f, k) ↦
                    step_to (pause_sandbox db id v).1
                      (Api.Store.update_sandbox_state db id state_paused v.store).1
                      (Ops.pause id s).1 (ground arith)
                      (moved s paused state_paused (Ops.pause id s) sb n h (x, f, k) refl)
                | inr (e, o, m) ↦
                    step_to (pause_sandbox db id v).1 v.store (Ops.pause id s).1 (ground arith)
                      (λ j sb' x k l. before s n j sb' x k (ground arith))
              ]
            ]
          ]
        ]

    -- The timeout of a row is written.
    timed :
        (st : S) (m : GoMap String Types.Sandbox) (sb : Sandbox) (now : Time) (n : ℕ)
        → Agree rows st m
        → rows st id ≡ some sb
        → Agree rows (Api.Store.update_sandbox_timeout db now id n st).1 m
    timed st m sb now n a h =
        Agree-row db rows t st (Api.Store.update_sandbox_timeout db now id n st).1 m id sb
          (record sb { end_at = Time.add now (seconds n) }) a h
          (update_sandbox_timeout-Writes db rows t st id sb h now n) refl

    pub set_timeout-InStep :
        (now : Time) (req : Option SandboxTimeout)
        → InStep rows (set_sandbox_timeout db now id req v).1
    unfolding set_sandbox_timeout
    set_timeout-InStep now req =
        let g = get_sandbox-rows db rows t v.store id in
        elim known [
          | inl h ↦ subst (InStep rows) (ground arith) before
          | inr (sb, h) ↦ elim (Option-cases req) [
            | inl b ↦ subst (InStep rows) (ground arith) before
            | inr (r, b) ↦ elim (Option-cases v.scheduler) [
              | inl n ↦ λ s' e. absurd (ground arith)
              | inr (s, n) ↦
                  step_to (set_sandbox_timeout db now id req v).1
                    (Api.Store.update_sandbox_timeout db now id r.timeout v.store).1 s
                    (ground arith) (timed v.store s.sandboxes sb now r.timeout (before s n) h)
            ]
          ]
        ]

    pub refresh-InStep :
        (now : Time) (req : SandboxRefresh) → InStep rows (refresh_sandbox db now id req v).1
    unfolding refresh_sandbox
    refresh-InStep now req =
        let g = get_sandbox-rows db rows t v.store id in
        elim known [
          | inl h ↦ subst (InStep rows) (ground arith) before
          | inr (sb, h) ↦ elim (Option-cases v.scheduler) [
            | inl n ↦ λ s' e. absurd (ground arith)
            | inr (s, n) ↦
                step_to (refresh_sandbox db now id req v).1
                  (Api.Store.update_sandbox_timeout db now id (or_default 60 req.duration)
                    v.store).1
                  s (ground arith)
                  (timed v.store s.sandboxes sb now (or_default 60 req.duration) (before s n) h)
          ]
        ]

    resumed_store : Time → Option ℕ → S
    resumed_store now none = (Api.Store.update_sandbox_state db id state_running v.store).1
    resumed_store now (some n) =
        (Api.Store.update_sandbox_timeout db now id n
          (Api.Store.update_sandbox_state db id state_running v.store).1).1

    resumed-Agree :
        (now : Time) (o : Option ℕ) (m : GoMap String Types.Sandbox) (sb : Sandbox)
        → rows v.store id ≡ some sb
        → Agree rows (Api.Store.update_sandbox_state db id state_running v.store).1 m
        → Agree rows (resumed_store now o) m
    unfolding resumed_store
    resumed-Agree now none m sb h a = a
    resumed-Agree now (some n) m sb h a =
        let w = update_sandbox_state-Writes db rows t v.store id sb h state_running id in
        timed (Api.Store.update_sandbox_state db id state_running v.store).1 m
          (record sb { state = state_running }) now n a (rw (w, ==_refl id))

    pub resume-InStep :
        (now : Time) (req : Option ResumedSandbox) → InStep rows (resume_sandbox db now id req v).1
    unfolding resume_sandbox sandbox_from_db resumed_store
    resume-InStep now req =
        let g = get_sandbox-rows db rows t v.store id in
        elim known [
          | inl h ↦ subst (InStep rows) (ground arith) before
          | inr (sb, h) ↦ elim (Bool-cases (sb.state == state_paused)) [
            | inr b ↦ subst (InStep rows) (ground arith) before
            | inl b ↦ elim (Option-cases req) [
              | inl c ↦ subst (InStep rows) (ground arith) before
              | inr (q, c) ↦ elim (Option-cases v.scheduler) [
                | inl n ↦ λ s' e. absurd (ground arith)
                | inr (s, n) ↦ elim (resume-Moved s id) [
                  | inl (o, x, f, k) ↦
                      step_to (resume_sandbox db now id req v).1 (resumed_store now q.timeout)
                        (Ops.resume id s).1 (ground arith)
                        (resumed-Agree now q.timeout (Ops.resume id s).1.sandboxes sb h
                          (moved s running state_running (Ops.resume id s) sb n h (x, f, k) refl))
                  | inr (e, o, m) ↦
                      step_to (resume_sandbox db now id req v).1 v.store (Ops.resume id s).1
                        (ground arith) (λ j sb' x k l. before s n j sb' x k (ground arith))
                ]
              ]
            ]
          ]
        ]

    gone :
        (j : String) (sb : Sandbox)
        → rows (Api.Store.delete_sandbox db id v.store).1 j ≡ some sb
        → rows v.store j ≡ some sb
    gone j sb h = elim known [
      | inl k ↦ ground (arith, (delete_sandbox-missing db rows t v.store id k).1 j)
      | inr (x, k) ↦ ground (arith, (delete_sandbox-Writes db rows t v.store id x k).1 j)
    ]

    pub delete-InStep : InStep rows (delete_sandbox db id v).1
    unfolding delete_sandbox
    delete-InStep = elim (Option-cases v.scheduler) [
      | inl n ↦ λ s' e. absurd (ground arith)
      | inr (s, n) ↦
          step_to (delete_sandbox db id v).1 (Api.Store.delete_sandbox db id v.store).1
            (Ops.stop id s).1 (ground arith)
            (Agree-less db rows t v.store (Api.Store.delete_sandbox db id v.store).1 s.sandboxes
              (Ops.stop id s).1.sandboxes (before s n) gone (stop-get s id))
    ]
