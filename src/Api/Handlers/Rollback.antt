-- ===== src/Api/Handlers/Rollback.antt =====
-- `CreateSandbox` places the sandbox on both sides or on neither. The rows are those of the sandboxes.
use open_e2b.Prelude.{
  ℕ, String, ◌≡◌, refl, ◌⊎◌, inl, inr, ◌==◌, ==_iff, ==_refl, string_eq, Option, none, some, arith,
  Option-cases, Bool-cases,
}
use mathlib.Core.Path.{subst}
use open_e2b.Db.Types.{Sandbox, ok}
use open_e2b.Db.Store.{Store}
use open_e2b.Db.Store.Table.{IsTable}
use open_e2b.Scheduler.Types
use open_e2b.Scheduler.Types.{Scheduler, Error, SandboxSpec, Result-cases}
use open_e2b.Scheduler.Select.{Float64}
use open_e2b.Scheduler.Errors.{SameMaps, schedule-err}
use open_e2b.Scheduler.Ops
use open_e2b.Api
use open_e2b.Api.Convert.{sandbox_to_db, to_sandbox}
use open_e2b.Api.Store.{new_record}
use open_e2b.Api.Store.Templates
use open_e2b.Api.Rows.{Writes, delete_sandbox-Writes, create_sandbox-Writes}
use open_e2b.Api.Models.{NewSandbox}
use open_e2b.Api.Records.{TemplateRecord, SandboxRecord}
use open_e2b.Api.Handlers.{Server, Answer, answer, sandbox, Message, text, wrapped, fail}
use open_e2b.Api.Handlers.Create.{
  Run, spec_of, clean_up, schedule_record, create_from, create_sandbox,
}

module _ {S W : Type 0} (db : Store S) (rows : S → String → Option Sandbox) (t : IsTable db rows)
    (fl : Float64) (domain : String) (run : Run) (v : Server S W) where
  -- The answer is an error, no row of a sandbox has changed, and neither has a map of the scheduler.
  abbrev pub Refused : Answer × Server S W → Type 0
  Refused (a, v') =
      (code : ℕ) × (m : Message) × (a ≡ fail code m)
      × ((j : String) → rows v'.store j ≡ rows v.store j)
      × ((s : Scheduler W)
          → v.scheduler ≡ some s
          → (s' : Scheduler W) × (v'.scheduler ≡ some s') × SameMaps s s')

  abbrev planned :
      NewSandbox → TemplateRecord → Scheduler W → Types.Result Types.Sandbox × Scheduler W
  planned req x s =
      Ops.schedule fl run.node_order
        (spec_of req x (new_record run.id run.token run.now req x domain)) run.scheduled_at
        run.expires_from s

  -- The answer is 201 with the new record, which is the row of the new ID, and the scheduler, if
  -- there is one, has scheduled the sandbox.
  abbrev pub Placed : NewSandbox → Answer × Server S W → Type 0
  Placed req (a, v') =
      (x : TemplateRecord) × (Templates.get_template db run.template_order req.template_id v.store
        ≡ some x)
      × let rec = new_record run.id run.token run.now req x domain in
        (a ≡ answer 201 (sandbox (to_sandbox rec)))
        × Writes db rows t v.store run.id v'.store (some (sandbox_to_db rec))
        × ((s : Scheduler W)
            → v.scheduler ≡ some s
            → (sb : Types.Sandbox) × ((planned req x s).0 ≡ Types.ok sb)
              × (v'.scheduler ≡ some (planned req x s).1))

  unchanged : (code : ℕ) (m : Message) → Refused (fail code m, v)
  unchanged code m = (code, m, refl, λ j. refl, λ s e. (s, e, (refl, refl)))

  module _ (req : NewSandbox) (fresh : rows v.store run.id ≡ none) where
    abbrev Outcome : Answer × Server S W → Type 0
    Outcome z = Refused z ⊎ Placed req z

    module _ (x : TemplateRecord)
        (h : Templates.get_template db run.template_order req.template_id v.store ≡ some x) where
      abbrev rec : SandboxRecord
      rec = new_record run.id run.token run.now req x domain

      abbrev stored : S
      stored =
          (Api.Store.create_sandbox db run.id run.token run.now run.counted_at req x domain
            v.store).1

      -- The record is taken out again.
      cleaned :
          Writes db rows t v.store run.id stored (some (sandbox_to_db rec))
          → (j : String) → rows (Api.Store.delete_sandbox db run.id stored).1 j ≡ rows v.store j
      cleaned w j =
          let d =
            delete_sandbox-Writes db rows t stored run.id (sandbox_to_db rec)
              (rw (w run.id, ==_refl run.id)) in
          ground (arith, w j, d.1 j, ==_iff run.id j)

      scheduled :
          (Api.Store.create_sandbox db run.id run.token run.now run.counted_at req x domain
              v.store).0
            ≡ ok rec
          → Writes db rows t v.store run.id stored (some (sandbox_to_db rec))
          → (s : Scheduler W) → v.scheduler ≡ some s
          → Outcome (create_from db fl domain run req v)
      unfolding create_from schedule_record clean_up new_record
      scheduled f w s n = elim (Result-cases (planned req x s).0) [
        | inl (sb, g) ↦
            let v' : Server S W = record { store = stored; scheduler = some (planned req x s).1 } in
            let out : Outcome (answer 201 (sandbox (to_sandbox rec)), v') =
              inr (x, h, (refl, w, λ s' e. (sb, ground arith, ground arith))) in
            subst Outcome (ground arith) out
        | inr (e, g) ↦
            let v' : Server S W = record {
              store = (Api.Store.delete_sandbox db run.id stored).1;
              scheduler = some (planned req x s).1;
            } in
            let m = wrapped "Failed to create sandbox: " e in
            let same : SameMaps s (planned req x s).1 =
              schedule-err s e fl run.node_order (spec_of req x rec) run.scheduled_at
                run.expires_from g in
            let out : Outcome (fail 500 m, v') = inl (
              500,
              m,
              refl,
              cleaned w,
              λ s' e'. ((planned req x s).1, refl, (ground arith, ground arith)),
            ) in
            subst Outcome (ground arith) out
      ]

      from_template : Outcome (create_from db fl domain run req v)
      unfolding create_from schedule_record clean_up
      from_template =
          elim (create_sandbox-Writes db rows t v.store run.id run.token run.now run.counted_at req
            x domain) [
              | inl (e, f, k) ↦
                  let v' : Server S W = record v { store = stored } in
                  let out : Outcome (fail 500 (text e), v') =
                    inl (500, text e, refl, k, λ s' q. (s', q, (refl, refl))) in
                  subst Outcome (ground arith) out
              | inr (f, w) ↦ elim (Option-cases v.scheduler) [
                | inr (s, n) ↦ scheduled f w s n
                | inl n ↦
                    let v' : Server S W = record v { store = stored } in
                    let out : Outcome (answer 201 (sandbox (to_sandbox rec)), v') =
                      inr (x, h, (refl, w, λ s' e. absurd (ground arith))) in
                    subst Outcome (ground arith) out
              ]
            ]

    -- Over a database whose sandboxes are a table, in which a deletion of a row that is there
    -- does not fail, and with a new ID that no row has: a request that decodes is either
    -- refused with an error, and then neither a row of a sandbox nor a node nor a sandbox of
    -- the scheduler has changed, while nothing is said of the row of the template, whose count
    -- of spawned sandboxes stays raised; or it is answered 201, and then the answer's record
    -- is the row of the new ID, no other row of a sandbox has changed, and the scheduler, if
    -- there is one, has scheduled it.
    pub create-both_or_neither :
        let z = create_sandbox db fl domain run (some req) v in Refused z ⊎ Placed req z
    unfolding create_sandbox create_from
    create-both_or_neither = elim (Bool-cases (req.template_id == "")) [
      | inl b ↦ subst Outcome (ground arith) (inl (unchanged 400 (text "templateID is required")))
      | inr b ↦
          elim (Option-cases
            (Templates.get_template db run.template_order req.template_id v.store)) [
              | inl h ↦
                  subst Outcome (ground arith) (inl (unchanged 404 (text "Template not found")))
              | inr (x, h) ↦ subst Outcome (ground arith) (from_template x h)
            ]
    ]
