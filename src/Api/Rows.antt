-- ===== src/Api/Rows.antt =====
-- internal/api/store.go over a table of sandboxes: what each method does to the rows.
use open_e2b.Prelude.{
  ℕ, String, ◌≡◌, true, false, ◌==◌, string_eq, Option, none, some, inl, inr, arith, if◌then◌else◌,
  ◌⊎◌,
}
use open_e2b.Prelude.Time
use open_e2b.Prelude.Time.{Time, seconds}
use open_e2b.Db.Types.{Sandbox, ok, err, apply_sandbox}
use open_e2b.Db.Store.{Store}
use open_e2b.Db.Store.Table.{IsTable}
use open_e2b.Api.Convert.{sandbox_from_db, sandbox_to_db}
use open_e2b.Api.Models.{NewSandbox}
use open_e2b.Api.Records.{TemplateRecord}
use open_e2b.Api
use open_e2b.Api.Store.{convert, found, new_record}

module _ {S : Type 0} (db : Store S) (rows : S → String → Option Sandbox) (t : IsTable db rows)
    (s : S) (id : String) where
  -- One row is set, the others stay.
  abbrev pub Writes : S → Option Sandbox → Type 0
  Writes s' row = (j : String) → rows s' j ≡ (if id == j then row else rows s j)

  pub get_sandbox-rows : Api.Store.get_sandbox db id s ≡ convert sandbox_from_db (rows s id)
  unfolding Api.Store.get_sandbox
  get_sandbox-rows = rw (Api.Store.get_sandbox, t.get-rows id s)

  module _ (sb : Sandbox) (h : rows s id ≡ some sb) where
    pub update_sandbox_state-Writes :
        (st : String)
        → Writes (Api.Store.update_sandbox_state db id st s).1 (some (record sb { state = st }))
    unfolding Api.Store.update_sandbox_state apply_sandbox
    update_sandbox_state-Writes st =
        (t.update-rows id (record { state = some st; end_at = none; node_id = none }) sb s h).1

    pub update_sandbox_timeout-Writes :
        (now : Time) (n : ℕ)
        → Writes
            (Api.Store.update_sandbox_timeout db now id n s).1
            (some (record sb { end_at = Time.add now (seconds n) }))
    unfolding Api.Store.update_sandbox_timeout apply_sandbox
    update_sandbox_timeout-Writes now n =
        (t.update-rows id
          (record { state = none; end_at = some (Time.add now (seconds n)); node_id = none }) sb s
          h).1

    pub delete_sandbox-Writes :
        ((Api.Store.delete_sandbox db id s).0 ≡ true)
        × Writes (Api.Store.delete_sandbox db id s).1 none
    unfolding Api.Store.delete_sandbox
    delete_sandbox-Writes = let d = t.delete-rows id sb s h in (ground arith, d.1)

  pub delete_sandbox-missing :
      rows s id ≡ none
      → ((Api.Store.delete_sandbox db id s).0 ≡ false)
        × ((j : String) → rows (Api.Store.delete_sandbox db id s).1 j ≡ rows s j)
  unfolding Api.Store.delete_sandbox
  delete_sandbox-missing h = let d = t.delete-missing id s h in (ground arith, d.1)

module _ {S : Type 0} (db : Store S) (rows : S → String → Option Sandbox) (t : IsTable db rows)
    (s : S) (id token : String) (now counted_at : Time) (req : NewSandbox) (x : TemplateRecord)
    (domain : String) where
  -- The new record is the row of the new ID, or the database refused it and no row has changed.
  pub create_sandbox-Writes :
      let rec = new_record id token now req x domain in
      let z = Api.Store.create_sandbox db id token now counted_at req x domain s in
      ((e : String) × (z.0 ≡ err e) × ((j : String) → rows z.1 j ≡ rows s j))
      ⊎ ((z.0 ≡ ok rec) × Writes db rows t s id z.1 (some (sandbox_to_db rec)))
  unfolding Api.Store.create_sandbox sandbox_to_db new_record
  create_sandbox-Writes =
      let rec = new_record id token now req x domain in
      elim (t.create-rows (sandbox_to_db rec) s) [
        | inr ((e, f), k) ↦ inl (e, ground arith, λ j. ground (arith, k j))
        | inl (f, k) ↦ inr (
          ground arith,
          λ j. ground (
            arith,
            k j,
            t.spawn-rows counted_at x.template_id j (db.create_sandbox (sandbox_to_db rec) s).1,
          ),
        )
      ]
