-- ===== src/Db/Store/Table.antt =====
-- What the API layer relies on of a database: its sandboxes are a table, `rows`, from an ID to at
-- most one record, that each operation reads or writes whole. `CreateSandbox` may fail; an update or a
-- deletion of a row that is there does not, as in the store in memory (Memory/Implements).
use open_e2b.Prelude.{String, ◌≡◌, ◌⊎◌, ◌==◌, string_eq, Option, none, some, if◌then◌else◌}
use open_e2b.Prelude.Time.{Time}
use open_e2b.Db.Types.{Result, ok, err, Sandbox, SandboxUpdate, apply_sandbox}
use open_e2b.Db.Store.{Store}

module _ {S : Type 0} where
  -- A write that fails and leaves the table as it was.
  abbrev pub Fails : (S → String → Option Sandbox) → S → Result (Unit {0}) × S → Type 0
  Fails rows s (r, s') = ((e : String) × (r ≡ err e)) × ((j : String) → rows s' j ≡ rows s j)

  -- A write that succeeds and sets one row.
  abbrev pub Sets :
      (S → String → Option Sandbox) → S → String → Option Sandbox → Result (Unit {0}) × S → Type 0
  Sets rows s id row (r, s') =
      (r ≡ ok tt) × ((j : String) → rows s' j ≡ (if id == j then row else rows s j))

pub record IsTable {S : Type 0} (db : Store S) (rows : S → String → Option Sandbox) : Type 0 where
  pub get-rows : (id : String) (s : S) → db.get_sandbox id s ≡ ok (rows s id)
  pub create-rows :
      (sb : Sandbox) (s : S)
      → Sets rows s sb.sandbox_id (some sb) (db.create_sandbox sb s)
        ⊎ Fails rows s (db.create_sandbox sb s)
  pub update-rows :
      (id : String) (u : SandboxUpdate) (sb : Sandbox) (s : S)
      → rows s id ≡ some sb
      → Sets rows s id (some (apply_sandbox u sb)) (db.update_sandbox id u s)
  pub update-missing :
      (id : String) (u : SandboxUpdate) (s : S)
      → rows s id ≡ none
      → Fails rows s (db.update_sandbox id u s)
  pub delete-rows :
      (id : String) (sb : Sandbox) (s : S)
      → rows s id ≡ some sb
      → Sets rows s id none (db.delete_sandbox id s)
  pub delete-missing :
      (id : String) (s : S) → rows s id ≡ none → Fails rows s (db.delete_sandbox id s)
  pub spawn-rows :
      (now : Time) (id j : String) (s : S)
      → rows (db.increment_template_spawn_count now id s).1 j ≡ rows s j
