-- ===== src/Api/Handlers/Templates/Poll.antt =====
-- `GetBuildStatus` of internal/api/template.go on the store of internal/db/memory.go.
use open_e2b.Prelude.{
  ℕ, suc, ◌+◌, ◌<◌, ◌≤◌, String, true, false, ◌≡◌, refl, List, [], ◌∷◌, ◌++◌, some, string_eq,
  arith, length,
}
use open_e2b.Prelude.Word.{slt64}
use open_e2b.Prelude.GoMap.{get}
use open_e2b.Prelude.GoMap.Range.{Order}
use open_e2b.Db.Types
use open_e2b.Db.Memory.{MemoryStore}
use open_e2b.Db.Memory.Implements.{memory_db}
use open_e2b.Db.Memory.Builds
use open_e2b.Db.Memory.Templates as Tables
use open_e2b.Api.Models.{BuildLogEntry}
use open_e2b.Api.Convert.{build_from_db, template_from_db}
use open_e2b.Api.Store.{found}
use open_e2b.Api.Store.Templates as Layer
use open_e2b.Api.Handlers.Templates.{Server, info, skip, entries_from, get_build_status}

length-append {ℓ} : {A : Type ℓ} (xs ys : List A) → length (xs ++ ys) ≡ length xs + length ys
length-append [] ys = omega arith
length-append (x ∷ xs) ys = ground (arith, length-append xs ys)

skip-append {ℓ} : {A : Type ℓ} (xs ys : List A) → skip (length xs) (xs ++ ys) ≡ ys
skip-append [] ys = refl
skip-append (x ∷ xs) ys = skip-append xs ys

slt64-true : (a b : ℕ) → a < b → b < 9223372036854775808 → slt64 a b ≡ true
unfolding slt64
slt64-true a b h k = ground arith

slt64-false : (a b : ℕ) → b ≤ a → a < 9223372036854775808 → slt64 a b ≡ false
unfolding slt64
slt64-false a b h k = ground arith

entries_from-append :
    (seen new : List BuildLogEntry)
    → length (seen ++ new) < 9223372036854775808
    → entries_from (length seen) (seen ++ new) ≡ new
unfolding entries_from
entries_from-append [] [] small = rw (slt64-false 0 0 (omega arith) (omega arith)) refl
entries_from-append [] (y ∷ ys) small =
    rw
      (
        slt64-true 0 (suc (length ys)) (omega arith) small,
        slt64-false 0 0 (omega arith) (omega arith),
      )
      refl
entries_from-append (x ∷ xs) [] small =
    let all : length (xs ++ []) ≡ length xs + 0 = length-append xs [] in
    let no : slt64 (suc (length xs)) (suc (length (xs ++ []))) ≡ false =
      slt64-false _ _ (omega (arith, all)) (omega (arith, all, small)) in
    rw (no, slt64-true 0 (suc (length xs)) (omega arith) (omega (arith, all, small))) refl
entries_from-append (x ∷ xs) (y ∷ ys) small =
    let all : length (xs ++ y ∷ ys) ≡ length xs + suc (length ys) = length-append xs (y ∷ ys) in
    let yes : slt64 (suc (length xs)) (suc (length (xs ++ y ∷ ys))) ≡ true =
      slt64-true _ _ (omega (arith, all)) small in
    rw (yes, slt64-true 0 (suc (length xs)) (omega arith) (omega (arith, all, small)))
      (skip-append xs (y ∷ ys))

-- On the store in memory, for a template and a build that are there: a client that has seen some entries
-- of the log, and asks for the status of the build with their number as the offset, is answered 200
-- with the status of the build, all its lines, and exactly the entries that it has not seen, provided
-- that the log has fewer than 2 ^ 63 entries. Nothing changes.
pub get_build_status-rest :
    (o : Order) (template id : String) (v : Server MemoryStore) (t : Types.Template)
    (row : Types.Build) (seen new : List BuildLogEntry)
    → found (Tables.get_template o template v.store) ≡ some t
    → get v.store.builds id ≡ some row
    → (build_from_db row).log_entries ≡ seen ++ new
    → length (seen ++ new) < 9223372036854775808
    → get_build_status memory_db o template id (length seen) v ≡ (
      record {
        code = 200;
        body = info (record {
          logs = row.logs;
          log_entries = new;
          template_id = template;
          build_id = id;
          status = row.status;
        });
      },
      v,
    )
unfolding get_build_status Layer.get_template Layer.get_build Builds.get_build build_from_db
    template_from_db
get_build_status-rest o template id v t row seen new e f split small =
    rw (e, f) (rw (split, entries_from-append seen new small) refl)
