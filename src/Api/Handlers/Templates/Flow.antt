-- ===== src/Api/Handlers/Templates/Flow.antt =====
-- The handlers of internal/api/template.go on the store of internal/db/memory.go, and the service of
-- internal/templatebuild/service.go behind them.
use open_e2b.Prelude.{
  ℕ, String, true, ◌≡◌, ◌≢◌, refl, sym, ap, ◌∙◌, inl, inr, some, ◌==◌, ==_iff, string_eq, arith,
  Option-cases, Bool-cases,
}
use mathlib.Core.Option.{some-injective}
use open_e2b.Prelude.GoMap.{get, put, get-put_self}
use open_e2b.Prelude.GoMap.Range.{Order}
use open_e2b.Prelude.Time.{Time}
use open_e2b.Db.Types
use open_e2b.Db.Types.{ok, err}
use open_e2b.Db.Memory.{MemoryStore}
use open_e2b.Db.Memory.Implements.{memory_db}
use open_e2b.Db.Memory.Builds
use open_e2b.Db.Memory.Builds.{update_build, apply_build}
use open_e2b.Db.Memory.Templates as Tables
use open_e2b.Api.Bodies.{TemplateBuildStartV2}
use open_e2b.Api.Convert.{build_from_db, template_from_db}
use open_e2b.Api.Store.{found}
use open_e2b.Api.Store.Templates as Layer
use open_e2b.Api.Handlers.Templates as Handlers
use open_e2b.Api.Handlers.Templates.{
  Server, Answer, Start, config_of, start_build_v2, get_build_status,
}

abbrev pub marked : Time → Types.Build → Types.Build
marked t row = record row { status = "building"; updated_at = t }

-- What a request to start a build found when it is accepted: the template, and a build that waits.
pub record Accepts (o : Order) (template id : String) (s : MemoryStore) : Type 0 where
  pub found_template : Types.Template
  pub has_template : found (Tables.get_template o template s) ≡ some found_template
  pub row : Types.Build
  pub has_row : get s.builds id ≡ some row
  pub waits : row.status ≡ "waiting"

abbrev pub with_row : MemoryStore → String → Types.Build → MemoryStore
with_row s id row = record s { builds = put s.builds id row }

module _ (o : Order) (now : Time) (template id : String) (req : TemplateBuildStartV2)
    (v : Server MemoryStore) where
  abbrev pub call_for : Types.Template → Start
  call_for t = record { template_id = t.template_id; build_id = id; config = config_of req }

  pub accepted :
      (a : Accepts o template id v.store)
      → start_build_v2 memory_db o now template id (some req) v ≡ (
        record { code = 202; body = Handlers.empty },
        Handlers.spawn memory_db
            (call_for a.found_template)
            (record v { store = with_row v.store id (marked now a.row) }),
      )
  unfolding start_build_v2 Layer.get_template Layer.get_build Layer.update_build_status
      Builds.get_build update_build apply_build template_from_db build_from_db
  accepted a =
      let same : (a.row.status == "waiting") ≡ true = (==_iff a.row.status "waiting").1 a.waits in
      rw (a.has_template, a.has_row, same) (rw (a.has_row, update_build) refl)

  pub accepted-Accepts :
      (start_build_v2 memory_db o now template id (some req) v).0.code ≡ 202
      → Accepts o template id v.store
  unfolding start_build_v2 Layer.get_template Layer.get_build Builds.get_build template_from_db
      build_from_db
  accepted-Accepts e = elim (Option-cases (found (Tables.get_template o template v.store))) [
    | inl f ↦ (let x : ◌≡◌ {A = ℕ} 404 202 = rw f at e in ground arith)
    | inr (t, f) ↦ elim (Option-cases (get v.store.builds id)) [
      | inl g ↦ (let x : ◌≡◌ {A = ℕ} 404 202 = rw (f, g) at e in ground arith)
      | inr (row, g) ↦ elim (Bool-cases (row.status == "waiting")) [
        | inl w ↦ record {
          found_template = t;
          has_template = f;
          row = row;
          has_row = g;
          waits = (==_iff row.status "waiting").0 w;
        }
        | inr w ↦ (let x : ◌≡◌ {A = ℕ} 409 202 = rw (f, g, w) at e in ground arith)
      ]
    ]
  ]

pub spawn-store :
    (c : Start) (v : Server MemoryStore) → (Handlers.spawn memory_db c v).store ≡ v.store
spawn-store c v = elim (Bool-cases v.has_service) [ inl b ↦ rw b refl | inr b ↦ rw b refl ]

-- On the store in memory: once a request to start a build is answered 202, no request to start the
-- same build is answered 202 on the state that it leaves, under whatever name of a template.
pub start_build_v2-once :
    (o o' : Order) (now now' : Time) (template template' id : String)
    (req req' : TemplateBuildStartV2) (v : Server MemoryStore)
    → (start_build_v2 memory_db o now template id (some req) v).0.code ≡ 202
    → (start_build_v2 memory_db o' now' template' id
        (some req')
        (start_build_v2 memory_db o now template id (some req) v).1).0.code
      ≢ 202
start_build_v2-once o o' now now' template template' id req req' v first second =
    let a = accepted-Accepts o now template id req v first in
    let v' = (start_build_v2 memory_db o now template id (some req) v).1 in
    let b = accepted-Accepts o' now' template' id req' v' second in
    let s1 = with_row v.store id (marked now a.row) in
    let store : v'.store ≡ s1 =
      ap (λ (x : Answer × Server MemoryStore). x.1.store) (accepted o now template id req v a)
      ∙ spawn-store (call_for o now template id req v a.found_template) (record v { store = s1 }) in
    let row : some (marked now a.row) ≡ some b.row =
      sym (get-put_self v.store.builds id (marked now a.row))
      ∙ sym (ap (λ (s : MemoryStore). get s.builds id) store)
      ∙ b.has_row in
    let status : ◌≡◌ {A = String} "building" "waiting" =
      ap (λ (r : Types.Build). r.status) (some-injective (marked now a.row) b.row row) ∙ b.waits in
    ground (arith, (==_iff {A = String} "building" "waiting").1 status)
