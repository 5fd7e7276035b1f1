-- ===== src/Api/Handlers/Templates/Build.antt =====
-- A template build from its request to its end: the handlers of internal/api/template.go, the service
-- of internal/templatebuild/service.go and the store of internal/db/memory.go together.
use open_e2b.Prelude.{String, true, ◌≡◌, refl, sym, ap, ◌∙◌, [], ◌∷◌, ◌++◌, Option, some, string_eq}
use mathlib.Core.Path.{subst}
use mathlib.Core.Option.{some-injective}
use open_e2b.Api.Store.{found}
use open_e2b.Prelude.GoMap.{get, get-put_self}
use open_e2b.Prelude.GoMap.Range.{Order}
use open_e2b.Prelude.Time.{Time}
use open_e2b.Db.Types
use open_e2b.Db.Types.{ok}
use open_e2b.Db.Memory.{MemoryStore}
use open_e2b.Db.Memory.Implements.{memory_db}
use open_e2b.Db.Memory.Templates as Tables
use open_e2b.TemplateBuild.Types.{Machine}
use open_e2b.TemplateBuild.Service.{Service, new_build, start_build, worker}
use open_e2b.TemplateBuild.Service.Laws.{Admits}
use open_e2b.TemplateBuild.Service.Worker.{Finished, started_build_finishes}
use open_e2b.Api.Bodies.{TemplateBuildStartV2}
use open_e2b.Api.Handlers.Templates.{Server, Answer, Start, config_of, start_build_v2}
use open_e2b.Api.Handlers.Templates.Flow.{
  Accepts, marked, with_row, call_for, accepted, accepted-Accepts, spawn-store,
}

-- The goroutine of the request, and then a worker.
abbrev pub served :
    {W : Type 0}
    → Machine W
    → Order
    → Time
    → Time
    → Time
    → Start
    → Service
    → MemoryStore
    → W
    → Service × W × MemoryStore
served m o now then_ later c sv s w =
    let (r, sv', s') =
      start_build memory_db o now then_ later c.template_id c.build_id (some c.config) sv s in
    worker m memory_db sv' w s'

get_template-found :
    (o : Order) (name : String) (s : MemoryStore) (t : Types.Template)
    → get s.templates name ≡ some t
    → Tables.get_template o name s ≡ ok (some t)
unfolding Tables.get_template
get_template-found o name s t e = rw (e, Tables.get_template) refl

marked-Admits :
    (o : Order) (now : Time) (name id : String) (s : MemoryStore) (t : Types.Template)
    (row : Types.Build)
    → get s.templates name ≡ some t
    → Admits o name id (with_row s id (marked now row)) (marked now row)
marked-Admits o now name id s t row e = record {
  template = t;
  found = get_template-found o name (with_row s id (marked now row)) t e;
  has_row = get-put_self s.builds id (marked now row);
  startable = refl;
}

module _ (o : Order) (now : Time) (template id : String) (req : TemplateBuildStartV2)
    (v : Server MemoryStore) (t : Types.Template) (e : get v.store.templates template ≡ some t)
    (a : Accepts o template id v.store) where
  same-template : t ≡ a.found_template
  same-template = some-injective t a.found_template (
      sym (
        ap (λ (r : Types.Result (Option Types.Template)). found r)
          (get_template-found o template v.store t e))
      ∙ a.has_template)

  accepted-store :
      (start_build_v2 memory_db o now template id (some req) v).1.store
      ≡ with_row v.store id (marked now a.row)
  accepted-store =
      ap (λ (x : Answer × Server MemoryStore). x.1.store) (accepted o now template id req v a)
      ∙ spawn-store (call_for o now template id req v a.found_template)
          (record v { store = with_row v.store id (marked now a.row) })

  accepted-spawned :
      v.has_service ≡ true
      → t.template_id ≡ template
      → (start_build_v2 memory_db o now template id (some req) v).1.spawned
        ≡ v.spawned ++ record { template_id = template; build_id = id; config = config_of req } ∷ []
  accepted-spawned service filed =
      ap (λ (x : Answer × Server MemoryStore). x.1.spawned) (accepted o now template id req v a)
      ∙ rw service refl
      ∙ ap
          (λ (name : String).
            v.spawned ++ record { template_id = name; build_id = id; config = config_of req } ∷ [])
          (ap (λ (x : Types.Template). x.template_id) (sym same-template) ∙ filed)

-- On the store in memory, with a build service whose queue is empty: if a request to start a build of a
-- template, named by the ID under which the template is filed, is answered 202, then one call is
-- spawned, for that build with the configuration of the request; and once that call is made and a
-- worker has taken the build, whatever the machine answers, the build is ready or failed with an
-- error, `GetBuild` shows it so, and its row tells its status, its end and its log.
pub accepted_build_finishes :
    {W : Type 0} (m : Machine W) (o o' : Order) (now now' then_ later : Time) (template id : String)
    (req : TemplateBuildStartV2) (v : Server MemoryStore) (sv : Service) (w : W)
    (t : Types.Template)
    → v.has_service ≡ true
    → get v.store.templates template ≡ some t
    → t.template_id ≡ template
    → sv.work_queue ≡ []
    → (start_build_v2 memory_db o now template id (some req) v).0.code ≡ 202
    → let v' = (start_build_v2 memory_db o now template id (some req) v).1 in
      let c : Start = record { template_id = template; build_id = id; config = config_of req } in
      let (sv', w', s') = served m o' now' then_ later c sv v'.store w in
      (v'.spawned ≡ v.spawned ++ c ∷ [])
      × (row : Types.Build) × Finished sv' s' id
          (new_build now' template id (some (config_of req)) row)
accepted_build_finishes m o o' now now' then_ later template id req v sv w t has_service e filed
      empty code =
    let a = accepted-Accepts o now template id req v code in
    let s1 = with_row v.store id (marked now a.row) in
    let c : Start = record { template_id = template; build_id = id; config = config_of req } in
    (
      accepted-spawned o now template id req v t e a has_service filed,
      marked now a.row,
      subst
          (λ (s : MemoryStore).
            Finished (served m o' now' then_ later c sv s w).0
              (served m o' now' then_ later c sv s w).2 id
              (new_build now' template id (some (config_of req)) (marked now a.row)))
          (sym (accepted-store o now template id req v t e a))
          (started_build_finishes m o' now' then_ later template id (some (config_of req)) sv s1
            (marked now a.row) w (marked-Admits o' now template id v.store t a.row e) empty),
    )
