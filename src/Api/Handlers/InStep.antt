-- ===== src/Api/Handlers/InStep.antt =====
-- Requests to the handlers in sequence keep the store and the scheduler in step on what both hold; `ConnectSandbox`
-- does not.
use open_e2b.Prelude.{String, ◌≡◌, List, [], ◌∷◌, ==_refl, ==_iff, string_eq, Option, some, arith}
use mathlib.Core.Path.{subst}
use open_e2b.Prelude.Time
use open_e2b.Prelude.Time.{Time, seconds}
use open_e2b.Db.Types.{Sandbox}
use open_e2b.Db.Store.{Store}
use open_e2b.Db.Store.Table.{IsTable}
use open_e2b.Api
use open_e2b.Api.Convert.{sandbox_from_db, to_sandbox}
use open_e2b.Api.Store.{state_running, state_paused}
use open_e2b.Api.Rows.{get_sandbox-rows, update_sandbox_state-Writes, update_sandbox_timeout-Writes}
use open_e2b.Api.Models.{ResumedSandbox, SandboxTimeout, SandboxRefresh, ConnectSandbox}
use open_e2b.Api.Handlers.{Server, Answer, answer, sandbox}
use open_e2b.Api.Handlers.Methods.{
  get_sandbox, pause_sandbox, resume_sandbox, delete_sandbox, set_sandbox_timeout, refresh_sandbox,
  connect_sandbox,
}
use open_e2b.Api.Handlers.Agreement.{InStep}
use open_e2b.Api.Handlers.Steps.{
  pause-InStep, resume-InStep, delete-InStep, set_timeout-InStep, refresh-InStep,
}

-- A request for one sandbox, with the time at which its handler reads the clock.
pub data Request : Type 0 where
  gets deletes pauses : String → Request
  resumes : Time → String → Option ResumedSandbox → Request
  sets_timeout : Time → String → Option SandboxTimeout → Request
  refreshes : Time → String → SandboxRefresh → Request

module _ {S W : Type 0} (db : Store S) where
  unfoldable pub handle : Request → Server S W → Answer × Server S W
  handle (gets id) v = get_sandbox db id v
  handle (deletes id) v = delete_sandbox db id v
  handle (pauses id) v = pause_sandbox db id v
  handle (resumes now id req) v = resume_sandbox db now id req v
  handle (sets_timeout now id req) v = set_sandbox_timeout db now id req v
  handle (refreshes now id req) v = refresh_sandbox db now id req v

  unfoldable pub serve : List Request → Server S W → Server S W
  serve [] v = v
  serve (r ∷ rs) v = serve rs (handle r v).1

  module _ (rows : S → String → Option Sandbox) (t : IsTable db rows) where
    get-InStep :
        (id : String) (v : Server S W) → InStep rows v → InStep rows (get_sandbox db id v).1
    unfolding get_sandbox
    get-InStep id v a = subst (InStep rows) (ground arith) a

    handle-InStep : (r : Request) (v : Server S W) → InStep rows v → InStep rows (handle r v).1
    unfolding handle
    handle-InStep (gets id) v a = get-InStep id v a
    handle-InStep (deletes id) v a = delete-InStep db rows t v id a
    handle-InStep (pauses id) v a = pause-InStep db rows t v id a
    handle-InStep (resumes now id req) v a = resume-InStep db rows t v id a now req
    handle-InStep (sets_timeout now id req) v a = set_timeout-InStep db rows t v id a now req
    handle-InStep (refreshes now id req) v a = refresh-InStep db rows t v id a now req

    -- Over a database whose sandboxes are a table, in which an update or a deletion of a row that is
    -- there does not fail: if the store and the scheduler agree, for each of the sandboxes that both
    -- of them hold, on whether it is paused, they still do after any sequence of requests to get,
    -- delete, pause, resume, set the timeout of, or refresh sandboxes, served one after another. A
    -- sandbox that only one of the two holds is not compared: a deletion whose `Stop` fails leaves
    -- such a one in the scheduler.
    pub serve-InStep :
        (rs : List Request) (v : Server S W) → InStep rows v → InStep rows (serve rs v)
    unfolding serve
    serve-InStep [] v a = a
    serve-InStep (r ∷ rs) v a = serve-InStep rs (handle r v).1 (handle-InStep r v a)

    -- Over a database whose sandboxes are a table, `ConnectSandbox` on a sandbox whose row is
    -- paused, with a body that decodes, answers 201, writes "running" and the new end time in the
    -- row, and leaves the scheduler as it was.
    pub connect-only_store :
        (v : Server S W) (now : Time) (id : String) (req : ConnectSandbox) (sb : Sandbox)
        → rows v.store id ≡ some sb
        → sb.state ≡ state_paused
        → let (a, v') = connect_sandbox db now id (some req) v in
          let sb' = record sb {
            state = state_running;
            end_at = Time.add now (seconds req.timeout);
          } in
          (a ≡ answer 201 (sandbox (to_sandbox (sandbox_from_db sb'))))
          × (rows v'.store id ≡ some sb')
          × (v'.scheduler ≡ v.scheduler)
    unfolding connect_sandbox sandbox_from_db
    connect-only_store v now id req sb h p =
        let g = get_sandbox-rows db rows t v.store id in
        let st = (Api.Store.update_sandbox_state db id state_running v.store).1 in
        let w = update_sandbox_state-Writes db rows t v.store id sb h state_running id in
        let sb1 = record sb { state = state_running } in
        let h1 : rows st id ≡ some sb1 = rw (w, ==_refl id) in
        let w1 = update_sandbox_timeout-Writes db rows t st id sb1 h1 now req.timeout id in
        let g1 =
          get_sandbox-rows db rows t (Api.Store.update_sandbox_timeout db now id req.timeout st).1
            id in
        let q = (==_iff sb.state state_paused).1 p in
        let r = ==_refl id in (ground arith, ground arith, ground arith)
