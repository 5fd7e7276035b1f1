-- ===== src/Api/Handlers/Methods.antt =====
-- internal/api/sandbox.go: the other handlers of the sandboxes.
use open_e2b.Prelude.{
  ℕ, String, Bool, true, false, List, Option, none, some, map, or_default, ◌==◌, string_eq, not,
  if◌then◌else◌,
}
use open_e2b.Prelude.GoMap.{GoMap}
use open_e2b.Prelude.GoMap.Range.{Order}
use open_e2b.Prelude.Time.{Time}
use open_e2b.Db.Store.{Store}
use open_e2b.Scheduler.Types
use open_e2b.Scheduler.Types.{Scheduler, SandboxSpec}
use open_e2b.Scheduler.Ops
use open_e2b.Api.Models.{ConnectSandbox, ResumedSandbox, SandboxTimeout, SandboxRefresh}
use open_e2b.Api.Records.{SandboxRecord}
use open_e2b.Api.Convert.{to_sandbox, to_sandbox_detail, to_listed_sandbox}
use open_e2b.Api
use open_e2b.Api.Store.{state_running, state_paused}
use open_e2b.Api.Handlers.{
  text, wrapped, empty, sandbox, detail, listed, Answer, answer, panicked, fail, not_found,
  bad_body, Server, ask_scheduler, on_store,
}

-- `record, _ = h.store.GetSandbox(...)`, and the answer with what it points to.
abbrev pub shown : ℕ → Option SandboxRecord → Answer
shown code none = panicked
shown code (some rec) = answer code (sandbox (to_sandbox rec))

module _ {S W : Type 0} (db : Store S) where
  unfoldable pub list_sandboxes :
      Order → Order → GoMap String String → List String → Server S W → Answer × Server S W
  list_sandboxes o om metadata states v = (
    answer 200
        (listed (map to_listed_sandbox (Api.Store.list_sandboxes db o om metadata states v.store))),
    v,
  )

  unfoldable pub get_sandbox : String → Server S W → Answer × Server S W
  get_sandbox id v = elim (Api.Store.get_sandbox db id v.store) [
    | none ↦ (not_found, v)
    | some rec ↦ (answer 200 (detail (to_sandbox_detail rec)), v)
  ]

  abbrev deleted : Server S W → Bool × S → Answer × Server S W
  deleted v (true, s) = (answer 204 empty, record v { store = s })
  deleted v (false, s) = (not_found, record v { store = s })

  -- An error of the scheduler is only logged.
  unfoldable pub delete_sandbox : String → Server S W → Answer × Server S W
  delete_sandbox id v =
      let v' = (ask_scheduler (Ops.stop id) v).1 in
      deleted v' (Api.Store.delete_sandbox db id v'.store)

  abbrev pause_done : String → Option Types.Error × Server S W → Answer × Server S W
  pause_done id (some e, v) = (fail 500 (wrapped "Failed to pause sandbox: " e), v)
  pause_done id (none, v) =
      (answer 204 empty, on_store (Api.Store.update_sandbox_state db id state_paused) v)

  unfoldable pub pause_sandbox : String → Server S W → Answer × Server S W
  pause_sandbox id v = elim (Api.Store.get_sandbox db id v.store) [
    | none ↦ (not_found, v)
    | some rec ↦
        if rec.state == state_paused
        then (fail 409 (text "Sandbox is already paused"), v)
        else pause_done id (ask_scheduler (Ops.pause id) v)
  ]

  abbrev new_timeout : Time → String → Option ℕ → Server S W → Server S W
  new_timeout now id none v = v
  new_timeout now id (some n) v = on_store (Api.Store.update_sandbox_timeout db now id n) v

  abbrev show_sandbox : ℕ → String → Server S W → Answer × Server S W
  show_sandbox code id v = (shown code (Api.Store.get_sandbox db id v.store), v)

  abbrev resume_done :
      Time → String → ResumedSandbox → Option Types.Error × Server S W → Answer × Server S W
  resume_done now id req (some e, v) = (fail 500 (wrapped "Failed to resume sandbox: " e), v)
  resume_done now id req (none, v) = show_sandbox 201 id (
      new_timeout now id req.timeout
        (on_store (Api.Store.update_sandbox_state db id state_running) v))

  abbrev resume_with : Time → String → Option ResumedSandbox → Server S W → Answer × Server S W
  resume_with now id none v = (bad_body, v)
  resume_with now id (some req) v = resume_done now id req (ask_scheduler (Ops.resume id) v)

  unfoldable pub resume_sandbox :
      Time → String → Option ResumedSandbox → Server S W → Answer × Server S W
  resume_sandbox now id req v = elim (Api.Store.get_sandbox db id v.store) [
    | none ↦ (not_found, v)
    | some rec ↦
        if not (rec.state == state_paused)
        then (fail 409 (text "Sandbox is not paused"), v)
        else resume_with now id req v
  ]

  -- The scheduler is not asked, also not for a paused sandbox.
  abbrev connect_with :
      Time → String → Option ConnectSandbox → Bool → Server S W → Answer × Server S W
  connect_with now id none was_resumed v = (bad_body, v)
  connect_with now id (some req) true v = show_sandbox 201 id (
      on_store (Api.Store.update_sandbox_timeout db now id req.timeout)
        (on_store (Api.Store.update_sandbox_state db id state_running) v))
  connect_with now id (some req) false v =
      show_sandbox 200 id (on_store (Api.Store.update_sandbox_timeout db now id req.timeout) v)

  unfoldable pub connect_sandbox :
      Time → String → Option ConnectSandbox → Server S W → Answer × Server S W
  connect_sandbox now id req v = elim (Api.Store.get_sandbox db id v.store) [
    | none ↦ (not_found, v)
    | some rec ↦ connect_with now id req (rec.state == state_paused) v
  ]

  abbrev timeout_with : Time → String → Option SandboxTimeout → Server S W → Answer × Server S W
  timeout_with now id none v = (bad_body, v)
  timeout_with now id (some req) v =
      (answer 204 empty, on_store (Api.Store.update_sandbox_timeout db now id req.timeout) v)

  unfoldable pub set_sandbox_timeout :
      Time → String → Option SandboxTimeout → Server S W → Answer × Server S W
  set_sandbox_timeout now id req v = elim (Api.Store.get_sandbox db id v.store) [
    | none ↦ (not_found, v)
    | some rec ↦ timeout_with now id req v
  ]

  -- The result of the decoder is not looked at: `req` is what it left.
  unfoldable pub refresh_sandbox : Time → String → SandboxRefresh → Server S W → Answer × Server S W
  refresh_sandbox now id req v = elim (Api.Store.get_sandbox db id v.store) [
    | none ↦ (not_found, v)
    | some rec ↦ (
      answer 204 empty,
      on_store (Api.Store.update_sandbox_timeout db now id (or_default 60 req.duration)) v,
    )
  ]
