-- ===== src/Api/Handlers.antt =====
-- internal/api/sandbox.go: the handlers of the sandboxes. The ID is what `extractPathParam` found in
-- the path; a body that did not decode is none. `W` is what stands behind the scheduler. A handler
-- runs to its end without another one between its calls.
pub mod Create
pub mod Methods
pub mod Nodes
pub mod Templates
pub mod Agreement
pub mod InStep
pub mod Steps
pub mod Rollback
use open_e2b.Prelude.{
  ℕ, String, Bool, true, false, List, Option, none, some, map, or_default, ◌==◌, string_eq, not,
  if◌then◌else◌,
}
use open_e2b.Prelude.GoMap.{GoMap}
use open_e2b.Prelude.GoMap.Range.{Order}
use open_e2b.Prelude.Time.{Time, seconds}
use open_e2b.Db.Types.{Result, ok, err}
use open_e2b.Db.Store.{Store}
use open_e2b.Scheduler.Types
use open_e2b.Scheduler.Types.{Scheduler, SandboxSpec}
use open_e2b.Scheduler.Monad.{Method}
use open_e2b.Scheduler.Select.{Float64}
use open_e2b.Scheduler.Ops
use open_e2b.Api.Models.{
  NewSandbox, Sandbox, SandboxDetail, ListedSandbox, ConnectSandbox, ResumedSandbox, SandboxTimeout,
  SandboxRefresh, Node, NodeDetail,
}
use open_e2b.Api.Records.{SandboxRecord, TemplateRecord}
use open_e2b.Api.Convert.{to_sandbox, to_sandbox_detail, to_listed_sandbox}
use open_e2b.Api.Store
use open_e2b.Api.Store.{state_running, state_paused}

-- "%s" or "...: %v" with an error of the scheduler.
pub data Message : Type 0 where
  text : String → Message
  wrapped : String → Types.Error → Message

pub data Body : Type 0 where
  empty : Body
  error : ℕ → Message → Body
  sandbox : Sandbox → Body
  detail : SandboxDetail → Body
  listed : List ListedSandbox → Body
  nodes : List Node → Body
  node_detail : NodeDetail → Body

-- `panicked` is a nil pointer that is followed; net/http then drops the connection.
pub data Answer : Type 0 where
  answer : ℕ → Body → Answer
  panicked : Answer

abbrev pub fail : ℕ → Message → Answer
fail code m = answer code (error code m)

abbrev pub not_found : Answer
not_found = fail 404 (text "Sandbox not found")

abbrev pub bad_body : Answer
bad_body = fail 400 (text "Invalid request body")

-- The state behind the handlers; `scheduler` is none for nil.
pub record Server (S W : Type 0) : Type 0 where
  pub store : S
  pub scheduler : Option (Scheduler W)

abbrev error_of {ℓ} : {A : Type ℓ} → Types.Result A → Option Types.Error
error_of (Types.ok a) = none
error_of (Types.err e) = some e

module _ {S W : Type 0} where
  abbrev asked {ℓ} :
      {A : Type ℓ} → Server S W → Types.Result A × Scheduler W → Option Types.Error × Server S W
  asked v (r, s) = (error_of r, record v { scheduler = some s })

  abbrev ask_some :
      {A : Type 0}
      → Method W A
      → Server S W
      → Option (Scheduler W)
      → Option Types.Error × Server S W
  ask_some m v none = (none, v)
  ask_some m v (some s) = asked v (m s)

  -- `if h.scheduler != nil { ... }`, with the error of the call, if any.
  abbrev pub ask_scheduler :
      {A : Type 0} → Method W A → Server S W → Option Types.Error × Server S W
  ask_scheduler m v = ask_some m v v.scheduler

  -- The store after a call of it, whose result is dropped.
  abbrev pub on_store {ℓ} : {A : Type ℓ} → (S → A × S) → Server S W → Server S W
  on_store f v = record v { store = (f v.store).1 }
