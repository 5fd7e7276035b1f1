-- ===== src/Db/Store.antt =====
-- internal/db/store.go: the interface `Store`, over the state `S` of an implementation. An operation
-- is given the time where an implementation reads the clock, and an order where one goes through a
-- table. A read that finds nothing returns `ok none` (a nil pointer and a nil error).
pub mod Table
use open_e2b.Prelude.{String, List, Option}
use open_e2b.Prelude.Time.{Time}
use open_e2b.Prelude.GoMap.Range.{Order}
use open_e2b.Db.Types.{
  Result, Sandbox, SandboxFilter, SandboxUpdate, Template, TemplateUpdate, Build, BuildUpdate, Node,
  NodeMetrics, Team, ApiKey,
}

abbrev pub Write : Type 0 → Type 0
Write S = S → Result (Unit {0}) × S

pub record Store (S : Type 0) : Type 0 where
  pub create_sandbox : Sandbox → Write S
  pub get_sandbox : String → S → Result (Option Sandbox)
  pub list_sandboxes : Order → Order → Option SandboxFilter → S → Result (List Sandbox)
  pub update_sandbox : String → SandboxUpdate → Write S
  pub delete_sandbox : String → Write S
  pub create_template : Template → Option Build → Write S
  pub get_template : Order → String → S → Result (Option Template)
  pub list_templates : Order → Option String → S → Result (List Template)
  pub update_template : Time → String → TemplateUpdate → Write S
  pub delete_template : String → Write S
  pub increment_template_spawn_count : Time → String → Write S
  pub create_build : Time → Build → Write S
  pub get_build : String → S → Result (Option Build)
  pub list_builds_for_template : Order → String → S → Result (List Build)
  pub update_build : Time → String → BuildUpdate → Write S
  pub create_node : Node → Write S
  pub get_node : String → S → Result (Option Node)
  pub list_nodes : Order → S → Result (List Node)
  pub update_node_status : Time → String → String → Write S
  pub update_node_metrics : Time → String → Option NodeMetrics → Write S
  pub get_team : String → S → Result (Option Team)
  pub list_teams : Order → S → Result (List Team)
  pub create_team : Team → Write S
  pub create_api_key : ApiKey → Write S
  pub get_api_key_by_hash : Order → String → S → Result (Option ApiKey)
  pub list_api_keys : Order → String → S → Result (List ApiKey)
  pub delete_api_key : String → Write S
  pub update_api_key_last_used : Time → String → Write S
  pub ping : S → Result (Unit {0})
  pub close : Write S
