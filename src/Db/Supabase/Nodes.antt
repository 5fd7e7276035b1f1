-- ===== src/Db/Supabase/Nodes.antt =====
-- internal/db/supabase.go: the operations on nodes, teams and API keys.
use open_e2b.Prelude.{String, List, [], ◌∷◌, Option}
use Prim.Native.String.{◌++◌ as ◌<>◌}
use open_e2b.Prelude.Time.{Time}
use open_e2b.Db.Types.{Result, Node, NodeMetrics, Team, ApiKey}
use open_e2b.Db.Supabase.{
  Rest, text, time, metrics, no_body, node, team, api_key, node_row, node_of, team_row, team_of,
  api_key_row, api_key_of, write, find, find_all, patched,
}

module _ {S T : Type 0} (rest : Rest S T) where
  abbrev node_path : String → String
  node_path id = "/nodes?node_id=eq." <> rest.escape id

  unfoldable pub create_node : Node → S → Result (Unit {0}) × S
  create_node n = write rest "POST" "/nodes" (node (node_row n))

  unfoldable pub get_node : String → S → Result (Option Node) × S
  get_node id = find rest rest.nodes node_of (node_path id <> "&select=*")

  unfoldable pub list_nodes : S → Result (List Node) × S
  list_nodes = find_all rest rest.nodes node_of "/nodes?select=*&order=created_at.desc"

  unfoldable pub update_node_status : String → String → S → Result (Unit {0}) × S
  update_node_status id status = patched rest (node_path id) (("status", text status) ∷ [])

  unfoldable pub update_node_metrics : String → Option NodeMetrics → S → Result (Unit {0}) × S
  update_node_metrics id m = patched rest (node_path id) (("metrics", metrics m) ∷ [])

  unfoldable pub get_team : String → S → Result (Option Team) × S
  get_team id = find rest rest.teams team_of ("/teams?team_id=eq." <> rest.escape id <> "&select=*")

  unfoldable pub list_teams : S → Result (List Team) × S
  list_teams = find_all rest rest.teams team_of "/teams?select=*&order=created_at.desc"

  unfoldable pub create_team : Team → S → Result (Unit {0}) × S
  create_team t = write rest "POST" "/teams" (team (team_row t))

  unfoldable pub create_api_key : ApiKey → S → Result (Unit {0}) × S
  create_api_key k = write rest "POST" "/api_keys" (api_key (api_key_row k))

  unfoldable pub get_api_key_by_hash : String → S → Result (Option ApiKey) × S
  get_api_key_by_hash hash =
      find rest rest.api_keys api_key_of
        ("/api_keys?hashed_key=eq." <> rest.escape hash <> "&select=*")

  unfoldable pub list_api_keys : String → S → Result (List ApiKey) × S
  list_api_keys team_id =
      find_all rest rest.api_keys api_key_of
        ("/api_keys?team_id=eq." <> rest.escape team_id <> "&select=*&order=created_at.desc")

  abbrev key_path : String → String
  key_path id = "/api_keys?id=eq." <> rest.escape id

  unfoldable pub delete_api_key : String → S → Result (Unit {0}) × S
  delete_api_key id = write rest "DELETE" (key_path id) no_body

  unfoldable pub update_api_key_last_used : Time → String → S → Result (Unit {0}) × S
  update_api_key_last_used now id = patched rest (key_path id) (("last_used", time now) ∷ [])
