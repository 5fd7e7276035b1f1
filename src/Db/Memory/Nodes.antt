-- ===== src/Db/Memory/Nodes.antt =====
-- internal/db/memory.go: the operations on nodes and on teams.
use open_e2b.Prelude.{String, List, Option, none, some, map, string_eq}
use open_e2b.Prelude.GoMap.{get, put}
use open_e2b.Prelude.GoMap.Range.{Order, range}
use open_e2b.Prelude.Time.{Time}
use open_e2b.Db.Types.{Result, ok, err, Node, NodeMetrics, Team}
use open_e2b.Db.Store.{Write}
use open_e2b.Db.Memory.{MemoryStore}

unfoldable pub create_node : Node → Write MemoryStore
create_node n s = (ok tt, record s { nodes = put s.nodes n.node_id n })

unfoldable pub get_node : String → MemoryStore → Result (Option Node)
get_node id s = ok (get s.nodes id)

unfoldable pub list_nodes : Order → MemoryStore → Result (List Node)
list_nodes o s = ok (map (λ (p : String × Node). p.1) (range o s.nodes))

unfoldable pub update_node_status : Time → String → String → Write MemoryStore
update_node_status now id status s = elim (get s.nodes id) [
  | none ↦ (err "node not found", s)
  | some n ↦
      (ok tt, record s { nodes = put s.nodes id (record n { status = status; updated_at = now }) })
]

unfoldable pub update_node_metrics : Time → String → Option NodeMetrics → Write MemoryStore
update_node_metrics now id metrics s = elim (get s.nodes id) [
  | none ↦ (err "node not found", s)
  | some n ↦ (
    ok tt,
    record s { nodes = put s.nodes id (record n { metrics = metrics; updated_at = now }) },
  )
]

unfoldable pub get_team : String → MemoryStore → Result (Option Team)
get_team id s = ok (get s.teams id)

unfoldable pub list_teams : Order → MemoryStore → Result (List Team)
list_teams o s = ok (map (λ (p : String × Team). p.1) (range o s.teams))

unfoldable pub create_team : Team → Write MemoryStore
create_team t s = (ok tt, record s { teams = put s.teams t.team_id t })
