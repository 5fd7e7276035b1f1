-- ===== src/Api/Handlers/Nodes.antt =====
-- internal/api/handlers.go: the handlers of the nodes.
use open_e2b.Prelude.{
  String, Bool, true, false, List, [], ◌∷◌, Option, none, some, map, ◌≡◌, refl, ◌⊎◌, inl, inr,
  arith, Option-cases,
}
use open_e2b.Prelude.GoMap.Range.{Order}
use open_e2b.Prelude.Time.{Time}
use open_e2b.Db.Store.{Store}
use open_e2b.Api
use open_e2b.Api.Models.{ListedSandbox, NodeDetail, NodeStatusChange}
use open_e2b.Api.Records.{SandboxRecord, NodeRecord}
use open_e2b.Api.Convert.{to_listed_sandbox}
use open_e2b.Api.Store.{convert, found}
use open_e2b.Api.Store.Nodes
use open_e2b.Api.Store.Nodes.{node_from_db}
use open_e2b.Api.Handlers.{Server, Answer, answer, empty, fail, text, bad_body, nodes, node_detail}

abbrev pub no_node : Answer
no_node = fail 404 (text "Node not found")

abbrev add_known : Option SandboxRecord → List ListedSandbox → List ListedSandbox
add_known none rest = rest
add_known (some rec) rest = to_listed_sandbox rec ∷ rest

module _ {S : Type 0} (db : Store S) where
  -- The sandboxes of the list that the store knows.
  unfoldable pub known_sandboxes : List String → S → List ListedSandbox
  known_sandboxes [] s = []
  known_sandboxes (id ∷ ids) s = add_known (Api.Store.get_sandbox db id s) (known_sandboxes ids s)

  unfoldable pub detail_of : NodeRecord → S → NodeDetail
  detail_of r s = record {
    cluster_id = r.node.cluster_id;
    version = r.node.version;
    commit = r.node.commit;
    id = r.node.id;
    service_instance_id = r.node.service_instance_id;
    node_id = r.node.node_id;
    status = r.node.status;
    sandboxes = known_sandboxes r.sandboxes s;
    metrics = r.node.metrics;
    cached_builds = r.cached_builds;
    create_successes = r.node.create_successes;
    create_fails = r.node.create_fails;
  }

module _ {S W : Type 0} (db : Store S) where
  unfoldable pub list_nodes : Order → Server S W → Answer × Server S W
  list_nodes o v =
      (answer 200 (nodes (map (λ (r : NodeRecord). r.node) (Nodes.list_nodes db o v.store))), v)

  unfoldable pub get_node : String → Server S W → Answer × Server S W
  get_node id v = elim (Nodes.get_node db id v.store) [
    | none ↦ (no_node, v)
    | some r ↦ (answer 200 (node_detail (detail_of db r v.store)), v)
  ]

  abbrev status_done : Server S W → Bool × S → Answer × Server S W
  status_done v (true, s) = (answer 204 empty, record v { store = s })
  status_done v (false, s) = (no_node, record v { store = s })

  unfoldable pub update_node_status :
      Time → String → Option NodeStatusChange → Server S W → Answer × Server S W
  update_node_status now id none v = (bad_body, v)
  update_node_status now id (some req) v =
      status_done v (Nodes.update_node_status db now id req.status v.store)

  -- A request for a node is answered 404, or 200 with a detail that lists no sandbox, whatever
  -- sandboxes the store and the scheduler hold; nothing changes.
  pub get_node-sandboxes :
      (id : String) (v : Server S W)
      → (get_node id v ≡ (no_node, v))
        ⊎ ((d : NodeDetail) × (get_node id v ≡ (answer 200 (node_detail d), v))
            × (d.sandboxes ≡ []))
  unfolding get_node Nodes.get_node
  get_node-sandboxes id v = elim (Option-cases (found (db.get_node id v.store))) [
    | inl e ↦ inl (ground arith)
    | inr (n, e) ↦ inr (
      detail_of db (node_from_db n) v.store,
      ground arith,
      unfold known_sandboxes in unfold node_from_db in unfold detail_of in refl,
    )
  ]
