-- ===== src/Api/Store/Nodes.antt =====
-- internal/api/store.go: the methods of `Store` on nodes, and `nodeFromDB`.
use open_e2b.Prelude.{◌%◌, String, Bool, List, [], Option, none, some, map}
use open_e2b.Prelude.GoMap.Range.{Order}
use open_e2b.Prelude.Time.{Time}
use open_e2b.Db.Types
use open_e2b.Db.Store.{Store}
use open_e2b.Api.Models.{DiskMetrics, NodeMetrics}
use open_e2b.Api.Records.{NodeRecord}
use open_e2b.Api.Store.{found, listed, convert, succeeded}

abbrev disk_from_db : Types.DiskMetrics → DiskMetrics
disk_from_db d = record {
  mount_point = d.mount_point;
  device = d.device;
  filesystem_type = d.filesystem_type;
  used_bytes = d.used_bytes;
  total_bytes = d.total_bytes;
}

-- The zero value where there are none.
unfoldable pub metrics_from_db : Option Types.NodeMetrics → NodeMetrics
metrics_from_db none = record {
  allocated_cpu = 0;
  cpu_percent = 0;
  cpu_count = 0;
  allocated_memory_bytes = 0;
  memory_used_bytes = 0;
  memory_total_bytes = 0;
  disks = [];
}
metrics_from_db (some m) = record {
  allocated_cpu = m.allocated_cpu;
  cpu_percent = m.cpu_percent;
  cpu_count = m.cpu_count;
  allocated_memory_bytes = m.allocated_memory_bytes;
  memory_used_bytes = m.memory_used_bytes;
  memory_total_bytes = m.memory_total_bytes;
  disks = map disk_from_db m.disks;
}

-- The list of sandboxes is not filled. `uint32(...)` keeps the low 32 bits of the count.
unfoldable pub node_from_db : Types.Node → NodeRecord
node_from_db n = record {
  node = record {
    version = n.version;
    commit = n.commit;
    node_id = n.node_id;
    id = n.id;
    service_instance_id = n.service_instance_id;
    cluster_id = n.cluster_id;
    status = n.status;
    sandbox_count = n.sandbox_count % 4294967296;
    metrics = metrics_from_db n.metrics;
    create_successes = n.create_successes;
    create_fails = n.create_fails;
    sandbox_starting_count = n.sandbox_starting_count;
  };
  sandboxes = [];
  cached_builds = n.cached_builds;
}

module _ {S : Type 0} (db : Store S) where
  unfoldable pub list_nodes : Order → S → List NodeRecord
  list_nodes o s = map node_from_db (listed (db.list_nodes o s))

  unfoldable pub get_node : String → S → Option NodeRecord
  get_node id s = convert node_from_db (found (db.get_node id s))

  unfoldable pub update_node_status : Time → String → String → S → Bool × S
  update_node_status now id status s = succeeded (db.update_node_status now id status s)
