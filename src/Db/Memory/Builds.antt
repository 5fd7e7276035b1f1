-- ===== src/Db/Memory/Builds.antt =====
-- internal/db/memory.go: the operations on builds.
use open_e2b.Prelude.{String, ◌==◌, string_eq, List, Option, none, some, map}
use open_e2b.Prelude.Word.{add64}
use open_e2b.Prelude.GoMap.{get, put}
use open_e2b.Prelude.GoMap.Range.{Order, range}
use open_e2b.Prelude.Time.{Time}
use open_e2b.Db.Types.{updated, Result, ok, err, Template, Build, BuildUpdate}
use open_e2b.Db.Store.{Write}
use open_e2b.Db.Memory.{MemoryStore, filter}

unfoldable pub count_build : Time → Template → Template
count_build now t = record t { build_count = add64 t.build_count 1; updated_at = now }

-- The build is written whether its template exists or not.
unfoldable pub create_build : Time → Build → Write MemoryStore
create_build now b s = elim (get s.templates b.template_id) [
  | none ↦ (ok tt, record s { builds = put s.builds b.build_id b })
  | some t ↦ (
    ok tt,
    record s {
      builds = put s.builds b.build_id b;
      templates = put s.templates b.template_id (count_build now t);
    },
  )
]

unfoldable pub get_build : String → MemoryStore → Result (Option Build)
get_build id s = ok (get s.builds id)

unfoldable pub list_builds_for_template : Order → String → MemoryStore → Result (List Build)
list_builds_for_template o id s = ok (
    filter (λ (b : Build). b.template_id == id)
      (map (λ (p : String × Build). p.1) (range o s.builds)))

-- The disk size and the envd version of the update are not looked at.
unfoldable pub apply_build : Time → BuildUpdate → Build → Build
apply_build now u b = record b {
  status = updated u.status b.status;
  finished_at = elim u.finished_at [ none ↦ b.finished_at | some t ↦ some t ];
  logs = updated u.logs b.logs;
  log_entries = updated u.log_entries b.log_entries;
  updated_at = now;
}

unfoldable pub update_build : Time → String → BuildUpdate → Write MemoryStore
update_build now id u s = elim (get s.builds id) [
  | none ↦ (err "build not found", s)
  | some b ↦ (ok tt, record s { builds = put s.builds id (apply_build now u b) })
]
