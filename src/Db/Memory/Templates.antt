-- ===== src/Db/Memory/Templates.antt =====
-- internal/db/memory.go: the operations on templates.
use open_e2b.Prelude.{String, Bool, ◌==◌, string_eq, List, Option, none, some, map}
use open_e2b.Prelude.Word.{add64}
use open_e2b.Prelude.GoMap.{get, put, remove}
use open_e2b.Prelude.GoMap.Range.{Order, range}
use open_e2b.Prelude.Time.{Time}
use open_e2b.Db.Types.{updated, Result, ok, err, Template, TemplateUpdate, Build}
use open_e2b.Db.Store.{Write}
use open_e2b.Db.Memory.{MemoryStore, filter, first, any}
use open_e2b.Db.Memory.Sandboxes.{id_passes}

abbrev pub with_build : Option Build → MemoryStore → MemoryStore
with_build none s = s
with_build (some b) s = record s { builds = put s.builds b.build_id b }

unfoldable pub create_template : Template → Option Build → Write MemoryStore
create_template t b s =
    (ok tt, with_build b (record s { templates = put s.templates t.template_id t }))

abbrev pub has_alias : String → Template → Bool
has_alias name t = any (λ a. a == name) t.aliases

-- First by ID, then by alias.
unfoldable pub get_template : Order → String → MemoryStore → Result (Option Template)
get_template o name s = elim (get s.templates name) [
  | some t ↦ ok (some t)
  | none ↦ ok (first (has_alias name) (map (λ (p : String × Template). p.1) (range o s.templates)))
]

unfoldable pub list_templates : Order → Option String → MemoryStore → Result (List Template)
list_templates o team s = ok (
    filter (λ (t : Template). id_passes team t.team_id)
      (map (λ (p : String × Template). p.1) (range o s.templates)))

unfoldable pub apply_template : Time → TemplateUpdate → Template → Template
apply_template now u t = record t {
  public = updated u.public t.public;
  build_status = updated u.build_status t.build_status;
  build_id = updated u.build_id t.build_id;
  updated_at = now;
}

unfoldable pub update_template : Time → String → TemplateUpdate → Write MemoryStore
update_template now id u s = elim (get s.templates id) [
  | none ↦ (err "template not found", s)
  | some t ↦ (ok tt, record s { templates = put s.templates id (apply_template now u t) })
]

unfoldable pub delete_template : String → Write MemoryStore
delete_template id s = elim (get s.templates id) [
  | none ↦ (err "template not found", s)
  | some t ↦ (ok tt, record s { templates = remove s.templates id })
]

unfoldable pub count_spawn : Time → Template → Template
count_spawn now t = record t { spawn_count = add64 t.spawn_count 1; last_spawned_at = some now }

-- A missing template is passed over.
unfoldable pub increment_template_spawn_count : Time → String → Write MemoryStore
increment_template_spawn_count now id s = elim (get s.templates id) [
  | none ↦ (ok tt, s)
  | some t ↦ (ok tt, record s { templates = put s.templates id (count_spawn now t) })
]
