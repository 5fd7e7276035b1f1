-- ===== src/Db/Supabase/Templates.antt =====
-- internal/db/supabase.go: the operations on templates and builds.
use open_e2b.Prelude.{String, List, [], ◌∷◌, ◌++◌, Option, none, some}
use Prim.Native.String.{◌++◌ as ◌<>◌}
use open_e2b.Prelude.Time.{Time}
use open_e2b.Prelude.Word.{add64}
use open_e2b.Db.Types.{Result, ok, err, Template, TemplateUpdate, Build, BuildUpdate}
use open_e2b.Db.Supabase.{
  Rest, text, time, flag, number, texts, entries, no_body, template, build, template_row,
  template_of, build_row, build_of, write, find, find_all, patched, given,
}
use open_e2b.Db.Supabase.Sandboxes.{equal_to}

module _ {S T : Type 0} (rest : Rest S T) where
  abbrev template_path : String → String
  template_path id = "/templates?template_id=eq." <> rest.escape id

  -- A call after one that ended without an error.
  abbrev then_write : (S → Result (Unit {0}) × S) → Result (Unit {0}) × S → Result (Unit {0}) × S
  then_write next (err e, s) = (err e, s)
  then_write next (ok u, s) = next s

  abbrev post_build : Option Build → S → Result (Unit {0}) × S
  post_build none s = (ok tt, s)
  post_build (some b) s = write rest "POST" "/builds" (build (build_row b)) s

  unfoldable pub create_template : Template → Option Build → S → Result (Unit {0}) × S
  create_template t b s =
      then_write (post_build b) (write rest "POST" "/templates" (template (template_row t)) s)

  abbrev or_alias :
      (S → Result (Option Template) × S)
      → Result (Option Template) × S
      → Result (Option Template) × S
  or_alias next (err e, s) = (err e, s)
  or_alias next (ok (some t), s) = (ok (some t), s)
  or_alias next (ok none, s) = next s

  -- By ID, else by alias.
  unfoldable pub get_template : String → S → Result (Option Template) × S
  get_template id s =
      or_alias
        (find rest rest.templates template_of
          ("/templates?aliases=cs.{" <> rest.escape id <> "}&select=*"))
        (find rest rest.templates template_of (template_path id <> "&select=*") s)

  unfoldable pub list_templates : Option String → S → Result (List Template) × S
  list_templates team =
      find_all rest rest.templates template_of
        ("/templates?select=*&order=created_at.desc" <> equal_to rest "&team_id=eq." team)

  unfoldable pub update_template : String → TemplateUpdate → S → Result (Unit {0}) × S
  update_template id u = patched rest (template_path id) (
      given "public" flag u.public
      ++ (given "build_status" text u.build_status ++ given "build_id" text u.build_id))

  unfoldable pub delete_template : String → S → Result (Unit {0}) × S
  delete_template id = write rest "DELETE" (template_path id) no_body

  abbrev count_spawn : Time → String → Result (Option Template) × S → Result (Unit {0}) × S
  count_spawn now id (err e, s) = (ok tt, s)
  count_spawn now id (ok none, s) = (ok tt, s)
  count_spawn now id (ok (some t), s) =
      patched rest (template_path id)
        (("spawn_count", number (add64 t.spawn_count 1)) ∷ ("last_spawned_at", time now) ∷ []) s

  unfoldable pub increment_template_spawn_count : Time → String → S → Result (Unit {0}) × S
  increment_template_spawn_count now id s = count_spawn now id (get_template id s)

  abbrev build_failed : Result (Unit {0}) × S → Result (Unit {0}) × S
  build_failed (ok u, s) = (ok u, s)
  build_failed (err e, s) = (err ("failed to create build: " <> e), s)

  unfoldable pub create_build : Build → S → Result (Unit {0}) × S
  create_build b s = build_failed (write rest "POST" "/builds" (build (build_row b)) s)

  unfoldable pub get_build : String → S → Result (Option Build) × S
  get_build id =
      find rest rest.builds build_of ("/builds?build_id=eq." <> rest.escape id <> "&select=*")

  unfoldable pub list_builds_for_template : String → S → Result (List Build) × S
  list_builds_for_template id =
      find_all rest rest.builds build_of
        ("/builds?template_id=eq." <> rest.escape id <> "&select=*&order=created_at.desc")

  unfoldable pub update_build : String → BuildUpdate → S → Result (Unit {0}) × S
  update_build id u = patched rest ("/builds?build_id=eq." <> rest.escape id) (
      given "status" text u.status
      ++ (given "finished_at" time u.finished_at
          ++ (given "logs" texts u.logs ++ given "log_entries" entries u.log_entries)))
