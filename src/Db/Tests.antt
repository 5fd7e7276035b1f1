-- ===== src/Db/Tests.antt =====
-- The theorems of the stores on small tables.
use open_e2b.Prelude.{String, ◌≡◌, refl, List, [], ◌∷◌, Option, none, some, All, string_eq}
use mathlib.Core.List.{Mem, Perm}
use open_e2b.Prelude.GoMap.{get}
use open_e2b.Prelude.GoMap.Keys.{Distinct}
use open_e2b.Db.Types.{Sandbox, SandboxFilter, ok}
use open_e2b.Db.Memory.{MemoryStore, filter}
use open_e2b.Db.Memory.Sandboxes.{list_sandboxes, passes}
use open_e2b.Db.Memory.Filter.{Passes}
use open_e2b.Db.Memory.Lookup.{stored, list_sandboxes-exact}
use open_e2b.Db.Supabase.{
  sandbox_row, sandbox_of, template_row, template_of, build_row, build_of, node_row, node_of,
  team_row, team_of, api_key_row, api_key_of,
}
use open_e2b.Db.Supabase.Rows.{rows_round_trip}
use open_e2b.Db.Examples.{template, row_in, build, node, team, key, store_of}

abbrev small : MemoryStore
small = store_of (("s1", row_in "running") ∷ ("s2", row_in "paused") ∷ [])

sandboxes-Distinct : Distinct small.sandboxes
unfolding get
sandboxes-Distinct = (refl, (refl, tt))

-- Those that are paused.
abbrev only_paused : Option SandboxFilter
only_paused =
    some (record { metadata = []; states = "paused" ∷ []; team_id = none; node_id = none })

list_sandboxes-exact_example :
    (found : List Sandbox) × (list_sandboxes [] [] only_paused small ≡ ok found)
    × All
        (λ (sb : Sandbox). Passes only_paused sb × (k : String) × (get small.sandboxes k ≡ some sb))
        found
    × ((k : String) (sb : Sandbox)
        → get small.sandboxes k ≡ some sb
        → Passes only_paused sb
        → Mem sb found)
    × Perm found (filter (passes [] only_paused) (stored small))
list_sandboxes-exact_example = list_sandboxes-exact [] [] only_paused small sandboxes-Distinct tt

rows_round_trip_example :
    (sandbox_of (sandbox_row (row_in "paused")) ≡ row_in "paused")
    × (template_of (template_row template) ≡ template)
    × (build_of (build_row build) ≡ build)
    × (node_of (node_row node) ≡ node)
    × (team_of (team_row team) ≡ team)
    × (api_key_of (api_key_row key) ≡ key)
rows_round_trip_example = rows_round_trip (row_in "paused") template build node team key
