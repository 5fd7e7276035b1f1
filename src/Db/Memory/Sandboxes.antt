-- ===== src/Db/Memory/Sandboxes.antt =====
-- internal/db/memory.go: the operations on sandboxes.
use open_e2b.Prelude.{
  String, Bool, true, ◌&&◌, ◌==◌, string_eq, List, [], ◌∷◌, Option, none, some, map, or_default,
}
use open_e2b.Prelude.GoMap.{GoMap, get, put, remove}
use open_e2b.Prelude.GoMap.Range.{Order, range}
use open_e2b.Db.Types.{Result, ok, err, Sandbox, SandboxFilter, SandboxUpdate, apply_sandbox}
use open_e2b.Db.Store.{Write}
use open_e2b.Db.Memory.{MemoryStore, filter, any, every}

unfoldable pub create_sandbox : Sandbox → Write MemoryStore
create_sandbox sb s = (ok tt, record s { sandboxes = put s.sandboxes sb.sandbox_id sb })

unfoldable pub get_sandbox : String → MemoryStore → Result (Option Sandbox)
get_sandbox id s = ok (get s.sandboxes id)

-- An empty list of states passes every sandbox.
abbrev pub state_passes : List String → String → Bool
state_passes [] state = true
state_passes (x ∷ xs) state = any (λ st. state == st) (x ∷ xs)

-- `m[k]` is "" on a missing key.
abbrev pub metadata_passes : Order → GoMap String String → GoMap String String → Bool
metadata_passes o wanted m =
    every (λ (p : String × String). or_default "" (get m p.0) == p.1) (range o wanted)

abbrev pub id_passes : Option String → String → Bool
id_passes none id = true
id_passes (some wanted) id = id == wanted

-- The filters of `ListSandboxes`: by state, by metadata, by team, by node.
unfoldable pub passes : Order → Option SandboxFilter → Sandbox → Bool
passes o none sb = true
passes o (some f) sb =
    state_passes f.states sb.state
    && metadata_passes o f.metadata sb.metadata
    && id_passes f.team_id sb.team_id
    && id_passes f.node_id sb.node_id

unfoldable pub list_sandboxes :
    Order → Order → Option SandboxFilter → MemoryStore → Result (List Sandbox)
list_sandboxes o om f s =
    ok (filter (passes om f) (map (λ (p : String × Sandbox). p.1) (range o s.sandboxes)))

unfoldable pub update_sandbox : String → SandboxUpdate → Write MemoryStore
update_sandbox id u s = elim (get s.sandboxes id) [
  | none ↦ (err "sandbox not found", s)
  | some sb ↦ (ok tt, record s { sandboxes = put s.sandboxes id (apply_sandbox u sb) })
]

unfoldable pub delete_sandbox : String → Write MemoryStore
delete_sandbox id s = elim (get s.sandboxes id) [
  | none ↦ (err "sandbox not found", s)
  | some sb ↦ (ok tt, record s { sandboxes = remove s.sandboxes id })
]
