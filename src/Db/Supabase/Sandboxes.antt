-- ===== src/Db/Supabase/Sandboxes.antt =====
-- internal/db/supabase.go: the operations on sandboxes.
use open_e2b.Prelude.{String, string_eq, List, [], ◌∷◌, ◌++◌, Option, none, some}
use Prim.Native.String.{◌++◌ as ◌<>◌}
use open_e2b.Prelude.GoMap.Range.{Order}
use open_e2b.Db.Types.{Result, Sandbox, SandboxFilter, SandboxUpdate}
use open_e2b.Db.Memory.{filter}
use open_e2b.Db.Memory.Sandboxes.{metadata_passes}
use open_e2b.Db.Supabase.{
  Rest, Value, text, time, no_body, sandbox, sandbox_row, sandbox_of, then_ok, write, find,
  find_all, patched, given,
}

-- `joinStrings`
unfoldable pub join_strings : List String → String
join_strings [] = ""
join_strings (s ∷ []) = s
join_strings (s ∷ t ∷ ss) = let rest = join_strings (t ∷ ss) in s <> "," <> rest

-- The columns of an update.
abbrev pub sandbox_updates : SandboxUpdate → List (String × Value)
sandbox_updates u =
    given "state" text u.state ++ (given "end_at" time u.end_at ++ given "node_id" text u.node_id)

module _ {S T : Type 0} (rest : Rest S T) where
  abbrev pub path_of : String → String
  path_of id = "/sandboxes?sandbox_id=eq." <> rest.escape id

  unfoldable pub create_sandbox : Sandbox → S → Result (Unit {0}) × S
  create_sandbox sb = write rest "POST" "/sandboxes" (sandbox (sandbox_row sb))

  unfoldable pub get_sandbox : String → S → Result (Option Sandbox) × S
  get_sandbox id = find rest rest.sandboxes sandbox_of (path_of id <> "&select=*")

  abbrev in_states : List String → String
  in_states [] = ""
  in_states (s ∷ ss) = "&state=in.(" <> join_strings (s ∷ ss) <> ")"

  abbrev pub equal_to : String → Option String → String
  equal_to name none = ""
  equal_to name (some v) = name <> rest.escape v

  unfoldable pub list_path : Option SandboxFilter → String
  list_path none = "/sandboxes?select=*"
  list_path (some f) =
      "/sandboxes?select=*"
      <> in_states f.states
      <> equal_to "&team_id=eq." f.team_id
      <> equal_to "&node_id=eq." f.node_id

  -- The metadata are looked at here, not by the server.
  abbrev matching : Order → Option SandboxFilter → List Sandbox → List Sandbox
  matching o none sbs = sbs
  matching o (some f) sbs = filter (λ sb. metadata_passes o f.metadata sb.metadata) sbs

  unfoldable pub list_sandboxes : Order → Option SandboxFilter → S → Result (List Sandbox) × S
  list_sandboxes o f s =
      let (r, s') = find_all rest rest.sandboxes sandbox_of (list_path f) s in
      (then_ok (matching o f) r, s')

  unfoldable pub update_sandbox : String → SandboxUpdate → S → Result (Unit {0}) × S
  update_sandbox id u = patched rest (path_of id) (sandbox_updates u)

  unfoldable pub delete_sandbox : String → S → Result (Unit {0}) × S
  delete_sandbox id = write rest "DELETE" (path_of id) no_body
