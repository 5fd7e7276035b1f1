-- ===== src/Db/Supabase/Rows.antt =====
-- The rows of internal/db/supabase.go and the records that they stand for.
use open_e2b.Prelude.{
  String, ◌==◌, string_eq, ==_iff, none, some, Bool-cases, inl, inr, or_default, ◌≡◌, refl, sym,
  if◌then◌else◌,
}
use open_e2b.Db.Types.{Sandbox, Template, Build, Node, Team, ApiKey}
use open_e2b.Db.Supabase.{
  sandbox_row, sandbox_of, template_row, template_of, build_row, build_of, node_row, node_of,
  team_row, team_of, api_key_row, api_key_of,
}

-- "" is sent as null and read back as "".
text_back : (s : String) → or_default "" (if s == "" then none else some s) ≡ s
text_back s = elim (Bool-cases (s == "")) [
  | inl e ↦ rw e (sym ((==_iff s "").0 e))
  | inr e ↦ rw e refl
]

-- Each record of the database comes back whole from the row that the Supabase store makes of it: a
-- sandbox, a template, a build, a node, a team and an API key. An empty ID of a node or of a team, which
-- is null in the row, comes back empty.
pub rows_round_trip :
    (sb : Sandbox) (t : Template) (b : Build) (n : Node) (g : Team) (k : ApiKey)
    → (sandbox_of (sandbox_row sb) ≡ sb)
      × (template_of (template_row t) ≡ t)
      × (build_of (build_row b) ≡ b)
      × (node_of (node_row n) ≡ n)
      × (team_of (team_row g) ≡ g)
      × (api_key_of (api_key_row k) ≡ k)
unfolding sandbox_of sandbox_row template_of template_row build_of build_row node_of node_row
    team_of team_row api_key_of api_key_row
rows_round_trip sb t b n g k = (
  rw (text_back sb.node_id, text_back sb.team_id) refl,
  rw (text_back t.team_id) refl,
  refl,
  refl,
  refl,
  refl,
)
