-- ===== src/Auth/Tests.antt =====
-- Runs of the middleware (internal/auth), in front of a handler that answers 200 to admins.
use open_e2b.Prelude.{[], none, some, ◌==◌, string_eq, ◌≡◌, refl, if◌then◌else◌}
use open_e2b.Auth.{
  Context, Request, Writer, Handler, get_auth_info, allow_all, cors, cors_headers, claimed,
  chain-claimed, identified, default_team, keep_team, keep_api_key, mark_admin,
}
use open_e2b.Prelude.GoMap.{get}

abbrev admins_only : Handler
admins_only r w = record w {
  status = if (get_auth_info r.context).is_admin then some 200 else some 403;
}

-- A request with any admin token and a team.
abbrev by_team : Request
by_team = record {
  method = "GET";
  header = λ name.
      if name == "X-Admin-Token" then "x" else if name == "X-Supabase-Team" then "team" else "";
  context = [];
}

abbrev fresh_writer : Writer
fresh_writer = record { headers = []; status = none }

any_token_is_admin : (cors (allow_all admins_only) by_team fresh_writer).status ≡ some 200
unfolding cors allow_all identified default_team keep_team keep_api_key mark_admin get_auth_info
    cors_headers get
any_token_is_admin = refl

chain-claimed_example :
    (c : Context) × (cors (allow_all admins_only) by_team fresh_writer
      ≡ admins_only (record by_team { context = c }) (cors_headers fresh_writer))
    × (get_auth_info c ≡ claimed by_team)
chain-claimed_example = chain-claimed admins_only by_team fresh_writer refl refl
