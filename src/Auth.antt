-- ===== src/Auth.antt =====
-- internal/auth/middleware.go: what the middleware of the API puts into the context of a request, and
-- what a handler reads there. A handler takes a request and a writer of the response.
mod Tests
use open_e2b.Prelude.{
  ℕ, String, Bool, true, false, List, [], ◌∷◌, Option, none, some, ◌==◌, string_eq, ◌≡◌, refl,
  if◌then◌else◌, not, ◌||◌, Bool-cases, inl, inr, ==_iff, sym,
}
use open_e2b.Prelude.GoMap.{GoMap, get, put}

-- The two types of value that the middleware puts into a context.
pub data Value : Type 0 where
  text : String → Value
  flag : Bool → Value

-- context.Context: context.WithValue adds in front, and the first value of a key is the one read.
abbrev pub Context : Type 0
Context = GoMap String Value

abbrev pub user_key : String
user_key = "userID"

abbrev pub team_key : String
team_key = "teamID"

abbrev pub api_key_key : String
api_key_key = "apiKeyID"

abbrev pub admin_key : String
admin_key = "isAdmin"

pub record AuthInfo : Type 0 where
  pub user_id : String
  pub team_id : String
  pub api_key_id : String
  pub is_admin : Bool

pub record Request : Type 0 where
  pub method : String
  pub header : String → String
  pub context : Context

pub record Writer : Type 0 where
  pub headers : GoMap String String
  pub status : Option ℕ

abbrev pub Handler : Type 0
Handler = Request → Writer → Writer

-- v, _ := x.(string) and v, _ := x.(bool)
abbrev as_text : Option Value → String
as_text (some (text s)) = s
as_text (some (flag b)) = ""
as_text none = ""

abbrev as_flag : Option Value → Bool
as_flag (some (flag b)) = b
as_flag (some (text s)) = false
as_flag none = false

unfoldable pub get_auth_info : Context → AuthInfo
get_auth_info c = record {
  user_id = as_text (get c user_key);
  team_id = as_text (get c team_key);
  api_key_id = as_text (get c api_key_key);
  is_admin = as_flag (get c admin_key);
}

unfoldable pub mark_admin : Request → Context → Context
mark_admin r c = if r.header "X-Admin-Token" == "" then c else (admin_key, flag true) ∷ c

unfoldable pub keep_api_key : Request → Context → Context
keep_api_key r c =
    if r.header "X-API-Key" == "" then c else (api_key_key, text (r.header "X-API-Key")) ∷ c

unfoldable pub keep_team : Request → Context → Context
keep_team r c =
    if r.header "X-Supabase-Team" == ""
    then c
    else (team_key, text (r.header "X-Supabase-Team")) ∷ c

abbrev team_or_default : Context → Option Value → Context
team_or_default c none = (team_key, text "default") ∷ c
team_or_default c (some v) = c

unfoldable pub default_team : Context → Context
default_team c = team_or_default c (get c team_key)

unfoldable pub identified : Request → Context
identified r =
    (user_key, text "dev-user")
    ∷ default_team (keep_team r (keep_api_key r (mark_admin r r.context)))

unfoldable pub allow_all : Handler → Handler
allow_all next r w = next (record r { context = identified r }) w

unfoldable pub require_admin : Handler → Handler
require_admin next r w = next (record r { context = (admin_key, flag true) ∷ r.context }) w

unfoldable pub cors_headers : Writer → Writer
cors_headers w = record w {
  headers =
      put
        (put
          (put (put w.headers "Access-Control-Allow-Origin" "*") "Access-Control-Allow-Methods"
            "GET, POST, PUT, PATCH, DELETE, OPTIONS")
          "Access-Control-Allow-Headers"
          "Content-Type, Authorization, X-API-Key, X-Supabase-Token, X-Supabase-Team, X-Admin-Token, X-Access-Token, Keepalive-Ping-Interval")
        "Access-Control-Expose-Headers" "x-next-token";
}

unfoldable pub cors : Handler → Handler
cors next r w =
    if r.method == "OPTIONS"
    then record (cors_headers w) { status = some 204 }
    else next r (cors_headers w)

-- What a handler knows of a caller from the headers alone.
unfoldable pub claimed : Request → AuthInfo
claimed r = record {
  user_id = "dev-user";
  team_id = if r.header "X-Supabase-Team" == "" then "default" else r.header "X-Supabase-Team";
  api_key_id = r.header "X-API-Key";
  is_admin = not (r.header "X-Admin-Token" == "");
}

empty_or_same : (s : String) → (if s == "" then "" else s) ≡ s
empty_or_same s = elim (Bool-cases (s == "")) [
  | inl e ↦ rw e (sym ((==_iff s "").0 e))
  | inr e ↦ rw e refl
]

-- The middleware on an empty context, with its three tests as arguments.
read_after :
    (a k t : Bool) (key team : String)
    → get_auth_info (
        (user_key, text "dev-user")
        ∷ default_team (
            if t
            then (if k
                then (if a then [] else (admin_key, flag true) ∷ [])
                else (api_key_key, text key) ∷ (if a then [] else (admin_key, flag true) ∷ []))
            else (team_key, text team)
              ∷ (if k
                  then (if a then [] else (admin_key, flag true) ∷ [])
                  else (api_key_key, text key) ∷ (if a then [] else (admin_key, flag true) ∷ []))))
      ≡ record {
        user_id = "dev-user";
        team_id = if t then "default" else team;
        api_key_id = if k then "" else key;
        is_admin = not a;
      }
unfolding get_auth_info default_team get
read_after true true true key team = refl
read_after true true false key team = refl
read_after true false true key team = refl
read_after true false false key team = refl
read_after false true true key team = refl
read_after false true false key team = refl
read_after false false true key team = refl
read_after false false false key team = refl

read-identified : (r : Request) → r.context ≡ [] → get_auth_info (identified r) ≡ claimed r
unfolding claimed identified keep_team keep_api_key mark_admin
read-identified r fresh = rw (fresh) (
    rw
      (
        read_after (r.header "X-Admin-Token" == "") (r.header "X-API-Key" == "")
            (r.header "X-Supabase-Team" == "") (r.header "X-API-Key") (r.header "X-Supabase-Team"),
        empty_or_same (r.header "X-API-Key"),
      )
      refl)

-- Behind both middlewares, as the API server chains them, a request with an empty context that is not
-- an OPTIONS request reaches the handler, with the headers of CORS set on the response, and the handler
-- reads from the context exactly what the headers claim: the fixed user, the team of the header or the
-- default one, the API key of the header, and an admin where there is any admin token.
pub chain-claimed :
    (next : Handler) (r : Request) (w : Writer)
    → (r.method == "OPTIONS") ≡ false
    → r.context ≡ []
    → (c : Context) × (cors (allow_all next) r w ≡ next (record r { context = c }) (cors_headers w))
      × (get_auth_info c ≡ claimed r)
unfolding cors allow_all
chain-claimed next r w method fresh = (identified r, rw (method) refl, read-identified r fresh)
