-- ===== src/Orchestrator/Edge.antt =====
-- internal/orchestrator/edge_controller.go: `EdgeController`, over any runtime. The match of the host
-- with the pattern is an argument, and so is url.Parse, as a test; the proxy is that of
-- net/http/httputil.
use open_e2b.Prelude.{ℕ, String, Bool, Option, none, some, ◌==◌, string_eq, if◌then◌else◌}
use Prim.Native.String.{◌++◌ as ◌<>◌}
use open_e2b.Prelude.Text.{show_int32}
use open_e2b.Prelude.Action.{Outcome, done, failed}
use open_e2b.Orchestrator.Types.{SandboxInfo, SandboxRuntime}

-- What is read of a request: the path, the header E2b-Sandbox-Id, and the ID that the pattern finds in
-- the host.
pub record Request : Type 0 where
  pub path : String
  pub header : String
  pub in_host : Option String

-- An answer of the controller's own, or the URL to which the request goes.
pub data Route : Type 0 where
  answer : ℕ → String → Route
  proxy : String → Route

unfoldable pub sandbox_of : Request → Option String
sandbox_of req = if req.header == "" then req.in_host else some req.header

unfoldable pub target_of : SandboxInfo → String
target_of info = "http://" <> info.envd_address <> ":" <> show_int32 info.envd_port

module _ {R : Type 0} (rt : SandboxRuntime R) (parses : String → Bool) where
  abbrev route_to : Outcome SandboxInfo → Route
  route_to (failed e) = answer 404 "Sandbox not found"
  route_to (done info) =
      if info.state == "running"
      then (if parses (target_of info) then proxy (target_of info) else answer 500 "Invalid target")
      else answer 503 ("Sandbox not running (state=" <> info.state <> ")")

  abbrev route_for : Option String → R → Route × R
  route_for none r = (answer 400 "Missing E2b-Sandbox-Id header", r)
  route_for (some id) r = let (info, r') = rt.get_sandbox_status id r in (route_to info, r')

  unfoldable pub serve_http : Request → R → Route × R
  serve_http req r =
      if req.path == "/health" then (answer 200 "OK", r) else route_for (sandbox_of req) r
