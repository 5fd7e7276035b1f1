-- ===== src/Orchestrator/Exec.antt =====
-- internal/orchestrator/service.go: `ExecCommand` and `PullArtifact` of the agent. The outputs of a
-- command are those that arrive on the channel of the runtime before it is closed.
use open_e2b.Prelude.{ℕ, String, Bool, true, List, [], ◌∷◌, Option, none, some}
use Prim.Native.String.{◌++◌ as ◌<>◌}
use open_e2b.Prelude.Bytes.{Bytes}
use open_e2b.Prelude.Action.{Outcome, done, failed, Shell}

-- A nil slice is `none`.
pub record ExecOutput : Type 0 where
  pub stdout : Option Bytes
  pub stderr : Option Bytes
  pub exit_code : Option ℕ

-- The field Output of an ExecCommandResponse; `nothing` is one that is not set.
pub data ExecCommandResponse : Type 0 where
  stdout stderr : Bytes → ExecCommandResponse
  exit_code : ℕ → ExecCommandResponse
  nothing : ExecCommandResponse

abbrev pub response_of_code : Option ℕ → ExecCommandResponse
response_of_code none = nothing
response_of_code (some n) = exit_code n

abbrev pub response_of_stderr : Option Bytes → Option ℕ → ExecCommandResponse
response_of_stderr none code = response_of_code code
response_of_stderr (some bs) code = stderr bs

abbrev pub response_of : Option Bytes → Option Bytes → Option ℕ → ExecCommandResponse
response_of none err code = response_of_stderr err code
response_of (some bs) err code = stdout bs

-- The loop over the channel; the first error of the stream ends it.
module _ {S : Type 0} (send : ExecCommandResponse → S → Option String × S) where
  abbrev sent : (S → Option String × S) → Option String × S → Option String × S
  sent more (some e, s) = (some e, s)
  sent more (none, s) = more s

  unfoldable pub relay : List ExecOutput → S → Option String × S
  relay [] s = (none, s)
  relay (o ∷ os) s = sent (relay os) (send (response_of o.stdout o.stderr o.exit_code) s)

  unfoldable pub exec_command : Outcome (List ExecOutput) → S → Option String × S
  exec_command (failed e) s = (some e, s)
  exec_command (done os) s = relay os s

pub record PullArtifactResponse : Type 0 where
  pub success : Bool
  pub local_path : String

-- An error of `docker pull` is only logged.
unfoldable pub pull_artifact :
    {W : Type 0} → Shell W → String → String → String → W → PullArtifactResponse × W
pull_artifact sh artifacts template build w = (
  record { success = true; local_path = artifacts <> "/" <> template <> "/" <> build },
  (sh "docker" ("pull" ∷ ("e2b/" <> template <> ":" <> build) ∷ []) w).1,
)
