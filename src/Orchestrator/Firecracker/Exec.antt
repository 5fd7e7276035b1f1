-- ===== src/Orchestrator/Firecracker/Exec.antt =====
-- internal/orchestrator/runtime_firecracker.go: `ExecCommand`. The request to envd is a call with its
-- answer; each JSON value of the body is decoded before.
use open_e2b.Prelude.{ℕ, String, nat_eq, string_eq, List, [], ◌∷◌, ◌++◌, Option, none, some}
use Prim.Native.String.{◌++◌ as ◌<>◌}
use open_e2b.Prelude.Text.{show_int, show_int32}
use open_e2b.Prelude.Bytes.{Bytes}
use open_e2b.Prelude.GoMap.{get}
use open_e2b.Prelude.Action.{Outcome, done, failed}
use open_e2b.Orchestrator.Exec.{ExecOutput}
use open_e2b.Orchestrator.Firecracker.{FirecrackerRuntime}

pub record DataEvent : Type 0 where
  pub stdout : Bytes
  pub stderr : Bytes

pub record EndEvent : Type 0 where
  pub exit_code : ℕ
  pub error : Option String

pub record Event : Type 0 where
  pub data_event : Option DataEvent
  pub end_event : Option EndEvent

-- What the decoder returns: an event, the end of the body, or an error.
pub data Decoded : Type 0 where
  event : Event → Decoded
  eof : Decoded
  broken : String → Decoded

-- What http.Client.Do returns for the request: an error, a status that is not 200 with the trimmed body,
-- or the values of the body.
pub data Answer : Type 0 where
  no_request no_answer : String → Answer
  refused : ℕ → String → Answer
  body : List Decoded → Answer

abbrev pub on_stdout : Bytes → ExecOutput
on_stdout bs = record { stdout = some bs; stderr = none; exit_code = none }

abbrev pub on_stderr : Bytes → ExecOutput
on_stderr bs = record { stdout = none; stderr = some bs; exit_code = none }

abbrev pub on_exit : ℕ → ExecOutput
on_exit n = record { stdout = none; stderr = none; exit_code = some n }

abbrev non_empty : (Bytes → ExecOutput) → Bytes → List ExecOutput
non_empty f [] = []
non_empty f (b ∷ bs) = f (b ∷ bs) ∷ []

abbrev pub data_outputs : Option DataEvent → List ExecOutput
data_outputs none = []
data_outputs (some d) = non_empty on_stdout d.stdout ++ non_empty on_stderr d.stderr

-- []byte(s) is an argument.
module _ (bytes : String → Bytes) where
  abbrev error_output : Option String → List ExecOutput
  error_output none = []
  error_output (some e) = on_stderr (bytes e) ∷ []

  abbrev pub end_outputs : List ExecOutput → Option EndEvent → List ExecOutput
  end_outputs more none = more
  end_outputs more (some e) = error_output e.error ++ on_exit e.exit_code ∷ []

  -- The loop over the body, up to an end event, the end of the body or an error.
  unfoldable pub outputs : List Decoded → List ExecOutput
  outputs [] = []
  outputs (eof ∷ ds) = []
  outputs (broken e ∷ ds) = on_stderr (bytes ("failed to decode process output: " <> e)) ∷ []
  outputs (event ev ∷ ds) =
      let more = outputs ds in data_outputs ev.data_event ++ end_outputs more ev.end_event

  unfoldable pub answer_outputs : Answer → List ExecOutput
  answer_outputs (no_request e) = on_stderr (bytes ("failed to create request: " <> e)) ∷ []
  answer_outputs (no_answer e) = on_stderr (bytes ("failed to execute command: " <> e)) ∷ []
  answer_outputs (refused status text) =
      on_stderr (bytes ("envd returned " <> show_int status <> ": " <> text)) ∷ []
  answer_outputs (body ds) = outputs ds

  -- `post` is the request, for an address, a command and its arguments.
  unfoldable pub exec_command :
      {V : Type 0}
      → (String → String → List String → Answer)
      → FirecrackerRuntime V
      → String
      → String
      → List String
      → Outcome (List ExecOutput)
  exec_command post r id command args = elim (get r.sandboxes id) [
    | none ↦ failed ("sandbox not found: " <> id)
    | some sb ↦ done (
        answer_outputs (
          post ("http://" <> sb.vm_ip <> ":" <> show_int32 sb.envd_port <> "/process.Process/Start")
            command args))
  ]
