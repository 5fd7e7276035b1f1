-- ===== src/TemplateBuild/Steps.antt =====
-- internal/templatebuild/service.go: `executeStep`, and what `processBuild` does with the steps and
-- the start command.
use open_e2b.Prelude.{
  ℕ, suc, String, List, [], ◌∷◌, Option, none, some, ◌==◌, string_eq, if◌then◌else◌,
}
use Prim.Native.String.{◌++◌ as ◌<>◌}
use open_e2b.Prelude.Text.{show_int, show_strings}
use open_e2b.Prelude.Action.{Outcome, done, failed, Action, return, raise, ◌>>=◌, ◌>>◌}
use open_e2b.TemplateBuild.Types.{info, warn, Step, Config, Machine}
use open_e2b.TemplateBuild.Log.{Job, log, command}

unfoldable pub base_image : Option Config → String
base_image none = "ubuntu:22.04"
base_image (some c) = if c.from_image == "" then "ubuntu:22.04" else c.from_image

module _ {W : Type 0} (m : Machine W) where
  abbrev pub or_error : Option String → Action (Job W) (Unit {0})
  or_error none = return tt
  or_error (some e) = raise e

  -- The output of a command goes to the log, if there is any; its error is returned.
  abbrev pub run_step : String → List String → Option String → Action (Job W) (Unit {0})
  run_step name args step = do
    out ← command m name args
    (if out.text == "" then return tt else log m info out.text step)
    or_error out.error

  abbrev pub first_or :
      String → List String → (String → Action (Job W) (Unit {0})) → Action (Job W) (Unit {0})
  first_or what [] f = raise what
  first_or what (a ∷ as') f = f a

  abbrev pub user_step : List String → Option String → Action (Job W) (Unit {0})
  user_step [] step = return tt
  user_step (a ∷ as') step = log m info ("User set to: " <> a) step

  unfoldable pub execute_step : String → Step → Option String → Action (Job W) (Unit {0})
  execute_step sandbox s step =
      if s.kind == "RUN"
      then first_or "RUN step requires a command" s.args
          (λ cmd. run_step "docker" ("exec" ∷ sandbox ∷ "sh" ∷ "-c" ∷ cmd ∷ []) step)
      else if s.kind == "ENV"
      then log m info ("Setting environment variables: " <> show_strings s.args) step
      else if s.kind == "WORKDIR"
      then first_or "WORKDIR step requires a path" s.args
          (λ path. run_step "docker" ("exec" ∷ sandbox ∷ "mkdir" ∷ "-p" ∷ path ∷ []) step)
      else if s.kind == "USER"
      then user_step s.args step
      else if s.kind == "COPY"
      then log m info
          ("COPY: " <> show_strings s.args <> " (skipped - file storage not implemented)") step
      else log m warn ("Unknown step type: " <> s.kind) step

  -- fmt.Errorf("...: %w", err)
  abbrev pub or_fail : String → Outcome (Unit {0}) × Job W → Outcome (Unit {0}) × Job W
  or_fail what (failed e, j) = (failed (what <> e), j)
  or_fail what (done u, j) = (done u, j)

  -- "step-%d-%s"
  abbrev pub step_name : ℕ → Step → String
  step_name i s = "step-" <> show_int i <> "-" <> s.kind

  abbrev pub one_step : String → ℕ → Step → Action (Job W) (Unit {0})
  one_step sandbox i s = do
    let name = step_name i s
    log m info ("Executing: " <> name) (some name)
    λ j. or_fail (name <> " failed: ") (execute_step sandbox s (some name) j)
    log m info ("Completed: " <> name) (some name)

  -- The steps from the one with number `i` on, up to the first that fails.
  unfoldable pub execute_steps : String → ℕ → List Step → Action (Job W) (Unit {0})
  execute_steps sandbox i [] = return tt
  execute_steps sandbox i (s ∷ ss) = one_step sandbox i s >>= λ u. execute_steps sandbox (suc i) ss

  abbrev pub warn_exit : Option String → Option String → Action (Job W) (Unit {0})
  warn_exit none step = return tt
  warn_exit (some e) step =
      log m warn ("Start command exited with error (may be expected): " <> e) step

  abbrev pub run_start : String → String → Action (Job W) (Unit {0})
  run_start sandbox cmd = do
    log m info ("Running start command: " <> cmd) (some "start-cmd")
    out ← command m "docker" ("exec" ∷ sandbox ∷ "sh" ∷ "-c" ∷ cmd ∷ [])
    (if out.text == "" then return tt else log m info out.text (some "start-cmd"))
    warn_exit out.error (some "start-cmd")

  unfoldable pub start_command : String → String → Action (Job W) (Unit {0})
  start_command sandbox cmd = if cmd == "" then return tt else run_start sandbox cmd
