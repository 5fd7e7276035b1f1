-- ===== src/TemplateBuild/Process/Steps.antt =====
-- The steps and the start command of internal/templatebuild/service.go keep the log of a build.
use open_e2b.Prelude.{
  ℕ, suc, String, if◌then◌else◌, List, [], ◌∷◌, Option, none, some, ◌==◌, string_eq,
}
use open_e2b.Prelude.Action.{Outcome, done, failed, Action, return, Output}
use open_e2b.TemplateBuild.Types.{info, warn, Build, Step, Machine}
use open_e2b.TemplateBuild.Log.{Job, log}
use open_e2b.TemplateBuild.Steps
use open_e2b.TemplateBuild.Steps.{execute_step, execute_steps, start_command}
use open_e2b.TemplateBuild.Process.Keeps.{
  Later, Keeps, return-Keeps, raise-Keeps, bind-Keeps, if-Keeps, log-Keeps, command-Keeps,
}

module _ {W : Type 0} (m : Machine W) where
  show_output-Keeps :
      (text : String) (step : Option String)
      → Keeps (if text == "" then return tt else log m info text step)
  show_output-Keeps text step =
      if-Keeps (text == "") _ _ (return-Keeps tt) (log-Keeps m info text step)

  or_error-Keeps : (e : Option String) → Keeps (Steps.or_error m e)
  or_error-Keeps none = return-Keeps tt
  or_error-Keeps (some x) = raise-Keeps (Unit {0}) x

  run_step-Keeps :
      (name : String) (args : List String) (step : Option String)
      → Keeps (Steps.run_step m name args step)
  run_step-Keeps name args step = bind-Keeps _ _ (command-Keeps m name args) λ (out : Output).
      bind-Keeps _ _ (show_output-Keeps out.text step) λ u. or_error-Keeps out.error

  first_or-Keeps :
      (what : String) (args : List String) (f : String → Action (Job W) (Unit {0}))
      → ((a : String) → Keeps (f a))
      → Keeps (Steps.first_or m what args f)
  first_or-Keeps what [] f h = raise-Keeps (Unit {0}) what
  first_or-Keeps what (a ∷ rest) f h = h a

  user_step-Keeps :
      (args : List String) (step : Option String) → Keeps (Steps.user_step m args step)
  user_step-Keeps [] step = return-Keeps tt
  user_step-Keeps (a ∷ rest) step = log-Keeps m info _ step

  execute_step-Keeps :
      (sandbox : String) (s : Step) (step : Option String) → Keeps (execute_step m sandbox s step)
  unfolding execute_step
  execute_step-Keeps sandbox s step =
      if-Keeps (s.kind == "RUN") _ _ (first_or-Keeps _ s.args _ λ a. run_step-Keeps "docker" _ step)
        (if-Keeps (s.kind == "ENV") _ _ (log-Keeps m info _ step) (
          if-Keeps (s.kind == "WORKDIR") _ _
            (first_or-Keeps _ s.args _ λ a. run_step-Keeps "docker" _ step)
            (if-Keeps (s.kind == "USER") _ _ (user_step-Keeps s.args step) (
              if-Keeps (s.kind == "COPY") _ _ (log-Keeps m info _ step)
                (log-Keeps m warn _ step)))))

  or_fail-Later :
      (a : Build) (what : String) (x : Outcome (Unit {0}) × Job W)
      → Later a x.1.build
      → Later a (Steps.or_fail m what x).1.build
  or_fail-Later a what (failed e, j) h = h
  or_fail-Later a what (done u, j) h = h

  one_step-Keeps : (sandbox : String) (i : ℕ) (s : Step) → Keeps (Steps.one_step m sandbox i s)
  one_step-Keeps sandbox i s = bind-Keeps _ _ (log-Keeps m info _ _) λ u.
      bind-Keeps _ _
        (record {
          moved = λ j.
              or_fail-Later j.build _ (execute_step m sandbox s _ j)
                ((execute_step-Keeps sandbox s _).moved j);
        })
        λ v. log-Keeps m info _ _

  pub execute_steps-Keeps :
      (sandbox : String) (i : ℕ) (ss : List Step) → Keeps (execute_steps m sandbox i ss)
  unfolding execute_steps
  execute_steps-Keeps sandbox i [] = return-Keeps tt
  execute_steps-Keeps sandbox i (s ∷ ss) =
      bind-Keeps _ _ (one_step-Keeps sandbox i s) λ u. execute_steps-Keeps sandbox (suc i) ss

  warn_exit-Keeps : (e step : Option String) → Keeps (Steps.warn_exit m e step)
  warn_exit-Keeps none step = return-Keeps tt
  warn_exit-Keeps (some e) step = log-Keeps m warn _ step

  pub start_command-Keeps : (sandbox cmd : String) → Keeps (start_command m sandbox cmd)
  unfolding start_command
  start_command-Keeps sandbox cmd = if-Keeps (cmd == "") _ _ (return-Keeps tt) (
      bind-Keeps _ _ (log-Keeps m info _ _) λ u.
        bind-Keeps _ _ (command-Keeps m "docker" _) λ (out : Output).
          bind-Keeps _ _ (show_output-Keeps out.text _) λ v. warn_exit-Keeps out.error _)
