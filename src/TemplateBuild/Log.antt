-- ===== src/TemplateBuild/Log.antt =====
-- internal/templatebuild/service.go: the log of a build, and a build in the hands of a worker. Only
-- that worker changes the build.
use open_e2b.Prelude.{String, List, [], ◌∷◌, ◌++◌, Option, string_eq}
use open_e2b.Prelude.Time.{Time}
use open_e2b.Prelude.Action.{Outcome, done, Action, Output}
use open_e2b.Db.Types
use open_e2b.TemplateBuild.Types.{LogLevel, level_name, LogEntry, Build, Machine}

-- A build and the machine's state.
pub record Job (W : Type 0) : Type 0 where
  pub build : Build
  pub world : W

unfoldable pub add_log : Time → LogLevel → String → Option String → Build → Build
add_log now level message step b = record b {
  logs = b.logs ++ message ∷ [];
  log_entries =
      b.log_entries
      ++ record { timestamp = now; message = message; level = level; step = step } ∷ [];
}

unfoldable pub to_db_log_entries : List LogEntry → List Types.LogEntry
to_db_log_entries [] = []
to_db_log_entries (e ∷ es) =
    record {
      timestamp = e.timestamp;
      message = e.message;
      level = level_name e.level;
      step = e.step;
    }
    ∷ to_db_log_entries es

module _ {W : Type 0} (m : Machine W) where
  -- s.addLog(build, ...)
  unfoldable pub log : LogLevel → String → Option String → Action (Job W) (Unit {0})
  log level message step j =
      let (now, w) = m.now j.world in
      (done tt, record { build = add_log now level message step j.build; world = w })

  -- A command with its output, whether it ended well or not.
  unfoldable pub command : String → List String → Action (Job W) Output
  command name args j = let (out, w) = m.run name args j.world in (done out, record j { world = w })

  -- Another call on the machine.
  abbrev pub call {ℓ} : {A : Type ℓ} → (W → A × W) → Job W → Outcome A × Job W
  call f j = let (a, w) = f j.world in (done a, record j { world = w })
