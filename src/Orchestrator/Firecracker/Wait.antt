-- ===== src/Orchestrator/Firecracker/Wait.antt =====
-- internal/orchestrator/runtime_firecracker.go: `waitForEnvd`, with fuel for the rounds of its loop.
pub mod Laws
use open_e2b.Prelude.{ℕ, zero, suc, String, List, Option, none, some, if◌then◌else◌}
use Prim.Native.String.{◌++◌ as ◌<>◌}
use open_e2b.Prelude.Text.{show_int32}
use open_e2b.Prelude.Time
use open_e2b.Prelude.Time.{Time, Duration, seconds}
use open_e2b.Prelude.Action.{Outcome, done, failed}
use open_e2b.Orchestrator.Firecracker.{Os}

module _ {W : Type 0} (os : Os W) where
  -- A round after its test of the time; `more` are the rounds after a pause of a second.
  abbrev pub dialed :
      (W → Option (Outcome (Unit {0})) × W) → Option String × W → Option (Outcome (Unit {0})) × W
  dialed more (none, w) = (some (done tt), w)
  dialed more (some e, w) = more (os.sleep 1000000000 w)

  abbrev pub looked :
      (W → Option (Outcome (Unit {0})) × W)
      → String
      → Option String × W
      → Option (Outcome (Unit {0})) × W
  looked more addr (some e, w) = (some (failed e), w)
  looked more addr (none, w) = dialed more (os.dial addr w)

  -- `none` where the fuel runs out.
  unfoldable pub wait_until : ℕ → Time → String → String → W → Option (Outcome (Unit {0})) × W
  wait_until zero deadline addr late w = (none, w)
  wait_until (suc f) deadline addr late w =
      let (now, w') = os.now w in
      let round = looked (wait_until f deadline addr late) addr (os.context_error w') in
      if Time.after deadline now then round else (some (failed late), w')

  unfoldable pub wait_for_envd : ℕ → String → ℕ → Duration → W → Option (Outcome (Unit {0})) × W
  wait_for_envd fuel ip port timeout w =
      let (now, w') = os.now w in
      let addr = ip <> ":" <> show_int32 port in
      wait_until fuel (Time.add now timeout) addr
        ("envd not responding at " <> addr <> " after " <> os.show_duration timeout) w'
