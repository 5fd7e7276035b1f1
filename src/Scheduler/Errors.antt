-- ===== src/Scheduler/Errors.antt =====
-- A method that fails has written nothing.
use open_e2b.Prelude.{String, ◌≡◌, arith}
use open_e2b.Prelude.GoMap.Range.{Order}
use open_e2b.Prelude.Time.{Time, Duration}
use open_e2b.Scheduler.Types.{SandboxSpec, Scheduler, Error, err}
use open_e2b.Scheduler.Select.{Float64}
use open_e2b.Scheduler.Monad.{Method, return, ◌>>◌}
use open_e2b.Scheduler.Ops.{schedule, stop, pause, resume, extend_timeout}

-- Both maps are as they were.
abbrev pub SameMaps : {W : Type 0} → Scheduler W → Scheduler W → Type 0
SameMaps s t = (t.nodes ≡ s.nodes) × (t.sandboxes ≡ s.sandboxes)

module _ {W : Type 0} (s : Scheduler W) (e : Error) where
  stop-err : (id : String) → (stop id s).0 ≡ err e → SameMaps s (stop id s).1
  unfolding stop
  stop-err id h = ground arith

  pub schedule-err :
      (fl : Float64) (o : Order) (spec : SandboxSpec) (started now : Time)
      → (schedule fl o spec started now s).0 ≡ err e
      → SameMaps s (schedule fl o spec started now s).1
  unfolding schedule
  schedule-err fl o spec started now h = ground arith

  pause-err : (id : String) → (pause id s).0 ≡ err e → SameMaps s (pause id s).1
  unfolding pause
  pause-err id h = ground arith

  resume-err : (id : String) → (resume id s).0 ≡ err e → SameMaps s (resume id s).1
  unfolding resume
  resume-err id h = ground arith

  extend_timeout-err :
      (id : String) (d : Duration) (now : Time)
      → (extend_timeout id d now s).0 ≡ err e
      → SameMaps s (extend_timeout id d now s).1
  unfolding extend_timeout
  extend_timeout-err id d now h = ground arith

-- A call of a method that may fail.
pub data Call : Type 0 where
  schedules : Order → SandboxSpec → (started now : Time) → Call
  stops pauses resumes : String → Call
  extends : String → Duration → (now : Time) → Call

module _ {W : Type 0} (fl : Float64) where
  unfoldable pub perform : Call → Method W (Unit {0})
  perform (schedules o spec started now) = do schedule fl o spec started now; return tt
  perform (stops id) = stop id
  perform (pauses id) = pause id
  perform (resumes id) = resume id
  perform (extends id d now) = extend_timeout id d now

  -- A call that returns an error, whatever the error is, leaves the nodes and the sandboxes as
  -- they were, though the node may have been asked and have changed on its side.
  pub failed_keeps_maps :
      (c : Call) (s : Scheduler W) (e : Error)
      → (perform c s).0 ≡ err e
      → SameMaps s (perform c s).1
  unfolding perform
  failed_keeps_maps (schedules o spec started now) s e h =
      ground (arith, schedule-err s e fl o spec started now)
  failed_keeps_maps (stops id) s e h = stop-err s e id h
  failed_keeps_maps (pauses id) s e h = pause-err s e id h
  failed_keeps_maps (resumes id) s e h = resume-err s e id h
  failed_keeps_maps (extends id d now) s e h = extend_timeout-err s e id d now h
