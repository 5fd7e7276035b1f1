-- ===== src/Scheduler/Expiry.antt =====
-- internal/scheduler/scheduler.go: `checkExpirations`, one tick of the goroutine that
-- `StartExpirationChecker` starts. It takes the lock anew for each look and for each call, and what
-- the other goroutines do to the state in between is an argument.
use open_e2b.Prelude.{String, Bool, ◌&&◌, List, [], ◌∷◌, none, some, string_eq, if◌then◌else◌}
use open_e2b.Prelude.GoMap.{get}
use open_e2b.Prelude.GoMap.Range.{Order, range}
use open_e2b.Prelude.Time.{Time, after}
use open_e2b.Scheduler.Types.{Sandbox, Scheduler, is_running}
use open_e2b.Scheduler.Ops.{stop, pause}

unfoldable pub is_expired : Time → Sandbox → Bool
is_expired now sb = is_running sb.status.state && after now sb.status.expires_at

-- The IDs that the first loop collects.
unfoldable pub expired : Time → List (String × Sandbox) → List String
expired now [] = []
expired now ((id, sb) ∷ rest) =
    let ids = expired now rest in if is_expired now sb then id ∷ ids else ids

abbrev pub Others : Type 0 → Type 0
Others W = Scheduler W → Scheduler W

module _ {W : Type 0} where
  abbrev pub nothing : Others W
  nothing s = s

  -- The body of the second loop. `between` happens after the look and before the call.
  unfoldable pub expire : Others W → String → Scheduler W → Scheduler W
  expire between id s = elim (get s.sandboxes id) [
    | none ↦ s
    | some sb ↦ if sb.spec.auto_pause then (pause id (between s)).1 else (stop id (between s)).1
  ]

  -- Each pair is what happens before a look and between the look and the call. Where the list
  -- ends nothing happens.
  unfoldable pub expire_all : List String → List (Others W × Others W) → Scheduler W → Scheduler W
  expire_all [] others s = s
  expire_all (id ∷ ids) [] s = expire_all ids [] (expire nothing id s)
  expire_all (id ∷ ids) ((before, between) ∷ others) s =
      expire_all ids others (expire between id (before s))

  unfoldable pub check_expirations :
      Order → Time → List (Others W × Others W) → Scheduler W → Scheduler W
  check_expirations o now others s = expire_all (expired now (range o s.sandboxes)) others s
