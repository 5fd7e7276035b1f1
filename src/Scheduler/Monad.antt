-- ===== src/Scheduler/Monad.antt =====
-- A method of the scheduler runs under its lock from start to end: a function from the state to
-- its result and the state after it. What was written before an error stays written.
use open_e2b.Prelude.{Bool, Option, none, some, if◌then◌else◌}
use open_e2b.Scheduler.Types.{Scheduler, NodeOperations, Result, ok, err, Error}

abbrev pub Method : Type 0 → Type 0 → Type 0
Method W A = Scheduler W → Result A × Scheduler W

module _ {W A : Type 0} where
  abbrev pub return : A → Method W A
  return a s = (ok a, s)

  abbrev pub throw : Error → Method W A
  throw e s = (err e, s)

  abbrev pub or_throw : Option A → Error → Method W A
  or_throw none e s = (err e, s)
  or_throw (some a) e s = (ok a, s)

  abbrev pub answered : Scheduler W → Result A × W → Result A × Scheduler W
  answered s (r, w) = (r, record s { world = w })

  abbrev pub ask :
      A → (NodeOperations W → W → Result A × W) → Option (NodeOperations W) → Method W A
  ask skip call none s = (ok skip, s)
  ask skip call (some ops) s = answered s (call ops s.world)

  -- The call of a node's operation, or `skip` where `s.nodeOps` is nil.
  abbrev pub on_node : A → (NodeOperations W → W → Result A × W) → Method W A
  on_node skip call s = ask skip call s.node_ops s

module _ {W : Type 0} where
  abbrev pub get_state : Method W (Scheduler W)
  get_state s = (ok s, s)

  abbrev pub modify : (Scheduler W → Scheduler W) → Method W (Unit {0})
  modify f s = (ok tt, f s)

  abbrev pub require : Bool → Error → Method W (Unit {0})
  require b e s = if b then (ok tt, s) else (err e, s)

module _ {W A B : Type 0} where
  abbrev pub continue : Result A → (A → Method W B) → Method W B
  continue (ok a) f s = f a s
  continue (err e) f s = (err e, s)

  infixl 5 ◌>>=◌ ◌>>◌
  abbrev pub ◌>>=◌ : Method W A → (A → Method W B) → Method W B
  ◌>>=◌ m f s = let (r, s') = m s in continue r f s'

  abbrev pub ◌>>◌ : Method W A → Method W B → Method W B
  m >> n = m >>= λ _. n
