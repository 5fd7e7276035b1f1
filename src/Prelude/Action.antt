-- ===== src/Prelude/Action.antt =====
-- A Go function that returns an error and works on a state: `Action W A` is such a function with the
-- state `W` passed through; what was written before an error stays. `Shell` is the package os/exec,
-- with the world behind the commands as a state.
use Prim.Native.String.{String}
use mathlib.Core.List.{List}
use mathlib.Core.Option.{Option}

-- `(a, nil)` or an error with its text.
pub data Outcome {ℓ} (A : Type ℓ) : Type ℓ where
  done : A → Outcome A
  failed : String → Outcome A

abbrev pub Action : Type 0 → Type 0 → Type 0
Action W A = W → Outcome A × W

module _ {W A : Type 0} where
  abbrev pub return : A → Action W A
  return a w = (done a, w)

  abbrev pub raise : String → Action W A
  raise e w = (failed e, w)

  -- `if err != nil { log }`: the state after the call, whatever it returned.
  abbrev pub attempt : Action W A → Action W (Unit {0})
  attempt m w = (done tt, (m w).1)

  -- `defer`: done on the way out, with an error or without.
  abbrev pub deferred : (W → W) → Action W A → Action W A
  deferred f m w = let (r, w') = m w in (r, f w')

  -- A call that cannot fail, or whose error is not looked at.
  abbrev pub calling : (W → A × W) → Action W A
  calling f w = let (a, w') = f w in (done a, w')

module _ {W : Type 0} where
  abbrev pub changing : (W → W) → Action W (Unit {0})
  changing f w = (done tt, f w)

module _ {W A B : Type 0} where
  abbrev pub continue : Outcome A → (A → Action W B) → Action W B
  continue (done a) f w = f a w
  continue (failed e) f w = (failed e, w)

  infixl 5 ◌>>=◌ ◌>>◌
  abbrev pub ◌>>=◌ : Action W A → (A → Action W B) → Action W B
  ◌>>=◌ m f w = let (r, w') = m w in continue r f w'

  abbrev pub ◌>>◌ : Action W A → Action W B → Action W B
  m >> n = m >>= λ _. n

-- What a command printed, and its error, if any.
pub record Output : Type 0 where
  pub text : String
  pub error : Option String

-- exec.CommandContext(ctx, name, args...) and a wait for its end.
abbrev pub Shell : Type 0 → Type 0
Shell W = String → List String → W → Output × W
