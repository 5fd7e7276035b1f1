-- ===== src/Orchestrator/Firecracker/Cases.antt =====
-- What is known of calls of internal/orchestrator/runtime_firecracker.go that ended without an error.
use open_e2b.Prelude.{String, Option, none, some, ◌≡◌, ◌≢◌, refl, arith}
use open_e2b.Prelude.Action.{Outcome, done, failed, Action, continue}
use open_e2b.Orchestrator.Firecracker.{explained, judged}

failed≢done {ℓ} : {A : Type ℓ} {e : String} {a : A} → ◌≢◌ {A = Outcome A} (failed e) (done a)
failed≢done p = ground arith

module _ {W : Type 0} where
  pub judged-done :
      (x : Option String × W) (u : Unit {0})
      → (judged x).0 ≡ done u
      → (x.0 ≡ none) × ((judged x).1 ≡ x.1)
  judged-done (none, w) u e = (refl, refl)
  judged-done (some f, w) u e = absurd (failed≢done e)

  pub explained-done :
      {A : Type 0} (what : String) (undo : W → W) (x : Outcome A × W) (a : A)
      → (explained what undo x).0 ≡ done a
      → (x.0 ≡ done a) × ((explained what undo x).1 ≡ x.1)
  explained-done what undo (done b, w) a e = (e, refl)
  explained-done what undo (failed f, w) a e = absurd (failed≢done e)

  pub continue-done :
      {A B : Type 0} (r : Outcome A) (f : A → Action W B) (w : W) (b : B)
      → (continue r f w).0 ≡ done b
      → (a : A) × (r ≡ done a) × ((f a w).0 ≡ done b) × (continue r f w ≡ f a w)
  continue-done (done a) f w b e = (a, refl, e, refl)
  continue-done (failed x) f w b e = absurd (failed≢done e)
