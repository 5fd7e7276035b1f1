-- ===== src/Orchestrator/Firecracker/Wait/Laws.antt =====
-- The end of the loop of `waitForEnvd` (internal/orchestrator/runtime_firecracker.go).
use open_e2b.Prelude.{
  ℕ, zero, suc, ◌+◌, ◌*◌, ◌≤◌, ◌<◌, String, Option, none, some, Bool-cases, inl, inr, ◌≡◌, refl,
  true, false, arith,
}
use Prim.Native.String.{◌++◌ as ◌<>◌}
use open_e2b.Prelude.Text.{show_int32}
use open_e2b.Prelude.Word.{to_ℤ, mul64}
use open_e2b.Prelude.Int.{pos, ◌+ℤ◌}
use open_e2b.Prelude.Time
use open_e2b.Prelude.Time.{Time, seconds}
use open_e2b.Prelude.Action.{Outcome, done, failed}
use open_e2b.Orchestrator.Firecracker.{Os}
use open_e2b.Orchestrator.Firecracker.Wait.{wait_until, wait_for_envd, looked, dialed}

-- A clock in nanoseconds that time.Now reads, that no call turns back, and that time.Sleep moves on by
-- at least what it is told.
pub record IsClock {W : Type 0} (os : Os W) (clock : W → ℕ) : Type 0 where
  pub reads : (w : W) → ((os.now w).0 ≡ pos (clock (os.now w).1)) × (clock w ≤ clock (os.now w).1)
  pub sleeps : (d : ℕ) (w : W) → clock w + d ≤ clock (os.sleep d w)
  pub checks : (w : W) → clock w ≤ clock (os.context_error w).1
  pub dials : (addr : String) (w : W) → clock w ≤ clock (os.dial addr w).1

module _ {W : Type 0} (os : Os W) (clock : W → ℕ) (c : IsClock os clock) where
  -- A loop that ends after n rounds at most, with the same result whatever fuel is left.
  abbrev Ends : ℕ → (ℕ → Option (Outcome (Unit {0})) × W) → Type 0
  Ends n run = (r : Outcome (Unit {0})) × (w : W) × ((f : ℕ) → n < f → run f ≡ (some r, w))

  now-bound : (w : W) (d : ℕ) → d ≤ clock w → Time.after (pos d) (os.now w).0 ≡ false
  now-bound w d h = let (e, k) = c.reads w in rw e (ground arith)

  -- What is left of a round, if the rounds that start a second later end.
  dialed-Ends :
      (n t : ℕ) (more : ℕ → W → Option (Outcome (Unit {0})) × W) (x : Option String × W)
      → t ≤ clock x.1
      → ((y : W) → t + 1000000000 ≤ clock y → Ends n (λ f. more f y))
      → Ends n (λ f. dialed os (more f) x)
  dialed-Ends n t more (none, w) h rec = (done tt, w, λ f k. refl)
  dialed-Ends n t more (some e, w) h rec =
      rec (os.sleep 1000000000 w) (omega (arith, c.sleeps 1000000000 w))

  looked-Ends :
      (n t : ℕ) (addr : String) (more : ℕ → W → Option (Outcome (Unit {0})) × W)
      (x : Option String × W)
      → t ≤ clock x.1
      → ((y : W) → t + 1000000000 ≤ clock y → Ends n (λ f. more f y))
      → Ends n (λ f. looked os (more f) addr x)
  looked-Ends n t addr more (some e, w) h rec = (failed e, w, λ f k. refl)
  looked-Ends n t addr more (none, w) h rec =
      dialed-Ends n t more (os.dial addr w) (omega (arith, c.dials addr w)) rec

  -- Past the deadline a round ends the loop.
  late-Ends :
      (n : ℕ) (deadline : Time) (addr late : String) (w : W)
      → Time.after deadline (os.now w).0 ≡ false
      → Ends n (λ f. wait_until os f deadline addr late w)
  unfolding wait_until
  late-Ends n deadline addr late w e = (
    failed late,
    (os.now w).1,
    λ f h.
        elim f
            as (λ g.
              n < g → wait_until os g deadline addr late w ≡ (some (failed late), (os.now w).1)) [
                | zero ↦ λ k. absurd (omega arith)
                | suc g ↦ λ k. rw (e, wait_until) refl
              ]
          h,
  )

  early-Ends :
      (n : ℕ) (deadline : Time) (addr late : String) (w : W)
      → Time.after deadline (os.now w).0 ≡ true
      → Ends n
          (λ f. looked os (wait_until os f deadline addr late) addr (os.context_error (os.now w).1))
      → Ends (suc n) (λ f. wait_until os f deadline addr late w)
  unfolding wait_until
  early-Ends n deadline addr late w e (r, v, same) = (
    r,
    v,
    λ f h.
        elim f as (λ g. suc n < g → wait_until os g deadline addr late w ≡ (some r, v)) [
          | zero ↦ λ k. absurd (omega arith)
          | suc g ↦ λ k. rw (e, wait_until) (same g (omega arith))
        ]
          h,
  )

  wait_until-Ends :
      (n d : ℕ) (addr late : String) (w : W)
      → d ≤ clock w + n * 1000000000
      → Ends n (λ f. wait_until os f (pos d) addr late w)
  wait_until-Ends zero d addr late w h =
      late-Ends zero (pos d) addr late w (now-bound w d (omega arith))
  wait_until-Ends (suc n) d addr late w h = elim (Bool-cases (Time.after (pos d) (os.now w).0)) [
    | inl e ↦ early-Ends n (pos d) addr late w e (
        looked-Ends n (clock w) addr (λ f. wait_until os f (pos d) addr late)
          (os.context_error (os.now w).1) (omega (arith, (c.reads w).1, c.checks (os.now w).1))
          (λ y k. wait_until-Ends n d addr late y (omega arith)))
    | inr e ↦ late-Ends (suc n) (pos d) addr late w e
  ]

deadline_at : (t : ℕ) → Time.add (pos t) (seconds 60) ≡ pos (t + 60000000000)
unfolding Time.add seconds ◌+ℤ◌ to_ℤ mul64
deadline_at t = ground arith

-- The wait of `CreateSandbox` for envd ends: within 61 rounds of the loop, with the same result and the
-- same effects whatever more fuel there is, for any answers of the network, where the clock is never
-- turned back and a sleep takes at least as long as it is told.
pub wait_for_envd-Ends :
    {W : Type 0} (os : Os W) (clock : W → ℕ) (ip : String) (port : ℕ) (w : W)
    → IsClock os clock
    → (r : Outcome (Unit {0})) × (v : W) × ((f : ℕ)
        → 60 < f
        → wait_for_envd os f ip port (seconds 60) w ≡ (some r, v))
unfolding wait_for_envd
wait_for_envd-Ends os clock ip port w c =
    let addr = ip <> ":" <> show_int32 port in
    let late = "envd not responding at " <> addr <> " after " <> os.show_duration (seconds 60) in
    let (r, v, same) =
      wait_until-Ends os clock c 60 (clock (os.now w).1 + 60000000000) addr late (os.now w).1
        (omega arith) in
    (r, v, λ f h. rw ((c.reads w).0, deadline_at) (same f h))
