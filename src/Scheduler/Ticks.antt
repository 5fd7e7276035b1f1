-- ===== src/Scheduler/Ticks.antt =====
-- What one tick of the expiration checker leaves alone, with other goroutines at work meanwhile.
use open_e2b.Prelude.{
  ◌⊎◌, String, ◌≡◌, ◌≢◌, refl, ◌∙◌, List, [], ◌∷◌, some, inl, inr, true, false, arith, ==_iff,
  string_eq, All, All-imp, Bool-cases, Option-cases,
}
use open_e2b.Prelude.GoMap.{GoMap, get, put, get-put, get-remove}
use open_e2b.Prelude.GoMap.Keys.{Distinct}
use open_e2b.Prelude.GoMap.Range.{Order, range, Found, range-Found}
use open_e2b.Prelude.Time.{Time, after}
use open_e2b.Scheduler.Types.{Sandbox, Scheduler, is_running, paused, stopped}
use open_e2b.Scheduler.Ops.{stop, pause, drop_sandbox, update_sandbox, with_state}
use open_e2b.Scheduler.Cases.{stop_cases, pause_cases}
use open_e2b.Scheduler.Expiry.{
  Others, nothing, expire, expire_all, expired, is_expired, check_expirations,
}

module _ {W : Type 0} (k : String) where
  -- What leaves the entry of `k`.
  abbrev pub Spares : Others W → Type 0
  Spares f = (s : Scheduler W) → get (f s).sandboxes k ≡ get s.sandboxes k

  stop-Spares : (id : String) → id ≢ k → Spares (λ s. (stop id s).1)
  unfolding drop_sandbox
  stop-Spares id differ s =
      stop_cases (λ t. get t.sandboxes k ≡ get s.sandboxes k) s (λ _. refl) id
        λ x n w _ _. ground (
          arith,
          get-remove (put s.sandboxes id (with_state stopped x)) id k,
          get-put s.sandboxes id k (with_state stopped x),
          ==_iff id k,
        )

  pub pause-Spares : (id : String) → id ≢ k → Spares (λ s. (pause id s).1)
  unfolding update_sandbox
  pause-Spares id differ s =
      pause_cases (λ t. get t.sandboxes k ≡ get s.sandboxes k) s (λ _. refl) id
        λ x w _ _. ground (arith, get-put s.sandboxes id k (with_state paused x), ==_iff id k)

  expire-Spares : (id : String) (f : Others W) → id ≢ k → Spares f → Spares (expire f id)
  unfolding expire
  expire-Spares id f differ h s = elim (Option-cases (get s.sandboxes id)) [
    | inl e ↦ rw (e, expire)
    | inr (sb, e) ↦ elim (Bool-cases sb.spec.auto_pause) [
      | inl p ↦ rw (e, expire) (rw p (pause-Spares id differ (f s) ∙ h s))
      | inr p ↦ rw (e, expire) (rw p (stop-Spares id differ (f s) ∙ h s))
    ]
  ]

module _ (now : Time) where
  -- The collected IDs are those of entries that were visited and had expired.
  expired-All :
      (m : GoMap String Sandbox) (ps : List (String × Sandbox))
      → All (Found m) ps
      → All
          (λ id. (sb : Sandbox) × (get m id ≡ some sb) × (is_expired now sb ≡ true))
          (expired now ps)
  unfolding expired
  expired-All m [] a = tt
  expired-All m ((id, sb) ∷ ps) a = elim (Bool-cases (is_expired now sb)) [
    | inl e ↦ rw e ((sb, a.0, e), expired-All m ps a.1)
    | inr e ↦ rw e (expired-All m ps a.1)
  ]

not_expired :
    (now : Time) (sb : Sandbox)
    → (is_running sb.status.state ≡ false) ⊎ (after now sb.status.expires_at ≡ false)
    → is_expired now sb ≡ false
unfolding is_expired
not_expired now sb (inl h) = ground arith
not_expired now sb (inr h) = ground arith

module _ {W : Type 0} where
  -- What the other goroutines do during a tick leaves the entry of `k`.
  abbrev pub AllSpare : String → List (Others W × Others W) → Type 0
  AllSpare k = All (λ (p : Others W × Others W). Spares k p.0 × Spares k p.1)

  expire_all-Spares :
      (k : String) (ids : List String) (others : List (Others W × Others W))
      → All (λ id. id ≢ k) ids
      → AllSpare k others
      → Spares k (expire_all ids others)
  unfolding expire_all
  expire_all-Spares k [] others a h s = refl
  expire_all-Spares k (id ∷ ids) [] a h s =
      expire_all-Spares k ids [] a.1 tt (expire nothing id s)
      ∙ expire-Spares k id nothing a.0 (λ t. refl) s
  expire_all-Spares k (id ∷ ids) ((before, between) ∷ others) a h s =
      expire_all-Spares k ids others a.1 h.1 (expire between id (before s))
      ∙ expire-Spares k id between a.0 h.0.1 (before s)
      ∙ h.0.0 s

  -- In a map without a double key, a tick leaves alone every sandbox that is not running, or whose time
  -- has not come, when the tick collects the IDs: its entry after the tick is the one from before,
  -- whatever the nodes answer, and whatever other goroutines do meanwhile to the nodes and to the other
  -- sandboxes, as long as they leave its entry.
  pub tick_spares :
      (o : Order) (now : Time) (others : List (Others W × Others W)) (s : Scheduler W) (k : String)
      (sb : Sandbox)
      → Distinct s.sandboxes
      → get s.sandboxes k ≡ some sb
      → (is_running sb.status.state ≡ false) ⊎ (after now sb.status.expires_at ≡ false)
      → AllSpare k others
      → get (check_expirations o now others s).sandboxes k ≡ some sb
  unfolding check_expirations
  tick_spares o now others s k sb d h idle quiet =
      let live = not_expired now sb idle in
      expire_all-Spares k (expired now (range o s.sandboxes)) others
        (All-imp _ (λ id. id ≢ k) (λ id (x, f, e) same. ground arith) _
          (expired-All now s.sandboxes (range o s.sandboxes) (range-Found o s.sandboxes d)))
        quiet s
      ∙ h
