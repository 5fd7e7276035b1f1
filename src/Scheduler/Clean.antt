-- ===== src/Scheduler/Clean.antt =====
-- An undisturbed tick of the expiration checker leaves nothing expired, if the nodes oblige.
use open_e2b.Prelude.{
  String, ◌≡◌, refl, sym, ◌∙◌, List, [], ◌∷◌, Option, none, some, inl, inr, ◌⊎◌, true, false, arith,
  string_eq, Bool, if◌then◌else◌, All, All-imp,
}
use mathlib.Core.Path.{subst}
use open_e2b.Prelude.GoMap.{get}
use open_e2b.Prelude.GoMap.Range.{Order, range, All-range}
use open_e2b.Prelude.Time.{Time}
use open_e2b.Scheduler.Types.{Sandbox, Scheduler}
use open_e2b.Scheduler.Expiry.{nothing, expire, expire_all, expired, is_expired, check_expirations}
use open_e2b.Scheduler.Outcomes.{Obliging}
use open_e2b.Scheduler.Sweep.{
  IsHoused, same, gone, quiet, Swept, expire-Swept, Swept-Obliging, Swept-IsHoused,
}

module _ (now : Time) where
  abbrev Listed : String → List String → Type 0
  Listed k [] = ⊥
  Listed k (id ∷ ids) = (id ≡ k) ⊎ Listed k ids

  abbrev Covered : List String → String × Sandbox → Type 0
  Covered ids (k, sb) = is_expired now sb ≡ true → Listed k ids

  expired-cons :
      (id : String) (sb : Sandbox) (ps : List (String × Sandbox))
      → expired now ((id, sb) ∷ ps)
        ≡ (if is_expired now sb then id ∷ expired now ps else expired now ps)
  unfolding expired
  expired-cons id sb ps = refl

  -- Each expired entry that is visited is collected.
  expired-Covered : (ps : List (String × Sandbox)) → All (Covered (expired now ps)) ps
  expired-Covered [] = tt
  expired-Covered ((id, sb) ∷ ps) =
      subst (λ ids. All (Covered ids) ((id, sb) ∷ ps)) (sym (expired-cons id sb ps))
        (either (expired-Covered ps) (is_expired now sb) refl)
    where
      either :
          All (Covered (expired now ps)) ps
          → (b : Bool) → is_expired now sb ≡ b
          → All (Covered (if b then id ∷ expired now ps else expired now ps)) ((id, sb) ∷ ps)
      either rest true e = (λ _. inl refl, All-imp _ _ (λ p c h. inr (c h)) ps rest)
      either rest false e = (λ h. absurd (ground arith), rest)

  -- The sandbox is not there, or not expired.
  abbrev pub IsFresh : {W : Type 0} → String → Scheduler W → Type 0
  IsFresh k s = (sb : Sandbox) → get s.sandboxes k ≡ some sb → is_expired now sb ≡ false

  module _ {W : Type 0} {s t : Scheduler W} {id : String} (w : Swept id s t) where
    Swept-IsFresh : (k : String) → IsFresh k s → IsFresh k t
    unfolding is_expired
    Swept-IsFresh k h sb e = elim (w.quieter k) [
      | same q ↦ h sb (sym q ∙ e)
      | gone q ↦ absurd (ground arith)
      | quiet x p q ↦ ground arith
    ]

    idle-IsFresh : IsFresh id t
    unfolding is_expired
    idle-IsFresh sb e = ground (arith, w.idle sb e)

  expire_all-IsFresh :
      {W : Type 0} (k : String) (ids : List String) (s : Scheduler W)
      → Obliging s
      → IsHoused s
      → IsFresh k s ⊎ Listed k ids
      → IsFresh k (expire_all ids [] s)
  unfolding expire_all
  expire_all-IsFresh k [] s o h (inl f) = f
  expire_all-IsFresh k [] s o h (inr l) = elim l [ ]
  expire_all-IsFresh k (id ∷ ids) s o h c =
      let w = expire-Swept s o h id in
      expire_all-IsFresh k ids (expire nothing id s) (Swept-Obliging w o) (Swept-IsHoused w h)
        (next c)
    where
      next : IsFresh k s ⊎ Listed k (id ∷ ids) → IsFresh k (expire nothing id s) ⊎ Listed k ids
      next (inl f) = inl (Swept-IsFresh (expire-Swept s o h id) k f)
      next (inr (inl e)) =
          inl
            (subst (λ j. IsFresh j (expire nothing id s)) e (idle-IsFresh (expire-Swept s o h id)))
      next (inr (inr l)) = inr l

-- After a tick that nothing disturbs, no sandbox is left that is running and past its time at the
-- instant of the tick, if each sandbox stands on a registered node and the nodes grant what they
-- are asked for.
pub tick_cleans :
    {W : Type 0} (o : Order) (now : Time) (s : Scheduler W) (k : String)
    → Obliging s
    → IsHoused s
    → IsFresh now k (check_expirations o now [] s)
unfolding check_expirations
tick_cleans o now s k ob h =
    expire_all-IsFresh now k (expired now (range o s.sandboxes)) s ob h
      (start (get s.sandboxes k) refl)
  where
    ids : List String
    ids = expired now (range o s.sandboxes)

    due :
        (sb : Sandbox) (b : Bool)
        → get s.sandboxes k ≡ some sb
        → is_expired now sb ≡ b
        → IsFresh now k s ⊎ Listed now k ids
    due sb true e x = inr (
        All-range (Covered now ids) o s.sandboxes k sb (expired-Covered now (range o s.sandboxes)) e
          x)
    due sb false e x = inl (λ y f. ground arith)

    start : (r : Option Sandbox) → get s.sandboxes k ≡ r → IsFresh now k s ⊎ Listed now k ids
    start none e = inl (λ y f. absurd (ground arith))
    start (some sb) e = due sb (is_expired now sb) e refl
