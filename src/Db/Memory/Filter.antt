-- ===== src/Db/Memory/Filter.antt =====
-- internal/db/memory.go: what it takes to pass the filter of `ListSandboxes`, said without the loops over
-- its states and its metadata.
use open_e2b.Prelude.{
  String, ◌≡◌, refl, ◌⊎◌, inl, inr, Bool, true, List, [], ◌∷◌, Option, none, some, arith, string_eq,
  ==_iff, All, All-imp, Bool-cases, or_default, ◌==◌,
}
use open_e2b.Prelude.GoMap.{GoMap, get}
use open_e2b.Prelude.GoMap.Keys.{Distinct}
use open_e2b.Prelude.GoMap.Range.{Order, range, Found, range-Found, All-range}
use open_e2b.Db.Types.{Sandbox, SandboxFilter}
use open_e2b.Db.Memory.{any, every}
use open_e2b.Db.Memory.Sandboxes.{state_passes, metadata_passes, id_passes, passes}

abbrev pub IsAmong : String → List String → Type 0
IsAmong x [] = ⊥
IsAmong x (y ∷ ys) = (x ≡ y) ⊎ IsAmong x ys

-- The state is one of those of the filter, if it has any; the metadata has each value of the filter, ""
-- for a missing one; the team and the node are those of the filter, if it has them.
pub record Matches (f : SandboxFilter) (sb : Sandbox) : Type 0 where
  pub by_state : (f.states ≡ []) ⊎ IsAmong sb.state f.states
  pub by_metadata :
      (k v : String) → get f.metadata k ≡ some v → or_default "" (get sb.metadata k) ≡ v
  pub by_team : (t : String) → f.team_id ≡ some t → sb.team_id ≡ t
  pub by_node : (n : String) → f.node_id ≡ some n → sb.node_id ≡ n

-- Without a filter every sandbox passes.
abbrev pub Passes : Option SandboxFilter → Sandbox → Type 0
Passes none sb = Unit
Passes (some f) sb = Matches f sb

abbrev pub IsProper : Option SandboxFilter → Type 0
IsProper none = Unit
IsProper (some f) = Distinct f.metadata

any-IsAmong : (x : String) (ys : List String) → any (λ y. x == y) ys ≡ true → IsAmong x ys
any-IsAmong x [] h = absurd (ground arith)
any-IsAmong x (y ∷ ys) h = elim (Bool-cases (x == y)) [
  | inl b ↦ inl ((==_iff x y).0 b)
  | inr b ↦ inr (any-IsAmong x ys (rw b at h))
]

IsAmong-any : (x : String) (ys : List String) → IsAmong x ys → any (λ y. x == y) ys ≡ true
IsAmong-any x [] h = absurd h
IsAmong-any x (y ∷ ys) (inl e) = rw ((==_iff x y).1 e) refl
IsAmong-any x (y ∷ ys) (inr h) = elim (Bool-cases (x == y)) [
  | inl b ↦ rw b refl
  | inr b ↦ rw b (IsAmong-any x ys h)
]

every-All {ℓ} :
    {A : Type ℓ} (p : A → Bool) (xs : List A) → every p xs ≡ true → All (λ x. p x ≡ true) xs
every-All p [] h = tt
every-All p (x ∷ xs) h = elim (Bool-cases (p x)) [
  | inl b ↦ (b, every-All p xs (rw b at h))
  | inr b ↦ absurd (ground arith)
]

All-every {ℓ} :
    {A : Type ℓ} (p : A → Bool) (xs : List A) → All (λ x. p x ≡ true) xs → every p xs ≡ true
All-every p [] h = refl
All-every p (x ∷ xs) (h, hs) = rw (h, All-every p xs hs) refl

state_iff :
    (ss : List String) (st : String)
    → (state_passes ss st ≡ true → (ss ≡ []) ⊎ IsAmong st ss)
      × ((ss ≡ []) ⊎ IsAmong st ss → state_passes ss st ≡ true)
state_iff [] st = (λ h. inl refl, λ h. refl)
state_iff (x ∷ xs) st = (λ h. inr (any-IsAmong st (x ∷ xs) h), back)
  where
    back : ((x ∷ xs) ≡ []) ⊎ IsAmong st (x ∷ xs) → state_passes (x ∷ xs) st ≡ true
    back (inl e) = absurd (ground arith)
    back (inr m) = IsAmong-any st (x ∷ xs) m

id_iff :
    (w : Option String) (id : String)
    → (id_passes w id ≡ true → (t : String) → w ≡ some t → id ≡ t)
      × (((t : String) → w ≡ some t → id ≡ t) → id_passes w id ≡ true)
id_iff none id = (λ h t e. absurd (ground arith), λ h. refl)
id_iff (some u) id = (λ h t e. ground (arith, ==_iff id u), λ h. (==_iff id u).1 (h u refl))

module _ (o : Order) (wanted m : GoMap String String) where
  abbrev Has : String × String → Type 0
  Has (k, v) = or_default "" (get m k) ≡ v

  metadata_sound :
      metadata_passes o wanted m ≡ true
      → (k v : String) → get wanted k ≡ some v
      → or_default "" (get m k) ≡ v
  metadata_sound h k v e =
      All-range Has o wanted k v
        (All-imp _ Has (λ (k, v) q. (==_iff (or_default "" (get m k)) v).0 q) (range o wanted)
          (every-All _ (range o wanted) h))
        e

  metadata_complete :
      Distinct wanted
      → ((k v : String) → get wanted k ≡ some v → or_default "" (get m k) ≡ v)
      → metadata_passes o wanted m ≡ true
  metadata_complete d h = All-every _ (range o wanted) (
      All-imp (Found wanted) _ (λ (k, v) q. (==_iff (or_default "" (get m k)) v).1 (h k v q))
        (range o wanted) (range-Found o wanted d))

module _ (o : Order) (sb : Sandbox) where
  -- The loops of the filter decide whether a sandbox matches, in whatever order they visit the metadata.
  pub passes-Passes : (f : Option SandboxFilter) → passes o f sb ≡ true → Passes f sb
  unfolding passes
  passes-Passes none h = tt
  passes-Passes (some f) h = record {
    by_state = (state_iff f.states sb.state).0 (ground arith);
    by_metadata = metadata_sound o f.metadata sb.metadata (ground arith);
    by_team = (id_iff f.team_id sb.team_id).0 (ground arith);
    by_node = (id_iff f.node_id sb.node_id).0 (ground arith);
  }

  pub Passes-passes : (f : Option SandboxFilter) → IsProper f → Passes f sb → passes o f sb ≡ true
  unfolding passes
  Passes-passes none d h = refl
  Passes-passes (some f) d h =
      rw
        (
          (state_iff f.states sb.state).1 h.by_state,
          metadata_complete o f.metadata sb.metadata d h.by_metadata,
          (id_iff f.team_id sb.team_id).1 h.by_team,
          (id_iff f.node_id sb.node_id).1 h.by_node,
        )
        refl
