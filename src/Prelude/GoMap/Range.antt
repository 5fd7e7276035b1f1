-- ===== src/Prelude/GoMap/Range.antt =====
-- `for k, v := range m`: every entry once, in an order that an argument chooses.
use Prim.Native.Nat.{ℕ}
use mathlib.Core.Path.{◌≡◌, sym, subst}
use mathlib.Core.Bool.{true}
use mathlib.Core.Logic.{inl, inr}
use mathlib.Core.Logic.Or
use mathlib.Core.Option.{some}
use mathlib.Core.List.{List, [], ◌∷◌, Mem, mem-cons, mem-cons_self, mem-cast}
use mathlib.Core.List.Perm
use native.Mathlib.Omega.{arith}
use open_e2b.Prelude.Tests.{Eq, ==_refl, Bool-cases}
use open_e2b.Prelude.Lists.{All, All-imp, shuffle, shuffle-perm, shuffle-All, All-shuffle}
use open_e2b.Prelude.GoMap.{GoMap, get}
use open_e2b.Prelude.GoMap.Keys.{Distinct}

abbrev pub Order : Type 0
Order = List ℕ

unfoldable pub range {ℓ κ} : {K : Type ℓ} {V : Type κ} → Order → GoMap K V → List (K × V)
range o m = shuffle o m

module _ {ℓ κ} {K : Type ℓ} {V : Type κ} ⦃e : Eq K⦄ where
  -- Each visited entry is the one that a lookup of its key finds.
  abbrev pub Found : GoMap K V → K × V → Type κ
  Found m (k, v) = get m k ≡ some v

  entries-Found : (m : GoMap K V) → Distinct m → All (Found m) m
  unfolding get
  entries-Found [] d = tt
  entries-Found ((j, w) ∷ m) d =
      (rw (==_refl j), All-imp (Found m) (Found ((j, w) ∷ m)) older m (entries-Found m d.1))
    where
      older : (p : K × V) → Found m p → Found ((j, w) ∷ m) p
      older (k, v) h = ground (arith, e.beq_iff j k)

  pub range-Found : (o : Order) (m : GoMap K V) → Distinct m → All (Found m) (range o m)
  unfolding range
  range-Found o m d = shuffle-All (Found m) o m (entries-Found m d)

  found_first :
      (m : GoMap K V) (j k : K) (w v : V)
      → e.beq j k ≡ true
      → get ((j, w) ∷ m) k ≡ some v
      → ◌≡◌ {A = K × V} (j, w) (k, v)
  unfolding get
  found_first m j k w v b h = ground (arith, e.beq_iff j k)

  All-get {μ} :
      (P : K × V → Type μ) (m : GoMap K V) (k : K) (v : V) → All P m → get m k ≡ some v → P (k, v)
  unfolding get
  All-get P [] k v a h = cc
  All-get P ((j, w) ∷ m) k v a h = elim (Bool-cases (e.beq j k)) [
    | inl b ↦ subst P (found_first m j k w v b h) a.0
    | inr b ↦ All-get P m k v a.1 (rw b at h)
  ]

  -- What holds of each visited entry holds of each entry that a lookup finds.
  pub All-range {μ} :
      (P : K × V → Type μ) (o : Order) (m : GoMap K V) (k : K) (v : V)
      → All P (range o m)
      → get m k ≡ some v
      → P (k, v)
  unfolding range
  All-range P o m k v a h = All-get P m k v (All-shuffle P o m a) h

  mem_of_get : (m : GoMap K V) (k : K) (v : V) → get m k ≡ some v → Mem (k, v) m
  unfolding get
  mem_of_get [] k v h = cc
  mem_of_get ((j, w) ∷ m) k v h = elim (Bool-cases (e.beq j k)) [
    | inl b ↦ mem-cast (sym (found_first m j k w v b h)) mem-cons_self
    | inr b ↦ mem-cons.1 (Or.inr (mem_of_get m k v (rw b at h)))
  ]

  -- Each entry that a lookup finds is visited.
  pub mem-range :
      (o : Order) (m : GoMap K V) (k : K) (v : V) → get m k ≡ some v → Mem (k, v) (range o m)
  unfolding range
  mem-range o m k v h = Perm.subset (Perm.symm (shuffle-perm o m)) (k, v) (mem_of_get m k v h)
