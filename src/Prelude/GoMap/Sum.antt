-- ===== src/Prelude/GoMap/Sum.antt =====
-- The sum of a quantity over the values of a map.
use Prim.Native.Nat.{ℕ, ◌+◌}
use mathlib.Core.Path.{◌≡◌}
use mathlib.Core.Option.{none, some}
use mathlib.Core.List.{[], ◌∷◌}
use native.Mathlib.Omega.{arith}
use open_e2b.Prelude.Tests.{Eq}
use open_e2b.Prelude.GoMap.{GoMap, get, put, remove}
use open_e2b.Prelude.GoMap.Keys.{Distinct}

module _ {ℓ κ} {K : Type ℓ} {V : Type κ} (f : V → ℕ) where
  unfoldable pub sum_by : GoMap K V → ℕ
  sum_by [] = 0
  sum_by ((k, v) ∷ m) = f v + sum_by m

module _ {ℓ κ} {K : Type ℓ} {V : Type κ} ⦃e : Eq K⦄ (f : V → ℕ) where
  pub sum-put_new :
      (m : GoMap K V) (k : K) (v : V) → get m k ≡ none → sum_by f (put m k v) ≡ sum_by f m + f v
  unfolding sum_by put get
  sum-put_new [] k v h = omega arith
  sum-put_new ((j, w) ∷ m) k v h = ground (arith, sum-put_new m k v)

  pub sum-put_old :
      (m : GoMap K V) (k : K) (v w : V)
      → get m k ≡ some w
      → sum_by f (put m k v) + f w ≡ sum_by f m + f v
  unfolding sum_by put get
  sum-put_old [] k v w h = cc
  sum-put_old ((j, u) ∷ m) k v w h = ground (arith, sum-put_old m k v w)

  sum-remove_absent : (m : GoMap K V) (k : K) → get m k ≡ none → sum_by f (remove m k) ≡ sum_by f m
  unfolding sum_by remove get
  sum-remove_absent [] k h = omega arith
  sum-remove_absent ((j, u) ∷ m) k h = ground (arith, sum-remove_absent m k)

  pub sum-remove :
      (m : GoMap K V) (k : K) (w : V)
      → Distinct m
      → get m k ≡ some w
      → sum_by f (remove m k) + f w ≡ sum_by f m
  unfolding sum_by remove get
  sum-remove [] k w d h = cc
  sum-remove ((j, u) ∷ m) k w d h =
      ground (arith, e.beq_iff j k, sum-remove_absent m k, sum-remove m k w d.1)
