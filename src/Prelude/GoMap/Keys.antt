-- ===== src/Prelude/GoMap/Keys.antt =====
-- No key stands twice in a map: an invariant of the representation that writes keep.
use mathlib.Core.Path.{◌≡◌, refl}
use mathlib.Core.Option.{none}
use mathlib.Core.List.{[], ◌∷◌}
use native.Mathlib.Omega.{arith}
use open_e2b.Prelude.Tests.{Eq}
use open_e2b.Prelude.GoMap.{GoMap, get, put, remove, get-put, get-remove}

module _ {ℓ κ} {K : Type ℓ} {V : Type κ} ⦃e : Eq K⦄ where
  abbrev pub Distinct : GoMap K V → Type κ
  Distinct [] = Unit
  Distinct ((k, v) ∷ m) = (get m k ≡ none) × Distinct m

  pub put-Distinct : (m : GoMap K V) (k : K) (v : V) → Distinct m → Distinct (put m k v)
  unfolding put get
  put-Distinct [] k v d = (refl, tt)
  put-Distinct ((j, w) ∷ m) k v d =
      ground (arith, e.beq_iff j k, e.beq_iff k j, get-put m k j v, put-Distinct m k v d.1)

  pub remove-Distinct : (m : GoMap K V) (k : K) → Distinct m → Distinct (remove m k)
  unfolding remove
  remove-Distinct [] k d = tt
  remove-Distinct ((j, w) ∷ m) k d = ground (arith, get-remove m k j, remove-Distinct m k d.1)
