-- ===== src/Prelude/GoMap.antt =====
-- Go's built-in map, as an association list. A nil map and an empty one read alike.
pub mod Keys
pub mod Sum
pub mod Range
use mathlib.Core.Path.{◌≡◌, refl, subst}
use mathlib.Core.Logic.{◌≢◌, inl, inr}
use mathlib.Core.Option.{Option, none, some, some-injective}
use mathlib.Core.List.{List, [], ◌∷◌}
use native.Mathlib.Omega.{arith}
use open_e2b.Prelude.Tests.{Eq, ◌==◌, ==_refl, Bool-cases, if◌then◌else◌}

abbrev pub GoMap {ℓ κ} : Type ℓ → Type κ → Type (ℓ ⊔ κ)
GoMap K V = List (K × V)

module _ {ℓ κ} {K : Type ℓ} {V : Type κ} ⦃e : Eq K⦄ where
  -- v, ok := m[k]
  unfoldable pub get : GoMap K V → K → Option V
  get [] k = none
  get ((j, v) ∷ m) k = if j == k then some v else get m k

  -- m[k] = v
  unfoldable pub put : GoMap K V → K → V → GoMap K V
  put [] k v = (k, v) ∷ []
  put ((j, w) ∷ m) k v = if j == k then (k, v) ∷ m else (j, w) ∷ put m k v

  -- delete(m, k)
  unfoldable pub remove : GoMap K V → K → GoMap K V
  remove [] k = []
  remove ((j, w) ∷ m) k = let rest = remove m k in if j == k then rest else (j, w) ∷ rest

  pub get-put :
      (m : GoMap K V) (k j : K) (v : V) → get (put m k v) j ≡ (if k == j then some v else get m j)
  unfolding get put
  get-put [] k j v = refl
  get-put ((i, w) ∷ m) k j v =
      ground (arith, e.beq_iff k j, e.beq_iff i k, e.beq_iff i j, get-put m k j v)

  pub get-remove :
      (m : GoMap K V) (k j : K) → get (remove m k) j ≡ (if k == j then none else get m j)
  unfolding get remove
  get-remove [] k j = ground arith
  get-remove ((i, w) ∷ m) k j =
      ground (arith, e.beq_iff k j, e.beq_iff i k, e.beq_iff i j, get-remove m k j)

  pub get-put_self : (m : GoMap K V) (k : K) (v : V) → get (put m k v) k ≡ some v
  get-put_self m k v = rw (get-put m k k v, ==_refl k)

  pub get-remove_self : (m : GoMap K V) (k : K) → get (remove m k) k ≡ none
  get-remove_self m k = rw (get-remove m k k, ==_refl k)

  -- What holds of an entry of a map after a write.
  pub get-put_cases {μ} :
      (Q : V → Type μ) (m : GoMap K V) (k j : K) (v x : V)
      → get (put m k v) j ≡ some x
      → (k ≡ j → Q v)
      → (k ≢ j → get m j ≡ some x → Q x)
      → Q x
  get-put_cases Q m k j v x h new old = elim (Bool-cases (k == j)) [
    | inl b ↦
        subst Q (some-injective v x (rw (get-put m k j v, b) at h)) (new ((e.beq_iff k j).0 b))
    | inr b ↦ old (λ same. ground (arith, e.beq_iff k j)) (rw (get-put m k j v, b) at h)
  ]

  pub get-remove_kept :
      (m : GoMap K V) (k j : K) (x : V) → get (remove m k) j ≡ some x → (get m j ≡ some x) × (k ≢ j)
  get-remove_kept m k j x h =
      (ground (arith, get-remove m k j), ground (arith, get-remove m k j, e.beq_iff k j))
