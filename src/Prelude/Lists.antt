-- ===== src/Prelude/Lists.antt =====
-- Lists measured by native numbers, predicates on lists, and sequences in any order.
use Prim.Native.Nat.{ℕ, zero, suc}
use mathlib.Core.List.{List, [], ◌∷◌, Perm}
use mathlib.Core.List.Perm

module _ {ℓ} {A : Type ℓ} where
  abbrev pub length : List A → ℕ
  length [] = 0
  length (x ∷ xs) = suc (length xs)

  abbrev pub All {κ} : (A → Type κ) → List A → Type κ
  All P [] = Unit
  All P (x ∷ xs) = P x × All P xs

  unfoldable insert_at : ℕ → A → List A → List A
  insert_at zero a xs = a ∷ xs
  insert_at (suc i) a [] = a ∷ []
  insert_at (suc i) a (x ∷ xs) = x ∷ insert_at i a xs

  -- The order in which `range` visits a Go map is not specified. An order is a list of places:
  -- the element at the head goes to the first place, counted in the shuffled rest.
  unfoldable pub shuffle : List ℕ → List A → List A
  unfolding insert_at
  shuffle o [] = []
  shuffle [] (x ∷ xs) = x ∷ xs
  shuffle (i ∷ o) (x ∷ xs) = insert_at i x (shuffle o xs)

  insert_at-perm : (i : ℕ) (a : A) (xs : List A) → Perm (insert_at i a xs) (a ∷ xs)
  unfolding insert_at
  insert_at-perm zero a xs = Perm.rfl
  insert_at-perm (suc i) a [] = Perm.rfl
  insert_at-perm (suc i) a (x ∷ xs) =
      Perm.trans (Perm.cons x (insert_at-perm i a xs)) (Perm.swap a x xs)

  -- Whatever the order, each element is visited once.
  pub shuffle-perm : (o : List ℕ) (xs : List A) → Perm (shuffle o xs) xs
  unfolding shuffle
  shuffle-perm [] [] = Perm.rfl
  shuffle-perm (i ∷ o) [] = Perm.rfl
  shuffle-perm [] (x ∷ xs) = Perm.rfl
  shuffle-perm (i ∷ o) (x ∷ xs) =
      Perm.trans (insert_at-perm i x (shuffle o xs)) (Perm.cons x (shuffle-perm o xs))

module _ {ℓ κ} {A : Type ℓ} (P : A → Type κ) where
  insert_at-All : (i : ℕ) (a : A) (xs : List A) → P a → All P xs → All P (insert_at i a xs)
  unfolding insert_at
  insert_at-All zero a xs h hs = (h, hs)
  insert_at-All (suc i) a [] h hs = (h, tt)
  insert_at-All (suc i) a (x ∷ xs) h hs = (hs.0, insert_at-All i a xs h hs.1)

  All-insert_at : (i : ℕ) (a : A) (xs : List A) → All P (insert_at i a xs) → P a × All P xs
  unfolding insert_at
  All-insert_at zero a xs h = h
  All-insert_at (suc i) a [] h = h
  All-insert_at (suc i) a (x ∷ xs) h =
      let (pa, rest) = All-insert_at i a xs h.1 in (pa, (h.0, rest))

  pub shuffle-All : (o : List ℕ) (xs : List A) → All P xs → All P (shuffle o xs)
  unfolding shuffle
  shuffle-All [] [] h = tt
  shuffle-All (i ∷ o) [] h = tt
  shuffle-All [] (x ∷ xs) h = h
  shuffle-All (i ∷ o) (x ∷ xs) h = insert_at-All i x (shuffle o xs) h.0 (shuffle-All o xs h.1)

  pub All-shuffle : (o : List ℕ) (xs : List A) → All P (shuffle o xs) → All P xs
  unfolding shuffle
  All-shuffle [] [] h = tt
  All-shuffle (i ∷ o) [] h = tt
  All-shuffle [] (x ∷ xs) h = h
  All-shuffle (i ∷ o) (x ∷ xs) h =
      let (px, rest) = All-insert_at i x (shuffle o xs) h in (px, All-shuffle o xs rest)

pub All-imp {ℓ κ μ} :
    {A : Type ℓ} (P : A → Type κ) (Q : A → Type μ)
    → ((a : A) → P a → Q a)
    → (xs : List A) → All P xs
    → All Q xs
All-imp P Q f [] h = tt
All-imp P Q f (x ∷ xs) h = (f x h.0, All-imp P Q f xs h.1)
