-- ===== src/Prelude/Bytes.antt =====
-- What the program uses of Go's package bytes and of byte slices. A byte is a number.
use Prim.Native.Nat.{ℕ, zero, suc, ◌+◌}
use mathlib.Core.Path.{◌≡◌, refl, ap, ap₂}
use mathlib.Core.Logic.{◌↔◌, inl, inr}
use mathlib.Core.Bool.{Bool, true, false, ◌&&◌, ◌||◌}
use mathlib.Core.List.{List, [], ◌∷◌, ◌++◌, nil≢cons, head-eq_of_cons-eq, tail-eq_of_cons-eq}
use native.Mathlib.Omega.{arith}
use open_e2b.Prelude.Tests.{nat_beq, nat_beq_iff, Bool-cases, if◌then◌else◌}
use open_e2b.Prelude.Lists.{length}

abbrev pub Bytes : Type 0
Bytes = List ℕ

unfoldable pub bytes_eq : Bytes → Bytes → Bool
bytes_eq [] [] = true
bytes_eq [] (b ∷ t) = false
bytes_eq (a ∷ s) [] = false
bytes_eq (a ∷ s) (b ∷ t) = let rest = bytes_eq s t in nat_beq a b && rest

unfoldable pub take : ℕ → Bytes → Bytes
take zero s = []
take (suc n) [] = []
take (suc n) (a ∷ s) = a ∷ take n s

unfoldable pub drop : ℕ → Bytes → Bytes
drop zero s = s
drop (suc n) [] = []
drop (suc n) (a ∷ s) = drop n s

-- bytes.HasPrefix(s, t) and bytes.Contains(s, t).
unfoldable pub has_prefix : Bytes → Bytes → Bool
has_prefix s [] = true
has_prefix [] (b ∷ t) = false
has_prefix (a ∷ s) (b ∷ t) = let rest = has_prefix s t in nat_beq a b && rest

unfoldable pub has : Bytes → Bytes → Bool
has [] t = has_prefix [] t
has (a ∷ s) t = let rest = has s t in has_prefix (a ∷ s) t || rest

-- bytes.Split(s, sep) for a separator of one byte, and bytes.Join of what it returns.
abbrev cons_first : ℕ → List Bytes → List Bytes
cons_first a [] = (a ∷ []) ∷ []
cons_first a (l ∷ ls) = (a ∷ l) ∷ ls

unfoldable pub split : ℕ → Bytes → List Bytes
split sep [] = [] ∷ []
split sep (a ∷ s) = let rest = split sep s in if nat_beq a sep then [] ∷ rest else cons_first a rest

unfoldable pub join : ℕ → List Bytes → Bytes
join sep [] = []
join sep (l ∷ []) = l
join sep (l ∷ k ∷ ls) = let rest = join sep (k ∷ ls) in l ++ sep ∷ rest

unfoldable pub keep {ℓ} : {A : Type ℓ} → (A → Bool) → List A → List A
keep p [] = []
keep p (a ∷ xs) = let rest = keep p xs in if p a then a ∷ rest else rest

pub bytes_eq_iff : (s t : Bytes) → (bytes_eq s t ≡ true) ↔ (s ≡ t)
unfolding bytes_eq
bytes_eq_iff [] [] = ground arith
bytes_eq_iff [] (b ∷ t) = ground arith
bytes_eq_iff (a ∷ s) [] = ground arith
bytes_eq_iff (a ∷ s) (b ∷ t) = ground (arith, bytes_eq_iff s t, nat_beq_iff a b)

pub take-drop : (n : ℕ) (s : Bytes) → take n s ++ drop n s ≡ s
unfolding take drop
take-drop zero s = refl
take-drop (suc n) [] = refl
take-drop (suc n) (a ∷ s) = ap (λ x. a ∷ x) (take-drop n s)

pub has_prefix_iff : (s t : Bytes) → (has_prefix s t ≡ true) ↔ ((post : Bytes) × (s ≡ t ++ post))
unfolding has_prefix
has_prefix_iff s [] = (λ e. (s, refl), λ x. refl)
has_prefix_iff [] (b ∷ t) = ground arith
has_prefix_iff (a ∷ s) (b ∷ t) = (
  λ e.
      let (x, y) : (nat_beq a b ≡ true) × (has_prefix s t ≡ true) = ground arith in
      let (post, q) = (has_prefix_iff s t).0 y in (post, ap₂ ◌∷◌ ((nat_beq_iff a b).0 x) q),
  λ (post, e).
      let x = (nat_beq_iff a b).1 (head-eq_of_cons-eq e) in
      let y = (has_prefix_iff s t).1 (post, tail-eq_of_cons-eq e) in ground arith,
)

pub has_iff :
    (s t : Bytes) → (has s t ≡ true) ↔ ((pre : Bytes) × (post : Bytes) × (s ≡ pre ++ (t ++ post)))
unfolding has
has_iff [] t = (
  λ e. let (post, q) = (has_prefix_iff [] t).0 e in ([], post, q),
  λ (pre, post, e).
      elim pre as (λ x. [] ≡ x ++ (t ++ post) → has_prefix [] t ≡ true) [
        | [] ↦ λ q. (has_prefix_iff [] t).1 (post, q)
        | ◌∷◌ a x ↦ λ q. absurd (nil≢cons q)
      ]
        e,
)
has_iff (a ∷ s) t = (
  λ e. elim (Bool-cases (has_prefix (a ∷ s) t)) [
    | inl p ↦ let (post, q) = (has_prefix_iff (a ∷ s) t).0 p in ([], post, q)
    | inr p ↦
        let r : has s t ≡ true = ground arith in
        let (pre, post, q) = (has_iff s t).0 r in (a ∷ pre, post, ap (λ x. a ∷ x) q)
  ],
  λ (pre, post, e).
      elim pre as (λ x. a ∷ s ≡ x ++ (t ++ post) → has_prefix (a ∷ s) t || has s t ≡ true) [
        | [] ↦ λ q. let p = (has_prefix_iff (a ∷ s) t).1 (post, q) in ground arith
        | ◌∷◌ b x ↦ λ q. let r = (has_iff s t).1 (x, post, tail-eq_of_cons-eq q) in ground arith
      ]
        e,
)

pub length-append : (s t : Bytes) → length (s ++ t) ≡ length s + length t
length-append [] t = ground arith
length-append (a ∷ s) t = ground (arith, length-append s t)

pub take-append : (s t : Bytes) → take (length s) (s ++ t) ≡ s
unfolding take
take-append [] t = refl
take-append (a ∷ s) t = ap (λ x. a ∷ x) (take-append s t)

pub drop-append : (s t : Bytes) → drop (length s) (s ++ t) ≡ t
unfolding drop
drop-append [] t = refl
drop-append (a ∷ s) t = drop-append s t
