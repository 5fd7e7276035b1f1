-- ===== src/Orchestrator/Firecracker/Search.antt =====
-- internal/orchestrator/runtime_firecracker.go: `contains` and `containsHelper`, which look for a text
-- in the output of uname.
use open_e2b.Prelude.{
  ℕ, zero, suc, ◌+◌, ◌-◌, ◌≤◌, ◌<◌, Bool, true, false, ◌&&◌, ◌||◌, leb, ltb, length, [], ◌∷◌, ◌++◌,
  ◌≡◌, refl, sym, ap, ◌∙◌, inl, inr, arith, Bool-cases, if◌then◌else◌,
}
use mathlib.Core.List.{append-nil}
use open_e2b.Prelude.Bytes.{
  Bytes, bytes_eq, bytes_eq_iff, take, drop, take-drop, has, has_prefix, has_iff, length-append,
  take-append, drop-append,
}

-- The loop from `i` on, with the count of the rounds left.
unfoldable pub scan : ℕ → ℕ → Bytes → Bytes → Bool
scan zero i s t = false
scan (suc n) i s t =
    let rest = scan n (i + 1) s t in if bytes_eq (take (length t) (drop i s)) t then true else rest

-- The rounds are those with `i <= len(s) - len(substr)`.
unfoldable pub contains_helper : Bytes → Bytes → Bool
contains_helper s t = scan (length s + 1 - length t) 0 s t

unfoldable pub contains : Bytes → Bytes → Bool
contains s t =
    leb (length t) (length s) && (bytes_eq s t || ltb 0 (length s) && contains_helper s t)

scan-finds :
    (n i : ℕ) (s t : Bytes) → scan n i s t ≡ true → (j : ℕ) × (take (length t) (drop j s) ≡ t)
unfolding scan
scan-finds zero i s t e = absurd (ground arith)
scan-finds (suc n) i s t e = elim (Bool-cases (bytes_eq (take (length t) (drop i s)) t)) [
  | inl y ↦ (i, (bytes_eq_iff (take (length t) (drop i s)) t).0 y)
  | inr y ↦ scan-finds n (i + 1) s t (ground arith)
]

scan-reaches :
    (n i j : ℕ) (s t : Bytes)
    → i ≤ j
    → j < i + n
    → take (length t) (drop j s) ≡ t
    → scan n i s t ≡ true
unfolding scan
scan-reaches zero i j s t low high e = absurd (omega arith)
scan-reaches (suc n) i j s t low high e =
    elim (Bool-cases (bytes_eq (take (length t) (drop i s)) t)) [
      | inl y ↦ rw y refl
      | inr y ↦ elim (Bool-cases (ltb i j)) [
        | inl l ↦ rw y (scan-reaches n (i + 1) j s t (ground arith) (ground arith) e)
        | inr l ↦
            let same : j ≡ i = ground arith in
            let z =
              (bytes_eq_iff (take (length t) (drop i s)) t).1
                (ap (λ k. take (length t) (drop k s)) (sym same) ∙ e) in
            absurd (ground arith)
      ]
    ]

found_has : (j : ℕ) (s t : Bytes) → take (length t) (drop j s) ≡ t → has s t ≡ true
found_has j s t e = (has_iff s t).1 (
  take j s,
  drop (length t) (drop j s),
  sym (take-drop j s)
      ∙ ap (λ x. take j s ++ x)
          (sym (take-drop (length t) (drop j s)) ∙ ap (λ x. x ++ drop (length t) (drop j s)) e),
)

helper-has : (s t : Bytes) → contains_helper s t ≡ true → has s t ≡ true
unfolding contains_helper
helper-has s t e = let (j, f) = scan-finds (length s + 1 - length t) 0 s t e in found_has j s t f

has-helper : (s t : Bytes) → has s t ≡ true → contains_helper s t ≡ true
unfolding contains_helper
has-helper s t e =
    let (pre, post, q) = (has_iff s t).0 e in
    let found : take (length t) (drop (length pre) s) ≡ t =
      rw q (rw (drop-append pre (t ++ post)) (take-append t post)) in
    let fits : length s ≡ length pre + (length t + length post) =
      ap length q
      ∙ length-append pre (t ++ post)
      ∙ ap (λ n. length pre + n) (length-append t post) in
    scan-reaches (length s + 1 - length t) 0 (length pre) s t (ground arith) (ground (arith, fits))
      found

has-length : (s t : Bytes) → has s t ≡ true → length t ≤ length s
has-length s t e =
    let (pre, post, q) = (has_iff s t).0 e in
    let fits : length s ≡ length pre + (length t + length post) =
      ap length q
      ∙ length-append pre (t ++ post)
      ∙ ap (λ n. length pre + n) (length-append t post) in
    omega (arith, fits)

bytes_eq-has : (s t : Bytes) → bytes_eq s t ≡ true → has s t ≡ true
bytes_eq-has s t e = (has_iff s t).1 ([], [], (bytes_eq_iff s t).0 e ∙ sym (append-nil t))

-- The search by slices finds a text exactly where bytes.Contains does.
pub contains-has : (s t : Bytes) → contains s t ≡ has s t
unfolding contains has has_prefix bytes_eq
contains-has [] [] = refl
contains-has [] (b ∷ t) = ground arith
contains-has (a ∷ s) t = elim (Bool-cases (has (a ∷ s) t)) [
  | inl y ↦ ground (arith, has-helper (a ∷ s) t y, has-length (a ∷ s) t y)
  | inr n ↦ ground (arith, helper-has (a ∷ s) t, bytes_eq-has (a ∷ s) t)
]
