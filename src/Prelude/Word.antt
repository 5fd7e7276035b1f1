-- ===== src/Prelude/Word.antt =====
-- Go's `int` and `int64` (two's complement, 64 bits) as bit patterns: numbers below 2 ^ 64.
-- Addition, subtraction and multiplication wrap; `<` compares the signed values.
use Prim.Native.Nat.{ℕ, ◌+◌, ◌-◌, ◌*◌, ◌%◌, ◌≤◌, ◌<◌}
use mathlib.Core.Path.{◌≡◌}
use mathlib.Core.Bool.{Bool, false}
use native.Mathlib.Omega.{arith}
use open_e2b.Prelude.Tests.{ltb, if◌then◌else◌}
use open_e2b.Prelude.Int.{ℤ, pos, negsuc}

-- 2 ^ 64 and 2 ^ 63.
abbrev pub word_mod : ℕ
word_mod = 18446744073709551616

abbrev pub sign_bit : ℕ
sign_bit = 9223372036854775808

unfoldable pub add64 : ℕ → ℕ → ℕ
add64 a b = (a + b) % word_mod

unfoldable pub sub64 : ℕ → ℕ → ℕ
sub64 a b = (a + (word_mod - b % word_mod)) % word_mod

unfoldable pub mul64 : ℕ → ℕ → ℕ
mul64 a b = (a * b) % word_mod

-- Adding the sign bit maps the signed order to the order of the patterns.
unfoldable pub slt64 : ℕ → ℕ → Bool
slt64 a b = ltb ((a + sign_bit) % word_mod) ((b + sign_bit) % word_mod)

-- The integer that a pattern stands for.
unfoldable pub to_ℤ : ℕ → ℤ
to_ℤ a = if ltb a sign_bit then pos a else negsuc (word_mod - 1 - a)

-- The pattern stands for a number that is not negative.
abbrev pub IsNonneg : ℕ → Type 0
IsNonneg a = a < sign_bit

pub sub64-eq-sub : (a b : ℕ) → IsNonneg a → b ≤ a → sub64 a b ≡ a - b
unfolding sub64
sub64-eq-sub a b h k = omega arith

pub slt64-eq-ltb : (a b : ℕ) → IsNonneg a → IsNonneg b → slt64 a b ≡ ltb a b
unfolding slt64
slt64-eq-ltb a b h k = ground arith

-- Releasing what was added restores the pattern.
pub sub64-add64 : (a b : ℕ) → sub64 (add64 a b) b ≡ a % word_mod
unfolding sub64 add64
sub64-add64 a b = omega arith

-- A test `capacity - used < wanted` that fails leaves room, if no amount is negative.
pub room :
    (capacity used total wanted : ℕ)
    → IsNonneg capacity
    → IsNonneg wanted
    → total ≤ capacity
    → used ≡ total % word_mod
    → slt64 (sub64 capacity used) wanted ≡ false
    → total + wanted ≤ capacity
unfolding slt64 sub64
room capacity used total wanted c w le e h =
    let exact : used ≡ total = omega arith in
    let free : sub64 capacity used ≡ capacity - used = sub64-eq-sub capacity used c (omega arith) in
    ground arith
