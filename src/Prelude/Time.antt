-- ===== src/Prelude/Time.antt =====
-- What the program uses of Go's package time: an instant is a count of nanoseconds, a Duration is
-- an int64 count of nanoseconds.
use Prim.Native.Nat.{ℕ}
use mathlib.Core.Bool.{Bool}
use open_e2b.Prelude.Int.{ℤ, ◌+ℤ◌, ltb_ℤ}
use open_e2b.Prelude.Word.{mul64, to_ℤ}

abbrev pub Time : Type 0
Time = ℤ

abbrev pub Duration : Type 0
Duration = ℕ

-- t.Add(d)
unfoldable pub add : Time → Duration → Time
add t d = t +ℤ to_ℤ d

-- t.After(u)
abbrev pub after : Time → Time → Bool
after t u = ltb_ℤ u t

-- time.Duration(n) * time.Second
unfoldable pub seconds : ℕ → Duration
seconds n = mul64 n 1000000000
