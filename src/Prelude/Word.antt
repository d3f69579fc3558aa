-- ===== src/Prelude/Word.antt =====
-- Go's int64 counters as 64-bit patterns: `minus_one` is the pattern of -1.
use Prim.Native.Nat.{ℕ, ◌+◌, ◌-◌, ◌%◌, ◌^◌}
use mathlib.Core.Path.{◌≡◌}
use native.Mathlib.Omega.{arith}

abbrev pub two_64 : ℕ
two_64 = 2 ^ 64

abbrev pub minus_one : ℕ
minus_one = 2 ^ 64 - 1

unfoldable pub add64 : ℕ → ℕ → ℕ
add64 a b = (a + b) % 2 ^ 64

pub add64-one : (n m : ℕ) → n ≡ m % 2 ^ 64 → add64 n 1 ≡ (m + 1) % 2 ^ 64
unfolding add64
add64-one n m h = omega arith

pub add64-minus_one : (n m : ℕ) → n ≡ (m + 1) % 2 ^ 64 → add64 n minus_one ≡ m % 2 ^ 64
unfolding add64
add64-minus_one n m h = omega arith
