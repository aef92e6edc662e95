-- ===== src/Base/Int.antt =====
-- Rust's signed 64-bit integers.
use Prim.Native.Nat.{ℕ, zero, suc, ◌-◌, ◌^◌}
use dlcdevkit.Base.Tests.{ltb, if◌then◌else◌}
use mathlib.Core.Bool.{Bool, true, false}

-- `negsuc n` is -(n + 1).
pub data ℤ : Type 0 where
  pos : ℕ → ℤ
  negsuc : ℕ → ℤ

-- `a < b`
abbrev pub lt_int : ℤ → ℤ → Bool
lt_int (pos m) (pos n) = ltb m n
lt_int (pos m) (negsuc n) = false
lt_int (negsuc m) (pos n) = true
lt_int (negsuc m) (negsuc n) = ltb n m

-- `min(a, b)` and `max(a, b)`
abbrev pub min_int : ℤ → ℤ → ℤ
min_int a b = if lt_int b a then b else a

abbrev pub max_int : ℤ → ℤ → ℤ
max_int a b = if lt_int b a then a else b

abbrev pub negate : ℤ → ℤ
negate (pos zero) = pos zero
negate (pos (suc n)) = negsuc n
negate (negsuc n) = pos (suc n)

-- The bits of `a.abs()`: those of the least `i64` are its own.
abbrev pub magnitude : ℤ → ℕ
magnitude (pos n) = n
magnitude (negsuc n) = suc n

-- The `i64` with the given bits, for the result of an operation that wraps.
abbrev pub of_bits : ℕ → ℤ
of_bits n = if ltb n (2 ^ 63) then pos n else negsuc (2 ^ 64 - 1 - n)
