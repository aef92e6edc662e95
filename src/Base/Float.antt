-- ===== src/Base/Float.antt =====
-- The part of IEEE 754 double arithmetic that the code computes with: a conversion of an unsigned
-- integer (`as f64`), a division, `floor`, and the ceiling of a quarter. Doubles are held exactly.
pub mod Exact
use dlcdevkit.Base.Tests.{ltb, leb, ◌==◌, if◌then◌else◌}
use Prim.Native.Nat.{ℕ, zero, suc, ◌+◌, ◌*◌, ◌/◌, ◌%◌, ◌^◌}

-- n / d rounded to the nearest integer, ties to even.
unfoldable pub round_quotient : ℕ → ℕ → ℕ
round_quotient n d =
    if ltb (2 * (n % d)) d
    then n / d
    else if ltb d (2 * (n % d))
    then n / d + 1
    else if (n / d) % 2 == 0
    then n / d
    else n / d + 1

-- The first power of two, from `ulp` up, in units of which `n` has at most 53 bits.
unfoldable pub find_ulp : ℕ → ℕ → ℕ → ℕ
find_ulp zero ulp n = ulp
find_ulp (suc fuel) ulp n =
    let wider = find_ulp fuel (2 * ulp) n in if ltb (n / ulp) (2 ^ 53) then ulp else wider

-- `n as f64`, for a 64-bit `n`: the nearest double, which is an integer.
unfoldable pub to_f64 : ℕ → ℕ
to_f64 n = let ulp = find_ulp 11 1 n in if ltb n (2 ^ 53) then n else ulp * round_quotient n ulp

-- `f64::ceil(x / 4.0) as u64` at an integer `x`: dividing a double by four is exact.
abbrev pub ceil_quarter : ℕ → ℕ
ceil_quarter x = (x + 3) / 4

-- The exponent that brings n / d, at most 1, up to 53 bits: the least s with 2 ^ 52 * d ≤ n * 2 ^ s.
unfoldable pub find_shift : ℕ → ℕ → ℕ → ℕ
find_shift zero n d = 0
find_shift (suc fuel) n d =
    let further = find_shift fuel (2 * n) d in if leb (2 ^ 52 * d) n then 0 else suc further

-- `(a / b).floor()` at doubles a and b that are integers below 2 ^ 65, b above 0. Where the quotient
-- has more than 53 bits it is an integer, rounded to a multiple of its last place; otherwise it is a
-- 53-bit mantissa over a power of two.
unfoldable pub div_floor : ℕ → ℕ → ℕ
div_floor a b =
    let wide = find_ulp 12 1 (a / b) in
    let s = find_shift 118 a b in
    if a == 0
    then 0
    else if leb (2 ^ 53) (a / b)
    then wide * round_quotient a (wide * b)
    else round_quotient (a * 2 ^ s) b / 2 ^ s
