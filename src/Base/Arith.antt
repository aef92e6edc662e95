-- ===== src/Base/Arith.antt =====
-- Products and quotients of native numbers, where linear arithmetic does not reach.
use Prim.Native.Nat.{ℕ, zero, suc, ◌+◌, ◌*◌, ◌/◌, ◌^◌, ◌≤◌, ◌<◌}
use mathlib.Core.Path.{◌≡◌, ap}
use native.Mathlib.Nat.{pow-suc, pow-zero}
use native.Mathlib.Omega.{arith}

-- A quotient from both sides.
pub div-eq : (n d q : ℕ) → q * d ≤ n → n < (q + 1) * d → n / d ≡ q
div-eq n d q lo hi = grind arith

pub le-div : (k n b : ℕ) → 0 < b → k * b ≤ n → k ≤ n / b
le-div k n b pos h = grind arith

pub div-lt : (k n b : ℕ) → 0 < b → n < k * b → n / b < k
div-lt k n b pos h = grind arith

pub mul-lt : (r b p : ℕ) → r < b → 0 < p → r * p + p ≤ b * p
mul-lt r b p h pos = grind arith

pub mul-le : (a b c : ℕ) → a ≤ b → a * c ≤ b * c
mul-le a b c h = grind arith

pub cancel_lt : (x y b : ℕ) → x * b < (y + 1) * b → x ≤ y
cancel_lt x y b h = grind arith

pub pow-add : (b m n : ℕ) → b ^ (m + n) ≡ b ^ m * b ^ n
pow-add b zero n =
    let e : zero + n ≡ n = omega arith in
    rw e (omega (arith, ap (λ (t : ℕ). t * b ^ n) (pow-zero b)))
pow-add b (suc m) n =
    let e : suc m + n ≡ suc (m + n) = omega arith in
    rw e (
      omega (
        arith,
        pow-suc b (m + n),
        ap (λ (t : ℕ). t * b) (pow-add b m n),
        ap (λ (t : ℕ). t * b ^ n) (pow-suc b m),
      ))
