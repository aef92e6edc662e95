-- ===== src/Base/Float/Exact.antt =====
-- Where double arithmetic on integers is exact.
use dlcdevkit.Base.Tests.{ltb, leb, ltb→lt, lt→ltb, leb→le, Bool-cases}
use dlcdevkit.Base.Arith.{mul-le, mul-lt, div-eq, cancel_lt}
use dlcdevkit.Base.Float.{round_quotient, to_f64, find_shift, div_floor}
use Prim.Native.Nat.{ℕ, zero, suc, ◌+◌, ◌*◌, ◌/◌, ◌%◌, ◌^◌, ◌≤◌, ◌<◌}
use mathlib.Core.Path.{◌≡◌, ap}
use mathlib.Core.Logic.{inl, inr}
use native.Mathlib.Nat.{div-add-mod}
use native.Mathlib.Omega.{arith}

pub to_f64_exact : (n : ℕ) → n < 2 ^ 53 → to_f64 n ≡ n
unfolding to_f64
to_f64_exact n h = rw (lt→ltb _ _ h)

pub two_pow-suc : (s : ℕ) → 2 ^ suc s ≡ 2 * 2 ^ s
two_pow-suc s = omega arith

-- Enough fuel brings the quotient up to 53 bits.
find_shift_reaches :
    (fuel n d : ℕ) → 2 ^ 52 * d ≤ n * 2 ^ fuel → 2 ^ 52 * d ≤ n * 2 ^ find_shift fuel n d
unfolding find_shift
find_shift_reaches zero n d h = omega arith
find_shift_reaches (suc f) n d h = elim (Bool-cases (leb (2 ^ 52 * d) n)) [
  | inl there ↦ rw there (omega (arith, leb→le _ _ there))
  | inr more ↦ rw more (
      omega (
        arith,
        find_shift_reaches f (2 * n) d (omega (arith, ap (λ (t : ℕ). n * t) (two_pow-suc f))),
        ap (λ (t : ℕ). n * t) (two_pow-suc (find_shift f (2 * n) d)),
      ))
]

scale_pos : (a b p : ℕ) → 0 < b → 2 ^ 52 * b ≤ a * p → 0 < p
scale_pos a b zero pos wide = absurd (omega arith)
scale_pos a b (suc p) pos wide = omega arith

-- Rounding a * p / b loses nothing of the whole part of a / b, for `a` of at most 53 bits and a scale
-- `p` that gives the quotient 53 bits. Here a is q * b + r, and a * p is m * b + t.
no_carry :
    (q r b p m t : ℕ)
    → q * b + r < 2 ^ 53
    → r < b
    → t < b
    → 2 ^ 52 * b ≤ (q * b + r) * p
    → (q * b + r) * p ≡ m * b + t
    → b ≤ 2 * t
    → m + 1 < (q + 1) * p
no_carry q r b p m t small hr ht wide e up = elim (Bool-cases (ltb (m + 1) ((q + 1) * p))) [
  | inl below ↦ ltb→lt _ _ below
  | inr not_below ↦ absurd (too_big (ground arith))
]
  where
    half : (q + 1) * p ≤ m + 1 → 2 * p ≤ b
    half h = omega (
      arith,
      mul-le ((q + 1) * p) (m + 1) b h,
      mul-lt r b p hr (scale_pos (q * b + r) b p (omega arith) wide),
    )

    too_big : (q + 1) * p ≤ m + 1 → ⊥
    too_big h = omega (
      arith,
      mul-le (2 * p) b (q * b + r) (half h),
      mul-lt (q * b + r) (2 ^ 53) b small (omega arith),
    )

no_loss :
    (q r b p m t : ℕ)
    → r < b
    → t < b
    → 0 < p
    → (q * b + r) * p ≡ m * b + t
    → (q * p ≤ m) × (m < (q + 1) * p)
no_loss q r b p m t hr ht pos e = (
  cancel_lt (q * p) m b (omega arith),
  cancel_lt (suc m) ((q + 1) * p) b (omega (arith, mul-lt r b p hr pos)),
)

module _ (a b p : ℕ) (small : a < 2 ^ 53) (pos : 0 < b) (wide : 2 ^ 52 * b ≤ a * p) where
  round_quotient-div : round_quotient (a * p) b / p ≡ a / b
  unfolding round_quotient
  round_quotient-div = ground (arith, down, up)
    where
      split : a / b * b + a % b ≡ a
      split = omega (arith, div-add-mod a b)

      rest : (a / b * b + a % b) * p ≡ a * p / b * b + a * p % b
      rest = rw split (omega (arith, div-add-mod (a * p) b))

      bounds : (a / b * p ≤ a * p / b) × (a * p / b < (a / b + 1) * p)
      bounds =
          no_loss (a / b) (a % b) b p (a * p / b) (a * p % b) (omega arith) (omega arith)
            (scale_pos a b p pos wide) rest

      down : a * p / b / p ≡ a / b
      down = div-eq (a * p / b) p (a / b) bounds.0 bounds.1

      up : b ≤ 2 * (a * p % b) → (a * p / b + 1) / p ≡ a / b
      up h = div-eq (a * p / b + 1) p (a / b) (omega (arith, bounds.0)) (
          no_carry (a / b) (a % b) b p (a * p / b) (a * p % b) (rw split small) (omega arith)
            (omega arith) (rw split wide) rest h)

pub div_floor_exact : (a b : ℕ) → a < 2 ^ 53 → 0 < b → b < 2 ^ 64 → div_floor a b ≡ a / b
unfolding div_floor
div_floor_exact a b small pos wide =
    ground
      (arith, find_shift_reaches 118 a b, round_quotient-div a b (2 ^ find_shift 118 a b) small pos)
