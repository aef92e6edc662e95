-- ===== src/Kormir/Events/Clamping.antt =====
-- The range of a numeric event, and the outcome that is signed in place of one outside it.
use native.Mathlib.Nat.{pow-suc, pow-zero}
use dlcdevkit.Base.{
  ℕ, zero, suc, ◌+◌, ◌-◌, ◌%◌, ◌^◌, ◌≤◌, ◌<◌, ◌≡◌, refl, inl, inr, arith, Bool, true, false, min,
  ltb, lt→ltb, ◌==◌, ◌||◌, Bool-cases,
}
use dlcdevkit.Base.Int.{ℤ, pos, negsuc, lt_int, negate, magnitude}
use dlcdevkit.Base.Outcome.{ok}
use dlcdevkit.Base.Word.{u64_mod}
use dlcdevkit.Kormir.Messages.{DigitDecompositionEventDescriptor}
use dlcdevkit.Kormir.Events.{get_max_value, get_min_value, clamp}

-- A descriptor that an oracle of this crate announces.
pub record IsBinary (d : DigitDecompositionEventDescriptor) : Type 0 where
  pub base_two : d.base ≡ 2
  pub some_digits : 0 < d.nb_digits
  pub few_digits : d.nb_digits ≤ 63

-- The largest number of n binary digits.
abbrev pub limit : ℕ → ℕ
limit n = 2 ^ n - 1

-- The outcome itself in the range, and the nearest end of the range outside it: the range is from
-- minus the limit to the limit if it is signed, from zero if it is not.
abbrev pub nearest : Bool → ℕ → ℤ → ℤ
nearest is_signed top (pos n) = pos (min n top)
nearest true top (negsuc n) = negate (pos (min (suc n) top))
nearest false top (negsuc n) = pos 0

pow_pos : (n : ℕ) → 0 < 2 ^ n
pow_pos zero = omega (arith, pow-zero 2)
pow_pos (suc n) = omega (arith, pow-suc 2 n, pow_pos n)

pub pow_mono : (m n : ℕ) → 2 ^ m ≤ 2 ^ (m + n)
pow_mono m zero = let e : m + zero ≡ m = omega arith in rw e (omega arith)
pow_mono m (suc n) =
    let e : m + suc n ≡ suc (m + n) = omega arith in
    rw e (omega (arith, pow-suc 2 (m + n), pow_mono m n))

pub pow_bound : (n k : ℕ) → n ≤ k → 2 ^ n ≤ 2 ^ k
pow_bound n k h = let e : n + (k - n) ≡ k = omega arith in rw e at (pow_mono n (k - n))

-- With 63 digits both the power and the difference wrap around, to the largest 64-bit integer.
pub get_max_value-limit :
    (d : DigitDecompositionEventDescriptor)
    → IsBinary d
    → get_max_value d ≡ ok (pos (limit d.nb_digits))
unfolding get_max_value
get_max_value-limit d b =
    let top : 2 ^ d.nb_digits ≤ 2 ^ 63 = pow_bound d.nb_digits 63 b.few_digits in
    let low : 0 < 2 ^ d.nb_digits = pow_pos d.nb_digits in
    let bits : (2 ^ d.nb_digits % u64_mod + (u64_mod - 1)) % u64_mod ≡ limit d.nb_digits =
      omega (arith, top, low) in
    let in_range : (d.nb_digits == 0 || ltb 63 d.nb_digits) ≡ false =
      ground (arith, b.some_digits, b.few_digits) in
    let positive : ltb (limit d.nb_digits) (2 ^ 63) ≡ true = lt→ltb _ _ (omega (arith, top, low)) in
    rw (in_range, b.base_two, bits, positive) refl

-- The least value: none below zero without a sign.
abbrev pub lowest : Bool → ℕ → ℤ
lowest true top = negate (pos top)
lowest false top = pos 0

pub get_min_value-limit :
    (d : DigitDecompositionEventDescriptor)
    → IsBinary d
    → get_min_value d ≡ ok (lowest d.is_signed (limit d.nb_digits))
unfolding get_min_value
get_min_value-limit d b = elim (Bool-cases d.is_signed) [
  | inl signed ↦ rw (get_max_value-limit d b, signed) refl
  | inr unsigned ↦ rw unsigned refl
]

clamp_signed :
    (top : ℕ) (outcome : ℤ) → clamp (negate (pos top)) (pos top) outcome ≡ nearest true top outcome
unfolding clamp
clamp_signed zero (pos n) = ground arith
clamp_signed (suc top) (pos n) = ground arith
clamp_signed zero (negsuc n) = ground arith
clamp_signed (suc top) (negsuc n) = ground arith

clamp_unsigned :
    (top : ℕ) (outcome : ℤ) → clamp (pos 0) (pos top) outcome ≡ nearest false top outcome
unfolding clamp
clamp_unsigned top (pos n) = ground arith
clamp_unsigned top (negsuc n) = ground arith

-- The code's comparisons find the nearest value of the range.
pub clamp-nearest :
    (is_signed : Bool) (top : ℕ) (outcome : ℤ)
    → clamp (lowest is_signed top) (pos top) outcome ≡ nearest is_signed top outcome
clamp-nearest true top outcome = clamp_signed top outcome
clamp-nearest false top outcome = clamp_unsigned top outcome

magnitude-negate : (n : ℕ) → magnitude (negate (pos n)) ≡ n
magnitude-negate zero = refl
magnitude-negate (suc n) = refl

pub magnitude-nearest :
    (is_signed : Bool) (top : ℕ) (outcome : ℤ) → magnitude (nearest is_signed top outcome) ≤ top
magnitude-nearest is_signed top (pos n) = omega arith
magnitude-nearest true top (negsuc n) = omega (arith, magnitude-negate (min (suc n) top))
magnitude-nearest false top (negsuc n) = omega arith

-- A value is made up by its sign and its magnitude.
abbrev pub with_sign : Bool → ℕ → ℤ
with_sign true n = negate (pos n)
with_sign false n = pos n

pub with_sign-magnitude : (n : ℤ) → with_sign (lt_int n (pos 0)) (magnitude n) ≡ n
with_sign-magnitude (pos n) = ground arith
with_sign-magnitude (negsuc n) = refl

pub nearest-unsigned :
    (top : ℕ) (outcome : ℤ)
    → pos (magnitude (nearest false top outcome)) ≡ nearest false top outcome
nearest-unsigned top (pos n) = refl
nearest-unsigned top (negsuc n) = refl
