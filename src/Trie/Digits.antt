-- ===== src/Trie/Digits.antt =====
-- dlc-trie/src/digit_decomposition.rs: numbers and their digits in a base, and the padding of ranges.
pub mod RoundTrip
use dlcdevkit.Base.{
  ℕ, zero, suc, ◌+◌, ◌-◌, ◌*◌, ◌%◌, ◌^◌, List, [], ◌∷◌, length, ltb, ◌==◌, if◌then◌else◌,
}
use dlcdevkit.Base.Outcome.{Outcome, ok, err, panicked, Partial, out_of_fuel, assert, ◌>>=◌, ◌>>◌}
use dlcdevkit.Base.Float.{to_f64, div_floor}
use dlcdevkit.Base.Word.{u64_mod}
use dlcdevkit.Dlc.Types.{Payout}

-- The first loop of `decompose_value`. A remainder by zero panics. `res` is held last element first,
-- so that a push is a cons and the final reversal is its reading as it stands.
unfoldable pub push_digits : ℕ → ℕ → ℕ → List ℕ → Partial (List ℕ)
push_digits zero value base res = err out_of_fuel
push_digits (suc fuel) value base res =
    let next = div_floor (to_f64 value) (to_f64 base) in
    let rest = push_digits fuel next base ((value % base) ∷ res) in
    if value == 0 then ok res else if base == 0 then panicked else rest

-- The second loop: zeros up to `nb_digits`.
unfoldable pub push_zeros : ℕ → List ℕ → List ℕ
push_zeros zero res = res
push_zeros (suc missing) res = push_zeros missing (0 ∷ res)

-- A 64-bit value has at most 64 digits in a base from 2 up, and one round more ends the loop.
abbrev pub digit_rounds : ℕ
digit_rounds = 66

unfoldable pub decompose_value : (value base nb_digits : ℕ) → Partial (List ℕ)
decompose_value value base nb_digits = do
  res ← push_digits digit_rounds value base []
  let padded = push_zeros (nb_digits - length res) res
  assert (nb_digits == length padded)
  ok padded

-- The loop of `compose_value` over the digits from `i` on, in wrapping 64-bit arithmetic.
unfoldable pub compose_from : ℕ → List ℕ → ℕ → ℕ
compose_from composed [] base = composed
compose_from composed (x ∷ xs) base =
    compose_from ((composed + x * (base ^ length xs % u64_mod) % u64_mod) % u64_mod) xs base

unfoldable pub compose_value : List ℕ → ℕ → ℕ
compose_value values base = compose_from 0 values base

pub record RangePayout : Type 0 where
  pub start : ℕ
  pub count : ℕ
  pub payout : Payout

-- The first range is stretched down to 0.
unfoldable pub pad_first : RangePayout → RangePayout
pad_first r =
    if r.start == 0
    then r
    else record { start = 0; count = (r.count + r.start) % u64_mod; payout = r.payout }

-- The last range is stretched to end at `max_value`.
unfoldable pub pad_last : ℕ → List RangePayout → List RangePayout
pad_last max_value [] = []
pad_last max_value (r ∷ []) =
    (if ((r.start + r.count) % u64_mod) == max_value then r else record {
      start = r.start;
      count = (max_value + u64_mod - r.start) % u64_mod;
      payout = r.payout;
    })
    ∷ []
pad_last max_value (r ∷ s ∷ rs) = r ∷ pad_last max_value (s ∷ rs)

-- An empty list panics at its first element. The arithmetic is that of a release build, which wraps at
-- 64 bits; the exponent is cut to 32 bits.
unfoldable pub pad_range_payouts :
    List RangePayout → (base nb_digits : ℕ) → Partial (List RangePayout)
pad_range_payouts [] base nb_digits = panicked
pad_range_payouts (r ∷ rs) base nb_digits =
    ok (pad_last (base ^ (nb_digits % 2 ^ 32) % u64_mod) (pad_first r ∷ rs))
