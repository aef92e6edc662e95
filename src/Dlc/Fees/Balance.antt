-- ===== src/Dlc/Fees/Balance.antt =====
-- What a party's inputs are spent on.
use dlcdevkit.Base.{
  ℕ, ◌+◌, ◌*◌, ◌/◌, ◌≤◌, ◌<◌, ◌^◌, ◌≡◌, ◌≢◌, ◌⊎◌, inl, inr, arith, ◌==◌, Bool-cases,
}
use dlcdevkit.Base.Arith.{mul-le}
use dlcdevkit.Base.Outcome.{ok}
use dlcdevkit.Base.Float.Exact.{to_f64_exact}
use dlcdevkit.Dlc.Types.{TxOut, PartyParams, Bitcoin}
use dlcdevkit.Dlc.Util.{weight_to_fee}
use dlcdevkit.Dlc.Fees.{get_funded_change, get_change_output_and_fees}

by_quarters :
    (q w r : ℕ) → w ≤ 4 * q → 4 * q ≤ w + 3 → (w * r ≤ 4 * (q * r)) × (4 * (q * r) ≤ (w + 3) * r)
by_quarters q w r lo hi = omega (arith, mul-le w (4 * q) r lo, mul-le (4 * q) (w + 3) r hi)

-- At a weight of at most 53 bits a fee that is returned pays for every whole or part virtual byte: a
-- weight unit costs at least a quarter of the rate, and the rounding adds less than one virtual byte.
pub weight_to_fee_bounds :
    (weight rate : ℕ) {fee : ℕ}
    → weight < 2 ^ 53
    → weight_to_fee weight rate ≡ ok fee
    → (weight * rate ≤ 4 * fee) × (4 * fee ≤ (weight + 3) * rate)
unfolding weight_to_fee
weight_to_fee_bounds weight rate small h =
    ground (arith, to_f64_exact weight, by_quarters ((weight + 3) / 4) weight rate)

pub funded_balance :
    (b : Bitcoin) (p : PartyParams) (total rate extra : ℕ) {change : TxOut} {fund_fee cet_fee : ℕ}
    → get_funded_change b p total rate extra ≡ ok (change, fund_fee, cet_fee)
    → p.input_amount ≡ p.collateral + fund_fee + cet_fee + extra + change.value
unfolding get_funded_change
funded_balance b p total rate extra h = ground arith

-- With collateral: what goes in is the collateral, the two fees, the extra fee and the change. Without:
-- no fee and no change.
pub change_balance :
    (b : Bitcoin) (p : PartyParams) (total rate extra : ℕ) {change : TxOut} {fund_fee cet_fee : ℕ}
    → get_change_output_and_fees b p total rate extra ≡ ok (change, fund_fee, cet_fee)
    → ((p.collateral ≢ 0)
        × (p.input_amount ≡ p.collateral + fund_fee + cet_fee + extra + change.value))
      ⊎ ((p.collateral ≡ 0) × (change.value ≡ 0) × (fund_fee ≡ 0) × (cet_fee ≡ 0))
unfolding get_change_output_and_fees
change_balance b p total rate extra {change} {fund_fee} {cet_fee} h =
    elim (Bool-cases (p.collateral == 0)) [
      | inl unfunded ↦ inr (ground arith)
      | inr funded ↦ inl (
        ground arith,
        ground (
          arith,
          funded_balance b p total rate extra {change = change} {fund_fee = fund_fee}
              {cet_fee = cet_fee},
        ),
      )
    ]
