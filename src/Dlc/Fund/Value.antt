-- ===== src/Dlc/Fund/Value.antt =====
-- The value of the fund output: what its two assertions say, and when they hold.
use dlcdevkit.Base.{ℕ, ◌+◌, ◌<◌, ◌≡◌, ◌≢◌, inl, inr, arith, List, [], ◌∷◌}
use dlcdevkit.Base.Outcome.{ok, err, Outcome-cases}
use dlcdevkit.Base.Word.{
  u64_mod, add_amounts-eq, add_amounts_ok, sub_amounts-eq, sub_amounts_ok, sub_amounts,
  add_amounts-ne-err, sub_amounts-ne-err,
}
use dlcdevkit.Dlc.Types.{Error, PartyParams}
use dlcdevkit.Dlc.Fund.{get_fund_output_value}

module _ (o a : PartyParams) (coll oc ac off aff ocf acf extra : ℕ) where
  abbrev spent_on : List ℕ
  spent_on = oc ∷ ac ∷ off ∷ aff ∷ extra ∷ []

  abbrev locked : List ℕ
  locked = ocf ∷ acf ∷ extra ∷ []

  -- A value that comes out passed both assertions.
  pub fund_output_value-eq :
      {v : ℕ}
      → get_fund_output_value o a coll oc ac off aff ocf acf extra ≡ ok v
      → (v ≡ coll + ocf + acf + extra)
        × (o.input_amount + a.input_amount ≡ v + oc + ac + off + aff + extra)
  unfolding get_fund_output_value
  fund_output_value-eq {v} h = ground (
    arith,
    sub_amounts-eq {E = Error} (o.input_amount + a.input_amount) spent_on {r = v},
    add_amounts-eq {E = Error} coll locked {r = v},
  )

  pub fund_output_value_ok :
      o.input_amount + a.input_amount < u64_mod
      → o.input_amount + a.input_amount ≡ coll + ocf + acf + extra + oc + ac + off + aff + extra
      → get_fund_output_value o a coll oc ac off aff ocf acf extra ≡ ok (coll + ocf + acf + extra)
  unfolding get_fund_output_value
  fund_output_value_ok fits e = ground (
    arith,
    sub_amounts_ok {E = Error} (o.input_amount + a.input_amount) spent_on,
    add_amounts_ok {E = Error} coll locked,
    add_amounts_ok {E = Error} (coll + ocf + acf + extra) spent_on,
  )

  pub fund_output_value-ne-err :
      (e : Error)
      → o.input_amount + a.input_amount < u64_mod
      → get_fund_output_value o a coll oc ac off aff ocf acf extra ≢ err e
  unfolding get_fund_output_value
  fund_output_value-ne-err e fits h =
      elim (Outcome-cases (sub_amounts {E = Error} (o.input_amount + a.input_amount) spent_on)) [
        | inl (v, ev) ↦
            ground (arith, add_amounts-ne-err coll locked e, add_amounts-ne-err v spent_on e)
        | inr failed ↦
            ground (arith, sub_amounts-ne-err (o.input_amount + a.input_amount) spent_on e)
      ]
