-- ===== src/Dlc/Fees.antt =====
-- dlc/src/lib.rs, `PartyParams::get_change_output_and_fees`, and dlc/src/dlc_input.rs: what a party
-- pays for its share of the transactions, and what is left of its inputs.
pub mod Balance
use dlcdevkit.Base.{ℕ, ◌+◌, ◌*◌, ◌/◌, List, [], ◌∷◌, leb, ◌==◌, if◌then◌else◌, length}
use dlcdevkit.Base.Outcome.{ok, ok_or, guard, ◌>>=◌, ◌>>◌}
use dlcdevkit.Base.Word.{add_usize, checked_add, checked_mul, sub_amount}
use dlcdevkit.Dlc.Types.{
  Result, invalid_argument, TxOut, TxInputInfo, DlcInputInfo, PartyParams, Bitcoin,
}
use dlcdevkit.Dlc.Util.{
  weight_to_fee, redeem_script_to_script_sig, fund_tx_base_weight, cet_base_weight,
}

abbrev pub tx_input_base_weight : ℕ
tx_input_base_weight = 164

-- The macro `checked_add!`, at two, three and four summands.
abbrev pub checked_add2 : ℕ → ℕ → Result ℕ
checked_add2 a b = ok_or (checked_add a b) invalid_argument

abbrev pub checked_add3 : ℕ → ℕ → ℕ → Result ℕ
checked_add3 a b c = do ab ← checked_add2 a b; checked_add2 ab c

abbrev pub checked_add4 : ℕ → ℕ → ℕ → ℕ → Result ℕ
checked_add4 a b c d = do abc ← checked_add3 a b c; checked_add2 abc d

-- P2WSH 2-of-2 multisig weight, summed.
unfoldable pub get_dlc_inputs_weight : List DlcInputInfo → ℕ
get_dlc_inputs_weight [] = 0
get_dlc_inputs_weight (d ∷ ds) =
    add_usize (add_usize (36 * 4 + 4 + 4 * 4) d.max_witness_len) (get_dlc_inputs_weight ds)

-- One round of the loop over `self.inputs`: the weight so far, with that of an input.
unfoldable pub add_input_weight : Bitcoin → ℕ → TxInputInfo → Result ℕ
add_input_weight b inputs_weight w = do
  script_sig ← redeem_script_to_script_sig b w.redeem_script
  script_weight ← ok_or (checked_mul (length script_sig) 4) invalid_argument
  checked_add4 inputs_weight tx_input_base_weight script_weight w.max_witness_len

unfoldable pub add_inputs_weight : Bitcoin → ℕ → List TxInputInfo → Result ℕ
add_inputs_weight b inputs_weight [] = ok inputs_weight
add_inputs_weight b inputs_weight (w ∷ ws) = do
  inputs_weight' ← add_input_weight b inputs_weight w
  add_inputs_weight b inputs_weight' ws

-- The base weight of the party: all of it if it funds the whole contract, otherwise half.
abbrev pub base_share : ℕ → PartyParams → ℕ → ℕ
base_share weight p total_collateral =
    if p.collateral == total_collateral then weight else weight / 2

unfoldable pub get_fund_fee : Bitcoin → PartyParams → ℕ → ℕ → Result ℕ
get_fund_fee b p total_collateral fee_rate = do
  inputs_weight ← add_inputs_weight b (get_dlc_inputs_weight p.dlc_inputs) p.inputs
  change_weight ← ok_or (checked_mul (length p.change_script_pubkey) 4) invalid_argument
  total_fund_weight ←
      checked_add4 (base_share fund_tx_base_weight p total_collateral) inputs_weight change_weight
        36
  weight_to_fee total_fund_weight fee_rate

unfoldable pub get_cet_or_refund_fee : PartyParams → ℕ → ℕ → Result ℕ
get_cet_or_refund_fee p total_collateral fee_rate = do
  output_spk_weight ← ok_or (checked_mul (length p.payout_script_pubkey) 4) invalid_argument
  total_cet_weight ← checked_add2 (base_share cet_base_weight p total_collateral) output_spk_weight
  weight_to_fee total_cet_weight fee_rate

-- The change output and the two fees of a party that puts collateral in.
unfoldable pub get_funded_change : Bitcoin → PartyParams → ℕ → ℕ → ℕ → Result (TxOut × ℕ × ℕ)
get_funded_change b p total_collateral fee_rate extra_fee = do
  fund_fee ← get_fund_fee b p total_collateral fee_rate
  cet_or_refund_fee ← get_cet_or_refund_fee p total_collateral fee_rate
  required_input_funds ← checked_add4 p.collateral fund_fee cet_or_refund_fee extra_fee
  guard (leb required_input_funds p.input_amount) invalid_argument
  value ← sub_amount p.input_amount required_input_funds
  ok (record { value = value; script_pubkey = p.change_script_pubkey }, fund_fee, cet_or_refund_fee)

-- A party with no collateral pays nothing and has no change.
unfoldable pub get_change_output_and_fees :
    Bitcoin → PartyParams → ℕ → ℕ → ℕ → Result (TxOut × ℕ × ℕ)
get_change_output_and_fees b p total_collateral fee_rate extra_fee =
    if p.collateral == 0
    then ok (record { value = 0; script_pubkey = p.change_script_pubkey }, 0, 0)
    else get_funded_change b p total_collateral fee_rate extra_fee
