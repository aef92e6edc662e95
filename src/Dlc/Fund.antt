-- ===== src/Dlc/Fund.antt =====
-- dlc/src/lib.rs: the funding transaction, which locks both collaterals in one output.
pub mod Value
pub mod Conservation
use dlcdevkit.Base.{ℕ, ◌+◌, List, [], ◌∷◌, ◌++◌, ◌==◌, if◌then◌else◌, map}
use dlcdevkit.Base.Outcome.{ok, assert, ◌>>=◌, ◌>>◌}
use dlcdevkit.Base.Word.{add_amount, add_amounts, sub_amounts}
use dlcdevkit.Dlc.Types.{
  Script, PublicKey, Result, TxIn, TxOut, Transaction, TxInputInfo, PartyParams, Bitcoin,
}
use dlcdevkit.Dlc.Util.{
  redeem_script_to_script_sig, order_by_serial_ids, discard_dust, get_sequence,
}
use dlcdevkit.Dlc.Fees.{checked_add2, get_change_output_and_fees}

abbrev pub dust_limit : ℕ
dust_limit = 1000

abbrev pub tx_version : ℕ
tx_version = 2

-- `get_unsigned_tx_inputs_and_serial_ids`: the inputs, and their ids in the same order.
unfoldable pub get_unsigned_tx_inputs : Bitcoin → ℕ → List TxInputInfo → Result (List TxIn)
get_unsigned_tx_inputs b sequence [] = ok []
get_unsigned_tx_inputs b sequence (w ∷ ws) = do
  script_sig ← redeem_script_to_script_sig b w.redeem_script
  rest ← get_unsigned_tx_inputs b sequence ws
  ok (record { previous_output = w.outpoint; script_sig = script_sig; sequence = sequence } ∷ rest)

abbrev pub serial_ids : List TxInputInfo → List ℕ
serial_ids ws = map (λ w. w.serial_id) ws

-- The keys are put in the script in their order, whichever party each belongs to.
unfoldable pub make_funding_redeemscript : Bitcoin → PublicKey → PublicKey → Script
make_funding_redeemscript b x y =
    if b.key_leb x y
    then b.multisig (b.serialize x) (b.serialize y)
    else b.multisig (b.serialize y) (b.serialize x)

unfoldable pub create_funding_transaction :
    Bitcoin
    → Script
    → ℕ
    → (offer_inputs : List TxIn) (offer_ids : List ℕ) (accept_inputs : List TxIn)
      (accept_ids : List ℕ) (offer_change : TxOut) (offer_change_id : ℕ) (accept_change : TxOut)
      (accept_change_id fund_output_serial_id lock_time : ℕ)
    → Transaction
create_funding_transaction b script amount offer_inputs offer_ids accept_inputs accept_ids
      offer_change offer_change_id accept_change accept_change_id fund_output_serial_id lock_time =
    let fund_tx_out : TxOut = record { value = amount; script_pubkey = b.to_p2wsh script } in
    record {
      version = tx_version;
      lock_time = lock_time;
      input = order_by_serial_ids (offer_inputs ++ accept_inputs) (offer_ids ++ accept_ids);
      output =
          discard_dust
            (order_by_serial_ids (fund_tx_out ∷ offer_change ∷ accept_change ∷ [])
              (fund_output_serial_id ∷ offer_change_id ∷ accept_change_id ∷ []))
            dust_limit;
    }

-- The value of the fund output, with the two assertions on it. An operator of `Amount` panics out of
-- range, and so does a false assertion.
unfoldable pub get_fund_output_value :
    (offer accept : PartyParams)
    → (total_collateral offer_change accept_change offer_fund_fee accept_fund_fee : ℕ)
      (offer_cet_fee accept_cet_fee extra_fee : ℕ)
    → Result ℕ
get_fund_output_value offer accept total_collateral offer_change accept_change offer_fund_fee
      accept_fund_fee offer_cet_fee accept_cet_fee extra_fee =
    do
      inputs ← checked_add2 offer.input_amount accept.input_amount
      value ←
          sub_amounts inputs
            (offer_change ∷ accept_change ∷ offer_fund_fee ∷ accept_fund_fee ∷ extra_fee ∷ [])
      locked ← add_amounts total_collateral (offer_cet_fee ∷ accept_cet_fee ∷ extra_fee ∷ [])
      assert (locked == value)
      spent ← add_amount offer.input_amount accept.input_amount
      spread ←
          add_amounts value
            (offer_change ∷ accept_change ∷ offer_fund_fee ∷ accept_fund_fee ∷ extra_fee ∷ [])
      assert (spent == spread)
      ok value

unfoldable pub create_fund_transaction_with_fees :
    Bitcoin
    → (offer accept : PartyParams) (fee_rate fund_lock_time fund_output_serial_id extra_fee : ℕ)
    → Result (Transaction × Script)
create_fund_transaction_with_fees b offer accept fee_rate fund_lock_time fund_output_serial_id
      extra_fee =
    do
      total_collateral ← checked_add2 offer.collateral accept.collateral
      (offer_change, offer_fund_fee, offer_cet_fee) ←
          get_change_output_and_fees b offer total_collateral fee_rate extra_fee
      (accept_change, accept_fund_fee, accept_cet_fee) ←
          get_change_output_and_fees b accept total_collateral fee_rate extra_fee
      value ←
          get_fund_output_value offer accept total_collateral offer_change.value accept_change.value
            offer_fund_fee accept_fund_fee offer_cet_fee accept_cet_fee extra_fee
      let sequence = get_sequence fund_lock_time
      offer_tx_ins ← get_unsigned_tx_inputs b sequence offer.inputs
      accept_tx_ins ← get_unsigned_tx_inputs b sequence accept.inputs
      let script = make_funding_redeemscript b offer.fund_pubkey accept.fund_pubkey
      ok (
        create_funding_transaction b script value offer_tx_ins (serial_ids offer.inputs)
            accept_tx_ins (serial_ids accept.inputs) offer_change offer.change_serial_id
            accept_change accept.change_serial_id fund_output_serial_id fund_lock_time,
        script,
      )
