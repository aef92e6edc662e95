-- ===== src/Dlc/Tests.antt =====
-- A contract between two parties that both put collateral in, run through the model.
use dlcdevkit.Base.{
  ℕ, ◌+◌, ◌*◌, ◌≤◌, ◌≡◌, ◌≢◌, ◌⊎◌, inl, refl, arith, List, [], ◌∷◌, ◌++◌, none, some, length, leb,
  Has, retain, all, list_eqb,
}
use dlcdevkit.Base.Outcome.{ok, err, panicked}
use dlcdevkit.Base.Word.{add_amounts, sub_amounts}
use dlcdevkit.Base.Float.{to_f64, find_ulp, round_quotient}
use dlcdevkit.Dlc.Util.{
  weight_to_fee, redeem_script_to_script_sig, insert_by_id, sort_by_id, zip_ids,
  order_by_serial_ids, discard_dust, get_sequence, get_output_for_script_pubkey, find_output,
}
use dlcdevkit.Dlc.Fund.Conservation.{
  output_sum, fund_conserves, fund_output_locked, create_fund_ok, create_fund_panics,
}
use dlcdevkit.Dlc.Types.{
  TxInputInfo, PartyParams, Payout, Bitcoin, DlcTransactions, OutPoint, invalid_argument, TxIn,
  TxOut, Transaction, Script,
}
use dlcdevkit.Dlc.Contract.{create_dlc_transactions}
use dlcdevkit.Dlc.Contract.Spending.{IsClosable, create_dlc-IsClosable}
use dlcdevkit.Dlc.Cets.{
  create_cets_and_refund_tx, create_cets, create_cet, create_refund_transaction, is_proper,
  refund_values,
}
use dlcdevkit.Dlc.Cets.Payouts.{Splits, RefundSplits, cets_pay, improper_refused}
use dlcdevkit.Dlc.Fees.Balance.{change_balance, weight_to_fee_bounds}
use dlcdevkit.Dlc.Fees.{
  get_dlc_inputs_weight, add_input_weight, add_inputs_weight, get_fund_fee, get_cet_or_refund_fee,
  get_funded_change, get_change_output_and_fees,
}
use dlcdevkit.Dlc.Fund.{
  get_unsigned_tx_inputs, make_funding_redeemscript, create_funding_transaction,
  get_fund_output_value, create_fund_transaction_with_fees,
}

-- Scripts that keep apart what goes into them stand for the hashes.
abbrev pub chain : Bitcoin
chain = record {
  to_p2wsh = λ s. 0 ∷ 32 ∷ s;
  compute_txid = λ tx. tx.lock_time + length tx.input + length tx.output;
  witness_program = λ s. some (0 ∷ s);
  serialize = λ k. k ∷ [];
  key_leb = leb;
  multisig = λ x y. 82 ∷ (x ++ (y ++ (82 ∷ 174 ∷ [])));
}

abbrev coin : ℕ → ℕ → TxInputInfo
coin txid serial_id = record {
  outpoint = record { txid = txid; vout = 0 };
  max_witness_len = 108;
  redeem_script = [];
  serial_id = serial_id;
}

abbrev party : ℕ → ℕ → ℕ → PartyParams
party key input_amount collateral = record {
  fund_pubkey = key;
  change_script_pubkey = 0 ∷ 20 ∷ key ∷ [];
  change_serial_id = key + 10;
  payout_script_pubkey = 0 ∷ 20 ∷ key ∷ key ∷ [];
  payout_serial_id = key + 20;
  inputs = coin (key + 30) (key + 40) ∷ [];
  dlc_inputs = [];
  input_amount = input_amount;
  collateral = collateral;
}

abbrev pub offerer : PartyParams
offerer = party 1 200000 100000

abbrev pub accepter : PartyParams
accepter = party 2 150000 50000

abbrev offer_change : TxOut
offer_change = record { value = 99294; script_pubkey = 0 ∷ 20 ∷ 1 ∷ [] }

abbrev accept_change : TxOut
accept_change = record { value = 99294; script_pubkey = 0 ∷ 20 ∷ 2 ∷ [] }

offer_paid : get_change_output_and_fees chain offerer 150000 4 10 ≡ ok (offer_change, 428, 268)
unfolding get_change_output_and_fees get_funded_change get_fund_fee get_cet_or_refund_fee
    get_dlc_inputs_weight add_inputs_weight add_input_weight redeem_script_to_script_sig
    weight_to_fee to_f64 find_ulp round_quotient
offer_paid = refl

accept_paid : get_change_output_and_fees chain accepter 150000 4 10 ≡ ok (accept_change, 428, 268)
unfolding get_change_output_and_fees get_funded_change get_fund_fee get_cet_or_refund_fee
    get_dlc_inputs_weight add_inputs_weight add_input_weight redeem_script_to_script_sig
    weight_to_fee to_f64 find_ulp round_quotient
accept_paid = refl

abbrev pub fund_script : Script
fund_script = 82 ∷ 1 ∷ 2 ∷ 82 ∷ 174 ∷ []

abbrev unsigned : ℕ → TxIn
unsigned txid = record {
  previous_output = record { txid = txid; vout = 0 };
  script_sig = [];
  sequence = 4294967295;
}

abbrev pub fund : Transaction
fund = record {
  version = 2;
  lock_time = 0;
  input = unsigned 31 ∷ unsigned 32 ∷ [];
  output =
      record { value = 150546; script_pubkey = 0 ∷ 32 ∷ fund_script }
      ∷ offer_change
      ∷ accept_change
      ∷ [];
}

funded : create_fund_transaction_with_fees chain offerer accepter 4 0 5 10 ≡ ok (fund, fund_script)
unfolding create_fund_transaction_with_fees get_fund_output_value create_funding_transaction
    get_unsigned_tx_inputs make_funding_redeemscript order_by_serial_ids sort_by_id insert_by_id
    zip_ids discard_dust get_sequence add_amounts sub_amounts get_change_output_and_fees
    get_funded_change get_fund_fee get_cet_or_refund_fee get_dlc_inputs_weight add_inputs_weight
    add_input_weight redeem_script_to_script_sig weight_to_fee to_f64 find_ulp round_quotient retain
funded = refl

fund_conserves_example :
    (output_sum fund + 428 + 428 + 10 ≤ 350000) × (350000 ≤ output_sum fund + 3000 + 428 + 428 + 10)
fund_conserves_example =
    fund_conserves chain offerer accepter 4 0 5 10 offer_paid accept_paid funded

fund_output_locked_example :
    Has (record { value = 150546; script_pubkey = 0 ∷ 32 ∷ fund_script }) fund.output
fund_output_locked_example =
    fund_output_locked chain offerer accepter 4 0 5 10 offer_paid accept_paid funded (omega arith)

create_fund_ok_example :
    (r : Transaction × Script) × (create_fund_transaction_with_fees chain offerer accepter 4 0 5 10
      ≡ ok r)
create_fund_ok_example =
    create_fund_ok chain offerer accepter 4 0 5 10 (omega arith) (omega arith) (omega arith)
      offer_paid accept_paid

-- A party that puts nothing in, although its inputs are worth something.
abbrev pub guest : PartyParams
guest = party 2 150000 0

abbrev alone_change : TxOut
alone_change = record { value = 98938; script_pubkey = 0 ∷ 20 ∷ 1 ∷ [] }

alone_paid : get_change_output_and_fees chain offerer 100000 4 10 ≡ ok (alone_change, 536, 516)
unfolding get_change_output_and_fees get_funded_change get_fund_fee get_cet_or_refund_fee
    get_dlc_inputs_weight add_inputs_weight add_input_weight redeem_script_to_script_sig
    weight_to_fee to_f64 find_ulp round_quotient
alone_paid = refl

create_fund_panics_example :
    create_fund_transaction_with_fees chain offerer guest 4 0 5 10 ≡ panicked
create_fund_panics_example =
    create_fund_panics chain offerer guest 4 0 5 10 (omega arith) refl (omega arith) alone_paid
      (omega arith)

abbrev funding_fee : ℕ
funding_fee = 428

abbrev closing_fee : ℕ
closing_fee = 268

change_balance_example :
    ((offerer.collateral ≢ 0)
      × (offerer.input_amount ≡ 100000 + funding_fee + closing_fee + 10 + offer_change.value))
    ⊎ ((offerer.collateral ≡ 0) × (offer_change.value ≡ 0) × (funding_fee ≡ 0) × (closing_fee ≡ 0))
change_balance_example = change_balance chain offerer 150000 4 10 offer_paid

fee_of : weight_to_fee 1071 7 ≡ ok 1876
unfolding weight_to_fee to_f64 find_ulp round_quotient
fee_of = refl

weight_to_fee_bounds_example : (1071 * 7 ≤ 4 * 1876) × (4 * 1876 ≤ 1074 * 7)
weight_to_fee_bounds_example = weight_to_fee_bounds 1071 7 (omega arith) fee_of

-- The last outcome pays all to the accepting party, and so does the refund.
abbrev pub payouts : List Payout
payouts =
    record { offer = 150000; accept = 0 }
    ∷ record { offer = 149500; accept = 500 }
    ∷ record { offer = 0; accept = 150000 }
    ∷ []

abbrev closes : ℕ → TxOut → Transaction
closes lock output = record {
  version = 2;
  lock_time = lock;
  input =
      record {
        previous_output = record { txid = 5; vout = 0 };
        script_sig = [];
        sequence = 4294967294;
      }
      ∷ [];
  output = output ∷ [];
}

abbrev pub to_offerer : ℕ → TxOut
to_offerer v = record { value = v; script_pubkey = 0 ∷ 20 ∷ 1 ∷ 1 ∷ [] }

abbrev pub to_accepter : ℕ → TxOut
to_accepter v = record { value = v; script_pubkey = 0 ∷ 20 ∷ 2 ∷ 2 ∷ [] }

abbrev cets : List Transaction
cets =
    closes 400 (to_offerer 150000)
    ∷ closes 400 (to_offerer 149500)
    ∷ closes 400 (to_accepter 150000)
    ∷ []

abbrev fund_outpoint : OutPoint
fund_outpoint = record { txid = 5; vout = 0 }

abbrev contract : DlcTransactions
contract = record {
  fund = record {
    version = 2;
    lock_time = 0;
    input = unsigned 31 ∷ unsigned 32 ∷ [];
    output =
        record { value = 150536; script_pubkey = 0 ∷ 32 ∷ fund_script }
        ∷ record { value = 99304; script_pubkey = 0 ∷ 20 ∷ 1 ∷ [] }
        ∷ record { value = 99304; script_pubkey = 0 ∷ 20 ∷ 2 ∷ [] }
        ∷ [];
  };
  cets = cets;
  refund = closes 500 (to_accepter 150000);
  funding_witness_script = fund_script;
  pending_close_txs = [];
}

contract_made : create_dlc_transactions chain offerer accepter payouts 500 4 0 400 5 1 ≡ ok contract
unfolding create_dlc_transactions create_cets_and_refund_tx create_cets create_cet
    create_refund_transaction is_proper refund_values get_output_for_script_pubkey find_output
    list_eqb all create_fund_transaction_with_fees get_fund_output_value create_funding_transaction
    get_unsigned_tx_inputs make_funding_redeemscript order_by_serial_ids sort_by_id insert_by_id
    zip_ids discard_dust get_sequence add_amounts sub_amounts get_change_output_and_fees
    get_funded_change get_fund_fee get_cet_or_refund_fee get_dlc_inputs_weight add_inputs_weight
    add_input_weight redeem_script_to_script_sig weight_to_fee to_f64 find_ulp round_quotient retain
contract_made = refl

create_dlc-IsClosable_example : IsClosable chain offerer accepter payouts 1 contract
create_dlc-IsClosable_example =
    create_dlc-IsClosable chain offerer accepter payouts 500 4 0 400 5 1 contract_made

closing_made :
    create_cets_and_refund_tx offerer accepter fund_outpoint payouts 500 400 none 1
    ≡ ok (cets, closes 500 (to_accepter 150000))
unfolding create_cets_and_refund_tx create_cets create_cet create_refund_transaction is_proper
    refund_values all discard_dust get_sequence retain
closing_made = refl

cets_pay_example :
    Splits fund_outpoint 150000 offerer.payout_script_pubkey accepter.payout_script_pubkey payouts
      cets
    × RefundSplits offerer accepter fund_outpoint 1 (closes 500 (to_accepter 150000))
cets_pay_example = cets_pay offerer accepter fund_outpoint payouts 500 400 none 1 closing_made

abbrev short_payout : Payout
short_payout = record { offer = 100; accept = 149899 }

improper_refused_example :
    create_cets_and_refund_tx offerer accepter fund_outpoint (short_payout ∷ payouts) 500 400 none 1
    ≡ err invalid_argument
improper_refused_example =
    improper_refused offerer accepter fund_outpoint (short_payout ∷ payouts) 500 400 none 1
      short_payout (omega arith) (inl refl) (omega arith)
