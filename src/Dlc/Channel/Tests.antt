-- ===== src/Dlc/Channel/Tests.antt =====
-- Channels at concrete parties, amounts and times.
use dlcdevkit.Base.{ℕ, ◌+◌, ◌*◌, ◌≤◌, ◌<◌, ◌≡◌, refl, [], ◌∷◌, length, retain, all, list_eqb}
use dlcdevkit.Base.Outcome.{ok}
use dlcdevkit.Base.Word.{sub_amounts}
use dlcdevkit.Base.Float.{to_f64, find_ulp, round_quotient}
use dlcdevkit.Dlc.Types.{TxOut, TxIn, Transaction}
use dlcdevkit.Dlc.Util.{
  weight_to_fee, redeem_script_to_script_sig, discard_dust, get_sequence, find_output,
  get_output_for_script_pubkey,
}
use dlcdevkit.Dlc.Fees.{
  get_dlc_inputs_weight, add_input_weight, add_inputs_weight, get_fund_fee, get_cet_or_refund_fee,
  get_funded_change, get_change_output_and_fees,
}
use dlcdevkit.Dlc.Fund.Conservation.{output_sum}
use dlcdevkit.Dlc.Cets.{
  create_cets_and_refund_tx, create_cets, create_cet, create_refund_transaction, is_proper,
  refund_values,
}
use dlcdevkit.Dlc.Channel.{
  RevokeParams, Descriptors, DlcChannelTransactions, buffer_tx_weight, cet_extra_weight,
  settle_input_weight, settle_output_weight, create_buffer_transaction, add_to_each, share_fee,
  settle_outputs, create_settle_transaction, create_renewal_channel_transactions,
}
use dlcdevkit.Dlc.Channel.Closing.{settle_conserves, IsBuffered, create_renewal-IsBuffered}
use dlcdevkit.Dlc.Tests.{
  chain, offerer, accepter, payouts, fund, fund_script, to_offerer, to_accepter,
}

abbrev scripts : Descriptors
scripts = record {
  buffer_script_pubkey = λ o a. 1 ∷ o.own_pk ∷ a.own_pk ∷ [];
  buffer_script_code = λ o a. ok (o.own_pk ∷ a.own_pk ∷ []);
  settle_script_pubkey = λ own counter csv. 2 ∷ own.own_pk ∷ counter ∷ csv ∷ [];
}

abbrev offer_keys : RevokeParams
offer_keys = record { own_pk = 11; publish_pk = 12; revoke_pk = 13 }

abbrev accept_keys : RevokeParams
accept_keys = record { own_pk = 21; publish_pk = 22; revoke_pk = 23 }

buffer_fee : weight_to_fee (buffer_tx_weight + cet_extra_weight) 4 ≡ ok 932
unfolding weight_to_fee to_f64 find_ulp round_quotient
buffer_fee = refl

abbrev alone_change : TxOut
alone_change = record { value = 98016; script_pubkey = 0 ∷ 20 ∷ 1 ∷ [] }

alone_paid : get_change_output_and_fees chain offerer 100000 4 932 ≡ ok (alone_change, 536, 516)
unfolding get_change_output_and_fees get_funded_change get_fund_fee get_cet_or_refund_fee
    get_dlc_inputs_weight add_inputs_weight add_input_weight redeem_script_to_script_sig
    weight_to_fee to_f64 find_ulp round_quotient
alone_paid = refl

abbrev fund_input : TxIn
fund_input = record {
  previous_output = record { txid = 5; vout = 0 };
  script_sig = [];
  sequence = 4294967295;
}

abbrev settled : Transaction
settled = record {
  version = 2;
  lock_time = 300;
  input = fund_input ∷ [];
  output =
      record { value = 100114; script_pubkey = 2 ∷ 11 ∷ 21 ∷ 144 ∷ [] }
      ∷ record { value = 50114; script_pubkey = 2 ∷ 21 ∷ 11 ∷ 144 ∷ [] }
      ∷ [];
}

settle_made :
    create_settle_transaction scripts fund_input offer_keys accept_keys 100000 50000 144 300 151000
      4
    ≡ ok settled
unfolding create_settle_transaction settle_outputs share_fee add_to_each sub_amounts discard_dust
    retain weight_to_fee to_f64 find_ulp round_quotient
settle_made = refl

settle_conserves_example :
    (fee : ℕ) × (weight_to_fee
        (settle_input_weight + length settled.output * settle_output_weight)
        4
      ≡ ok fee)
    × (output_sum settled + fee ≤ 151000)
    × (151000 < output_sum settled + fee + 2000 + length settled.output)
settle_conserves_example =
    settle_conserves scripts fund_input offer_keys accept_keys 100000 50000 144 300 151000 4
      settle_made

abbrev buffer : Transaction
buffer = record {
  version = 2;
  lock_time = 400;
  input =
      record {
        previous_output = record { txid = 5; vout = 0 };
        script_sig = [];
        sequence = 4294967294;
      }
      ∷ [];
  output = record { value = 149614; script_pubkey = 1 ∷ 11 ∷ 21 ∷ [] } ∷ [];
}

abbrev closes : ℕ → ℕ → TxOut → Transaction
closes lock sequence output = record {
  version = 2;
  lock_time = lock;
  input =
      record {
        previous_output = record { txid = 402; vout = 0 };
        script_sig = [];
        sequence = sequence;
      }
      ∷ [];
  output = output ∷ [];
}

abbrev channel : DlcChannelTransactions
channel = record {
  dlc_transactions = record {
    fund = fund;
    cets =
        closes 400 144 (to_offerer 150000)
        ∷ closes 400 144 (to_offerer 149500)
        ∷ closes 400 144 (to_accepter 150000)
        ∷ [];
    refund = closes 500 4294967294 (to_accepter 150000);
    funding_witness_script = fund_script;
    pending_close_txs = [];
  };
  buffer_transaction = buffer;
  buffer_script_pubkey = 11 ∷ 21 ∷ [];
}

channel_made :
    create_renewal_channel_transactions chain scripts offerer accepter offer_keys accept_keys fund
      fund_script payouts 500 4 400 144 1
    ≡ ok channel
unfolding create_renewal_channel_transactions create_buffer_transaction create_cets_and_refund_tx
    create_cets create_cet create_refund_transaction is_proper refund_values
    get_output_for_script_pubkey find_output list_eqb all discard_dust get_sequence retain
    weight_to_fee to_f64 find_ulp round_quotient
channel_made = refl

create_renewal-IsBuffered_example :
    IsBuffered chain scripts offerer accepter offer_keys accept_keys fund fund_script payouts 4 1
      channel
create_renewal-IsBuffered_example =
    create_renewal-IsBuffered chain scripts offerer accepter offer_keys accept_keys fund fund_script
      payouts 500 4 400 144 1 channel_made
