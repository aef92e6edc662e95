-- ===== src/Dlc/Channel.antt =====
-- dlc/src/channel/mod.rs: the transactions of a channel. Between the fund transaction and the closing
-- transactions stands a buffer transaction, whose output the closing transactions spend.
pub mod Closing
mod Tests
use dlcdevkit.Base.{ℕ, ◌+◌, ◌*◌, ◌/◌, List, [], ◌∷◌, length, ltb, ◌==◌, if◌then◌else◌, map, some}
use dlcdevkit.Base.Outcome.{ok, panicked, unwrap, ◌>>=◌}
use dlcdevkit.Base.Word.{add_amount, sub_amount, sub_amounts}
use dlcdevkit.Dlc.Types.{
  Script, PublicKey, Result, OutPoint, TxOut, TxIn, Transaction, DlcTransactions, Payout,
  PartyParams, Bitcoin,
}
use dlcdevkit.Dlc.Util.{
  disable_locktime, weight_to_fee, discard_dust, get_sequence, get_output_for_script_pubkey,
}
use dlcdevkit.Dlc.Fund.{dust_limit, tx_version, create_fund_transaction_with_fees}
use dlcdevkit.Dlc.Cets.{create_cets_and_refund_tx}

abbrev pub buffer_tx_weight : ℕ
buffer_tx_weight = 599

abbrev pub cet_extra_weight : ℕ
cet_extra_weight = 330

abbrev pub settle_input_weight : ℕ
settle_input_weight = 428

abbrev pub settle_output_weight : ℕ
settle_output_weight = 172

pub record RevokeParams : Type 0 where
  pub own_pk : PublicKey
  pub publish_pk : PublicKey
  pub revoke_pk : PublicKey

-- What the miniscript crate makes of the two policies: the scripts that lock the outputs, and the code
-- of the buffer's.
pub record Descriptors : Type 0 where
  pub buffer_script_pubkey : RevokeParams → RevokeParams → Script
  pub buffer_script_code : RevokeParams → RevokeParams → Result Script
  pub settle_script_pubkey : RevokeParams → PublicKey → ℕ → Script

pub record DlcChannelTransactions : Type 0 where
  pub dlc_transactions : DlcTransactions
  pub buffer_transaction : Transaction
  pub buffer_script_pubkey : Script

unfoldable pub create_buffer_transaction : TxIn → Script → ℕ → ℕ → Transaction
create_buffer_transaction fund_tx_in script_pubkey amount lock_time = record {
  version = tx_version;
  lock_time = lock_time;
  input = fund_tx_in ∷ [];
  output = record { value = amount; script_pubkey = script_pubkey } ∷ [];
}

-- `o.value += remaining_fee` for each output.
unfoldable pub add_to_each : ℕ → List TxOut → Result (List TxOut)
add_to_each fee [] = ok []
add_to_each fee (o ∷ os) = do
  value ← add_amount o.value fee
  rest ← add_to_each fee os
  ok (record { value = value; script_pubkey = o.script_pubkey } ∷ rest)

-- What is left of the fund output for each of the outputs. A division by zero panics.
unfoldable pub share_fee : ℕ → ℕ → ℕ → ℕ → ℕ → Result ℕ
share_fee fund_output_value offer_payout accept_payout fee_rate outputs = do
  left ← sub_amounts fund_output_value (offer_payout ∷ accept_payout ∷ [])
  fee ← weight_to_fee (settle_input_weight + outputs * settle_output_weight) fee_rate
  rest ← sub_amount left fee
  if outputs == 0 then panicked else ok (rest / outputs)

unfoldable pub settle_outputs : Script → Script → ℕ → ℕ → List TxOut
settle_outputs offer_script accept_script offer_payout accept_payout =
    discard_dust
      (record { value = offer_payout; script_pubkey = offer_script }
        ∷ record { value = accept_payout; script_pubkey = accept_script }
        ∷ [])
      dust_limit

unfoldable pub create_settle_transaction :
    Descriptors
    → TxIn
    → (offer accept : RevokeParams)
    → (offer_payout accept_payout csv_timelock lock_time fund_output_value fee_rate : ℕ)
    → Result Transaction
create_settle_transaction d fund_tx_in offer accept offer_payout accept_payout csv_timelock
      lock_time fund_output_value fee_rate =
    do
      let outputs =
          settle_outputs (d.settle_script_pubkey offer accept.own_pk csv_timelock)
            (d.settle_script_pubkey accept offer.own_pk csv_timelock) offer_payout accept_payout
      remaining_fee ←
          share_fee fund_output_value offer_payout accept_payout fee_rate (length outputs)
      output ← add_to_each remaining_fee outputs
      ok (record {
        version = tx_version;
        lock_time = lock_time;
        input = fund_tx_in ∷ [];
        output = output;
      })

unfoldable pub create_renewal_channel_transactions :
    Bitcoin
    → Descriptors
    → (offer accept : PartyParams) (offer_revoke accept_revoke : RevokeParams) → Transaction
    → Script
    → List Payout
    → (refund_lock_time fee_rate cet_lock_time cet_nsequence contract_flags : ℕ)
    → Result DlcChannelTransactions
create_renewal_channel_transactions b d offer accept offer_revoke accept_revoke fund_tx
      funding_witness_script payouts refund_lock_time fee_rate cet_lock_time cet_nsequence
      contract_flags =
    do
      extra_fee ← weight_to_fee (buffer_tx_weight + cet_extra_weight) fee_rate
      (fund_vout, fund_output) ←
          unwrap (get_output_for_script_pubkey fund_tx (b.to_p2wsh funding_witness_script))
      let tx_in : TxIn = record {
        previous_output = record { txid = b.compute_txid fund_tx; vout = fund_vout };
        script_sig = [];
        sequence = get_sequence cet_lock_time;
      }
      amount ← sub_amount fund_output.value extra_fee
      let buffer_transaction =
          create_buffer_transaction tx_in (d.buffer_script_pubkey offer_revoke accept_revoke) amount
            cet_lock_time
      let outpoint : OutPoint = record { txid = b.compute_txid buffer_transaction; vout = 0 }
      (cets, refund) ←
          create_cets_and_refund_tx offer accept outpoint payouts refund_lock_time cet_lock_time
            (some cet_nsequence) contract_flags
      script_code ← d.buffer_script_code offer_revoke accept_revoke
      ok (record {
        dlc_transactions = record {
          fund = fund_tx;
          cets = cets;
          refund = refund;
          funding_witness_script = funding_witness_script;
          pending_close_txs = [];
        };
        buffer_transaction = buffer_transaction;
        buffer_script_pubkey = script_code;
      })

unfoldable pub create_channel_transactions :
    Bitcoin
    → Descriptors
    → (offer accept : PartyParams) (offer_revoke accept_revoke : RevokeParams) → List Payout
    → (refund_lock_time fee_rate fund_lock_time cet_lock_time fund_output_serial_id : ℕ)
      (cet_nsequence contract_flags : ℕ)
    → Result DlcChannelTransactions
create_channel_transactions b d offer accept offer_revoke accept_revoke payouts refund_lock_time
      fee_rate fund_lock_time cet_lock_time fund_output_serial_id cet_nsequence contract_flags =
    do
      extra_fee ← weight_to_fee (buffer_tx_weight + cet_extra_weight) fee_rate
      (fund, funding_witness_script) ←
          create_fund_transaction_with_fees b offer accept fee_rate fund_lock_time
            fund_output_serial_id extra_fee
      create_renewal_channel_transactions b d offer accept offer_revoke accept_revoke fund
          funding_witness_script payouts refund_lock_time fee_rate cet_lock_time cet_nsequence
          contract_flags

abbrev pub closing_input : OutPoint → TxIn
closing_input o = record { previous_output = o; script_sig = []; sequence = disable_locktime }

unfoldable pub create_collaborative_close_transaction :
    (offer : PartyParams) → ℕ → (accept : PartyParams) → ℕ → OutPoint → List OutPoint → Transaction
create_collaborative_close_transaction offer offer_payout accept accept_payout fund_outpoint
      additional_inputs =
    let offer_output : TxOut = record {
      value = offer_payout;
      script_pubkey = offer.payout_script_pubkey;
    } in
    let accept_output : TxOut = record {
      value = accept_payout;
      script_pubkey = accept.payout_script_pubkey;
    } in
    record {
      version = tx_version;
      lock_time = 0;
      input = closing_input fund_outpoint ∷ map closing_input additional_inputs;
      output =
          discard_dust
            (if ltb offer.payout_serial_id accept.payout_serial_id
              then offer_output ∷ accept_output ∷ []
              else accept_output ∷ offer_output ∷ [])
            dust_limit;
    }
