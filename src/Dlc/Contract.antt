-- ===== src/Dlc/Contract.antt =====
-- dlc/src/lib.rs: all the transactions of a contract, and the same for parties that spend the outputs
-- of earlier contracts.
pub mod Spending
use dlcdevkit.Base.{ℕ, none, List, [], ◌++◌, leb, map, retain}
use dlcdevkit.Base.Outcome.{ok, unwrap, ◌>>=◌}
use dlcdevkit.Dlc.Types.{
  Result, OutPoint, TxInputInfo, DlcInputInfo, DlcTransactions, Payout, PartyParams, Bitcoin,
}
use dlcdevkit.Dlc.Util.{get_output_for_script_pubkey}
use dlcdevkit.Dlc.Fund.{create_fund_transaction_with_fees}
use dlcdevkit.Dlc.Cets.{create_cets_and_refund_tx}

unfoldable pub create_dlc_transactions :
    Bitcoin
    → (offer accept : PartyParams) → List Payout
    → (refund_lock_time fee_rate fund_lock_time cet_lock_time fund_output_serial_id : ℕ)
      (contract_flags : ℕ)
    → Result DlcTransactions
create_dlc_transactions b offer accept payouts refund_lock_time fee_rate fund_lock_time
      cet_lock_time fund_output_serial_id contract_flags =
    do
      (fund_tx, funding_witness_script) ←
          create_fund_transaction_with_fees b offer accept fee_rate fund_lock_time
            fund_output_serial_id 0
      (vout, _) ← unwrap (get_output_for_script_pubkey fund_tx (b.to_p2wsh funding_witness_script))
      let fund_outpoint : OutPoint = record { txid = b.compute_txid fund_tx; vout = vout }
      (cets, refund) ←
          create_cets_and_refund_tx offer accept fund_outpoint payouts refund_lock_time
            cet_lock_time none contract_flags
      ok (record {
        fund = fund_tx;
        cets = cets;
        refund = refund;
        funding_witness_script = funding_witness_script;
        pending_close_txs = [];
      })

-- `impl From<&DlcInputInfo> for TxInputInfo`
unfoldable pub dlc_tx_input : Bitcoin → DlcInputInfo → TxInputInfo
dlc_tx_input b d = record {
  outpoint = record { txid = b.compute_txid d.fund_tx; vout = d.fund_vout };
  max_witness_len = d.max_witness_len;
  redeem_script = [];
  serial_id = d.input_serial_id;
}

-- The DLC inputs become regular inputs. A regular input with a longer witness than P2WPKH is taken for
-- the copy of a DLC input, and dropped.
unfoldable pub splice : Bitcoin → PartyParams → PartyParams
splice b p = record p {
  inputs =
      retain (λ (i : TxInputInfo). leb i.max_witness_len 108) p.inputs
      ++ map (dlc_tx_input b) p.dlc_inputs;
  dlc_inputs = [];
}

unfoldable pub create_spliced_dlc_transactions :
    Bitcoin
    → (offer accept : PartyParams) → List Payout
    → (refund_lock_time fee_rate fund_lock_time cet_lock_time fund_output_serial_id : ℕ)
      (contract_flags : ℕ)
    → Result DlcTransactions
create_spliced_dlc_transactions b offer accept =
    create_dlc_transactions b (splice b offer) (splice b accept)
