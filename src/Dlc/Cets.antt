-- ===== src/Dlc/Cets.antt =====
-- dlc/src/lib.rs: contract execution transactions, one for each payout, and the refund.
pub mod Payouts
use dlcdevkit.Base.{
  ℕ, ◌+◌, ◌%◌, Bool, true, false, Option, none, some, List, [], ◌∷◌, ltb, ◌==◌, if◌then◌else◌, all,
}
use dlcdevkit.Base.Outcome.{ok, err, panicked, guard, ◌>>=◌, ◌>>◌}
use dlcdevkit.Dlc.Types.{
  Script, Result, invalid_argument, OutPoint, TxIn, TxOut, Transaction, Payout, PartyParams,
}
use dlcdevkit.Dlc.Util.{discard_dust, get_sequence, enable_locktime}
use dlcdevkit.Dlc.Fees.{checked_add2}
use dlcdevkit.Dlc.Fund.{dust_limit, tx_version}

unfoldable pub create_cet :
    (offer_output : TxOut) (offer_id : ℕ) (accept_output : TxOut) (accept_id : ℕ)
    (fund_tx_in : TxIn) (lock_time : ℕ)
    → Transaction
create_cet offer_output offer_id accept_output accept_id fund_tx_in lock_time = record {
  version = tx_version;
  lock_time = lock_time;
  input = fund_tx_in ∷ [];
  output =
      discard_dust
        (if ltb offer_id accept_id
          then offer_output ∷ accept_output ∷ []
          else accept_output ∷ offer_output ∷ [])
        dust_limit;
}

unfoldable pub create_cets :
    TxIn
    → (offer_spk : Script) (offer_id : ℕ) (accept_spk : Script) (accept_id : ℕ) → List Payout
    → ℕ
    → List Transaction
create_cets fund_tx_input offer_spk offer_id accept_spk accept_id [] lock_time = []
create_cets fund_tx_input offer_spk offer_id accept_spk accept_id (payout ∷ payouts) lock_time =
    create_cet (record { value = payout.offer; script_pubkey = offer_spk }) offer_id
      (record { value = payout.accept; script_pubkey = accept_spk }) accept_id fund_tx_input
      lock_time
    ∷ create_cets fund_tx_input offer_spk offer_id accept_spk accept_id payouts lock_time

unfoldable pub create_refund_transaction : TxOut → TxOut → TxIn → ℕ → Transaction
create_refund_transaction offer_output accept_output funding_input locktime = record {
  version = tx_version;
  lock_time = locktime;
  input = funding_input ∷ [];
  output = discard_dust (offer_output ∷ accept_output ∷ []) dust_limit;
}

-- Whether a payout adds up to the total collateral: an overflow does not.
unfoldable pub is_proper : ℕ → Payout → Bool
is_proper total_collateral o = elim (checked_add2 o.offer o.accept) [
  | ok sum ↦ sum == total_collateral
  | err e ↦ false
  | panicked ↦ false
]

-- Bit 0 of the contract flags.
unfoldable pub refund_values : ℕ → (total_collateral offer accept : ℕ) → ℕ × ℕ
refund_values contract_flags total_collateral offer accept =
    if contract_flags % 2 == 1 then (0, total_collateral) else (offer, accept)

abbrev pub unwrap_or : Option ℕ → ℕ → ℕ
unwrap_or none d = d
unwrap_or (some x) d = x

abbrev pub cet_input : OutPoint → Option ℕ → ℕ → TxIn
cet_input prev_outpoint cet_nsequence cet_lock_time = record {
  previous_output = prev_outpoint;
  script_sig = [];
  sequence = unwrap_or cet_nsequence (get_sequence cet_lock_time);
}

abbrev pub refund_input : OutPoint → TxIn
refund_input prev_outpoint = record {
  previous_output = prev_outpoint;
  script_sig = [];
  sequence = enable_locktime;
}

unfoldable pub create_cets_and_refund_tx :
    (offer accept : PartyParams)
    → OutPoint
    → List Payout
    → (refund_lock_time cet_lock_time : ℕ) (cet_nsequence : Option ℕ) (contract_flags : ℕ)
    → Result (List Transaction × Transaction)
create_cets_and_refund_tx offer accept prev_outpoint payouts refund_lock_time cet_lock_time
      cet_nsequence contract_flags =
    do
      total_collateral ← checked_add2 offer.collateral accept.collateral
      guard (all (is_proper total_collateral) payouts) invalid_argument
      let refunds = refund_values contract_flags total_collateral offer.collateral accept.collateral
      ok (
        create_cets (cet_input prev_outpoint cet_nsequence cet_lock_time) offer.payout_script_pubkey
            offer.payout_serial_id accept.payout_script_pubkey accept.payout_serial_id payouts
            cet_lock_time,
        create_refund_transaction
            (record { value = refunds.0; script_pubkey = offer.payout_script_pubkey })
            (record { value = refunds.1; script_pubkey = accept.payout_script_pubkey })
            (refund_input prev_outpoint) refund_lock_time,
      )
