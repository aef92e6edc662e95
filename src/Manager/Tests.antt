-- ===== src/Manager/Tests.antt =====
-- A monitor of two channels, and a block with a transaction that it watches for.
use dlcdevkit.Base.Word.{u64_mod}
use dlcdevkit.Base.{◌%◌, ℕ, ◌+◌, ◌≡◌, ◌≢◌, refl, ◌⊎◌, List, [], ◌∷◌, none, leb, ◌==◌}
use dlcdevkit.Base.Outcome.{ok, panicked}
use dlcdevkit.Dlc.Types.{OutPoint, Transaction, Bitcoin}
use dlcdevkit.Dlc.Util.{validate_fee_rate}
use dlcdevkit.Manager.Input.{
  OracleInput, ContractInput, validate_oracle, validate_oracles, validate_fee, validate,
}
use dlcdevkit.Manager.Input.Checks.{IsSound, validate-IsSound}
use dlcdevkit.Manager.Monitor.Maps.{lookup}
use dlcdevkit.Manager.Monitor.{
  registered, ChannelInfo, ChainMonitor, buffer_tx, settle_tx, cet, out_point_eqb, process_block,
}
use dlcdevkit.Manager.Monitor.Blocks.{find, spends, seen, process_block-confirms}

-- A transaction whose lock time is its id.
abbrev chain : Bitcoin
chain = record {
  to_p2wsh = λ s. s;
  compute_txid = λ tx. tx.lock_time;
  witness_program = λ s. none;
  serialize = λ k. k ∷ [];
  key_leb = leb;
  multisig = λ x y. x;
}

abbrev first_channel : List ℕ
first_channel = 1 ∷ []

abbrev buffer_info : ChannelInfo
buffer_info = record { channel_id = 1 ∷ []; tx_type = buffer_tx }

abbrev settle_info : ChannelInfo
settle_info = record { channel_id = 2 ∷ []; tx_type = settle_tx }

abbrev cet_info : ChannelInfo
cet_info = record { channel_id = 2 ∷ []; tx_type = cet }

abbrev output_9 : OutPoint
output_9 = record { txid = 9; vout = 0 }

abbrev monitor : ChainMonitor
monitor = record {
  watched_tx = (7, registered buffer_info) ∷ (8, registered settle_info) ∷ [];
  watched_txo = (output_9, registered cet_info) ∷ [];
  last_height = 100;
}

abbrev block : List Transaction
block =
    record {
      version = 2;
      lock_time = 7;
      input = record { previous_output = output_9; script_sig = []; sequence = 0 } ∷ [];
      output = [];
    }
    ∷ []

process_block-confirms_example :
    ((101 ≢ (monitor.last_height + 1) % u64_mod)
      × (process_block chain monitor block 101 ≡ panicked))
    ⊎ ((m' : ChainMonitor) × (process_block chain monitor block 101 ≡ ok m')
        × (101 ≡ m'.last_height)
        × (lookup ◌==◌ 7 m'.watched_tx
            ≡ seen
                (find (λ tx. 7 == chain.compute_txid tx) block)
                (lookup ◌==◌ 7 monitor.watched_tx))
        × (lookup out_point_eqb output_9 m'.watched_txo
            ≡ seen
                (find (λ tx. spends output_9 tx.input) block)
                (lookup out_point_eqb output_9 monitor.watched_txo)))
process_block-confirms_example = process_block-confirms chain monitor block 101 7 output_9

abbrev two_of_three : OracleInput
two_of_three = record { public_keys = 1 ∷ 2 ∷ 3 ∷ []; event_id = 65 ∷ []; threshold = 2 }

abbrev terms : ContractInput ℕ
terms = record {
  offer_collateral = 0;
  accept_collateral = 100000;
  fee_rate = 4;
  contract_flags = 0;
  contract_infos = record { contract_descriptor = 9; oracles = two_of_three } ∷ [];
}

terms_pass : validate terms ≡ ok tt
unfolding validate validate_oracles validate_oracle validate_fee validate_fee_rate
terms_pass = refl

validate-IsSound_example : IsSound terms
validate-IsSound_example = validate-IsSound terms terms_pass
