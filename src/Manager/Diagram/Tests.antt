-- ===== src/Manager/Diagram/Tests.antt =====
-- A contract of two parties in each of the states that the witnesses need.
use dlcdevkit.Base.{
  ℕ, ◌≡◌, refl, true, false, none, some, List, [], ◌∷◌, ◌==◌, leb, list_eqb, if◌then◌else◌,
}
use dlcdevkit.Base.Outcome.{ok, err}
use dlcdevkit.Dlc.Types.{Transaction, PartyParams, Bitcoin}
use dlcdevkit.Kormir.Messages.{Schnorr, OracleAnnouncement, OracleAttestation, enum_event, nonces}
use dlcdevkit.Manager.Contract.{
  ContractId, FundingInput, OfferedContract, AcceptedContract, SignedContract, PreClosedContract,
  AcceptDlc, SignDlc, OfferDlc, CloseDlc, Contract, offered, accepted, signed, confirmed,
  pre_closed, get_id, get_contract_id, get_fund_output_index, output_index, compute_id,
}
use dlcdevkit.Manager.Store.{get_contract}
use dlcdevkit.Manager.Store.Slots.{IsKeyed}
use dlcdevkit.Manager.Environment.{
  Environment, State, ConfirmationStatus, not_found, confirmed_by, confirmations, invalid_state,
  blockchain_error,
}
use dlcdevkit.Manager.Handlers.{
  on_offer_message, accept_contract_offer, contract_in_state, send, update, on_accept_message,
  on_sign_message,
}
use dlcdevkit.Manager.Closing.{close_contract, txid_of}
use dlcdevkit.Manager.Periodic.{
  find_matching, count_matches, check_preclosed_contract, close_confirmed_contract,
  check_signed_contract,
}
use dlcdevkit.Manager.Diagram.{Follows}
use dlcdevkit.Manager.Handlers.Offering.{
  Offers, Takes, on_offer_message-Offers, accept_contract_offer-Takes,
}
use dlcdevkit.Manager.Handlers.Accepting.{Accepts, on_accept_message-Accepts}
use dlcdevkit.Manager.Handlers.Signing.{Signs, on_sign_message-Signs}
use dlcdevkit.Manager.Diagram.Periods.{
  check_preclosed_contract-Follows, check_signed_contract-Follows,
}

-- A transaction whose lock time is its id.
abbrev chain : Bitcoin
chain = record {
  to_p2wsh = λ s. s;
  compute_txid = λ tx. tx.lock_time;
  witness_program = λ s. none;
  serialize = λ k. k ∷ [];
  key_leb = leb;
  multisig = λ x y. x;
}

abbrev tx : ℕ → Transaction
tx n = record { version = 2; lock_time = n; input = []; output = [] }

abbrev party : PartyParams
party = record {
  fund_pubkey = 3;
  change_script_pubkey = [];
  change_serial_id = 0;
  payout_script_pubkey = 9 ∷ [];
  payout_serial_id = 0;
  inputs = [];
  dlc_inputs = [];
  input_amount = 0;
  collateral = 50;
}

abbrev temporary : ContractId
temporary = 1 ∷ []

-- The bytes 7 of the fund transaction and 1 of the temporary id.
abbrev contract_id : ContractId
contract_id = 6 ∷ []

abbrev an_offer : OfferedContract
an_offer = record {
  id = temporary;
  is_offer_party = true;
  contract_info = [];
  counter_party = 8;
  offer_params = party;
  total_collateral = 100;
  funding_inputs = [];
  fund_output_serial_id = 0;
  fee_rate_per_vb = 1;
  cet_locktime = 10;
  refund_locktime = 20;
  contract_flags = 0;
  keys_id = 4;
}

abbrev accepted_of : OfferedContract → AcceptedContract
accepted_of o = record {
  offered_contract = o;
  accept_params = party;
  funding_inputs = [];
  adaptor_infos = [];
  adaptor_signatures = [];
  accept_refund_signature = 0;
  dlc_transactions = record {
    fund = tx 7;
    cets = [];
    refund = tx 20;
    funding_witness_script = [];
    pending_close_txs = tx 30 ∷ [];
  };
}

abbrev signed_of : AcceptedContract → SignedContract
signed_of a = record {
  accepted_contract = a;
  adaptor_signatures = [];
  offer_refund_signature = 0;
  funding_signatures = 0;
  channel_id = none;
}

abbrev schnorr : Schnorr
schnorr = record {
  sha256 = λ bytes. bytes;
  to_tlv_bytes = λ event. [];
  x_only_public_key = λ k. k;
  sign_schnorr = λ msg key. 0;
  schnorrsig_sign_with_nonce = λ msg key nonce. nonce;
  verify_schnorr = λ sig msg key. true;
  signature_nonce = λ sig. sig;
}

-- The closing transaction 30 has six confirmations, the others none; the network takes none but 7.
abbrev status_of : ℕ → ConfirmationStatus
status_of n = if n == 30 then confirmed_by 6 else not_found

abbrev answer : ContractId → SignDlc
answer id = record { contract_id = id; wire = [] }

abbrev env : Environment
env = record {
  hashes = record { bitcoin = chain; txid_bytes = λ t. t ∷ [] };
  secp = schnorr;
  oracles = λ k. none;
  unix_time_now = 40;
  nb_confirmations = 6;
  automatic_refund = false;
  get_blockchain_height = ok 100;
  get_transaction_confirmations = λ t. ok (status_of t);
  send_transaction = λ t. if t.lock_time == 7 then ok tt else err blockchain_error;
  is_satisfied_by = λ lock height time. leb lock time;
  import_address = λ script. ok tt;
  derive_signer_key_id = λ id. 4;
  derive_contract_signer = λ k. ok k;
  validate_offer = λ o. ok tt;
  try_from_offer_dlc = λ o peer k. ok an_offer;
  validate_contract = λ o. ok tt;
  accept_contract = λ o. ok (accepted_of o, record { temporary_contract_id = o.id; wire = [] });
  verify_accepted_and_sign_contract = λ cs o m. ok (signed_of (accepted_of o), answer contract_id);
  verify_signed_contract = λ cs a m. ok (signed_of a, tx 7);
  get_signed_cet = λ c info adaptor atts signer. ok (tx 7);
  get_signed_refund = λ c signer. ok (tx 20);
  create_cooperative_close = λ c payout. err invalid_state;
  complete_cooperative_close = λ c m. ok (tx 7);
}

abbrev state_of : ContractId → Contract → State
state_of id c = record { contracts = (id, c) ∷ []; sent = [] }

abbrev offer_state : State
offer_state = state_of temporary (offered an_offer)

abbrev accepted_state : State
accepted_state = state_of contract_id (accepted (accepted_of an_offer))

abbrev the_contract : SignedContract
the_contract = signed_of (accepted_of an_offer)

abbrev confirmed_state : State
confirmed_state = state_of contract_id (confirmed the_contract)

abbrev closing : PreClosedContract
closing = record { signed_contract = the_contract; attestations = none; signed_cet = tx 31 }

abbrev pre_closed_state : State
pre_closed_state = state_of contract_id (pre_closed closing)

offer-IsKeyed : IsKeyed env.hashes offer_state.contracts
unfolding get_id
offer-IsKeyed = (refl, refl, tt)

own_id : get_contract_id env.hashes (accepted_of an_offer) ≡ contract_id
unfolding get_contract_id get_fund_output_index output_index compute_id
own_id = refl

accepted-IsKeyed : IsKeyed env.hashes accepted_state.contracts
unfolding get_id
accepted-IsKeyed = (own_id, refl, tt)

pre_closed-IsKeyed : IsKeyed env.hashes pre_closed_state.contracts
unfolding get_id
pre_closed-IsKeyed = (own_id, refl, tt)

abbrev accept_msg : AcceptDlc
accept_msg = record { temporary_contract_id = temporary; wire = [] }

on_accept_message-Accepts_example :
    Accepts env accept_msg 8 offer_state (on_accept_message env accept_msg 8 offer_state)
on_accept_message-Accepts_example = on_accept_message-Accepts env accept_msg 8 offer_state

on_sign_message-Signs_example :
    Signs env
      (answer contract_id)
      8
      accepted_state
      (on_sign_message env (answer contract_id) 8 accepted_state)
on_sign_message-Signs_example = on_sign_message-Signs env (answer contract_id) 8 accepted_state

abbrev no_state : State
no_state = record { contracts = []; sent = [] }

abbrev offer_msg : OfferDlc
offer_msg = record { temporary_contract_id = temporary; wire = [] }

on_offer_message-Offers_example :
    Offers env offer_msg 8 no_state (on_offer_message env offer_msg 8 no_state)
on_offer_message-Offers_example = on_offer_message-Offers env offer_msg 8 no_state

accept_contract_offer-Takes_example :
    Takes env temporary offer_state (accept_contract_offer env temporary offer_state)
accept_contract_offer-Takes_example = accept_contract_offer-Takes env temporary offer_state

abbrev close_msg : CloseDlc
close_msg = record { contract_id = contract_id; wire = [] }

-- A contract on one event, which an attestation with the nonce of its announcement closes.
abbrev announcement : OracleAnnouncement
announcement = record {
  announcement_signature = 0;
  oracle_public_key = 2;
  oracle_event = record {
    oracle_nonces = 5 ∷ [];
    event_maturity_epoch = 30;
    event_descriptor = enum_event (record { outcomes = [] });
    event_id = 1 ∷ [];
  };
}

abbrev attestation : OracleAttestation
attestation = record {
  event_id = 1 ∷ [];
  oracle_public_key = 2;
  signatures = 5 ∷ [];
  outcomes = (3 ∷ []) ∷ [];
}

abbrev bet : SignedContract
bet =
    signed_of
      (record (accepted_of (record an_offer {
        contract_info = record { oracle_announcements = announcement ∷ []; threshold = 1 } ∷ [];
      })) { adaptor_infos = 0 ∷ [] })

abbrev bet_state : State
bet_state = state_of contract_id (confirmed bet)

abbrev attested_by : List (ℕ × OracleAttestation)
attested_by = (0, attestation) ∷ []

-- The CET is broadcast.
bet_closed : (close_confirmed_contract env contract_id attested_by bet_state).0.sent ≡ tx 7 ∷ []
unfolding close_confirmed_contract contract_in_state get_contract list_eqb find_matching
    count_matches nonces close_contract confirmations txid_of send update
bet_closed = refl

found_pre_closed : get_contract pre_closed_state.contracts contract_id ≡ some (pre_closed closing)
unfolding get_contract list_eqb
found_pre_closed = refl

check_preclosed_contract-Follows_example :
    Follows env pre_closed_state (check_preclosed_contract env closing pre_closed_state).0
check_preclosed_contract-Follows_example =
    check_preclosed_contract-Follows env pre_closed_state pre_closed-IsKeyed contract_id closing
      found_pre_closed

abbrev signed_state : State
signed_state = state_of contract_id (signed the_contract)

signed-IsKeyed : IsKeyed env.hashes signed_state.contracts
unfolding get_id
signed-IsKeyed = (own_id, refl, tt)

found_signed : get_contract signed_state.contracts contract_id ≡ some (signed the_contract)
unfolding get_contract list_eqb
found_signed = refl

check_signed_contract-Follows_example :
    Follows env signed_state (check_signed_contract env the_contract signed_state).0
check_signed_contract-Follows_example =
    check_signed_contract-Follows env signed_state signed-IsKeyed contract_id the_contract
      found_signed

-- A contract that spends the output of the first, by the transaction 30.
abbrev spending_input : FundingInput
spending_input = record {
  input_serial_id = 0;
  prev_tx = [];
  prev_tx_vout = 0;
  sequence = 0;
  max_witness_len = 0;
  redeem_script = [];
  dlc_input =
      some (record { local_fund_pubkey = 3; remote_fund_pubkey = 3; contract_id = contract_id });
}

abbrev splice : SignedContract
splice = signed_of (record {
  offered_contract = record an_offer { id = 2 ∷ []; funding_inputs = spending_input ∷ [] };
  accept_params = party;
  funding_inputs = [];
  adaptor_infos = [];
  adaptor_signatures = [];
  accept_refund_signature = 0;
  dlc_transactions = record {
    fund = tx 30;
    cets = [];
    refund = tx 20;
    funding_witness_script = [];
    pending_close_txs = [];
  };
})

abbrev splice_id : ContractId
splice_id = 28 ∷ []

abbrev splice_state : State
splice_state = record {
  contracts = (contract_id, confirmed the_contract) ∷ (splice_id, signed splice) ∷ [];
  sent = [];
}
