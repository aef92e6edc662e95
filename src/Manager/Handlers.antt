-- ===== src/Manager/Handlers.antt =====
-- ddk-manager/src/manager.rs: messages about contracts, and the calls of the application.
pub mod Slots
pub mod Accepting
pub mod Offering
pub mod Signing
use dlcdevkit.Base.{ℕ, Bool, true, Option, none, some, List, [], ◌∷◌, ◌++◌, ◌==◌, if◌then◌else◌}
use dlcdevkit.Base.Outcome.{ok, err, panicked}
use dlcdevkit.Dlc.Types.{PublicKey, Transaction}
use dlcdevkit.Manager.Contract.{
  ContractId, FundingInput, DlcInput, OfferedContract, AcceptedContract, SignedContract, OfferDlc,
  AcceptDlc, SignDlc, CloseDlc, Contract, offered, accepted, signed, confirmed, pre_closed, closed,
  refunded, failed_accept, failed_sign, rejected, get_contract_id, get_counter_party_id,
}
use dlcdevkit.Manager.Store.{get_contract, create_contract, update_contract, confirmed_in}
use dlcdevkit.Manager.Environment.{
  Environment, State, M, Result, Error, invalid_parameters, invalid_state, ◌>>=◌, ◌>>◌, return,
  fail, ask, reads,
}

abbrev pub offered_in : Contract → Option OfferedContract
offered_in (offered o) = some o
offered_in (accepted a) = none
offered_in (signed s) = none
offered_in (confirmed s) = none
offered_in (pre_closed p) = none
offered_in (closed c) = none
offered_in (refunded s) = none
offered_in (failed_accept f) = none
offered_in (failed_sign f) = none
offered_in (rejected o) = none

abbrev pub accepted_in : Contract → Option AcceptedContract
accepted_in (accepted a) = some a
accepted_in (offered o) = none
accepted_in (signed s) = none
accepted_in (confirmed s) = none
accepted_in (pre_closed p) = none
accepted_in (closed c) = none
accepted_in (refunded s) = none
accepted_in (failed_accept f) = none
accepted_in (failed_sign f) = none
accepted_in (rejected o) = none

-- Whether a peer, if one is given, is the other party of a contract.
abbrev pub is_peer : Option PublicKey → Contract → Bool
is_peer none c = true
is_peer (some p) c = get_counter_party_id c == p

abbrev pub or_error : {A : Type 0} → Option A → Error → Result A
or_error none e = err e
or_error (some a) e = ok a

abbrev pub view_found :
    {A : Type 0} → (Contract → Option A) → Option PublicKey → Option Contract → Result A
view_found view peer none = err invalid_parameters
view_found view peer (some c) =
    if is_peer peer c then or_error (view c) invalid_state else err invalid_parameters

-- `get_contract_in_state!`: the state is given by what it holds.
unfoldable pub contract_in_state :
    {A : Type 0} → (Contract → Option A) → Option PublicKey → ContractId → State → Result A
contract_in_state view peer id s = view_found view peer (get_contract s.contracts id)

unfoldable pub update : Environment → Contract → M (Unit {0})
update env c s = (record s { contracts = update_contract env.hashes s.contracts c }, ok tt)

unfoldable pub create : OfferedContract → M (Unit {0})
create o s = (record s { contracts = create_contract s.contracts o }, ok tt)

-- A transaction that the blockchain takes is broadcast.
abbrev pub broadcast : Transaction → Result (Unit {0}) → M (Unit {0})
broadcast tx (ok u) s = (record s { sent = s.sent ++ (tx ∷ []) }, ok tt)
broadcast tx (err e) s = (s, err e)
broadcast tx panicked s = (s, panicked)

unfoldable pub send : Environment → Transaction → M (Unit {0})
send env tx = broadcast tx (env.send_transaction tx)

-- The id of a contract that is not stored yet.
abbrev pub unknown_id : Option Contract → Result (Unit {0})
unknown_id none = ok tt
unknown_id (some c) = err invalid_parameters

unfoldable pub on_offer_message : Environment → OfferDlc → PublicKey → M (Unit {0})
on_offer_message env msg counter_party = do
  ask (env.validate_offer msg)
  let keys_id = env.derive_signer_key_id msg.temporary_contract_id
  contract ← ask (env.try_from_offer_dlc msg counter_party keys_id)
  ask (env.validate_contract contract)
  reads (λ s. unknown_id (get_contract s.contracts contract.id))
  create contract

unfoldable pub accept_contract_offer :
    Environment → ContractId → M (ContractId × PublicKey × AcceptDlc)
accept_contract_offer env contract_id = do
  offer ← reads (contract_in_state offered_in none contract_id)
  made ← ask (env.accept_contract offer)
  ask (env.import_address made.0.dlc_transactions.funding_witness_script)
  update env (accepted made.0)
  return (get_contract_id env.hashes made.0, offer.counter_party, made.1)

-- `accept_fail_on_error`
unfoldable pub accept_fail_on_error :
    {A : Type 0} → Environment → OfferedContract → AcceptDlc → Error → M A
accept_fail_on_error env offer msg e = do
  update env (failed_accept (record { offered_contract = offer; accept_message = msg }))
  fail e

-- The contract that was made of an offer, or its failure.
unfoldable pub sign_accepted :
    Environment → OfferedContract → AcceptDlc → Result (SignedContract × SignDlc) → M SignDlc
sign_accepted env offer msg (ok (contract, signed_msg)) = do
  ask (env.import_address contract.accepted_contract.dlc_transactions.funding_witness_script)
  update env (signed contract)
  return signed_msg
sign_accepted env offer msg (err e) = accept_fail_on_error env offer msg e
sign_accepted env offer msg panicked = ask panicked

-- The address of the funding script is imported before the contract is stored.
unfoldable pub on_accept_message : Environment → AcceptDlc → PublicKey → M SignDlc
on_accept_message env msg counter_party = do
  offer ← reads (contract_in_state offered_in (some counter_party) msg.temporary_contract_id)
  verified ← reads (λ s. ok (env.verify_accepted_and_sign_contract s.contracts offer msg))
  sign_accepted env offer msg verified

-- The first funding input that is the output of another contract.
unfoldable pub find_dlc_input : List FundingInput → Option DlcInput
find_dlc_input [] = none
find_dlc_input (i ∷ is) =
    let rest = find_dlc_input is in elim i.dlc_input [ none ↦ rest | some d ↦ some d ]

abbrev pub pre_closed_by : SignedContract → Transaction → Contract
pre_closed_by contract fund =
    pre_closed (record { signed_contract = contract; attestations = none; signed_cet = fund })

-- The contract whose output was spent is closed by the new fund transaction.
unfoldable pub close_spliced : Environment → SignedContract → Option DlcInput → M (Unit {0})
close_spliced env contract none = return tt
close_spliced env contract (some input) = do
  spent ← reads (contract_in_state confirmed_in none input.contract_id)
  update env (pre_closed_by spent contract.accepted_contract.dlc_transactions.fund)

-- `sign_fail_on_error`
unfoldable pub sign_fail_on_error :
    {A : Type 0} → Environment → AcceptedContract → SignDlc → Error → M A
sign_fail_on_error env contract msg e = do
  update env (failed_sign (record { accepted_contract = contract; sign_message = msg }))
  fail e

unfoldable pub store_signed :
    Environment → AcceptedContract → SignDlc → Result (SignedContract × Transaction) → M (Unit {0})
store_signed env contract msg (ok (made, fund_tx)) = do
  update env (signed made)
  send env fund_tx
  close_spliced env made (find_dlc_input contract.offered_contract.funding_inputs)
store_signed env contract msg (err e) = sign_fail_on_error env contract msg e
store_signed env contract msg panicked = ask panicked

unfoldable pub on_sign_message : Environment → SignDlc → PublicKey → M (Unit {0})
on_sign_message env msg peer_id = do
  contract ← reads (contract_in_state accepted_in (some peer_id) msg.contract_id)
  verified ← reads (λ s. ok (env.verify_signed_contract s.contracts contract msg))
  store_signed env contract msg verified

unfoldable pub on_close_message : Environment → CloseDlc → PublicKey → M (Unit {0})
on_close_message env msg counter_party = do
  contract ← reads (contract_in_state confirmed_in (some counter_party) msg.contract_id)
  close_tx ← ask (env.complete_cooperative_close contract msg)
  return tt

-- A contract with one more closing transaction that waits to be confirmed.
abbrev pub with_pending_close : SignedContract → Transaction → SignedContract
with_pending_close c tx = record c {
  accepted_contract = record c.accepted_contract {
    dlc_transactions = record c.accepted_contract.dlc_transactions {
      pending_close_txs = c.accepted_contract.dlc_transactions.pending_close_txs ++ (tx ∷ []);
    };
  };
}

unfoldable pub cooperative_close_contract : Environment → ContractId → ℕ → M (CloseDlc × PublicKey)
cooperative_close_contract env contract_id counter_payout = do
  contract ← reads (contract_in_state confirmed_in none contract_id)
  made ← ask (env.create_cooperative_close contract counter_payout)
  update env (confirmed (with_pending_close contract made.1))
  return (made.0, contract.accepted_contract.offered_contract.counter_party)

unfoldable pub accept_cooperative_close : Environment → ContractId → CloseDlc → M (Unit {0})
accept_cooperative_close env contract_id msg = do
  contract ← reads (contract_in_state confirmed_in none contract_id)
  close_tx ← ask (env.complete_cooperative_close contract msg)
  send env close_tx
  update env (pre_closed_by contract close_tx)
