-- ===== src/Manager/Periodic.antt =====
-- ddk-manager/src/manager.rs: the periodic check of contracts, and closings that the application reports.
use dlcdevkit.Base.{
  ℕ, ◌+◌, ◌%◌, ◌^◌, Bool, false, not, Option, none, some, List, [], ◌∷◌, leb, ltb, ◌==◌, list_eqb,
  ◌&&◌, ◌||◌, if◌then◌else◌, get_elem?,
}
use dlcdevkit.Base.Outcome.{ok, err, panicked}
use dlcdevkit.Dlc.Types.{OutPoint, Transaction, TxIn}
use dlcdevkit.Kormir.Messages.{OracleAnnouncement, OracleAttestation, nonces}
use dlcdevkit.Manager.Contract.{
  ContractId, ContractInfo, DlcInput, SignedContract, PreClosedContract, Contract, confirmed,
  closed, refunded, get_fund_output_index,
}
use dlcdevkit.Manager.Store.{
  get_signed_contracts, get_confirmed_contracts, get_preclosed_contracts, confirmed_in,
}
use dlcdevkit.Manager.Environment.{
  Environment, State, M, Result, Error, invalid_parameters, invalid_state, ConfirmationStatus,
  not_found, in_mempool, confirmed_by, ◌>>=◌, ◌>>◌, return, fail, ask, reads, when, next,
}
use dlcdevkit.Manager.Handlers.{contract_in_state, update, send, pre_closed_by, find_dlc_input}
use dlcdevkit.Manager.Closing.{
  max, second, txid_of, closed_with, close_contract, check_confirmed_contract,
}

abbrev pub error_logged : State × Result (Unit {0}) → State × Result (Unit {0})
error_logged (s, ok u) = (s, ok tt)
error_logged (s, err e) = (s, ok tt)
error_logged (s, panicked) = (s, panicked)

-- `for c in cs { if let Err(e) = check(c) { log } }`
unfoldable pub each {ℓ} : {A : Type ℓ} → (A → M (Unit {0})) → List A → M (Unit {0})
each check [] s = (s, ok tt)
each check (c ∷ cs) s = next (error_logged (check c s)) (λ _. each check cs)

unfoldable pub confirm_by : Environment → SignedContract → ConfirmationStatus → M (Unit {0})
confirm_by env c not_found = return tt
confirm_by env c in_mempool = when (leb env.nb_confirmations 0) (update env (confirmed c))
confirm_by env c (confirmed_by count) =
    when (leb env.nb_confirmations count) (update env (confirmed c))

unfoldable pub check_signed_contract : Environment → SignedContract → M (Unit {0})
check_signed_contract env c = do
  status ←
      ask
        (env.get_transaction_confirmations (txid_of env c.accepted_contract.dlc_transactions.fund))
  confirm_by env c status

-- The spent contract of a splice is closed by its fund transaction, once the network knows that.
abbrev pub close_known :
    Environment → SignedContract → Transaction → ConfirmationStatus → M (Unit {0})
close_known env spent fund not_found = return tt
close_known env spent fund in_mempool = update env (pre_closed_by spent fund)
close_known env spent fund (confirmed_by count) = update env (pre_closed_by spent fund)

-- An unexpected state of the spent contract is passed over.
abbrev pub close_spent : Environment → Transaction → Result SignedContract → M (Unit {0})
close_spent env fund (ok spent) = do
  status ← ask (env.get_transaction_confirmations (txid_of env fund))
  close_known env spent fund status
close_spent env fund (err invalid_state) = return tt
close_spent env fund (err Error.conversion) = fail Error.conversion
close_spent env fund (err Error.io_error) = fail Error.io_error
close_spent env fund (err Error.deserialize) = fail Error.deserialize
close_spent env fund (err invalid_parameters) = fail invalid_parameters
close_spent env fund (err Error.wallet_error) = fail Error.wallet_error
close_spent env fund (err Error.blockchain_error) = fail Error.blockchain_error
close_spent env fund (err Error.storage_error) = fail Error.storage_error
close_spent env fund (err Error.oracle_error) = fail Error.oracle_error
close_spent env fund (err Error.dlc_error) = fail Error.dlc_error
close_spent env fund (err Error.secp_error) = fail Error.secp_error
close_spent env fund panicked = ask panicked

abbrev pub check_splice : Environment → SignedContract → Option DlcInput → M (Unit {0})
check_splice env c none = return tt
check_splice env c (some input) = do
  spent ← reads (λ s. ok (contract_in_state confirmed_in none input.contract_id s))
  close_spent env c.accepted_contract.dlc_transactions.fund spent

-- The loop stops at the first error.
unfoldable pub check_splices : Environment → List SignedContract → M (Unit {0})
check_splices env [] = return tt
check_splices env (c ∷ cs) = do
  check_splice env c (find_dlc_input c.accepted_contract.offered_contract.funding_inputs)
  check_splices env cs

unfoldable pub check_for_spliced_contract : Environment → M (List SignedContract)
check_for_spliced_contract env = do
  contracts ← reads (λ s. ok (get_signed_contracts s.contracts))
  check_splices env contracts
  return contracts

unfoldable pub check_signed_contracts : Environment → List SignedContract → M (Unit {0})
check_signed_contracts env = each (check_signed_contract env)

-- Contracts of channels are left to the checks of channels.
abbrev pub check_unless_channel : Environment → SignedContract → Option ContractId → M (Unit {0})
check_unless_channel env c none = check_confirmed_contract env c
check_unless_channel env c (some channel) = return tt

unfoldable pub check_confirmed_contracts : Environment → M (Unit {0})
check_confirmed_contracts env = do
  contracts ← reads (λ s. ok (get_confirmed_contracts s.contracts))
  each (λ c. check_unless_channel env c c.channel_id) contracts

-- A closing transaction that the network does not know: broadcast again, or else the contract is live
-- again if it was not closed by attestations.
abbrev pub reopen_unless :
    Environment
    → PreClosedContract
    → Option (List OracleAttestation)
    → State × Result (Unit {0})
    → State × Result (Unit {0})
reopen_unless env p attestations (s, ok u) = (s, ok tt)
reopen_unless env p none (s, err e) = update env (confirmed p.signed_contract) s
reopen_unless env p (some attestations) (s, err e) = (s, err e)
reopen_unless env p attestations (s, panicked) = (s, panicked)

unfoldable pub settle_when : Environment → PreClosedContract → ℕ → M (Unit {0})
settle_when env p count =
    when (leb (max env.nb_confirmations 1) count)
      (update env (closed (closed_with env p.signed_contract p.attestations p.signed_cet)))

unfoldable pub settle_by : Environment → PreClosedContract → ConfirmationStatus → M (Unit {0})
settle_by env p not_found s = reopen_unless env p p.attestations (send env p.signed_cet s)
settle_by env p in_mempool s = settle_when env p 0 s
settle_by env p (confirmed_by count) s = settle_when env p count s

unfoldable pub check_preclosed_contract : Environment → PreClosedContract → M (Unit {0})
check_preclosed_contract env p = do
  status ← ask (env.get_transaction_confirmations (txid_of env p.signed_cet))
  settle_by env p status

unfoldable pub check_preclosed_contracts : Environment → M (Unit {0})
check_preclosed_contracts env = do
  contracts ← reads (λ s. ok (get_preclosed_contracts s.contracts))
  each (check_preclosed_contract env) contracts

-- `periodic_check` without the checks of channels.
unfoldable pub periodic_check : Environment → M (Unit {0})
periodic_check env = do
  contracts ← check_for_spliced_contract env
  check_signed_contracts env contracts
  check_confirmed_contracts env
  check_preclosed_contracts env

-- How many attestations are signed with the nonces of an info's announcements. An index past the
-- announcements panics.
abbrev pub same_nonces : List ℕ → Option OracleAnnouncement → Result Bool
same_nonces ns none = panicked
same_nonces ns (some ann) = ok (list_eqb ann.oracle_event.oracle_nonces ns)

abbrev pub add_match : Result Bool → Result ℕ → Result ℕ
add_match panicked rest = panicked
add_match (err e) rest = err e
add_match (ok b) (ok n) = ok (if b then n + 1 else n)
add_match (ok b) (err e) = err e
add_match (ok b) panicked = panicked

unfoldable pub count_matches : Environment → ContractInfo → List (ℕ × OracleAttestation) → Result ℕ
count_matches env info [] = ok 0
count_matches env info ((i, att) ∷ atts) =
    add_match (same_nonces (nonces env.secp att.signatures) (get_elem? info.oracle_announcements i))
      (count_matches env info atts)

abbrev pub matching : ContractInfo → ℕ → Result ℕ → M (ContractInfo × ℕ) → M (ContractInfo × ℕ)
matching info adaptor (ok n) others =
    if leb info.threshold n then return (info, adaptor) else others
matching info adaptor (err e) others = fail e
matching info adaptor panicked others = ask panicked

-- The first info that enough attestations match.
unfoldable pub find_matching :
    Environment → List (ℕ × OracleAttestation) → List ContractInfo → List ℕ → M (ContractInfo × ℕ)
find_matching env atts [] adaptors = fail invalid_state
find_matching env atts (info ∷ infos) [] = fail invalid_state
find_matching env atts (info ∷ infos) (adaptor ∷ adaptors) =
    matching info adaptor (count_matches env info atts) (find_matching env atts infos adaptors)

unfoldable pub close_confirmed_contract :
    Environment → ContractId → List (ℕ × OracleAttestation) → M Contract
close_confirmed_contract env contract_id atts = do
  c ← reads (contract_in_state confirmed_in none contract_id)
  found ←
      find_matching env atts c.accepted_contract.offered_contract.contract_info
        c.accepted_contract.adaptor_infos
  signer ← ask (env.derive_contract_signer c.accepted_contract.offered_contract.keys_id)
  cet ← ask (env.get_signed_cet c found.0 found.1 atts signer)
  height ← ask env.get_blockchain_height
  when (not (env.is_satisfied_by cet.lock_time (height % 2 ^ 32) (env.unix_time_now % 2 ^ 32)))
      (fail invalid_state)
  contract ← close_contract env c cet (second atts)
  update env contract
  return contract

abbrev pub spends : OutPoint → List TxIn → Bool
spends o [] = false
spends o (i ∷ is) =
    ((i.previous_output.txid == o.txid) && (i.previous_output.vout == o.vout)) || spends o is

unfoldable pub fund_outpoint : Environment → SignedContract → OutPoint
fund_outpoint env c = record {
  txid = txid_of env c.accepted_contract.dlc_transactions.fund;
  vout = get_fund_output_index env.hashes c.accepted_contract.dlc_transactions % 2 ^ 32;
}

unfoldable pub counterparty_closed : Environment → SignedContract → Transaction → ℕ → Contract
counterparty_closed env c tx count =
    if txid_of env c.accepted_contract.dlc_transactions.refund == txid_of env tx
    then refunded c
    else if ltb count env.nb_confirmations
    then pre_closed_by c tx
    else closed (closed_with env c none tx)

unfoldable pub on_counterparty_close : Environment → SignedContract → Transaction → ℕ → M Contract
on_counterparty_close env c closing_tx count =
    if spends (fund_outpoint env c) closing_tx.input
    then (do
      update env (counterparty_closed env c closing_tx count)
      return (counterparty_closed env c closing_tx count))
    else fail invalid_parameters
