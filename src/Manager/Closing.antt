-- ===== src/Manager/Closing.antt =====
-- ddk-manager/src/manager.rs: how a confirmed contract is closed, by a CET, a cooperative close or its
-- refund.
pub mod Attested
use dlcdevkit.Base.{
  ℕ, ◌+◌, Bool, true, false, Option, none, some, List, [], ◌∷◌, length, leb, ltb, ◌==◌, ◌&&◌,
  if◌then◌else◌,
}
use dlcdevkit.Base.Outcome.{ok, err, panicked}
use dlcdevkit.Dlc.Types.{Txid, Transaction}
use dlcdevkit.Kormir.Messages.{OracleAnnouncement, OracleAttestation, validate_attestation}
use dlcdevkit.Manager.Contract.{
  ContractId, ContractInfo, SignedContract, ClosedContract, Contract, pre_closed, closed, refunded,
  get_contract_id, compute_pnl,
}
use dlcdevkit.Manager.Store.{confirmed_in}
use dlcdevkit.Manager.Environment.{
  Environment, OracleClient, M, Result, invalid_parameters, ConfirmationStatus, not_found,
  in_mempool, confirmed_by, confirmations, ◌>>=◌, ◌>>◌, return, fail, ask, reads, when,
}
use dlcdevkit.Manager.Handlers.{contract_in_state, update, send, pre_closed_by}

abbrev pub max : ℕ → ℕ → ℕ
max a b = if ltb a b then b else a

unfoldable pub is_matured : Environment → OracleAnnouncement → Bool
is_matured env ann = leb ann.oracle_event.event_maturity_epoch env.unix_time_now

-- The announcements that matured, each with its place among those.
unfoldable pub matured_from :
    Environment → ℕ → List OracleAnnouncement → List (ℕ × OracleAnnouncement)
matured_from env i [] = []
matured_from env i (ann ∷ anns) =
    let kept = (i, ann) ∷ matured_from env (i + 1) anns in
    let skipped = matured_from env i anns in if is_matured env ann then kept else skipped

abbrev pub valid_attestation :
    Environment → ℕ → OracleAnnouncement → Result OracleAttestation → Option (ℕ × OracleAttestation)
valid_attestation env i ann (ok att) = elim (validate_attestation env.secp att ann) [
  | ok u ↦ some (i, att)
  | err e ↦ none
  | panicked ↦ none
]
valid_attestation env i ann (err e) = none
valid_attestation env i ann panicked = none

abbrev pub ask_oracle :
    Environment → ℕ → OracleAnnouncement → Option OracleClient → Option (ℕ × OracleAttestation)
ask_oracle env i ann none = none
ask_oracle env i ann (some client) =
    valid_attestation env i ann (client.get_attestation ann.oracle_event.event_id)

abbrev pub cons_some {ℓ} : {A : Type ℓ} → Option A → List A → List A
cons_some none xs = xs
cons_some (some x) xs = x ∷ xs

-- The valid attestations, in the order of the announcements; the code takes them as they come.
unfoldable pub attestations_of :
    Environment → List (ℕ × OracleAnnouncement) → List (ℕ × OracleAttestation)
attestations_of env [] = []
attestations_of env ((i, ann) ∷ anns) =
    cons_some (ask_oracle env i ann (env.oracles ann.oracle_public_key)) (attestations_of env anns)

-- What closes a contract: one of its infos, with the adaptor info and attestations.
abbrev pub Closable : Type 0
Closable = ContractInfo × ℕ × List (ℕ × OracleAttestation)

unfoldable pub find_closable : Environment → List ContractInfo → List ℕ → Option Closable
find_closable env [] adaptors = none
find_closable env (info ∷ infos) [] = none
find_closable env (info ∷ infos) (adaptor ∷ adaptors) =
    let rest = find_closable env infos adaptors in
    let matured = matured_from env 0 info.oracle_announcements in
    let attestations = attestations_of env matured in
    if leb info.threshold (length matured) && leb info.threshold (length attestations)
    then some (info, adaptor, attestations)
    else rest

unfoldable pub get_closable_contract_info : Environment → SignedContract → Option Closable
get_closable_contract_info env c =
    find_closable env c.accepted_contract.offered_contract.contract_info
      c.accepted_contract.adaptor_infos

unfoldable pub txid_of : Environment → Transaction → Txid
txid_of env tx = env.hashes.bitcoin.compute_txid tx

abbrev pub pre_closed_with : SignedContract → List OracleAttestation → Transaction → Contract
pre_closed_with c attestations tx =
    pre_closed (record { signed_contract = c; attestations = some attestations; signed_cet = tx })

unfoldable pub closed_with :
    Environment → SignedContract → Option (List OracleAttestation) → Transaction → ClosedContract
closed_with env c attestations tx = record {
  attestations = attestations;
  signed_cet = some tx;
  contract_id = get_contract_id env.hashes c.accepted_contract;
  temporary_contract_id = c.accepted_contract.offered_contract.id;
  counter_party_id = c.accepted_contract.offered_contract.counter_party;
  funding_txid = txid_of env c.accepted_contract.dlc_transactions.fund;
  pnl = compute_pnl c.accepted_contract tx;
  signed_contract = c;
}

-- `close_contract`: the state that a CET brings the contract to, by its confirmations.
abbrev pub close_by :
    Environment → SignedContract → Transaction → List OracleAttestation → ℕ → M Contract
close_by env c cet attestations count =
    if ltb count 1
    then (do send env cet; return (pre_closed_with c attestations cet))
    else if ltb count env.nb_confirmations
    then return (pre_closed_with c attestations cet)
    else return (closed (closed_with env c (some attestations) cet))

unfoldable pub close_contract :
    Environment → SignedContract → Transaction → List OracleAttestation → M Contract
close_contract env c cet attestations = do
  status ← ask (env.get_transaction_confirmations (txid_of env cet))
  close_by env c cet attestations (confirmations status)

abbrev pub second {ℓ} : {A : Type ℓ} → List (ℕ × A) → List A
second [] = []
second ((i, a) ∷ xs) = a ∷ second xs

-- The refund's lock time has passed.
unfoldable pub refund_due : Environment → SignedContract → Bool
refund_due env c = leb c.accepted_contract.dlc_transactions.refund.lock_time env.unix_time_now

abbrev pub refund_of : SignedContract → Transaction
refund_of c = c.accepted_contract.dlc_transactions.refund

unfoldable pub send_refund : Environment → SignedContract → M (Unit {0})
send_refund env c = do
  signer ← ask (env.derive_contract_signer c.accepted_contract.offered_contract.keys_id)
  refund ← ask (env.get_signed_refund c signer)
  send env refund

abbrev pub refund_when_due : Environment → SignedContract → Bool → M Contract
refund_when_due env c false = fail invalid_parameters
refund_when_due env c true = do
  status ← ask (env.get_transaction_confirmations (txid_of env (refund_of c)))
  when (confirmations status == 0) (send_refund env c)
  update env (refunded c)
  return (refunded c)

unfoldable pub check_and_broadcast_refund : Environment → ContractId → M Contract
check_and_broadcast_refund env contract_id = do
  c ← reads (contract_in_state confirmed_in none contract_id)
  refund_when_due env c (refund_due env c)

abbrev pub refund_by : Environment → SignedContract → ℕ → M (Unit {0})
refund_by env c count =
    if ltb 0 count
    then update env (refunded c)
    else when env.automatic_refund (do
      refund ← check_and_broadcast_refund env (get_contract_id env.hashes c.accepted_contract)
      return tt)

unfoldable pub check_refund : Environment → SignedContract → M (Unit {0})
check_refund env c = when (refund_due env c) (do
  status ← ask (env.get_transaction_confirmations (txid_of env (refund_of c)))
  refund_by env c (confirmations status))

-- One of the closing transactions that wait, by its confirmations; the others after it. It closes the
-- contract for good with one confirmation at least.
abbrev pub pending_count :
    Environment → SignedContract → Transaction → ℕ → M (Unit {0}) → M (Unit {0})
pending_count env c tx count others =
    if leb (max env.nb_confirmations 1) count
    then update env (closed (closed_with env c none tx))
    else if leb 1 count
    then update env (pre_closed_by c tx)
    else others

abbrev pub pending_by :
    Environment → SignedContract → Transaction → ConfirmationStatus → M (Unit {0}) → M (Unit {0})
pending_by env c tx not_found others = others
pending_by env c tx in_mempool others = pending_count env c tx 0 others
pending_by env c tx (confirmed_by count) others = pending_count env c tx count others

unfoldable pub check_pending : Environment → SignedContract → List Transaction → M (Unit {0})
check_pending env c [] = return tt
check_pending env c (tx ∷ txs) = do
  status ← ask (env.get_transaction_confirmations (txid_of env tx))
  pending_by env c tx status (check_pending env c txs)

-- The rest of `check_confirmed_contract`, where no CET was found.
unfoldable pub check_other_closes : Environment → SignedContract → M (Unit {0})
check_other_closes env c = do
  check_pending env c c.accepted_contract.dlc_transactions.pending_close_txs
  check_refund env c

-- A CET that could be signed closes the contract; without one the other ways are looked at.
unfoldable pub close_by_cet :
    Environment → SignedContract → List OracleAttestation → Result Transaction → M (Unit {0})
close_by_cet env c attestations (ok cet) = do
  contract ← close_contract env c cet attestations
  update env contract
close_by_cet env c attestations (err e) = check_other_closes env c
close_by_cet env c attestations panicked = ask panicked

abbrev pub close_if_closable : Environment → SignedContract → Option Closable → M (Unit {0})
close_if_closable env c none = check_other_closes env c
close_if_closable env c (some (info, adaptor, attestations)) = do
  signer ← ask (env.derive_contract_signer c.accepted_contract.offered_contract.keys_id)
  close_by_cet env c (second attestations) (env.get_signed_cet c info adaptor attestations signer)

unfoldable pub check_confirmed_contract : Environment → SignedContract → M (Unit {0})
check_confirmed_contract env c = close_if_closable env c (get_closable_contract_info env c)
