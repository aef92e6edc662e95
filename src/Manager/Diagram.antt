-- ===== src/Manager/Diagram.antt =====
-- The states of a contract as a diagram: which steps the manager takes under an id of its store, and
-- what must hold for each.
pub mod Cooperative
pub mod Closings
pub mod Confirmed
pub mod Checked
pub mod Periods
pub mod Splices
mod Tests
use dlcdevkit.Base.{
  ℕ, ◌≤◌, Has, ◌%◌, ◌^◌, ◌≡◌, ◌≢◌, refl, sym, ap, ◌∙◌, inl, inr, Bool, true, false, Option, none,
  some, List, [], ◌∷◌, list_eqb, list_eqb→eq, list_eqb_refl, Bool-cases, if◌then◌else◌,
}
use dlcdevkit.Base.Outcome.{Outcome, ok, err, panicked}
use dlcdevkit.Dlc.Types.{Transaction}
use dlcdevkit.Manager.Contract.{
  ContractId, ContractInfo, DlcInput, CloseDlc, get_contract_id, OfferedContract, AcceptedContract,
  SignedContract, PreClosedContract, ClosedContract, FailedAcceptContract, FailedSignContract,
  Contract, offered, accepted, signed, confirmed, pre_closed, closed, refunded, failed_accept,
  failed_sign, rejected, get_id, get_temporary_id,
}
use dlcdevkit.Manager.Store.{
  Contracts, get_contract, create_contract, delete_contract, free_temporary, update_contract,
}
use dlcdevkit.Manager.Store.Slots.{
  IsKeyed, insert-IsKeyed, delete-IsKeyed, lookup-delete, found-IsKeyed,
}
use dlcdevkit.Manager.Environment.{
  Environment, State, M, Result, Error, ConfirmationStatus, not_found, confirmations, next, ask,
  ◌>>=◌,
}
use dlcdevkit.Manager.Handlers.{update, with_pending_close, find_dlc_input}
use dlcdevkit.Manager.Periodic.{count_matches}
use dlcdevkit.Kormir.Messages.{OracleAttestation}
use dlcdevkit.Manager.Closing.Attested.{IsEnough}
use dlcdevkit.Manager.Closing.{txid_of, refund_due, second}
use dlcdevkit.Manager.Monitor.Maps.{lookup, insert, lookup-insert}

-- A transaction with as many confirmations as are asked for, and one at least.
abbrev pub IsBuried : Environment → Transaction → Type 0
IsBuried env tx =
    (status : ConfirmationStatus) × (env.get_transaction_confirmations (txid_of env tx) ≡ ok status)
    × (env.nb_confirmations ≤ confirmations status)
    × (1 ≤ confirmations status)

-- A transaction that is in a block.
abbrev pub IsMined : Environment → Transaction → Type 0
IsMined env tx =
    (status : ConfirmationStatus) × (env.get_transaction_confirmations (txid_of env tx) ≡ ok status)
    × (1 ≤ confirmations status)

-- Why a transaction closes a confirmed contract, with the attestations that are kept.
pub data Closes (env : Environment) (s : SignedContract)
    : Option (List OracleAttestation) → Transaction → Type 0 where
  -- a CET that enough valid attestations of matured announcements sign, for one of the infos
  attested :
      (info : ContractInfo) (adaptor : ℕ) (atts : List (ℕ × OracleAttestation)) (signer : ℕ)
      (cet : Transaction)
      → IsEnough env s info atts
      → env.get_signed_cet s info adaptor atts signer ≡ ok cet
      → Closes env s (some (second atts)) cet
  -- a CET that the application asks for: enough attestations match one of the infos, and its lock time
  -- has passed
  requested :
      (info : ContractInfo) (adaptor : ℕ) (atts : List (ℕ × OracleAttestation)) (signer : ℕ)
      (cet : Transaction) (count height : ℕ)
      → Has info s.accepted_contract.offered_contract.contract_info
      → count_matches env info atts ≡ ok count
      → info.threshold ≤ count
      → env.get_signed_cet s info adaptor atts signer ≡ ok cet
      → env.get_blockchain_height ≡ ok height
      → env.is_satisfied_by cet.lock_time (height % 2 ^ 32) (env.unix_time_now % 2 ^ 32) ≡ true
      → Closes env s (some (second atts)) cet
  -- a cooperative close that the network took
  agreed :
      (msg : CloseDlc) (tx : Transaction)
      → env.complete_cooperative_close s msg ≡ ok tx
      → env.send_transaction tx ≡ ok tt
      → Closes env s none tx
  -- a cooperative close that waited, and is in a block
  waited :
      (tx : Transaction)
      → Has tx s.accepted_contract.dlc_transactions.pending_close_txs
      → IsMined env tx
      → Closes env s none tx
  -- the fund transaction of a contract that spends this one, and that the network knows
  spliced :
      (next : SignedContract) (input : DlcInput) (status : ConfirmationStatus)
      → find_dlc_input next.accepted_contract.offered_contract.funding_inputs ≡ some input
      → input.contract_id ≡ get_contract_id env.hashes s.accepted_contract
      → env.get_transaction_confirmations (txid_of env next.accepted_contract.dlc_transactions.fund)
        ≡ ok status
      → status ≢ not_found
      → Closes env s none next.accepted_contract.dlc_transactions.fund

-- The steps, each with what it needs; `none` is an id that is free. What messages do to a contract before it is
-- confirmed is in Manager.Handlers.
pub data Edge (env : Environment) : Option Contract → Option Contract → Type 0 where
  confirm :
      (s : SignedContract) (status : ConfirmationStatus)
      → env.get_transaction_confirmations (txid_of env s.accepted_contract.dlc_transactions.fund)
        ≡ ok status
      → status ≢ not_found
      → env.nb_confirmations ≤ confirmations status
      → Edge env (some (signed s)) (some (confirmed s))
  await_close :
      (s : SignedContract) (tx : Transaction)
      → Edge env (some (confirmed s)) (some (confirmed (with_pending_close s tx)))
  pre_close :
      (s : SignedContract) (p : PreClosedContract)
      → p.signed_contract ≡ s
      → Closes env s p.attestations p.signed_cet
      → Edge env (some (confirmed s)) (some (pre_closed p))
  close :
      (s : SignedContract) (c : ClosedContract) (tx : Transaction)
      → c.signed_contract ≡ s
      → c.signed_cet ≡ some tx
      → Closes env s c.attestations tx
      → IsBuried env tx
      → Edge env (some (confirmed s)) (some (closed c))
  settle :
      (p : PreClosedContract) (c : ClosedContract)
      → c.signed_contract ≡ p.signed_contract
      → c.signed_cet ≡ some p.signed_cet
      → IsBuried env p.signed_cet
      → Edge env (some (pre_closed p)) (some (closed c))
  reopen :
      (p : PreClosedContract) (s : SignedContract) (e : Error)
      → p.signed_contract ≡ s
      → p.attestations ≡ none
      → env.get_transaction_confirmations (txid_of env p.signed_cet) ≡ ok not_found
      → env.send_transaction p.signed_cet ≡ err e
      → Edge env (some (pre_closed p)) (some (confirmed s))
  refund :
      (s : SignedContract)
      → refund_due env s ≡ true
      → Edge env (some (confirmed s)) (some (refunded s))

-- Several steps.
pub data Reaches (env : Environment) : Option Contract → Option Contract → Type 0 where
  stay : (a : Option Contract) → Reaches env a a
  go : (a b c : Option Contract) → Edge env a b → Reaches env b c → Reaches env a c

pub Reaches-trans :
    (env : Environment) (a b c : Option Contract)
    → Reaches env a b
    → Reaches env b c
    → Reaches env a c
Reaches-trans env a b c (stay _) r = r
Reaches-trans env a b c (go _ d _ e q) r = go a d c e (Reaches-trans env d b c q r)

-- From one state of the store to another: under each id, steps of the diagram.
pub record Follows (env : Environment) (s s' : State) : Type 0 where
  pub keyed : IsKeyed env.hashes s'.contracts
  pub slots :
      (id : ContractId) → Reaches env (get_contract s.contracts id) (get_contract s'.contracts id)

module _ (env : Environment) (s : State) where
  pub Follows-refl : IsKeyed env.hashes s.contracts → Follows env s s
  Follows-refl keyed = record { keyed = keyed; slots = λ id. stay _ }

  pub Follows-trans : (s' s'' : State) → Follows env s s' → Follows env s' s'' → Follows env s s''
  Follows-trans s' s'' f g = record {
    keyed = g.keyed;
    slots = λ id. Reaches-trans env _ _ _ (f.slots id) (g.slots id);
  }

  -- A call, and what is done with its value.
  pub bind-Follows :
      {A B : Type 0} (call : M A) (rest : A → M B)
      → Follows env s (call s).0
      → ((a : A) → (call s).1 ≡ ok a → Follows env (call s).0 (rest a (call s).0).0)
      → Follows env s ((call >>= rest) s).0
  bind-Follows {A} {B} call rest first others = by_result (call s) first others
    where
      by_result :
          (r : State × Result A)
          → Follows env s r.0
          → ((a : A) → r.1 ≡ ok a → Follows env r.0 (rest a r.0).0)
          → Follows env s (next r rest).0
      by_result (s', ok a) first others = Follows-trans s' _ first (others a refl)
      by_result (s', err e) first others = first
      by_result (s', panicked) first others = first

  -- A question, and what is done with its answer.
  pub ask-Follows :
      {A B : Type 0} (keyed : IsKeyed env.hashes s.contracts) (answer : Result A) (rest : A → M B)
      → ((a : A) → answer ≡ ok a → Follows env s (rest a s).0)
      → Follows env s ((ask answer >>= rest) s).0
  ask-Follows keyed answer rest others = bind-Follows (ask answer) rest (Follows-refl keyed) others

-- What stands under an id after a contract is put there.
put_slot :
    (id k : ContractId) (c : Contract) (m : Contracts)
    → lookup list_eqb id (insert list_eqb k c m)
      ≡ (if list_eqb id k then some c else lookup list_eqb id m)
put_slot id k c m = lookup-insert list_eqb list_eqb→eq list_eqb_refl id k c m

module _ (env : Environment) (s : State) (keyed : IsKeyed env.hashes s.contracts) where
  -- A contract takes one step, where no temporary id is freed.
  pub update-Follows :
      (c : Contract)
      → free_temporary s.contracts c ≡ s.contracts
      → Edge env (get_contract s.contracts (get_id env.hashes c)) (some c)
      → Follows env s (update env c s).0
  unfolding update update_contract get_contract
  update-Follows c stays e = record {
    keyed = rw stays (insert-IsKeyed env.hashes c s.contracts keyed);
    slots = λ id. elim (Bool-cases (list_eqb id (get_id env.hashes c))) [
      | inl same ↦
          let at = list_eqb→eq id _ same in
          rw (put_slot id (get_id env.hashes c) c (free_temporary s.contracts c), same)
            (rw at (go _ _ _ e (stay _)))
      | inr differs ↦
          rw (put_slot id (get_id env.hashes c) c (free_temporary s.contracts c), differs, stays)
            (stay _)
    ];
  }

  -- A stored contract takes one step.
  pub step-Follows :
      (id : ContractId) (c c' : Contract)
      → get_contract s.contracts id ≡ some c
      → get_id env.hashes c' ≡ get_id env.hashes c
      → free_temporary s.contracts c' ≡ s.contracts
      → Edge env (some c) (some c')
      → Follows env s (update env c' s).0
  unfolding get_contract
  step-Follows id c c' found same stays e =
      let at : get_contract s.contracts (get_id env.hashes c') ≡ some c =
        rw (same, found-IsKeyed env.hashes id c s.contracts keyed found) found in
      update-Follows c' stays (rw at e)
