-- ===== src/Manager/Diagram/Periods.antt =====
-- The steps of the other periodic checks.
use dlcdevkit.Base.{ℕ, ◌≡◌, ◌≢◌, refl, inl, inr, arith, Option, none, some, List, leb, Bool-cases}
use dlcdevkit.Base.Outcome.{ok, err, panicked}
use dlcdevkit.Kormir.Messages.{OracleAttestation}
use dlcdevkit.Manager.Contract.{
  ContractId, SignedContract, PreClosedContract, signed, confirmed, pre_closed, closed, get_id,
}
use dlcdevkit.Manager.Store.{get_contract}
use dlcdevkit.Manager.Store.Slots.{IsKeyed}
use dlcdevkit.Manager.Environment.{
  Environment, State, Result, ConfirmationStatus, not_found, in_mempool, confirmed_by,
  confirmations, when,
}
use dlcdevkit.Manager.Handlers.{update, broadcast, send}
use dlcdevkit.Manager.Closing.{max, txid_of, closed_with}
use dlcdevkit.Manager.Periodic.{
  confirm_by, check_signed_contract, reopen_unless, settle_when, settle_by,
  check_preclosed_contract,
}
use dlcdevkit.Manager.Diagram.{
  confirm, settle, reopen, Follows, Follows-refl, ask-Follows, step-Follows,
}
use dlcdevkit.Manager.Diagram.Cooperative.{send-Follows}

module _ (env : Environment) (s : State) (keyed : IsKeyed env.hashes s.contracts) where
  -- A signed contract is confirmed once its fund transaction has the confirmations that are asked for.
  pub check_signed_contract-Follows :
      (id : ContractId) (c : SignedContract)
      → get_contract s.contracts id ≡ some (signed c)
      → Follows env s (check_signed_contract env c s).0
  unfolding check_signed_contract
  check_signed_contract-Follows id c found =
      let fund = txid_of env c.accepted_contract.dlc_transactions.fund in
      ask-Follows env s keyed (env.get_transaction_confirmations fund) _
        λ status e. by_status status e
    where
      stepped :
          (status : ConfirmationStatus)
          → env.get_transaction_confirmations
              (txid_of env c.accepted_contract.dlc_transactions.fund)
            ≡ ok status
          → status ≢ not_found
          → (n : ℕ) → confirmations status ≡ n
          → Follows env s (when (leb env.nb_confirmations n) (update env (confirmed c)) s).0
      stepped status e known n count = elim (Bool-cases (leb env.nb_confirmations n)) [
        | inl enough ↦ rw enough (
            step-Follows env s keyed id (signed c) (confirmed c) found (unfold get_id in refl) refl
              (confirm c status e known (ground (arith, enough, count))))
        | inr few ↦ rw few (Follows-refl env s keyed)
      ]

      by_status :
          (status : ConfirmationStatus)
          → env.get_transaction_confirmations
              (txid_of env c.accepted_contract.dlc_transactions.fund)
            ≡ ok status
          → Follows env s (confirm_by env c status s).0
      by_status not_found e = unfold confirm_by in Follows-refl env s keyed
      by_status in_mempool e =
          unfold confirm_by confirmations in stepped in_mempool e (λ x. cc x) 0 refl
      by_status (confirmed_by n) e =
          unfold confirm_by confirmations in stepped (confirmed_by n) e (λ x. cc x) n refl

  -- A pre-closed contract is closed once its closing transaction has the confirmations that are asked
  -- for, one at least; it is confirmed again only where that transaction is unknown to the network, was
  -- refused by it, and was not made by attestations.
  pub check_preclosed_contract-Follows :
      (id : ContractId) (p : PreClosedContract)
      → get_contract s.contracts id ≡ some (pre_closed p)
      → Follows env s (check_preclosed_contract env p s).0
  unfolding check_preclosed_contract
  check_preclosed_contract-Follows id p found =
      ask-Follows env s keyed (env.get_transaction_confirmations (txid_of env p.signed_cet)) _
        λ status e. by_status status e
    where
      settled :
          (status : ConfirmationStatus)
          → env.get_transaction_confirmations (txid_of env p.signed_cet) ≡ ok status
          → (n : ℕ) → confirmations status ≡ n
          → Follows env s (settle_when env p n s).0
      settled status e n count =
          unfold settle_when closed_with get_id in
          elim (Bool-cases (leb (max env.nb_confirmations 1) n)) [
            | inl enough ↦ rw enough (
                step-Follows env s keyed id (pre_closed p)
                  (closed (closed_with env p.signed_contract p.attestations p.signed_cet)) found
                  refl refl
                  (settle p (closed_with env p.signed_contract p.attestations p.signed_cet) refl
                    refl (status, e, ground (arith, enough, count), ground (arith, enough, count))))
            | inr few ↦ rw few (Follows-refl env s keyed)
          ]

      resent :
          (attestations : Option (List OracleAttestation))
          → p.attestations ≡ attestations
          → env.get_transaction_confirmations (txid_of env p.signed_cet) ≡ ok not_found
          → (r : Result (Unit {0})) → env.send_transaction p.signed_cet ≡ r
          → Follows env s (broadcast p.signed_cet r s).0
          → Follows env s (reopen_unless env p attestations (broadcast p.signed_cet r s)).0
      resent none by unknown (ok u) sent f = f
      resent none by unknown (err e) refused f =
          step-Follows env s keyed id (pre_closed p) (confirmed p.signed_contract) found
            (unfold get_id in refl) refl (reopen p p.signed_contract e refl by unknown refused)
      resent none by unknown panicked sent f = f
      resent (some atts) by unknown (ok u) sent f = f
      resent (some atts) by unknown (err e) sent f = f
      resent (some atts) by unknown panicked sent f = f

      by_status :
          (status : ConfirmationStatus)
          → env.get_transaction_confirmations (txid_of env p.signed_cet) ≡ ok status
          → Follows env s (settle_by env p status s).0
      by_status not_found e =
          unfold settle_by send in
          resent p.attestations refl e (env.send_transaction p.signed_cet) refl
            (send-Follows env s keyed p.signed_cet)
      by_status in_mempool e = unfold settle_by confirmations in settled in_mempool e 0 refl
      by_status (confirmed_by n) e =
          unfold settle_by confirmations in settled (confirmed_by n) e n refl
