-- ===== src/Manager/Diagram/Closings.antt =====
-- The steps that close a confirmed contract.
use dlcdevkit.Base.{◌≡◌, refl, ◌∙◌, Bool, true, false, Option, none, some, List, ◌==◌}
use dlcdevkit.Base.Outcome.{ok, err, panicked}
use dlcdevkit.Dlc.Types.{Transaction}
use dlcdevkit.Kormir.Messages.{OracleAttestation}
use dlcdevkit.Manager.Contract.{
  ContractId, SignedContract, Contract, confirmed, closed, refunded, get_id,
}
use dlcdevkit.Manager.Store.{get_contract, confirmed_in}
use dlcdevkit.Manager.Store.Slots.{IsKeyed}
use dlcdevkit.Manager.Environment.{
  Environment, State, M, Result, confirmations, ask, next, ◌>>=◌, when,
}
use dlcdevkit.Manager.Handlers.{contract_in_state, update, broadcast, send}
use dlcdevkit.Manager.Closing.{
  txid_of, closed_with, refund_due, refund_of, send_refund, refund_when_due,
  check_and_broadcast_refund,
}
use dlcdevkit.Manager.Diagram.{
  IsBuried, Closes, close, refund, Follows, Follows-refl, bind-Follows, ask-Follows, step-Follows,
}
use dlcdevkit.Manager.Handlers.Slots.{confirmed_found}

-- A call that leaves the stored contracts as they were.
abbrev pub Keeps : {A : Type 0} → M A → State → Type 0
Keeps call s = (call s).0.contracts ≡ s.contracts

pub bind-Keeps :
    {A B : Type 0} (call : M A) (rest : A → M B) (s : State)
    → Keeps call s
    → ((a : A) → Keeps (rest a) (call s).0)
    → Keeps (call >>= rest) s
bind-Keeps {A} {B} call rest s first others = by_result (call s) first others
  where
    by_result :
        (r : State × Result A)
        → r.0.contracts ≡ s.contracts
        → ((a : A) → (rest a r.0).0.contracts ≡ r.0.contracts)
        → (next r rest).0.contracts ≡ s.contracts
    by_result (t, ok a) first others = others a ∙ first
    by_result (t, err e) first others = first
    by_result (t, panicked) first others = first

pub send-Keeps : (env : Environment) (tx : Transaction) (s : State) → Keeps (send env tx) s
unfolding send
send-Keeps env tx s = by_answer (env.send_transaction tx)
  where
    by_answer : (r : Result (Unit {0})) → Keeps (broadcast tx r) s
    by_answer (ok u) = refl
    by_answer (err e) = refl
    by_answer panicked = refl

send_refund-Keeps :
    (env : Environment) (c : SignedContract) (s : State) → Keeps (send_refund env c) s
unfolding send_refund
send_refund-Keeps env c s =
    bind-Keeps (ask (env.derive_contract_signer c.accepted_contract.offered_contract.keys_id)) _ s
      refl
      λ signer. bind-Keeps (ask (env.get_signed_refund c signer)) _ s refl λ tx. send-Keeps env tx s

when-Keeps : (b : Bool) (call : M (Unit {0})) (s : State) → Keeps call s → Keeps (when b call) s
when-Keeps true call s k = k
when-Keeps false call s k = refl

module _ (env : Environment) (s t : State) (same : t.contracts ≡ s.contracts) where
  pub Keeps-Follows : IsKeyed env.hashes s.contracts → Follows env s t
  Keeps-Follows keyed = record {
    keyed = rw (← same) at keyed;
    slots = λ id. rw same ((Follows-refl env s keyed).slots id);
  }

  pub same_slot :
      (id : ContractId) (o : Option Contract)
      → get_contract s.contracts id ≡ o
      → get_contract t.contracts id ≡ o
  same_slot id o found = rw same found

module _ (env : Environment) (s : State) (keyed : IsKeyed env.hashes s.contracts) (id : ContractId)
    (c : SignedContract) (found : get_contract s.contracts id ≡ some (confirmed c)) where
  -- The contract is refunded once its lock time has passed.
  pub refunded_step : refund_due env c ≡ true → Follows env s (update env (refunded c) s).0
  unfolding get_id
  refunded_step due =
      step-Follows env s keyed id (confirmed c) (refunded c) found refl refl (refund c due)

  pub closed_step :
      (attestations : Option (List OracleAttestation)) (tx : Transaction)
      → Closes env c attestations tx
      → IsBuried env tx
      → Follows env s (update env (closed (closed_with env c attestations tx)) s).0
  unfolding closed_with get_id
  closed_step attestations tx cause buried =
      step-Follows env s keyed id (confirmed c) (closed (closed_with env c attestations tx)) found
        refl refl (close c (closed_with env c attestations tx) tx refl refl cause buried)

refund_when_due-Follows :
    (env : Environment) (s : State)
    → IsKeyed env.hashes s.contracts
    → (id : ContractId) (c : SignedContract) → get_contract s.contracts id ≡ some (confirmed c)
    → (due : Bool) → refund_due env c ≡ due
    → Follows env s (refund_when_due env c due s).0
refund_when_due-Follows env s keyed id c found false e = Follows-refl env s keyed
refund_when_due-Follows env s keyed id c found true due =
    ask-Follows env s keyed (env.get_transaction_confirmations (txid_of env (refund_of c))) _
      λ status e.
        let first = when (confirmations status == 0) (send_refund env c) in
        let keeps =
          when-Keeps (confirmations status == 0) (send_refund env c) s
            (send_refund-Keeps env c s) in
        let sent = Keeps-Follows env s (first s).0 keeps keyed in
        bind-Follows env s first _ sent λ u e'.
          let moved =
            refunded_step env (first s).0 sent.keyed id c
              (same_slot env s (first s).0 keeps id _ found) due in
          bind-Follows env (first s).0 (update env (refunded c)) _ moved
            (λ v done. Follows-refl env _ moved.keyed)

pub check_and_broadcast_refund-Follows :
    (env : Environment) (s : State)
    → IsKeyed env.hashes s.contracts
    → (id : ContractId) → Follows env s (check_and_broadcast_refund env id s).0
unfolding check_and_broadcast_refund
check_and_broadcast_refund-Follows env s keyed id =
    ask-Follows env s keyed (contract_in_state confirmed_in none id s) _ λ c e.
      refund_when_due-Follows env s keyed id c (confirmed_found s none id c e) (refund_due env c)
        refl
