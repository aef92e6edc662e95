-- ===== src/Manager/Diagram/Cooperative.antt =====
-- The steps of cooperative closes.
use dlcdevkit.Base.{ℕ, ◌≡◌, refl, ap, none, some}
use dlcdevkit.Base.Outcome.{ok, err, panicked}
use dlcdevkit.Dlc.Types.{Transaction}
use dlcdevkit.Manager.Contract.{
  ContractId, SignedContract, PreClosedContract, Contract, confirmed, pre_closed, get_id,
  get_contract_id, get_fund_output_index,
}
use dlcdevkit.Manager.Store.{get_contract, confirmed_in}
use dlcdevkit.Manager.Store.Slots.{IsKeyed}
use dlcdevkit.Manager.Environment.{Environment, State, Result}
use dlcdevkit.Manager.Handlers.{
  contract_in_state, update, broadcast, send, with_pending_close, cooperative_close_contract,
}
use dlcdevkit.Manager.Handlers.Slots.{confirmed_found}
use dlcdevkit.Manager.Diagram.{
  await_close, pre_close, Closes, Follows, Follows-refl, bind-Follows, ask-Follows, step-Follows,
}

module _ (env : Environment) (s : State) (keyed : IsKeyed env.hashes s.contracts) where
  -- A broadcast leaves the store as it was.
  pub send-Follows : (tx : Transaction) → Follows env s (send env tx s).0
  unfolding send
  send-Follows tx = by_answer (env.send_transaction tx)
    where
      by_answer : (r : Result (Unit {0})) → Follows env s (broadcast tx r s).0
      by_answer (ok u) = record { keyed = keyed; slots = λ id. (Follows-refl env s keyed).slots id }
      by_answer (err e) = Follows-refl env s keyed
      by_answer panicked = Follows-refl env s keyed

  pub cooperative_close_contract-Follows :
      (id : ContractId) (payout : ℕ) → Follows env s (cooperative_close_contract env id payout s).0
  unfolding cooperative_close_contract get_id get_contract_id get_fund_output_index
  cooperative_close_contract-Follows id payout =
      ask-Follows env s keyed (contract_in_state confirmed_in none id s) _ λ c is_conf.
        ask-Follows env s keyed (env.create_cooperative_close c payout) _ λ made e.
          let moved =
            step-Follows env s keyed id (confirmed c) (confirmed (with_pending_close c made.1))
              (confirmed_found s none id c is_conf) refl refl (await_close c made.1) in
          bind-Follows env s (update env (confirmed (with_pending_close c made.1))) _ moved
            (λ v done. Follows-refl env _ moved.keyed)

  pub pre_close-Follows :
      (id : ContractId) (c : SignedContract) (p : PreClosedContract)
      → get_contract s.contracts id ≡ some (confirmed c)
      → p.signed_contract ≡ c
      → Closes env c p.attestations p.signed_cet
      → Follows env s (update env (pre_closed p) s).0
  unfolding get_id
  pre_close-Follows id c p found of cause =
      step-Follows env s keyed id (confirmed c) (pre_closed p) found
        (ap (λ (x : SignedContract). get_contract_id env.hashes x.accepted_contract) of) refl
        (pre_close c p of cause)
