-- ===== src/Manager/Handlers/Accepting.antt =====
-- What an accept message does to the store, whatever it is about and whatever is called answers.
use dlcdevkit.Base.{◌≡◌, refl, some, ◌⊎◌, inl, inr}
use dlcdevkit.Base.Outcome.{ok, err, panicked}
use dlcdevkit.Dlc.Types.{PublicKey}
use dlcdevkit.Manager.Contract.{
  OfferedContract, SignedContract, AcceptDlc, SignDlc, signed, failed_accept, get_id,
  get_contract_id,
}
use dlcdevkit.Manager.Store.{Contracts}
use dlcdevkit.Manager.Environment.{Environment, State, Result, Error}
use dlcdevkit.Manager.Handlers.{
  update, contract_in_state, offered_in, on_accept_message, sign_accepted, accept_fail_on_error,
}
use dlcdevkit.Manager.Handlers.Slots.{
  IsReplaced, IsMoved, IsOfferOf, IsOfferOf-read, update-IsReplaced, signed-IsMoved, read-IsOfferOf,
  contract_in_state-cases,
}

-- The ways in which an accept message from a peer ends: what it leaves, and what it returns.
pub data Accepts (env : Environment) (msg : AcceptDlc) (peer : PublicKey) (s : State)
    : State × Result SignDlc → Type 0 where
  -- no offer of that peer stands under the id
  refused :
      (e : Error)
      → ((o : OfferedContract) → IsOfferOf s msg.temporary_contract_id peer o → ⊥)
      → Accepts env msg peer s (s, err e)
  -- the acceptance is wrong: the offer is kept as a failed one
  failed :
      (o : OfferedContract) (e : Error) (m : Contracts)
      → IsOfferOf s msg.temporary_contract_id peer o
      → env.verify_accepted_and_sign_contract s.contracts o msg ≡ err e
      → IsReplaced o.id
          (failed_accept (record { offered_contract = o; accept_message = msg }))
          s.contracts
          m
      → Accepts env msg peer s (record s { contracts = m }, err e)
  -- the wallet does not take the funding address: nothing is stored
  not_watched :
      (o : OfferedContract) (c : SignedContract) (answer : SignDlc) (e : Error)
      → IsOfferOf s msg.temporary_contract_id peer o
      → env.verify_accepted_and_sign_contract s.contracts o msg ≡ ok (c, answer)
      → env.import_address c.accepted_contract.dlc_transactions.funding_witness_script ≡ err e
      → Accepts env msg peer s (s, err e)
  -- the contract stands under its id, and the temporary id is free
  accepted :
      (o : OfferedContract) (c : SignedContract) (answer : SignDlc) (m : Contracts)
      → IsOfferOf s msg.temporary_contract_id peer o
      → env.verify_accepted_and_sign_contract s.contracts o msg ≡ ok (c, answer)
      → env.import_address c.accepted_contract.dlc_transactions.funding_witness_script ≡ ok tt
      → IsMoved
          (get_contract_id env.hashes c.accepted_contract)
          c.accepted_contract.offered_contract.id
          (signed c)
          s.contracts
          m
      → Accepts env msg peer s (record s { contracts = m }, ok answer)
  -- what is called panics
  stopped :
      (o : OfferedContract)
      → IsOfferOf s msg.temporary_contract_id peer o
      → (env.verify_accepted_and_sign_contract s.contracts o msg ≡ panicked)
        ⊎ ((c : SignedContract) × (answer : SignDlc) × (env.verify_accepted_and_sign_contract
                s.contracts o msg
              ≡ ok (c, answer))
            × (env.import_address c.accepted_contract.dlc_transactions.funding_witness_script
                ≡ panicked))
      → Accepts env msg peer s (s, panicked)

module _ (env : Environment) (msg : AcceptDlc) (peer : PublicKey) (s : State) where
  watched :
      (o : OfferedContract) (c : SignedContract) (answer : SignDlc)
      → IsOfferOf s msg.temporary_contract_id peer o
      → env.verify_accepted_and_sign_contract s.contracts o msg ≡ ok (c, answer)
      → (r : Result (Unit {0}))
      → env.import_address c.accepted_contract.dlc_transactions.funding_witness_script ≡ r
      → Accepts env msg peer s (sign_accepted env o msg (ok (c, answer)) s)
  unfolding sign_accepted update
  watched o c answer offer verified (ok tt) e =
      rw e (accepted o c answer _ offer verified e (signed-IsMoved env.hashes s.contracts c))
  watched o c answer offer verified (err x) e = rw e (not_watched o c answer x offer verified e)
  watched o c answer offer verified panicked e =
      rw e (stopped o offer (inr (c, answer, verified, e)))

  by_verification :
      (o : OfferedContract)
      → IsOfferOf s msg.temporary_contract_id peer o
      → (r : Result (SignedContract × SignDlc))
      → env.verify_accepted_and_sign_contract s.contracts o msg ≡ r
      → Accepts env msg peer s (sign_accepted env o msg r s)
  by_verification o offer (ok (c, answer)) e =
      watched o c answer offer e
        (env.import_address c.accepted_contract.dlc_transactions.funding_witness_script) refl
  by_verification o offer (err x) e =
      unfold sign_accepted accept_fail_on_error update get_id in
      failed o x _ offer e (
        update-IsReplaced env.hashes s.contracts
          (failed_accept (record { offered_contract = o; accept_message = msg })) refl)
  by_verification o offer panicked e = unfold sign_accepted in stopped o offer (inl e)

  -- An accept message ends in one of five ways, each just where what it asks says so. Without an offer of that
  -- peer, or where the wallet refuses the address or something that is called panics, nothing changes. An
  -- acceptance that does not verify makes the offer a failed one. Otherwise the signed contract stands under
  -- its id, its temporary id is free, and every other id has what it had.
  pub on_accept_message-Accepts : Accepts env msg peer s (on_accept_message env msg peer s)
  unfolding on_accept_message
  on_accept_message-Accepts =
      elim (contract_in_state-cases offered_in (some peer) msg.temporary_contract_id s) [
        | inl (o, e) ↦ rw e (
            by_verification o (read-IsOfferOf s msg.temporary_contract_id peer o e)
              (env.verify_accepted_and_sign_contract s.contracts o msg) refl)
        | inr (x, e) ↦ rw e (
            refused x λ o offer.
              let read : contract_in_state offered_in (some peer) msg.temporary_contract_id s
                  ≡ ok o =
                IsOfferOf-read s msg.temporary_contract_id peer o offer in
              cc)
      ]
