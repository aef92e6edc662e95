-- ===== src/Manager/Handlers/Signing.antt =====
-- What a sign message does to the store and broadcasts, whatever it is about and whatever is called answers.
use dlcdevkit.Base.{◌≡◌, refl, inl, inr, Option, none, some, [], ◌∷◌, ◌++◌}
use dlcdevkit.Base.Outcome.{ok, err, panicked}
use dlcdevkit.Dlc.Types.{PublicKey, Transaction}
use dlcdevkit.Manager.Contract.{
  DlcInput, AcceptedContract, SignedContract, SignDlc, confirmed, signed, failed_sign, get_id,
  get_contract_id,
}
use dlcdevkit.Manager.Store.{Contracts, get_contract, update_contract, confirmed_in}
use dlcdevkit.Manager.Environment.{Environment, State, Result, Error}
use dlcdevkit.Manager.Handlers.{
  update, send, contract_in_state, accepted_in, find_dlc_input, pre_closed_by, close_spliced,
  on_sign_message, store_signed, sign_fail_on_error,
}
use dlcdevkit.Manager.Handlers.Slots.{
  IsReplaced, IsMoved, IsAcceptedOf, IsAcceptedOf-read, update-IsReplaced, signed-IsMoved,
  read-IsAcceptedOf, contract_in_state-cases, confirmed_found, confirmed_read,
}

module _ (env : Environment) (msg : SignDlc) (peer : PublicKey) (s : State) where
  -- A contract of the peer that verifies, its fund transaction, and the store with the signed contract.
  abbrev IsSigned : AcceptedContract → SignedContract → Transaction → Contracts → Type 0
  IsSigned a c tx m =
      IsAcceptedOf s msg.contract_id peer a
      × (env.verify_signed_contract s.contracts a msg ≡ ok (c, tx))
      × IsMoved (get_contract_id env.hashes c.accepted_contract)
          c.accepted_contract.offered_contract.id (signed c) s.contracts m

  -- The ways in which a sign message from a peer ends: what it leaves, and what it returns.
  pub data Signs : State × Result (Unit {0}) → Type 0 where
    -- no accepted contract of that peer stands under the id
    refused :
        (e : Error)
        → ((a : AcceptedContract) → IsAcceptedOf s msg.contract_id peer a → ⊥)
        → Signs (s, err e)
    -- the signatures are wrong: the contract is kept as a failed one
    failed :
        (a : AcceptedContract) (e : Error) (m : Contracts)
        → IsAcceptedOf s msg.contract_id peer a
        → env.verify_signed_contract s.contracts a msg ≡ err e
        → IsReplaced
            (get_contract_id env.hashes a)
            (failed_sign (record { accepted_contract = a; sign_message = msg }))
            s.contracts
            m
        → Signs (record s { contracts = m }, err e)
    -- the contract is signed, and the fund transaction is not taken
    not_sent :
        (a : AcceptedContract) (c : SignedContract) (tx : Transaction) (m : Contracts) (e : Error)
        → IsSigned a c tx m
        → env.send_transaction tx ≡ err e
        → Signs (record s { contracts = m }, err e)
    -- the contract is signed and funded, and spends no other
    funded :
        (a : AcceptedContract) (c : SignedContract) (tx : Transaction) (m : Contracts)
        → IsSigned a c tx m
        → env.send_transaction tx ≡ ok tt
        → find_dlc_input a.offered_contract.funding_inputs ≡ none
        → Signs (record { contracts = m; sent = s.sent ++ (tx ∷ []) }, ok tt)
    -- it spends another, which is pre-closed
    spliced :
        (a : AcceptedContract) (c spent : SignedContract) (tx : Transaction) (input : DlcInput)
        (m m' : Contracts)
        → IsSigned a c tx m
        → env.send_transaction tx ≡ ok tt
        → find_dlc_input a.offered_contract.funding_inputs ≡ some input
        → get_contract m input.contract_id ≡ some (confirmed spent)
        → IsReplaced
            (get_contract_id env.hashes spent.accepted_contract)
            (pre_closed_by spent c.accepted_contract.dlc_transactions.fund)
            m
            m'
        → Signs (record { contracts = m'; sent = s.sent ++ (tx ∷ []) }, ok tt)
    -- it spends another, which is not confirmed
    not_spliced :
        (a : AcceptedContract) (c : SignedContract) (tx : Transaction) (input : DlcInput)
        (m : Contracts) (e : Error)
        → IsSigned a c tx m
        → env.send_transaction tx ≡ ok tt
        → find_dlc_input a.offered_contract.funding_inputs ≡ some input
        → ((spent : SignedContract) → get_contract m input.contract_id ≡ some (confirmed spent) → ⊥)
        → Signs (record { contracts = m; sent = s.sent ++ (tx ∷ []) }, err e)
    -- the verification, or the blockchain, panics
    not_verified :
        (a : AcceptedContract)
        → IsAcceptedOf s msg.contract_id peer a
        → env.verify_signed_contract s.contracts a msg ≡ panicked
        → Signs (s, panicked)
    stopped :
        (a : AcceptedContract) (c : SignedContract) (tx : Transaction) (m : Contracts)
        → IsSigned a c tx m
        → env.send_transaction tx ≡ panicked
        → Signs (record s { contracts = m }, panicked)

  after_sending :
      (a : AcceptedContract) (c : SignedContract) (tx : Transaction) (m : Contracts)
      → IsSigned a c tx m
      → env.send_transaction tx ≡ ok tt
      → (input : Option DlcInput) → find_dlc_input a.offered_contract.funding_inputs ≡ input
      → Signs (close_spliced env c input (record { contracts = m; sent = s.sent ++ (tx ∷ []) }))
  unfolding close_spliced update get_id
  after_sending a c tx m made sent none e = funded a c tx m made sent e
  after_sending a c tx m made sent (some input) e =
      let t : State = record { contracts = m; sent = s.sent ++ (tx ∷ []) } in
      elim (contract_in_state-cases confirmed_in none input.contract_id t) [
        | inl (spent, read) ↦ rw read (
            spliced a c spent tx input m _ made sent e
              (confirmed_found t none input.contract_id spent read)
              (update-IsReplaced env.hashes m
                (pre_closed_by spent c.accepted_contract.dlc_transactions.fund) refl))
        | inr (x, read) ↦ rw read (
            not_spliced a c tx input m x made sent e
              λ spent found. let is_ok = confirmed_read t input.contract_id spent found in cc)
      ]

  after_storing :
      (a : AcceptedContract) (c : SignedContract) (tx : Transaction)
      → IsSigned a c tx (update_contract env.hashes s.contracts (signed c))
      → (r : Result (Unit {0})) → env.send_transaction tx ≡ r
      → Signs (store_signed env a msg (ok (c, tx)) s)
  unfolding store_signed update send
  after_storing a c tx made (ok tt) e =
      rw e (after_sending a c tx _ made e (find_dlc_input a.offered_contract.funding_inputs) refl)
  after_storing a c tx made (err x) e = rw e (not_sent a c tx _ x made e)
  after_storing a c tx made panicked e = rw e (stopped a c tx _ made e)

  by_verification :
      (a : AcceptedContract)
      → IsAcceptedOf s msg.contract_id peer a
      → (r : Result (SignedContract × Transaction))
      → env.verify_signed_contract s.contracts a msg ≡ r
      → Signs (store_signed env a msg r s)
  by_verification a of_peer (ok (c, tx)) e =
      after_storing a c tx (of_peer, e, signed-IsMoved env.hashes s.contracts c)
        (env.send_transaction tx) refl
  by_verification a of_peer (err x) e =
      unfold store_signed sign_fail_on_error update get_id in
      failed a x _ of_peer e (
        update-IsReplaced env.hashes s.contracts
          (failed_sign (record { accepted_contract = a; sign_message = msg })) refl)
  by_verification a of_peer panicked e = unfold store_signed in not_verified a of_peer e

  -- A sign message ends in one of eight ways, each just where what it asks says so. Without an accepted contract
  -- of that peer nothing changes. Signatures that do not verify make it a failed one. Otherwise it stands
  -- signed under its id, its temporary id is free, and the fund transaction is broadcast, if the network takes
  -- it; only then is the confirmed contract that it spends pre-closed by that transaction. No other id
  -- changes.
  pub on_sign_message-Signs : Signs (on_sign_message env msg peer s)
  unfolding on_sign_message
  on_sign_message-Signs = elim (contract_in_state-cases accepted_in (some peer) msg.contract_id s) [
    | inl (a, e) ↦ rw e (
        by_verification a (read-IsAcceptedOf s msg.contract_id peer a e)
          (env.verify_signed_contract s.contracts a msg) refl)
    | inr (x, e) ↦ rw e (
        refused x λ a of_peer.
          let read : contract_in_state accepted_in (some peer) msg.contract_id s ≡ ok a =
            IsAcceptedOf-read s msg.contract_id peer a of_peer in
          cc)
  ]
