-- ===== src/Manager/Handlers/Offering.antt =====
-- What an offer message, and the call that accepts an offer, do to the store.
use dlcdevkit.Base.{◌≡◌, ◌≢◌, refl, ap, sym, ◌∙◌, inl, inr, Option, none, some}
use dlcdevkit.Base.Outcome.{ok, err, panicked}
use dlcdevkit.Dlc.Types.{PublicKey}
use dlcdevkit.Manager.Contract.{
  ContractId, OfferedContract, AcceptedContract, OfferDlc, AcceptDlc, Contract, offered, accepted,
  get_contract_id,
}
use dlcdevkit.Manager.Store.{Contracts, get_contract}
use dlcdevkit.Manager.Environment.{Environment, State, Result}
use dlcdevkit.Manager.Handlers.{create, update, offered_in, on_offer_message, accept_contract_offer}
use dlcdevkit.Manager.Handlers.Slots.{
  IsReplaced, IsMoved, create-IsReplaced, accepted-IsMoved, contract_in_state-cases, offered_found,
  offered_found_read,
}

same_ok : {A : Type 0} (r : Result A) (x y : A) → r ≡ ok x → r ≡ ok y → x ≡ y
same_ok r x y e e' = cc

module _ (env : Environment) (msg : OfferDlc) (peer : PublicKey) (s : State) where
  -- An offer that passes all checks and comes under an id that is free.
  abbrev pub IsWelcome : OfferedContract → Type 0
  IsWelcome o =
      (env.validate_offer msg ≡ ok tt)
      × (env.try_from_offer_dlc msg peer (env.derive_signer_key_id msg.temporary_contract_id)
          ≡ ok o)
      × (env.validate_contract o ≡ ok tt)
      × (get_contract s.contracts o.id ≡ none)

  -- The ways in which an offer message ends: what it leaves, and what it returns.
  pub data Offers : State × Result (Unit {0}) → Type 0 where
    stored :
        (o : OfferedContract) (m : Contracts)
        → IsWelcome o
        → IsReplaced o.id (offered o) s.contracts m
        → Offers (record s { contracts = m }, ok tt)
    refused :
        (r : Result (Unit {0}))
        → r ≢ ok tt
        → ((o : OfferedContract) → IsWelcome o → ⊥)
        → Offers (s, r)

  by_slot :
      (o : OfferedContract)
      → env.validate_offer msg ≡ ok tt
      → env.try_from_offer_dlc msg peer (env.derive_signer_key_id msg.temporary_contract_id) ≡ ok o
      → env.validate_contract o ≡ ok tt
      → (slot : Option Contract) → get_contract s.contracts o.id ≡ slot
      → Offers (on_offer_message env msg peer s)
  unfolding on_offer_message create
  by_slot o valid made sound none free =
      rw (valid, made, sound, free)
        (stored o _ (valid, made, sound, free) (create-IsReplaced s.contracts o))
  by_slot o valid made sound (some c) taken =
      rw (valid, made, sound, taken)
        (refused _ (λ e. cc e)
          λ p welcome.
            let same : o ≡ p = same_ok _ o p made welcome.1 in free_not (rw (← same) at welcome.3))
    where
      free_not : get_contract s.contracts o.id ≡ none → ⊥
      free_not e = cc

  by_contract :
      (o : OfferedContract)
      → env.validate_offer msg ≡ ok tt
      → env.try_from_offer_dlc msg peer (env.derive_signer_key_id msg.temporary_contract_id) ≡ ok o
      → (r : Result (Unit {0})) → env.validate_contract o ≡ r
      → Offers (on_offer_message env msg peer s)
  unfolding on_offer_message
  by_contract o valid made (ok tt) sound =
      by_slot o valid made sound (get_contract s.contracts o.id) refl
  by_contract o valid made (err x) bad =
      rw (valid, made, bad)
        (refused _ (λ e. cc e)
          λ p welcome.
            let same : o ≡ p = same_ok _ o p made welcome.1 in
            let sound : env.validate_contract o ≡ ok tt =
              ap env.validate_contract same ∙ welcome.2 in
            cc)
  by_contract o valid made panicked bad =
      rw (valid, made, bad)
        (refused _ (λ e. cc e)
          λ p welcome.
            let same : o ≡ p = same_ok _ o p made welcome.1 in
            let sound : env.validate_contract o ≡ ok tt =
              ap env.validate_contract same ∙ welcome.2 in
            cc)

  by_offer :
      (r : Result OfferedContract)
      → env.validate_offer msg ≡ ok tt
      → env.try_from_offer_dlc msg peer (env.derive_signer_key_id msg.temporary_contract_id) ≡ r
      → Offers (on_offer_message env msg peer s)
  unfolding on_offer_message
  by_offer (ok o) valid made = by_contract o valid made (env.validate_contract o) refl
  by_offer (err x) valid bad =
      rw (valid, bad) (refused _ (λ e. cc e) λ p welcome. let made = welcome.1 in cc)
  by_offer panicked valid bad =
      rw (valid, bad) (refused _ (λ e. cc e) λ p welcome. let made = welcome.1 in cc)

  by_check :
      (r : Result (Unit {0}))
      → env.validate_offer msg ≡ r
      → Offers (on_offer_message env msg peer s)
  unfolding on_offer_message
  by_check (ok tt) valid = by_offer (env.try_from_offer_dlc msg peer _) valid refl
  by_check (err x) bad = rw bad (refused _ (λ e. cc e) λ p welcome. let valid = welcome.0 in cc)
  by_check panicked bad = rw bad (refused _ (λ e. cc e) λ p welcome. let valid = welcome.0 in cc)

  -- An offer message stores the offer under its id, and changes no other, if the offer passes all checks and
  -- its id is free; otherwise it does not succeed, and nothing changes.
  pub on_offer_message-Offers : Offers (on_offer_message env msg peer s)
  on_offer_message-Offers = by_check (env.validate_offer msg) refl

module _ (env : Environment) (id : ContractId) (s : State) where
  -- An offer under an id, the contract that it is made, and its message.
  abbrev pub IsTaken : OfferedContract → AcceptedContract → AcceptDlc → Type 0
  IsTaken o a answer =
      (get_contract s.contracts id ≡ some (offered o))
      × (env.accept_contract o ≡ ok (a, answer))
      × (env.import_address a.dlc_transactions.funding_witness_script ≡ ok tt)

  -- The ways in which the call to accept an offer ends: what it leaves, and what it returns.
  pub data Takes : State × Result (ContractId × PublicKey × AcceptDlc) → Type 0 where
    moved :
        (o : OfferedContract) (a : AcceptedContract) (answer : AcceptDlc) (m : Contracts)
        → IsTaken o a answer
        → IsMoved (get_contract_id env.hashes a) a.offered_contract.id (accepted a) s.contracts m
        → Takes
            (record s { contracts = m }, ok (get_contract_id env.hashes a, o.counter_party, answer))
    not_taken :
        (r : Result (ContractId × PublicKey × AcceptDlc))
        → ((x : ContractId × PublicKey × AcceptDlc) → r ≢ ok x)
        → ((o : OfferedContract) (a : AcceptedContract) (answer : AcceptDlc)
            → IsTaken o a answer
            → ⊥)
        → Takes (s, r)

  -- The offer is what stands there, and it has one acceptance.
  no_other :
      (o : OfferedContract) (a : AcceptedContract) (answer : AcceptDlc)
      → get_contract s.contracts id ≡ some (offered o)
      → env.accept_contract o ≡ ok (a, answer)
      → env.import_address a.dlc_transactions.funding_witness_script ≢ ok tt
      → (o' : OfferedContract) (a' : AcceptedContract) (answer' : AcceptDlc) → IsTaken o' a' answer'
      → ⊥
  no_other o a answer found made unwatched o' a' answer' (found', made', watched) =
      let same : o ≡ o' = cc (sym found ∙ found') in
      let same_made : (a, answer) ≡ (a', answer') =
        same_ok _ (a, answer) (a', answer') made (ap env.accept_contract same ∙ made') in
      let same_a : a ≡ a' = ap (λ (x : AcceptedContract × AcceptDlc). x.0) same_made in
      unwatched (
        ap (λ (x : AcceptedContract). env.import_address x.dlc_transactions.funding_witness_script)
          same_a
        ∙ watched)

  by_import :
      (o : OfferedContract) (a : AcceptedContract) (answer : AcceptDlc)
      → get_contract s.contracts id ≡ some (offered o)
      → env.accept_contract o ≡ ok (a, answer)
      → (r : Result (Unit {0})) → env.import_address a.dlc_transactions.funding_witness_script ≡ r
      → Takes (accept_contract_offer env id s)
  unfolding accept_contract_offer update
  by_import o a answer found made (ok tt) e =
      rw (offered_found_read s id o found, made, e)
        (moved o a answer _ (found, made, e) (accepted-IsMoved env.hashes s.contracts a))
  by_import o a answer found made (err x) e =
      rw (offered_found_read s id o found, made, e)
        (not_taken _ (λ y f. cc f) (no_other o a answer found made (λ f. cc)))
  by_import o a answer found made panicked e =
      rw (offered_found_read s id o found, made, e)
        (not_taken _ (λ y f. cc f) (no_other o a answer found made (λ f. cc)))

  by_acceptance :
      (o : OfferedContract)
      → get_contract s.contracts id ≡ some (offered o)
      → (r : Result (AcceptedContract × AcceptDlc)) → env.accept_contract o ≡ r
      → Takes (accept_contract_offer env id s)
  unfolding accept_contract_offer
  by_acceptance o found (ok (a, answer)) made =
      by_import o a answer found made (env.import_address a.dlc_transactions.funding_witness_script)
        refl
  by_acceptance o found (err x) bad =
      rw (offered_found_read s id o found, bad)
        (not_taken _ (λ y f. cc f)
          λ o' a answer (found', made, e).
            let same : o ≡ o' = cc (sym found ∙ found') in
            let made' = ap env.accept_contract same ∙ made in cc)
  by_acceptance o found panicked bad =
      rw (offered_found_read s id o found, bad)
        (not_taken _ (λ y f. cc f)
          λ o' a answer (found', made, e).
            let same : o ≡ o' = cc (sym found ∙ found') in
            let made' = ap env.accept_contract same ∙ made in cc)

  -- The call to accept an offer that stands under an id puts the accepted contract under its own id, frees the
  -- temporary one and changes no other, if the contract can be made and the wallet takes its address;
  -- otherwise it does not succeed, and nothing changes.
  pub accept_contract_offer-Takes : Takes (accept_contract_offer env id s)
  unfolding accept_contract_offer
  accept_contract_offer-Takes = elim (contract_in_state-cases offered_in none id s) [
    | inl (o, e) ↦ by_acceptance o (offered_found s none id o e) (env.accept_contract o) refl
    | inr (x, e) ↦ rw e (
        not_taken _ (λ y f. cc f)
          λ o a answer (found, made, watched). let read = offered_found_read s id o found in cc)
  ]
