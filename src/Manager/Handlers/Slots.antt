-- ===== src/Manager/Handlers/Slots.antt =====
-- What the handlers read of the store, and what an update leaves under each id.
use dlcdevkit.Base.{
  ◌≡◌, ◌∙◌, refl, sym, ap, ◌⊎◌, inl, inr, true, Option, none, some, list_eqb, list_eqb→eq,
  list_eqb_refl, Bool-cases, ==_iff, ◌==◌, if◌then◌else◌,
}
use dlcdevkit.Base.Outcome.{ok, err}
use dlcdevkit.Dlc.Types.{PublicKey}
use dlcdevkit.Manager.Contract.{
  ContractId, Hashes, OfferedContract, AcceptedContract, SignedContract, Contract, offered,
  accepted, signed, confirmed, pre_closed, closed, refunded, failed_accept, failed_sign, rejected,
  get_id, get_contract_id, get_temporary_id, get_counter_party_id,
}
use dlcdevkit.Manager.Store.{
  Contracts, confirmed_in, create_contract, get_contract, update_contract, free_temporary,
  delete_contract,
}
use dlcdevkit.Manager.Store.Slots.{lookup-delete}
use dlcdevkit.Manager.Environment.{State, Error, invalid_state, invalid_parameters}
use dlcdevkit.Manager.Handlers.{
  contract_in_state, offered_in, accepted_in, is_peer, view_found, or_error,
}
use dlcdevkit.Manager.Monitor.Maps.{lookup-insert}

-- One id has another contract, the others are as they were.
abbrev pub IsReplaced : ContractId → Contract → (m m' : Contracts) → Type 0
IsReplaced own c m m' =
    (j : ContractId) → get_contract m' j ≡ (if list_eqb j own then some c else get_contract m j)

-- One id has a contract and a temporary one is free, the others are as they were.
abbrev pub IsMoved : (own temporary : ContractId) → Contract → (m m' : Contracts) → Type 0
IsMoved own temporary c m m' =
    (j : ContractId)
    → get_contract m' j
      ≡ (if list_eqb j own then some c else if list_eqb j temporary then none else get_contract m j)

pub update-IsReplaced :
    (h : Hashes) (m : Contracts) (c : Contract)
    → free_temporary m c ≡ m
    → IsReplaced (get_id h c) c m (update_contract h m c)
unfolding update_contract get_contract
update-IsReplaced h m c stays j =
    lookup-insert list_eqb list_eqb→eq list_eqb_refl j (get_id h c) c (free_temporary m c)
    ∙ rw stays refl

pub signed-IsMoved :
    (h : Hashes) (m : Contracts) (c : SignedContract)
    → IsMoved
        (get_contract_id h c.accepted_contract)
        c.accepted_contract.offered_contract.id
        (signed c)
        m
        (update_contract h m (signed c))
unfolding update_contract get_contract get_id get_temporary_id
signed-IsMoved h m c j =
    lookup-insert list_eqb list_eqb→eq list_eqb_refl j (get_contract_id h c.accepted_contract)
      (signed c) (delete_contract m c.accepted_contract.offered_contract.id)
    ∙ rw (lookup-delete j c.accepted_contract.offered_contract.id m) refl

pub accepted-IsMoved :
    (h : Hashes) (m : Contracts) (a : AcceptedContract)
    → IsMoved
        (get_contract_id h a)
        a.offered_contract.id
        (accepted a)
        m
        (update_contract h m (accepted a))
unfolding update_contract get_contract get_id get_temporary_id
accepted-IsMoved h m a j =
    lookup-insert list_eqb list_eqb→eq list_eqb_refl j (get_contract_id h a) (accepted a)
      (delete_contract m a.offered_contract.id)
    ∙ rw (lookup-delete j a.offered_contract.id m) refl

pub create-IsReplaced :
    (m : Contracts) (o : OfferedContract) → IsReplaced o.id (offered o) m (create_contract m o)
unfolding create_contract get_contract
create-IsReplaced m o j = lookup-insert list_eqb list_eqb→eq list_eqb_refl j o.id (offered o) m

-- An offer or an accepted contract of a peer, under an id.
abbrev pub IsOfferOf : State → ContractId → PublicKey → OfferedContract → Type 0
IsOfferOf s id peer o = (get_contract s.contracts id ≡ some (offered o)) × (o.counter_party ≡ peer)

abbrev pub IsAcceptedOf : State → ContractId → PublicKey → AcceptedContract → Type 0
IsAcceptedOf s id peer a =
    (get_contract s.contracts id ≡ some (accepted a)) × (a.offered_contract.counter_party ≡ peer)

module _ (s : State) (id : ContractId) (peer : PublicKey) where
  pub IsOfferOf-read :
      (o : OfferedContract)
      → IsOfferOf s id peer o
      → contract_in_state offered_in (some peer) id s ≡ ok o
  unfolding contract_in_state get_counter_party_id
  IsOfferOf-read o (found, own) =
      let same : (o.counter_party == peer) ≡ true = (==_iff _ _).1 own in rw (found, same) refl

  pub IsAcceptedOf-read :
      (a : AcceptedContract)
      → IsAcceptedOf s id peer a
      → contract_in_state accepted_in (some peer) id s ≡ ok a
  unfolding contract_in_state get_counter_party_id
  IsAcceptedOf-read a (found, own) =
      let same : (a.offered_contract.counter_party == peer) ≡ true = (==_iff _ _).1 own in
      rw (found, same) refl

-- What is read of a contract was read of one that is stored, of the peer.
pub contract_in_state-found :
    {A : Type 0} (view : Contract → Option A) (peer : Option PublicKey) (id : ContractId)
    (s : State) (x : A)
    → contract_in_state view peer id s ≡ ok x
    → (c : Contract) × (get_contract s.contracts id ≡ some c)
      × (is_peer peer c ≡ true)
      × (view c ≡ some x)
unfolding contract_in_state
contract_in_state-found {A} view peer id s x h = by_slot (get_contract s.contracts id) h
  where
    viewed : (c : Contract) (o : Option A) → or_error o invalid_state ≡ ok x → o ≡ some x
    viewed c none h = cc
    viewed c (some y) h = cc

    by_slot :
        (o : Option Contract)
        → view_found view peer o ≡ ok x
        → (c : Contract) × (o ≡ some c) × (is_peer peer c ≡ true) × (view c ≡ some x)
    by_slot none h = cc
    by_slot (some c) h = elim (Bool-cases (is_peer peer c)) [
      | inl same ↦ (c, refl, same, viewed c (view c) (rw same at h))
      | inr other ↦ cc (rw other at h)
    ]

is_offered : (c : Contract) (o : OfferedContract) → offered_in c ≡ some o → c ≡ offered o
is_offered (offered p) o h = cc
is_offered (accepted a) o h = cc
is_offered (signed s) o h = cc
is_offered (confirmed s) o h = cc
is_offered (pre_closed p) o h = cc
is_offered (closed c) o h = cc
is_offered (refunded s) o h = cc
is_offered (failed_accept f) o h = cc
is_offered (failed_sign f) o h = cc
is_offered (rejected p) o h = cc

is_accepted : (c : Contract) (a : AcceptedContract) → accepted_in c ≡ some a → c ≡ accepted a
is_accepted (offered p) o h = cc
is_accepted (accepted a) o h = cc
is_accepted (signed s) o h = cc
is_accepted (confirmed s) o h = cc
is_accepted (pre_closed p) o h = cc
is_accepted (closed c) o h = cc
is_accepted (refunded s) o h = cc
is_accepted (failed_accept f) o h = cc
is_accepted (failed_sign f) o h = cc
is_accepted (rejected p) o h = cc

is_confirmed : (c : Contract) (s : SignedContract) → confirmed_in c ≡ some s → c ≡ confirmed s
is_confirmed (offered p) o h = cc
is_confirmed (accepted a) o h = cc
is_confirmed (signed s) o h = cc
is_confirmed (confirmed s) o h = cc
is_confirmed (pre_closed p) o h = cc
is_confirmed (closed c) o h = cc
is_confirmed (refunded s) o h = cc
is_confirmed (failed_accept f) o h = cc
is_confirmed (failed_sign f) o h = cc
is_confirmed (rejected p) o h = cc

module _ (s : State) (peer : Option PublicKey) (id : ContractId) where
  pub offered_found :
      (o : OfferedContract)
      → contract_in_state offered_in peer id s ≡ ok o
      → get_contract s.contracts id ≡ some (offered o)
  offered_found o h =
      let (c, found, own, viewed) = contract_in_state-found offered_in peer id s o h in
      found ∙ ap some (is_offered c o viewed)

  pub accepted_found :
      (a : AcceptedContract)
      → contract_in_state accepted_in peer id s ≡ ok a
      → get_contract s.contracts id ≡ some (accepted a)
  accepted_found a h =
      let (c, found, own, viewed) = contract_in_state-found accepted_in peer id s a h in
      found ∙ ap some (is_accepted c a viewed)

  pub confirmed_found :
      (a : SignedContract)
      → contract_in_state confirmed_in peer id s ≡ ok a
      → get_contract s.contracts id ≡ some (confirmed a)
  confirmed_found a h =
      let (c, found, own, viewed) = contract_in_state-found confirmed_in peer id s a h in
      found ∙ ap some (is_confirmed c a viewed)

module _ (s : State) (id : ContractId) (peer : PublicKey) where
  pub read-IsOfferOf :
      (o : OfferedContract)
      → contract_in_state offered_in (some peer) id s ≡ ok o
      → IsOfferOf s id peer o
  unfolding get_counter_party_id
  read-IsOfferOf o h =
      let (c, found, own, viewed) = contract_in_state-found offered_in (some peer) id s o h in
      let same : c ≡ offered o = is_offered c o viewed in
      (
        found ∙ ap some same,
        (==_iff _ _).0 (ap (λ (x : Contract). get_counter_party_id x == peer) (sym same) ∙ own),
      )

  pub read-IsAcceptedOf :
      (a : AcceptedContract)
      → contract_in_state accepted_in (some peer) id s ≡ ok a
      → IsAcceptedOf s id peer a
  unfolding get_counter_party_id
  read-IsAcceptedOf a h =
      let (c, found, own, viewed) = contract_in_state-found accepted_in (some peer) id s a h in
      let same : c ≡ accepted a = is_accepted c a viewed in
      (
        found ∙ ap some same,
        (==_iff _ _).0 (ap (λ (x : Contract). get_counter_party_id x == peer) (sym same) ∙ own),
      )

-- A read does not panic.
pub contract_in_state-cases :
    {A : Type 0} (view : Contract → Option A) (peer : Option PublicKey) (id : ContractId)
    (s : State)
    → ((x : A) × (contract_in_state view peer id s ≡ ok x))
      ⊎ ((e : Error) × (contract_in_state view peer id s ≡ err e))
unfolding contract_in_state
contract_in_state-cases {A} view peer id s = by_slot (get_contract s.contracts id)
  where
    viewed :
        (o : Option A)
        → ((x : A) × (or_error o invalid_state ≡ ok x))
          ⊎ ((e : Error) × (or_error o invalid_state ≡ err e))
    viewed none = inr (invalid_state, refl)
    viewed (some x) = inl (x, refl)

    by_slot :
        (o : Option Contract)
        → ((x : A) × (view_found view peer o ≡ ok x))
          ⊎ ((e : Error) × (view_found view peer o ≡ err e))
    by_slot none = inr (invalid_parameters, refl)
    by_slot (some c) = elim (Bool-cases (is_peer peer c)) [
      | inl same ↦ rw same (viewed (view c))
      | inr other ↦ rw other (inr (invalid_parameters, refl))
    ]

pub confirmed_read :
    (s : State) (id : ContractId) (c : SignedContract)
    → get_contract s.contracts id ≡ some (confirmed c)
    → contract_in_state confirmed_in none id s ≡ ok c
unfolding contract_in_state
confirmed_read s id c found = rw found refl

pub offered_found_read :
    (s : State) (id : ContractId) (o : OfferedContract)
    → get_contract s.contracts id ≡ some (offered o)
    → contract_in_state offered_in none id s ≡ ok o
unfolding contract_in_state
offered_found_read s id o found = rw found refl
