-- ===== src/Manager/Store.antt =====
-- ddk/src/storage/sled/contract.rs: the contracts that are stored, by their id. Serialization is taken
-- to succeed and to be undone by deserialization. What an iteration yields comes in an order that the
-- code does not rely on.
pub mod Slots
use dlcdevkit.Base.{Bool, true, false, Option, none, some, List, [], ◌∷◌, list_eqb, if◌then◌else◌}
use dlcdevkit.Manager.Contract.{
  ContractId, Hashes, OfferedContract, SignedContract, PreClosedContract, Contract, offered,
  accepted, signed, confirmed, pre_closed, closed, refunded, failed_accept, failed_sign, rejected,
  get_id, get_temporary_id,
}
use dlcdevkit.Manager.Monitor.Maps.{lookup, insert}

abbrev pub Contracts : Type 0
Contracts = List (ContractId × Contract)

unfoldable pub get_contract : Contracts → ContractId → Option Contract
get_contract contracts id = lookup list_eqb id contracts

unfoldable pub create_contract : Contracts → OfferedContract → Contracts
create_contract contracts o = insert list_eqb o.id (offered o) contracts

unfoldable pub delete_contract : Contracts → ContractId → Contracts
delete_contract [] id = []
delete_contract ((j, c) ∷ m) id =
    let rest = delete_contract m id in if list_eqb id j then rest else (j, c) ∷ rest

-- The contract's temporary id is freed when it is accepted or signed.
abbrev pub free_temporary : Contracts → Contract → Contracts
free_temporary m (accepted a) = delete_contract m (get_temporary_id (accepted a))
free_temporary m (signed s) = delete_contract m (get_temporary_id (signed s))
free_temporary m (offered o) = m
free_temporary m (confirmed s) = m
free_temporary m (pre_closed p) = m
free_temporary m (closed c) = m
free_temporary m (refunded s) = m
free_temporary m (failed_accept f) = m
free_temporary m (failed_sign f) = m
free_temporary m (rejected o) = m

unfoldable pub update_contract : Hashes → Contracts → Contract → Contracts
update_contract h m c = insert list_eqb (get_id h c) c (free_temporary m c)

-- The contracts of one state.
abbrev pub signed_in : Contract → Option SignedContract
signed_in (signed s) = some s
signed_in (offered o) = none
signed_in (accepted a) = none
signed_in (confirmed s) = none
signed_in (pre_closed p) = none
signed_in (closed c) = none
signed_in (refunded s) = none
signed_in (failed_accept f) = none
signed_in (failed_sign f) = none
signed_in (rejected o) = none

abbrev pub confirmed_in : Contract → Option SignedContract
confirmed_in (confirmed s) = some s
confirmed_in (offered o) = none
confirmed_in (accepted a) = none
confirmed_in (signed s) = none
confirmed_in (pre_closed p) = none
confirmed_in (closed c) = none
confirmed_in (refunded s) = none
confirmed_in (failed_accept f) = none
confirmed_in (failed_sign f) = none
confirmed_in (rejected o) = none

abbrev pub pre_closed_in : Contract → Option PreClosedContract
pre_closed_in (pre_closed p) = some p
pre_closed_in (offered o) = none
pre_closed_in (accepted a) = none
pre_closed_in (signed s) = none
pre_closed_in (confirmed s) = none
pre_closed_in (closed c) = none
pre_closed_in (refunded s) = none
pre_closed_in (failed_accept f) = none
pre_closed_in (failed_sign f) = none
pre_closed_in (rejected o) = none

abbrev pub keep {ℓ} : {A : Type ℓ} → Option A → List A → List A
keep none xs = xs
keep (some x) xs = x ∷ xs

-- `get_data_with_prefix`
unfoldable pub all_in {ℓ} : {A : Type ℓ} → (Contract → Option A) → Contracts → List A
all_in view [] = []
all_in view ((j, c) ∷ m) = keep (view c) (all_in view m)

abbrev pub get_signed_contracts : Contracts → List SignedContract
get_signed_contracts = all_in signed_in

abbrev pub get_confirmed_contracts : Contracts → List SignedContract
get_confirmed_contracts = all_in confirmed_in

abbrev pub get_preclosed_contracts : Contracts → List PreClosedContract
get_preclosed_contracts = all_in pre_closed_in
