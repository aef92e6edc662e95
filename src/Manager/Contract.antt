-- ===== src/Manager/Contract.antt =====
-- ddk-manager/src/contract: a contract in each of its states, and what is read of it in all of them.
-- What no modelled code looks into is held as an opaque number: adaptor information, signatures and the
-- id of keys. The descriptor of a contract's payouts is left out.
use Prim.Native.Nat.{bit_xor}
use dlcdevkit.Base.{
  ℕ, zero, suc, ◌-◌, ◌/◌, ◌%◌, Bool, Option, List, [], ◌∷◌, list_eqb, reverse, if◌then◌else◌,
}
use dlcdevkit.Base.Int.{ℤ, pos, negsuc}
use dlcdevkit.Dlc.Types.{
  PublicKey, Txid, Script, Transaction, TxOut, PartyParams, DlcTransactions, Bitcoin,
}
use dlcdevkit.Kormir.Messages.{OracleAnnouncement, OracleAttestation}

abbrev pub ContractId : Type 0
ContractId = List ℕ

-- What is called of the bitcoin crate, with the bytes of a transaction id.
pub record Hashes : Type 0 where
  pub bitcoin : Bitcoin
  pub txid_bytes : Txid → List ℕ

pub record ContractInfo : Type 0 where
  pub oracle_announcements : List OracleAnnouncement
  pub threshold : ℕ

pub record DlcInput : Type 0 where
  pub local_fund_pubkey : PublicKey
  pub remote_fund_pubkey : PublicKey
  pub contract_id : ContractId

pub record FundingInput : Type 0 where
  pub input_serial_id : ℕ
  pub prev_tx : List ℕ
  pub prev_tx_vout : ℕ
  pub sequence : ℕ
  pub max_witness_len : ℕ
  pub redeem_script : Script
  pub dlc_input : Option DlcInput

pub record OfferedContract : Type 0 where
  pub id : ContractId
  pub is_offer_party : Bool
  pub contract_info : List ContractInfo
  pub counter_party : PublicKey
  pub offer_params : PartyParams
  pub total_collateral : ℕ
  pub funding_inputs : List FundingInput
  pub fund_output_serial_id : ℕ
  pub fee_rate_per_vb : ℕ
  pub cet_locktime : ℕ
  pub refund_locktime : ℕ
  pub contract_flags : ℕ
  pub keys_id : ℕ

pub record AcceptedContract : Type 0 where
  pub offered_contract : OfferedContract
  pub accept_params : PartyParams
  pub funding_inputs : List FundingInput
  pub adaptor_infos : List ℕ
  pub adaptor_signatures : List ℕ
  pub accept_refund_signature : ℕ
  pub dlc_transactions : DlcTransactions

pub record SignedContract : Type 0 where
  pub accepted_contract : AcceptedContract
  pub adaptor_signatures : List ℕ
  pub offer_refund_signature : ℕ
  pub funding_signatures : ℕ
  pub channel_id : Option ContractId

pub record PreClosedContract : Type 0 where
  pub signed_contract : SignedContract
  pub attestations : Option (List OracleAttestation)
  pub signed_cet : Transaction

pub record ClosedContract : Type 0 where
  pub attestations : Option (List OracleAttestation)
  pub signed_cet : Option Transaction
  pub contract_id : ContractId
  pub temporary_contract_id : ContractId
  pub counter_party_id : PublicKey
  pub funding_txid : Txid
  pub pnl : ℤ
  pub signed_contract : SignedContract

-- Messages, with the fields that are not read here as the bytes that they are encoded to.
pub record OfferDlc : Type 0 where
  pub temporary_contract_id : ContractId
  pub wire : List ℕ

pub record AcceptDlc : Type 0 where
  pub temporary_contract_id : ContractId
  pub wire : List ℕ

pub record SignDlc : Type 0 where
  pub contract_id : ContractId
  pub wire : List ℕ

pub record CloseDlc : Type 0 where
  pub contract_id : ContractId
  pub wire : List ℕ

-- The message of the error is left out.
pub record FailedAcceptContract : Type 0 where
  pub offered_contract : OfferedContract
  pub accept_message : AcceptDlc

pub record FailedSignContract : Type 0 where
  pub accepted_contract : AcceptedContract
  pub sign_message : SignDlc

pub data Contract : Type 0 where
  offered : OfferedContract → Contract
  accepted : AcceptedContract → Contract
  signed : SignedContract → Contract
  confirmed : SignedContract → Contract
  pre_closed : PreClosedContract → Contract
  closed : ClosedContract → Contract
  refunded : SignedContract → Contract
  failed_accept : FailedAcceptContract → Contract
  failed_sign : FailedSignContract → Contract
  rejected : OfferedContract → Contract

-- `compute_id`: the bytes of the transaction id, last first, with those of the temporary id.
abbrev pub xor_bytes : List ℕ → List ℕ → List ℕ
xor_bytes [] ys = []
xor_bytes (x ∷ xs) [] = []
xor_bytes (x ∷ xs) (y ∷ ys) = bit_xor x y ∷ xor_bytes xs ys

-- The last two bytes with those of the output's index.
abbrev pub xor_index : ℕ → List ℕ → List ℕ
xor_index index [] = []
xor_index index (x ∷ []) = x ∷ []
xor_index index (x ∷ y ∷ []) = bit_xor x (index / 256 % 256) ∷ bit_xor y (index % 256) ∷ []
xor_index index (x ∷ y ∷ z ∷ xs) = x ∷ xor_index index (y ∷ z ∷ xs)

unfoldable pub compute_id : List ℕ → ℕ → ContractId → ContractId
compute_id fund_tx_id fund_output_index temporary_id =
    xor_index fund_output_index (xor_bytes (reverse fund_tx_id) temporary_id)

-- The first output with the script. Where there is none the code panics, and this is the number of
-- outputs: the fund transactions that are built here have one.
unfoldable pub output_index : Script → List TxOut → ℕ
output_index script [] = 0
output_index script (o ∷ os) =
    let rest = output_index script os in if list_eqb o.script_pubkey script then 0 else suc rest

module _ (h : Hashes) where
  unfoldable pub get_fund_output_index : DlcTransactions → ℕ
  get_fund_output_index t = output_index (h.bitcoin.to_p2wsh t.funding_witness_script) t.fund.output

  unfoldable pub get_contract_id : AcceptedContract → ContractId
  get_contract_id a =
      compute_id (h.txid_bytes (h.bitcoin.compute_txid a.dlc_transactions.fund))
        (get_fund_output_index a.dlc_transactions % 65536) a.offered_contract.id

  unfoldable pub get_id : Contract → ContractId
  get_id (offered o) = o.id
  get_id (rejected o) = o.id
  get_id (accepted a) = get_contract_id a
  get_id (signed s) = get_contract_id s.accepted_contract
  get_id (confirmed s) = get_contract_id s.accepted_contract
  get_id (refunded s) = get_contract_id s.accepted_contract
  get_id (failed_accept f) = f.offered_contract.id
  get_id (failed_sign f) = get_contract_id f.accepted_contract
  get_id (pre_closed p) = get_contract_id p.signed_contract.accepted_contract
  get_id (closed c) = c.contract_id

unfoldable pub get_temporary_id : Contract → ContractId
get_temporary_id (offered o) = o.id
get_temporary_id (rejected o) = o.id
get_temporary_id (accepted a) = a.offered_contract.id
get_temporary_id (signed s) = s.accepted_contract.offered_contract.id
get_temporary_id (confirmed s) = s.accepted_contract.offered_contract.id
get_temporary_id (refunded s) = s.accepted_contract.offered_contract.id
get_temporary_id (failed_accept f) = f.offered_contract.id
get_temporary_id (failed_sign f) = f.accepted_contract.offered_contract.id
get_temporary_id (pre_closed p) = p.signed_contract.accepted_contract.offered_contract.id
get_temporary_id (closed c) = c.temporary_contract_id

unfoldable pub get_counter_party_id : Contract → PublicKey
get_counter_party_id (offered o) = o.counter_party
get_counter_party_id (rejected o) = o.counter_party
get_counter_party_id (accepted a) = a.offered_contract.counter_party
get_counter_party_id (signed s) = s.accepted_contract.offered_contract.counter_party
get_counter_party_id (confirmed s) = s.accepted_contract.offered_contract.counter_party
get_counter_party_id (refunded s) = s.accepted_contract.offered_contract.counter_party
get_counter_party_id (failed_accept f) = f.offered_contract.counter_party
get_counter_party_id (failed_sign f) = f.accepted_contract.offered_contract.counter_party
get_counter_party_id (pre_closed p) =
    p.signed_contract.accepted_contract.offered_contract.counter_party
get_counter_party_id (closed c) = c.counter_party_id

-- The value of the first output that pays a script.
unfoldable pub find_payout : Script → List TxOut → ℕ
find_payout script [] = 0
find_payout script (o ∷ os) =
    let rest = find_payout script os in if list_eqb o.script_pubkey script then o.value else rest

-- a - b, of two amounts of at most the supply of bitcoin.
abbrev pub difference : ℕ → ℕ → ℤ
difference a b = elim (a - b) [ zero ↦ minus (b - a) | suc n ↦ pos (suc n) ]
  where
    minus : ℕ → ℤ
    minus zero = pos zero
    minus (suc n) = negsuc n

unfoldable pub compute_pnl : AcceptedContract → Transaction → ℤ
compute_pnl a cet =
    let party =
      if a.offered_contract.is_offer_party
      then a.offered_contract.offer_params
      else a.accept_params in
    difference (find_payout party.payout_script_pubkey cet.output) party.collateral
