-- ===== src/Manager/Environment.antt =====
-- What a manager works on: its store, what it broadcast, and the answers of all that it calls. During one
-- call of the manager, which comes without others in between, each question has one answer.
use dlcdevkit.Base.{ℕ, Bool, true, false, Option, List}
use dlcdevkit.Base.Outcome.{Outcome, ok, err, panicked}
use dlcdevkit.Dlc.Types.{PublicKey, Txid, Script, Transaction}
use dlcdevkit.Kormir.Messages.{Text, OracleAnnouncement, OracleAttestation, Schnorr}
use dlcdevkit.Manager.Contract.{
  ContractId, Hashes, ContractInfo, OfferedContract, AcceptedContract, SignedContract, OfferDlc,
  AcceptDlc, SignDlc, CloseDlc,
}
use dlcdevkit.Manager.Store.{Contracts}

-- The variants of ddk-manager's `Error`, without what they carry.
pub data Error : Type 0 where
  conversion io_error deserialize invalid_parameters invalid_state wallet_error blockchain_error :
      Error
  storage_error oracle_error dlc_error secp_error : Error

abbrev pub Result : Type 0 → Type 0
Result A = Outcome Error A

pub data ConfirmationStatus : Type 0 where
  not_found in_mempool : ConfirmationStatus
  confirmed_by : ℕ → ConfirmationStatus

unfoldable pub confirmations : ConfirmationStatus → ℕ
confirmations not_found = 0
confirmations in_mempool = 0
confirmations (confirmed_by n) = n

pub record OracleClient : Type 0 where
  pub get_announcement : Text → Result OracleAnnouncement
  pub get_attestation : Text → Result OracleAttestation

pub record Environment : Type 0 where
  pub hashes : Hashes
  pub secp : Schnorr
  pub oracles : PublicKey → Option OracleClient
  pub unix_time_now : ℕ
  -- the two settings that are read from the process's environment
  pub nb_confirmations : ℕ
  pub automatic_refund : Bool
  -- the blockchain and the wallet
  pub get_blockchain_height : Result ℕ
  pub get_transaction_confirmations : Txid → Result ConfirmationStatus
  pub send_transaction : Transaction → Result (Unit {0})
  -- `LockTime::is_satisfied_by`: the lock time, the height and the time
  pub is_satisfied_by : ℕ → ℕ → ℕ → Bool
  -- also the network's name, which the address takes
  pub import_address : Script → Result (Unit {0})
  -- keys: an id of keys, and the signer of one
  pub derive_signer_key_id : ContractId → ℕ
  pub derive_contract_signer : ℕ → Result ℕ
  -- the checks of an offer and its conversion, with the id of its keys
  pub validate_offer : OfferDlc → Result (Unit {0})
  pub try_from_offer_dlc : OfferDlc → PublicKey → ℕ → Result OfferedContract
  pub validate_contract : OfferedContract → Result (Unit {0})
  -- ddk-manager/src/contract_updater.rs
  pub accept_contract : OfferedContract → Result (AcceptedContract × AcceptDlc)
  pub verify_accepted_and_sign_contract :
      Contracts → OfferedContract → AcceptDlc → Result (SignedContract × SignDlc)
  pub verify_signed_contract :
      Contracts → AcceptedContract → SignDlc → Result (SignedContract × Transaction)
  pub get_signed_cet :
      SignedContract → ContractInfo → ℕ → List (ℕ × OracleAttestation) → ℕ → Result Transaction
  pub get_signed_refund : SignedContract → ℕ → Result Transaction
  pub create_cooperative_close : SignedContract → ℕ → Result (CloseDlc × Transaction)
  pub complete_cooperative_close : SignedContract → CloseDlc → Result Transaction

pub record State : Type 0 where
  pub contracts : Contracts
  -- what the blockchain took to broadcast, in order
  pub sent : List Transaction

-- A call on the state: what it leaves, and what it returns.
abbrev pub M : Type 0 → Type 0
M A = State → State × Result A

abbrev pub next : {A B : Type 0} → State × Result A → (A → M B) → State × Result B
next (s, ok a) rest = rest a s
next (s, err e) rest = (s, err e)
next (s, panicked) rest = (s, panicked)

infixl 5 ◌>>=◌ ◌>>◌
abbrev pub ◌>>=◌ : {A B : Type 0} → M A → (A → M B) → M B
◌>>=◌ call rest s = next (call s) rest

abbrev pub ◌>>◌ : {B : Type 0} → M (Unit {0}) → M B → M B
call >> rest = call >>= λ _. rest

abbrev pub return : {A : Type 0} → A → M A
return a s = (s, ok a)

abbrev pub fail : {A : Type 0} → Error → M A
fail e s = (s, err e)

-- A question that changes nothing.
abbrev pub ask : {A : Type 0} → Result A → M A
ask answer s = (s, answer)

abbrev pub reads : {A : Type 0} → (State → Result A) → M A
reads question s = (s, question s)

abbrev pub when : Bool → M (Unit {0}) → M (Unit {0})
when true action = action
when false action = return tt
