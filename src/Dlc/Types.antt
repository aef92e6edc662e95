-- ===== src/Dlc/Types.antt =====
-- dlc/src/lib.rs: the data of the crate, and what it takes of the bitcoin and secp256k1 crates.
-- Amounts are satoshis and lengths are `usize`, both below 2 ^ 64. A script is its bytes; a
-- public key and a transaction id are held as opaque numbers.
use dlcdevkit.Base.{ℕ, Bool, Option, List}
use dlcdevkit.Base.Outcome.{Outcome}

abbrev pub Script : Type 0
Script = List ℕ

abbrev pub PublicKey : Type 0
PublicKey = ℕ

abbrev pub Txid : Type 0
Txid = ℕ

-- The variants of `Error`, without the values that they carry.
pub data Error : Type 0 where
  secp256k1 p2wpkh invalid_argument miniscript inputs_index : Error

abbrev pub Result : Type 0 → Type 0
Result A = Outcome Error A

pub record OutPoint : Type 0 where
  pub txid : Txid
  pub vout : ℕ

pub record TxOut : Type 0 where
  pub value : ℕ
  pub script_pubkey : Script

-- The witness is empty in every transaction that is built here, and left out.
pub record TxIn : Type 0 where
  pub previous_output : OutPoint
  pub script_sig : Script
  pub sequence : ℕ

pub record Transaction : Type 0 where
  pub version : ℕ
  pub lock_time : ℕ
  pub input : List TxIn
  pub output : List TxOut

pub record Payout : Type 0 where
  pub offer : ℕ
  pub accept : ℕ

pub record DlcTransactions : Type 0 where
  pub fund : Transaction
  pub cets : List Transaction
  pub refund : Transaction
  pub funding_witness_script : Script
  pub pending_close_txs : List Transaction

pub record TxInputInfo : Type 0 where
  pub outpoint : OutPoint
  pub max_witness_len : ℕ
  pub redeem_script : Script
  pub serial_id : ℕ

pub record DlcInputInfo : Type 0 where
  pub fund_tx : Transaction
  pub fund_vout : ℕ
  pub local_fund_pubkey : PublicKey
  pub remote_fund_pubkey : PublicKey
  pub fund_amount : ℕ
  pub max_witness_len : ℕ
  pub input_serial_id : ℕ
  pub contract_id : List ℕ

pub record PartyParams : Type 0 where
  pub fund_pubkey : PublicKey
  pub change_script_pubkey : Script
  pub change_serial_id : ℕ
  pub payout_script_pubkey : Script
  pub payout_serial_id : ℕ
  pub inputs : List TxInputInfo
  pub dlc_inputs : List DlcInputInfo
  pub input_amount : ℕ
  pub collateral : ℕ

-- What the crate calls of its dependencies.
pub record Bitcoin : Type 0 where
  -- `ScriptBuf::to_p2wsh`
  pub to_p2wsh : Script → Script
  -- `Transaction::compute_txid`
  pub compute_txid : Transaction → Txid
  -- `ScriptBuf::new_witness_program` of `WitnessProgram::new` at version 0, none where that fails
  pub witness_program : Script → Option Script
  -- `PublicKey::serialize`, and the order of public keys
  pub serialize : PublicKey → List ℕ
  pub key_leb : PublicKey → PublicKey → Bool
  -- the `Builder` of OP_2 <first> <second> OP_2 OP_CHECKMULTISIG
  pub multisig : List ℕ → List ℕ → Script
