-- ===== src/Manager/Input.antt =====
-- ddk-manager/src/contract/contract_input.rs: what is asked of the terms of a contract.
pub mod Checks
use dlcdevkit.Base.{ℕ, ◌+◌, ◌%◌, Bool, List, [], ◌∷◌, length, ltb, ◌==◌, ◌&&◌, not, if◌then◌else◌}
use dlcdevkit.Base.Outcome.{Outcome, ok, err, panicked, guard, ◌>>=◌, ◌>>◌}
use dlcdevkit.Base.Word.{add_amount}
use dlcdevkit.Dlc.Types.{Result}
use dlcdevkit.Dlc.Util.{validate_fee_rate}
use dlcdevkit.Dlc.Fund.{dust_limit}

-- `Error::InvalidParameters`, without its text.
pub data Error : Type 0 where
  invalid_parameters : Error

pub record OracleInput : Type 0 where
  pub public_keys : List ℕ
  pub event_id : List ℕ
  pub threshold : ℕ

-- The descriptor is of any type: it is not looked at here.
pub record ContractInputInfo (Descriptor : Type 0) : Type 0 where
  pub contract_descriptor : Descriptor
  pub oracles : OracleInput

pub record ContractInput (Descriptor : Type 0) : Type 0 where
  pub offer_collateral : ℕ
  pub accept_collateral : ℕ
  pub fee_rate : ℕ
  pub contract_flags : ℕ
  pub contract_infos : List (ContractInputInfo Descriptor)

-- The number of keys is cut to 16 bits.
unfoldable pub validate_oracle : OracleInput → Outcome Error (Unit {0})
validate_oracle o =
    if length o.public_keys == 0
    then err invalid_parameters
    else if ltb (length o.public_keys % 65536) o.threshold
    then err invalid_parameters
    else if o.threshold == 0
    then err invalid_parameters
    else ok tt

-- `map_err` on the result of the fee rate's check.
abbrev pub map_err : Result (Unit {0}) → Outcome Error (Unit {0})
map_err (ok u) = ok tt
map_err (err e) = err invalid_parameters
map_err panicked = panicked

unfoldable pub validate_fee : ℕ → Outcome Error (Unit {0})
validate_fee fee_rate = map_err (validate_fee_rate fee_rate)

module _ {Descriptor : Type 0} where
  unfoldable pub validate_oracles : List (ContractInputInfo Descriptor) → Outcome Error (Unit {0})
  validate_oracles [] = ok tt
  validate_oracles (i ∷ is) = do validate_oracle i.oracles; validate_oracles is

  unfoldable pub validate : ContractInput Descriptor → Outcome Error (Unit {0})
  validate c = do
    guard (not (ltb 0 c.offer_collateral && ltb c.offer_collateral dust_limit)) invalid_parameters
    total_collateral ← add_amount c.offer_collateral c.accept_collateral
    guard (not (ltb total_collateral dust_limit)) invalid_parameters
    guard (not (length c.contract_infos == 0)) invalid_parameters
    validate_oracles c.contract_infos
    validate_fee c.fee_rate
