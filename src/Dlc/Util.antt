-- ===== src/Dlc/Util.antt =====
-- dlc/src/util.rs: fees by weight, the order of inputs and outputs, dust, sequence numbers.
pub mod Order
use dlcdevkit.Base.{
  ℕ, zero, suc, ◌+◌, ◌*◌, ◌/◌, Bool, Option, none, some, List, [], ◌∷◌, ltb, leb, ◌==◌,
  if◌then◌else◌, length, retain, list_eqb,
}
use dlcdevkit.Base.Outcome.{ok, err, unwrap, ok_or, guard, ◌>>=◌}
use dlcdevkit.Base.Word.{checked_mul}
use dlcdevkit.Base.Float.{to_f64, ceil_quarter}
use dlcdevkit.Dlc.Types.{Script, Result, invalid_argument, TxOut, Transaction, Bitcoin}

abbrev pub disable_locktime : ℕ
disable_locktime = 0xffffffff

abbrev pub enable_locktime : ℕ
enable_locktime = 0xfffffffe

unfoldable pub weight_to_fee : ℕ → ℕ → Result ℕ
weight_to_fee weight fee_rate =
    ok_or (checked_mul (ceil_quarter (to_f64 weight)) fee_rate) invalid_argument

abbrev pub fund_tx_base_weight : ℕ
fund_tx_base_weight = 214

abbrev pub cet_base_weight : ℕ
cet_base_weight = 500

unfoldable pub get_common_fee : ℕ → Result ℕ
get_common_fee fee_rate = weight_to_fee (fund_tx_base_weight + cet_base_weight) fee_rate

unfoldable pub redeem_script_to_script_sig : Bitcoin → Script → Result Script
redeem_script_to_script_sig b [] = ok []
redeem_script_to_script_sig b (x ∷ xs) = unwrap (b.witness_program (x ∷ xs))

-- `sort_by` on the ids, which is stable: an element goes behind those with the same id.
module _ {ℓ} {A : Type ℓ} where
  unfoldable pub insert_by_id : ℕ → A → List (ℕ × A) → List (ℕ × A)
  insert_by_id i a [] = (i, a) ∷ []
  insert_by_id i a ((j, c) ∷ rest) =
      if leb i j then (i, a) ∷ (j, c) ∷ rest else (j, c) ∷ insert_by_id i a rest

  unfoldable pub sort_by_id : List (ℕ × A) → List (ℕ × A)
  sort_by_id [] = []
  sort_by_id ((i, a) ∷ rest) = insert_by_id i a (sort_by_id rest)

  unfoldable pub zip_ids : List ℕ → List A → List (ℕ × A)
  zip_ids [] as' = []
  zip_ids (i ∷ is) [] = []
  zip_ids (i ∷ is) (a ∷ as') = (i, a) ∷ zip_ids is as'

  abbrev pub values : List (ℕ × A) → List A
  values [] = []
  values ((i, a) ∷ rest) = a ∷ values rest

  unfoldable pub order_by_serial_ids : List A → List ℕ → List A
  order_by_serial_ids inputs ids = values (sort_by_id (zip_ids ids inputs))

unfoldable pub find_output : ℕ → List TxOut → Script → Option (ℕ × TxOut)
find_output i [] script = none
find_output i (o ∷ os) script =
    let rest = find_output (i + 1) os script in
    if list_eqb o.script_pubkey script then some (i, o) else rest

unfoldable pub get_output_for_script_pubkey : Transaction → Script → Option (ℕ × TxOut)
unfolding find_output
get_output_for_script_pubkey tx script = find_output 0 tx.output script

unfoldable pub discard_dust : List TxOut → ℕ → List TxOut
discard_dust txs dust_limit = retain (λ x. leb dust_limit x.value) txs

unfoldable pub get_sequence : ℕ → ℕ
get_sequence lock_time = if lock_time == 0 then disable_locktime else enable_locktime

unfoldable pub validate_fee_rate : ℕ → Result (Unit {0})
validate_fee_rate fee_rate_per_vb =
    if ltb (25 * 250) fee_rate_per_vb then err invalid_argument else ok tt
