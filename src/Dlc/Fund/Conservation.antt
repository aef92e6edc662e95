-- ===== src/Dlc/Fund/Conservation.antt =====
-- The funding transaction: no satoshi is lost or made, and when building it can panic.
use dlcdevkit.Base.{
  ℕ, ◌+◌, ◌≤◌, ◌<◌, ◌≡◌, ◌≢◌, refl, inl, inr, arith, lt→ltb, List, [], ◌∷◌, total, Has,
}
use dlcdevkit.Base.Outcome.{ok, panicked, Outcome-cases}
use dlcdevkit.Base.Word.{u64_mod}
use dlcdevkit.Dlc.Types.{
  Script, Result, TxOut, TxIn, TxInputInfo, Transaction, PartyParams, Bitcoin,
}
use dlcdevkit.Dlc.Util.{order_by_serial_ids, get_sequence, redeem_script_to_script_sig}
use dlcdevkit.Dlc.Util.Order.{
  total-order_by_serial_ids, total-discard_dust, Has-order_by_serial_ids, Has-discard_dust,
}
use dlcdevkit.Dlc.Fees.{
  add_input_weight, add_inputs_weight, get_dlc_inputs_weight, get_fund_fee, get_funded_change,
  get_change_output_and_fees,
}
use dlcdevkit.Dlc.Fees.Balance.{change_balance}
use dlcdevkit.Dlc.Fund.{
  dust_limit, get_unsigned_tx_inputs, create_funding_transaction, get_fund_output_value,
  create_fund_transaction_with_fees, serial_ids, make_funding_redeemscript,
}
use dlcdevkit.Dlc.Fund.Value.{fund_output_value-eq, fund_output_value_ok, fund_output_value-ne-err}

-- The sum of a transaction's outputs.
abbrev pub output_sum : Transaction → ℕ
output_sum tx = total (λ (o : TxOut). o.value) tx.output

module _ (b : Bitcoin) (script : Script) (amount : ℕ) (offer_ins : List TxIn) (offer_ids : List ℕ)
    (accept_ins : List TxIn) (accept_ids : List ℕ) (oc : TxOut) (oc_id : ℕ) (ac : TxOut)
    (ac_id fund_id lock : ℕ) where
  fund_tx : Transaction
  fund_tx =
      create_funding_transaction b script amount offer_ins offer_ids accept_ins accept_ids oc oc_id
        ac ac_id fund_id lock

  output_sum-fund_tx :
      (output_sum fund_tx ≤ amount + oc.value + ac.value)
      × (amount + oc.value + ac.value ≤ output_sum fund_tx + 3000)
  unfolding fund_tx create_funding_transaction
  output_sum-fund_tx = omega (arith, total-discard_dust dust_limit ordered, summed, counted)
    where
      outs : List TxOut
      outs = record { value = amount; script_pubkey = b.to_p2wsh script } ∷ oc ∷ ac ∷ []

      ids : List ℕ
      ids = fund_id ∷ oc_id ∷ ac_id ∷ []

      ordered : List TxOut
      ordered = order_by_serial_ids outs ids

      summed : total (λ (o : TxOut). o.value) ordered ≡ amount + (oc.value + (ac.value + 0))
      summed = total-order_by_serial_ids (λ (o : TxOut). o.value) outs ids refl

      counted :
          total (λ (o : TxOut). dust_limit) ordered ≡ dust_limit + (dust_limit + (dust_limit + 0))
      counted = total-order_by_serial_ids (λ (o : TxOut). dust_limit) outs ids refl

  Has-fund_tx :
      dust_limit ≤ amount
      → Has (record { value = amount; script_pubkey = b.to_p2wsh script }) fund_tx.output
  unfolding fund_tx create_funding_transaction
  Has-fund_tx h = Has-discard_dust dust_limit _ _ h (Has-order_by_serial_ids _ _ _ refl (inl refl))

-- What a funding transaction that is returned was made of.
module _ (b : Bitcoin) (o a : PartyParams) (rate lock fund_id extra : ℕ) {oc ac : TxOut}
    {off ocf aff acf : ℕ} {tx : Transaction} {s : Script}
    (offer_pays : get_change_output_and_fees b o (o.collateral + a.collateral) rate extra
      ≡ ok (oc, off, ocf))
    (accept_pays : get_change_output_and_fees b a (o.collateral + a.collateral) rate extra
      ≡ ok (ac, aff, acf))
    (made : create_fund_transaction_with_fees b o a rate lock fund_id extra ≡ ok (tx, s)) where
  parts :
      (v : ℕ) × (oins : List TxIn) × (ains : List TxIn) × (get_fund_output_value o a
          (o.collateral + a.collateral)
          oc.value
          ac.value
          off
          aff
          ocf
          acf
          extra
        ≡ ok v)
      × (tx
          ≡ fund_tx b s v oins
              (serial_ids o.inputs)
              ains
              (serial_ids a.inputs)
              oc
              o.change_serial_id
              ac
              a.change_serial_id
              fund_id
              lock)
  unfolding create_fund_transaction_with_fees fund_tx
  parts = elim (Outcome-cases value) [
    | inl (v, ev) ↦ elim (Outcome-cases oins) [
      | inl (os, eo) ↦ elim (Outcome-cases ains) [
        | inl (as', ea) ↦ (v, os, as', ev, ground arith)
        | inr none_a ↦ absurd (ground arith)
      ]
      | inr none_o ↦ absurd (ground arith)
    ]
    | inr none_v ↦ absurd (ground arith)
  ]
    where
      value : Result ℕ
      value =
          get_fund_output_value o a (o.collateral + a.collateral) oc.value ac.value off aff ocf acf
            extra

      oins : Result (List TxIn)
      oins = get_unsigned_tx_inputs b (get_sequence lock) o.inputs

      ains : Result (List TxIn)
      ains = get_unsigned_tx_inputs b (get_sequence lock) a.inputs

  -- Given what the parties pay: the outputs, the two funding fees and the extra fee come to the inputs,
  -- up to outputs below the dust limit, which are dropped; these make less than three such limits.
  pub fund_conserves :
      (output_sum tx + off + aff + extra ≤ o.input_amount + a.input_amount)
      × (o.input_amount + a.input_amount ≤ output_sum tx + 3000 + off + aff + extra)
  fund_conserves =
      let (v, os, as', ev, et) = parts in
      rw et (
        omega (
          arith,
          fund_output_value-eq o a (o.collateral + a.collateral) oc.value ac.value off aff ocf acf
              extra ev,
          output_sum-fund_tx b s v os (serial_ids o.inputs) as' (serial_ids a.inputs) oc
              o.change_serial_id ac a.change_serial_id fund_id lock,
        ))

  -- Given what the parties pay, and that it is not dust: an output to the funding script holds both
  -- collaterals, both parties' fees for the closing transaction, and the extra fee.
  pub fund_output_locked :
      dust_limit ≤ o.collateral + a.collateral + ocf + acf + extra
      → Has
          (record {
            value = o.collateral + a.collateral + ocf + acf + extra;
            script_pubkey = b.to_p2wsh s;
          })
          tx.output
  fund_output_locked h =
      let (v, os, as', ev, et) = parts in
      let e : v ≡ o.collateral + a.collateral + ocf + acf + extra =
        (fund_output_value-eq o a (o.collateral + a.collateral) oc.value ac.value off aff ocf acf
          extra ev).0 in
      rw (et, ← e)
        (Has-fund_tx b s v os (serial_ids o.inputs) as' (serial_ids a.inputs) oc o.change_serial_id
          ac a.change_serial_id fund_id lock (rw e h))

-- Inputs that could be weighed can be written.
unsigned_ok :
    (b : Bitcoin) (seq w : ℕ) (ws : List TxInputInfo) {n : ℕ}
    → add_inputs_weight b w ws ≡ ok n
    → (ins : List TxIn) × (get_unsigned_tx_inputs b seq ws ≡ ok ins)
unfolding get_unsigned_tx_inputs add_inputs_weight
unsigned_ok b seq w [] h = ([], refl)
unsigned_ok b seq w (x ∷ ws) {n} h = elim (Outcome-cases (add_input_weight b w x)) [
  | inl (w', e) ↦ elim (Outcome-cases (redeem_script_to_script_sig b x.redeem_script)) [
    | inl (script_sig, es) ↦
        let (ins, ei) = unsigned_ok b seq w' ws {n = n} (ground arith) in
        (
          record { previous_output = x.outpoint; script_sig = script_sig; sequence = seq } ∷ ins,
          rw (es, ei),
        )
    | inr failed ↦ absurd (unfold add_input_weight in ground arith)
  ]
  | inr failed ↦ absurd (ground arith)
]

change_writes :
    (b : Bitcoin) (p : PartyParams) (coll rate extra seq : ℕ) {r : TxOut × ℕ × ℕ}
    → p.collateral ≢ 0
    → get_change_output_and_fees b p coll rate extra ≡ ok r
    → (ins : List TxIn) × (get_unsigned_tx_inputs b seq p.inputs ≡ ok ins)
unfolding get_change_output_and_fees get_funded_change get_fund_fee
change_writes b p coll rate extra seq {r} funded h =
    elim (Outcome-cases (add_inputs_weight b (get_dlc_inputs_weight p.dlc_inputs) p.inputs)) [
      | inl (n, e) ↦ unsigned_ok b seq _ p.inputs {n = n} e
      | inr failed ↦ absurd (ground arith)
    ]

-- Where both parties put collateral in and can pay, and their inputs add up to a 64-bit amount, the
-- funding transaction is made: no assertion fails and nothing overflows.
pub create_fund_ok :
    (b : Bitcoin) (o a : PartyParams) (rate lock fund_id extra : ℕ) {oc ac : TxOut}
    {off ocf aff acf : ℕ}
    → o.collateral ≢ 0
    → a.collateral ≢ 0
    → o.input_amount + a.input_amount < u64_mod
    → get_change_output_and_fees b o (o.collateral + a.collateral) rate extra ≡ ok (oc, off, ocf)
    → get_change_output_and_fees b a (o.collateral + a.collateral) rate extra ≡ ok (ac, aff, acf)
    → (r : Transaction × Script) × (create_fund_transaction_with_fees b o a rate lock fund_id extra
        ≡ ok r)
unfolding create_fund_transaction_with_fees
create_fund_ok b o a rate lock fund_id extra {oc} {ac} {off} {ocf} {aff} {acf} fo fa fits ho ha =
    let (oins, eo) =
      change_writes b o (o.collateral + a.collateral) rate extra (get_sequence lock) fo ho in
    let (ains, ea) =
      change_writes b a (o.collateral + a.collateral) rate extra (get_sequence lock) fa ha in
    let script = make_funding_redeemscript b o.fund_pubkey a.fund_pubkey in
    (
      (
        create_funding_transaction b script (o.collateral + a.collateral + ocf + acf + extra) oins
            (serial_ids o.inputs) ains (serial_ids a.inputs) oc o.change_serial_id ac
            a.change_serial_id fund_id lock,
        script,
      ),
      rw (lt→ltb (o.collateral + a.collateral) u64_mod room, ho, ha, value, eo, ea),
    )
  where
    offer_balance : o.input_amount ≡ o.collateral + off + ocf + extra + oc.value
    offer_balance = ground (arith, change_balance b o (o.collateral + a.collateral) rate extra ho)

    accept_balance : a.input_amount ≡ a.collateral + aff + acf + extra + ac.value
    accept_balance = ground (arith, change_balance b a (o.collateral + a.collateral) rate extra ha)

    room : o.collateral + a.collateral < u64_mod
    room = omega (arith, offer_balance, accept_balance)

    value :
        get_fund_output_value o a
          (o.collateral + a.collateral)
          oc.value
          ac.value
          off
          aff
          ocf
          acf
          extra
        ≡ ok (o.collateral + a.collateral + ocf + acf + extra)
    value =
        fund_output_value_ok o a _ _ _ _ _ _ _ _ fits (omega (arith, offer_balance, accept_balance))

-- Where the accepting party has no collateral and the offering party can pay, the funding transaction
-- is not made unless the accepting party's inputs come to exactly the extra fee: an assertion on the
-- fund output, or a subtraction before it, panics.
pub create_fund_panics :
    (b : Bitcoin) (o a : PartyParams) (rate lock fund_id extra : ℕ) {oc : TxOut} {off ocf : ℕ}
    → o.collateral ≢ 0
    → a.collateral ≡ 0
    → o.input_amount + a.input_amount < u64_mod
    → get_change_output_and_fees b o (o.collateral + a.collateral) rate extra ≡ ok (oc, off, ocf)
    → a.input_amount ≢ extra
    → create_fund_transaction_with_fees b o a rate lock fund_id extra ≡ panicked
unfolding create_fund_transaction_with_fees
create_fund_panics b o a rate lock fund_id extra {oc} {off} {ocf} fo fa fits ho ne =
    rw (lt→ltb (o.collateral + a.collateral) u64_mod room, ho, unfunded, value)
  where
    offer_balance : o.input_amount ≡ o.collateral + off + ocf + extra + oc.value
    offer_balance = ground (arith, change_balance b o (o.collateral + a.collateral) rate extra ho)

    room : o.collateral + a.collateral < u64_mod
    room = omega (arith, offer_balance)

    none_left : TxOut
    none_left = record { value = 0; script_pubkey = a.change_script_pubkey }

    unfunded :
        get_change_output_and_fees b a (o.collateral + a.collateral) rate extra
        ≡ ok (none_left, 0, 0)
    unfunded = unfold get_change_output_and_fees in ground arith

    value :
        get_fund_output_value o a (o.collateral + a.collateral) oc.value 0 off 0 ocf 0 extra
        ≡ panicked
    value =
        elim (Outcome-cases
          (get_fund_output_value o a (o.collateral + a.collateral) oc.value 0 off 0 ocf 0 extra)) [
            | inl (v, e) ↦ absurd (
                omega (
                  arith,
                  ne,
                  offer_balance,
                  fund_output_value-eq o a (o.collateral + a.collateral) oc.value 0 off 0 ocf 0
                      extra e,
                ))
            | inr (inl (x, e)) ↦ absurd (fund_output_value-ne-err o a _ _ _ _ _ _ _ _ x fits e)
            | inr (inr e) ↦ e
          ]
