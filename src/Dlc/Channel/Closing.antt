-- ===== src/Dlc/Channel/Closing.antt =====
-- What the transactions of a channel spend and pay.
use native.Mathlib.Nat.{div-add-mod}
use dlcdevkit.Base.{
  ℕ, suc, ◌+◌, ◌*◌, ◌/◌, ◌≤◌, ◌<◌, ◌≡◌, refl, ap, inl, inr, arith, List, [], ◌∷◌, length, total,
  ◌==◌, Bool-cases, Option-cases, get_elem?, some, map, if◌then◌else◌,
}
use dlcdevkit.Base.Outcome.{ok, panicked, unwrap, >>=-eq-ok}
use dlcdevkit.Base.Word.{add_amount, sub_amount, sub_amounts, sub_amounts-eq}
use dlcdevkit.Dlc.Types.{
  Script, Error, Result, OutPoint, TxOut, TxIn, Transaction, Payout, PartyParams, Bitcoin,
}
use dlcdevkit.Dlc.Util.{weight_to_fee, get_sequence, get_output_for_script_pubkey, discard_dust}
use dlcdevkit.Dlc.Util.Order.{total-discard_dust}
use dlcdevkit.Dlc.Fund.{dust_limit}
use dlcdevkit.Dlc.Fund.Conservation.{output_sum}
use dlcdevkit.Dlc.Cets.{create_cets_and_refund_tx}
use dlcdevkit.Dlc.Cets.Payouts.{Splits, RefundSplits, cets_pay}
use dlcdevkit.Dlc.Contract.Spending.{get_output-eq}
use dlcdevkit.Dlc.Channel.{
  RevokeParams, Descriptors, DlcChannelTransactions, buffer_tx_weight, cet_extra_weight,
  settle_input_weight, settle_output_weight, create_buffer_transaction, add_to_each, share_fee,
  settle_outputs, create_settle_transaction, create_renewal_channel_transactions,
}

total-add_to_each :
    (fee : ℕ) (os : List TxOut) {r : List TxOut}
    → add_to_each fee os ≡ ok r
    → total (λ (o : TxOut). o.value) r ≡ total (λ (o : TxOut). o.value) os + length os * fee
unfolding add_to_each
total-add_to_each fee [] h = ground (arith, h)
total-add_to_each fee (o ∷ os) {r} h =
    let (v, ev, h') = >>=-eq-ok (add_amount o.value fee) _ h in
    let (rest, er, h'') = >>=-eq-ok (add_to_each fee os) _ h' in
    omega (arith, total-add_to_each fee os er, summed v rest ev h'')
  where
    summed :
        (v : ℕ) (rest : List TxOut)
        → add_amount {E = Error} o.value fee ≡ ok v
        → ◌≡◌ {A = Result (List TxOut)}
            (ok (record { value = v; script_pubkey = o.script_pubkey } ∷ rest))
            (ok r)
        → total (λ (o : TxOut). o.value) r ≡ o.value + fee + total (λ (o : TxOut). o.value) rest
    summed v rest ev e = ground (arith, ev, e)

share_bounds :
    (f o a left fee rest n : ℕ) {share : ℕ}
    → sub_amounts {E = Error} f (o ∷ a ∷ []) ≡ ok left
    → sub_amount {E = Error} left fee ≡ ok rest
    → ◌≡◌ {A = Result ℕ} (if n == 0 then panicked else ok (rest / n)) (ok share)
    → (n * share + o + a + fee ≤ f) × (f < n * share + n + o + a + fee)
share_bounds f o a left fee rest n {share} el er es = elim (Bool-cases (n == 0)) [
  | inl none_left ↦ absurd (ground (arith, rw none_left at es))
  | inr some_left ↦
      let e : share ≡ rest / n = ground (arith, rw some_left at es) in
      let pos : 0 < n = ground arith in
      let er' : left ≡ rest + fee = ground (arith, er) in
      omega (
        arith,
        sub_amounts-eq {E = Error} f (o ∷ a ∷ []) {r = left} el,
        er',
        div-add-mod rest n,
        ap (λ (t : ℕ). n * t) e,
      )
]

share_fee-le :
    (f o a rate n : ℕ) {share : ℕ}
    → share_fee f o a rate n ≡ ok share
    → (fee : ℕ) × (weight_to_fee (settle_input_weight + n * settle_output_weight) rate ≡ ok fee)
      × (n * share + o + a + fee ≤ f)
      × (f < n * share + n + o + a + fee)
unfolding share_fee
share_fee-le f o a rate n {share} h =
    let (left, el, h') = >>=-eq-ok (sub_amounts f (o ∷ a ∷ [])) _ h in
    let (fee, ef, h'') =
      >>=-eq-ok (weight_to_fee (settle_input_weight + n * settle_output_weight) rate) _ h' in
    let (rest, er, k) = >>=-eq-ok (sub_amount left fee) _ h'' in
    let (lo, hi) = share_bounds f o a left fee rest n el er k in (fee, ef, lo, hi)

length-add_to_each :
    (fee : ℕ) (os : List TxOut) {r : List TxOut} → add_to_each fee os ≡ ok r → length r ≡ length os
unfolding add_to_each
length-add_to_each fee [] h = ground (arith, h)
length-add_to_each fee (o ∷ os) {r} h =
    let (v, ev, h') = >>=-eq-ok (add_amount o.value fee) _ h in
    let (rest, er, k) = >>=-eq-ok (add_to_each fee os) _ h' in
    omega (arith, length-add_to_each fee os er, one_more v rest k)
  where
    one_more :
        (v : ℕ) (rest : List TxOut)
        → ◌≡◌ {A = Result (List TxOut)}
            (ok (record { value = v; script_pubkey = o.script_pubkey } ∷ rest))
            (ok r)
        → length r ≡ suc (length rest)
    one_more v rest e = ground (arith, e)

-- A settle transaction that is returned pays out the fund output up to the fee for its weight: what is
-- not paid is less than two dust limits, for outputs that are dropped, and one satoshi for each output that
-- is kept, for the rounding.
pub settle_conserves :
    (d : Descriptors) (i : TxIn) (ro ra : RevokeParams) (vo va csv lock f rate : ℕ)
    {tx : Transaction}
    → create_settle_transaction d i ro ra vo va csv lock f rate ≡ ok tx
    → (fee : ℕ) × (weight_to_fee
          (settle_input_weight + length tx.output * settle_output_weight)
          rate
        ≡ ok fee)
      × (output_sum tx + fee ≤ f)
      × (f < output_sum tx + fee + 2000 + length tx.output)
unfolding create_settle_transaction settle_outputs
settle_conserves d i ro ra vo va csv lock f rate {tx} h =
    let (share, es, h') = >>=-eq-ok (share_fee f vo va rate (length outputs)) _ h in
    let (output, eo, k) = >>=-eq-ok (add_to_each share outputs) _ h' in
    let (fee, ef, lo, hi) = share_fee-le f vo va rate (length outputs) es in
    let len : length output ≡ length outputs = length-add_to_each share outputs eo in
    let e : made output ≡ tx = ground (arith, k) in
    rw (← e) (
      fee,
      rw len ef,
      omega (arith, lo, total-add_to_each share outputs eo, total-discard_dust dust_limit both),
      omega
          (arith, hi, len, total-add_to_each share outputs eo, total-discard_dust dust_limit both),
    )
  where
    both : List TxOut
    both =
        record { value = vo; script_pubkey = d.settle_script_pubkey ro ra.own_pk csv }
        ∷ record { value = va; script_pubkey = d.settle_script_pubkey ra ro.own_pk csv }
        ∷ []

    outputs : List TxOut
    outputs = discard_dust both dust_limit

    made : List TxOut → Transaction
    made output = record { version = 2; lock_time = lock; input = i ∷ []; output = output }

-- What holds of a channel's transactions: the buffer transaction spends the output of the fund
-- transaction with the funding script, and keeps its value but for the extra fee; each closing
-- transaction spends the buffer transaction's output and pays the parties their due.
pub record IsBuffered (b : Bitcoin) (d : Descriptors) (o a : PartyParams) (ro ra : RevokeParams)
    (fund : Transaction) (s : Script) (ps : List Payout) (rate flags : ℕ)
    (c : DlcChannelTransactions) : Type 0 where
  pub vout : ℕ
  pub fund_output : TxOut
  pub fee : ℕ
  pub is_output : get_elem? fund.output vout ≡ some fund_output
  pub has_script : fund_output.script_pubkey ≡ b.to_p2wsh s
  pub fee_paid : weight_to_fee (buffer_tx_weight + cet_extra_weight) rate ≡ ok fee
  pub spends :
      map (λ (i : TxIn). i.previous_output) c.buffer_transaction.input
      ≡ record { txid = b.compute_txid fund; vout = vout } ∷ []
  pub locked :
      (v : ℕ) × (v + fee ≡ fund_output.value)
      × (c.buffer_transaction.output
          ≡ record { value = v; script_pubkey = d.buffer_script_pubkey ro ra } ∷ [])
  pub cets_close :
      Splits
        (record { txid = b.compute_txid c.buffer_transaction; vout = 0 })
        (o.collateral + a.collateral)
        o.payout_script_pubkey
        a.payout_script_pubkey
        ps
        c.dlc_transactions.cets
  pub refund_closes :
      RefundSplits o a
        (record { txid = b.compute_txid c.buffer_transaction; vout = 0 })
        flags
        c.dlc_transactions.refund

-- The transactions of a renewed channel, when they are returned, spend one another in this way.
pub create_renewal-IsBuffered :
    (b : Bitcoin) (d : Descriptors) (o a : PartyParams) (ro ra : RevokeParams) (fund : Transaction)
    (s : Script) (ps : List Payout) (refund_lock rate cet_lock nseq flags : ℕ)
    {c : DlcChannelTransactions}
    → create_renewal_channel_transactions b d o a ro ra fund s ps refund_lock rate cet_lock nseq
        flags
      ≡ ok c
    → IsBuffered b d o a ro ra fund s ps rate flags c
unfolding create_renewal_channel_transactions create_buffer_transaction
create_renewal-IsBuffered b d o a ro ra fund s ps refund_lock rate cet_lock nseq flags {c} h =
    let (fee, ew, h1) = >>=-eq-ok (weight_to_fee (buffer_tx_weight + cet_extra_weight) rate) _ h in
    let ((vout, out), eo, h2) =
      >>=-eq-ok (unwrap (get_output_for_script_pubkey fund (b.to_p2wsh s))) _ h1 in
    let (v, ev, h3) = >>=-eq-ok (sub_amount out.value fee) _ h2 in
    let ((cets, refund), ec, h4) = >>=-eq-ok (closing vout v) _ h3 in
    let (code, ed, h5) = >>=-eq-ok (d.buffer_script_code ro ra) _ h4 in
    let e : made vout v cets refund code ≡ c = ground (arith, h5) in
    let (at_index, script) =
      get_output-eq fund (b.to_p2wsh s) {v = vout} {out = out} (found vout out eo) in
    let (pay, back) =
      cets_pay o a (out_point vout v) ps refund_lock cet_lock (some nseq) flags ec in
    rw (← e) (record {
      vout = vout;
      fund_output = out;
      fee = fee;
      is_output = at_index;
      has_script = script;
      fee_paid = ew;
      spends = refl;
      locked = (v, ground (arith, ev), refl);
      cets_close = pay;
      refund_closes = back;
    })
  where
    buffer : ℕ → ℕ → Transaction
    buffer vout v =
        create_buffer_transaction
          (record {
            previous_output = record { txid = b.compute_txid fund; vout = vout };
            script_sig = [];
            sequence = get_sequence cet_lock;
          })
          (d.buffer_script_pubkey ro ra) v cet_lock

    out_point : ℕ → ℕ → OutPoint
    out_point vout v = record { txid = b.compute_txid (buffer vout v); vout = 0 }

    closing : ℕ → ℕ → Result (List Transaction × Transaction)
    closing vout v =
        create_cets_and_refund_tx o a (out_point vout v) ps refund_lock cet_lock (some nseq) flags

    made : ℕ → ℕ → List Transaction → Transaction → Script → DlcChannelTransactions
    made vout v cets refund code = record {
      dlc_transactions = record {
        fund = fund;
        cets = cets;
        refund = refund;
        funding_witness_script = s;
        pending_close_txs = [];
      };
      buffer_transaction = buffer vout v;
      buffer_script_pubkey = code;
    }

    found :
        (vout : ℕ) (out : TxOut)
        → unwrap {E = Error} (get_output_for_script_pubkey fund (b.to_p2wsh s)) ≡ ok (vout, out)
        → get_output_for_script_pubkey fund (b.to_p2wsh s) ≡ some (vout, out)
    found vout out e = elim (Option-cases (get_output_for_script_pubkey fund (b.to_p2wsh s))) [
      | inl missing ↦ absurd (ground (arith, rw missing at e))
      | inr (r, er) ↦ ground (arith, er, e)
    ]
