-- ===== src/Dlc/Contract/Spending.antt =====
-- The transactions of a contract hang together: those that close it spend its fund output.
use dlcdevkit.Base.{
  ℕ, suc, ◌+◌, ◌≡◌, inl, inr, arith, Bool-cases, none, some, Option-cases, List, [], ◌∷◌, get_elem?,
  list_eqb, list_eqb→eq,
}
use dlcdevkit.Base.Outcome.{Outcome, ok, Outcome-cases}
use dlcdevkit.Dlc.Types.{
  Script, Error, OutPoint, TxOut, Transaction, DlcTransactions, Payout, PartyParams, Bitcoin,
}
use dlcdevkit.Dlc.Util.{find_output, get_output_for_script_pubkey}
use dlcdevkit.Dlc.Fund.{create_fund_transaction_with_fees}
use dlcdevkit.Dlc.Cets.{create_cets_and_refund_tx}
use dlcdevkit.Dlc.Cets.Payouts.{Splits, RefundSplits, cets_pay}
use dlcdevkit.Dlc.Contract.{create_dlc_transactions}

find_output-eq :
    (i : ℕ) (os : List TxOut) (s : Script) {v : ℕ} {out : TxOut}
    → find_output i os s ≡ some (v, out)
    → (k : ℕ) × (v ≡ i + k) × (get_elem? os k ≡ some out) × (out.script_pubkey ≡ s)
unfolding find_output
find_output-eq i [] s h = cc
find_output-eq i (o ∷ os) s {v} {out} h = elim (Bool-cases (list_eqb o.script_pubkey s)) [
  | inl same ↦ (0, ground arith, ground arith, ground (arith, list_eqb→eq o.script_pubkey s same))
  | inr other ↦
      let (k, ev, eo, es) = find_output-eq (i + 1) os s {v = v} {out = out} (ground arith) in
      (suc k, omega (arith, ev), eo, es)
]

-- The output that is found is the one at the index that is returned, and it has the script.
pub get_output-eq :
    (tx : Transaction) (s : Script) {v : ℕ} {out : TxOut}
    → get_output_for_script_pubkey tx s ≡ some (v, out)
    → (get_elem? tx.output v ≡ some out) × (out.script_pubkey ≡ s)
unfolding get_output_for_script_pubkey
get_output-eq tx s {v} {out} h =
    let (k, ev, eo, es) = find_output-eq 0 tx.output s {v = v} {out = out} h in
    let e : v ≡ k = omega (arith, ev) in (rw e eo, es)

-- What holds of a contract's transactions: an output of the funding transaction has the funding script,
-- and each closing transaction spends exactly that output and pays the parties their due.
pub record IsClosable (b : Bitcoin) (o a : PartyParams) (ps : List Payout) (flags : ℕ)
    (d : DlcTransactions) : Type 0 where
  pub vout : ℕ
  pub fund_output : TxOut
  pub is_output : get_elem? d.fund.output vout ≡ some fund_output
  pub has_script : fund_output.script_pubkey ≡ b.to_p2wsh d.funding_witness_script
  pub cets_close :
      Splits
        (record { txid = b.compute_txid d.fund; vout = vout })
        (o.collateral + a.collateral)
        o.payout_script_pubkey
        a.payout_script_pubkey
        ps
        d.cets
  pub refund_closes :
      RefundSplits o a (record { txid = b.compute_txid d.fund; vout = vout }) flags d.refund

-- The transactions of a contract, when they are returned, can all be closed from its fund output.
pub create_dlc-IsClosable :
    (b : Bitcoin) (o a : PartyParams) (ps : List Payout)
    (refund_lock rate fund_lock cet_lock fund_id flags : ℕ) {d : DlcTransactions}
    → create_dlc_transactions b o a ps refund_lock rate fund_lock cet_lock fund_id flags ≡ ok d
    → IsClosable b o a ps flags d
unfolding create_dlc_transactions
create_dlc-IsClosable b o a ps refund_lock rate fund_lock cet_lock fund_id flags {d} h =
    elim (Outcome-cases (create_fund_transaction_with_fees b o a rate fund_lock fund_id 0)) [
      | inl ((tx, s), et) ↦ elim (Option-cases (get_output_for_script_pubkey tx (b.to_p2wsh s))) [
        | inl missing ↦ absurd (ground arith)
        | inr ((v, out), eo) ↦ elim (Outcome-cases (closing tx v)) [
          | inl ((cets, refund), ec) ↦
              let e : made tx s cets refund ≡ d = ground arith in
              let (at_index, script) = get_output-eq tx (b.to_p2wsh s) {v = v} {out = out} eo in
              let (pay, back) =
                cets_pay o a (fund_outpoint tx v) ps refund_lock cet_lock none flags ec in
              rw (← e) (record {
                vout = v;
                fund_output = out;
                is_output = at_index;
                has_script = script;
                cets_close = pay;
                refund_closes = back;
              })
          | inr failed ↦ absurd (ground arith)
        ]
      ]
      | inr failed ↦ absurd (ground arith)
    ]
  where
    fund_outpoint : Transaction → ℕ → OutPoint
    fund_outpoint tx v = record { txid = b.compute_txid tx; vout = v }

    closing : Transaction → ℕ → Outcome Error (List Transaction × Transaction)
    closing tx v =
        create_cets_and_refund_tx o a (fund_outpoint tx v) ps refund_lock cet_lock none flags

    made : Transaction → Script → List Transaction → Transaction → DlcTransactions
    made tx s cets refund = record {
      fund = tx;
      cets = cets;
      refund = refund;
      funding_witness_script = s;
      pending_close_txs = [];
    }
