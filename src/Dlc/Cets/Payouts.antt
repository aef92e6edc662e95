-- ===== src/Dlc/Cets/Payouts.antt =====
-- What the contract execution and refund transactions pay.
use dlcdevkit.Base.{
  ℕ, ◌+◌, ◌%◌, ◌≤◌, ◌<◌, ◌≡◌, ◌≢◌, refl, ◌⊎◌, inl, inr, true, arith, ltb, lt→ltb, ltb→lt, ◌==◌,
  Bool-cases, if◌then◌else◌, Option, List, [], ◌∷◌, length, All, Has, all, all-false,
}
use dlcdevkit.Base.Outcome.{ok, err}
use dlcdevkit.Base.Word.{u64_mod}
use dlcdevkit.Dlc.Types.{
  Script, invalid_argument, OutPoint, TxOut, TxIn, Transaction, Payout, PartyParams,
}
use dlcdevkit.Dlc.Util.{discard_dust}
use dlcdevkit.Dlc.Util.Order.{total-discard_dust, Has-discard_dust}
use dlcdevkit.Dlc.Fund.{dust_limit}
use dlcdevkit.Dlc.Fund.Conservation.{output_sum}
use dlcdevkit.Dlc.Cets.{
  create_cet, create_cets, create_refund_transaction, is_proper, refund_values, cet_input,
  refund_input, create_cets_and_refund_tx,
}

abbrev pub out : ℕ → Script → TxOut
out v spk = record { value = v; script_pubkey = spk }

-- A payment is there unless it is dust.
abbrev pub IsPaid : ℕ → Script → Transaction → Type 0
IsPaid v spk tx = (v < dust_limit) ⊎ Has (out v spk) tx.output

-- A transaction spends one output, pays two parties, and drops less than two dust limits.
pub record IsSplit (prev : OutPoint) (v w : ℕ) (v_spk w_spk : Script) (tx : Transaction)
    : Type 0 where
  pub spends : All (λ (i : TxIn). i.previous_output ≡ prev) tx.input
  pub one_input : length tx.input ≡ 1
  pub no_more : output_sum tx ≤ v + w
  pub no_less : v + w ≤ output_sum tx + 2000
  pub first_paid : IsPaid v v_spk tx
  pub second_paid : IsPaid w w_spk tx

paid :
    (v : ℕ) (spk : Script) (os : List TxOut)
    → Has (out v spk) os
    → (v < dust_limit) ⊎ Has (out v spk) (discard_dust os dust_limit)
paid v spk os h = elim (Bool-cases (ltb v dust_limit)) [
  | inl dust ↦ inl (ltb→lt _ _ dust)
  | inr kept ↦ inr (Has-discard_dust dust_limit (out v spk) os (ground arith) h)
]

create_cet-IsSplit :
    (fund_in : TxIn) (v v_id w w_id lock : ℕ) (v_spk w_spk : Script)
    → IsSplit fund_in.previous_output v w v_spk w_spk
        (create_cet (out v v_spk) v_id (out w w_spk) w_id fund_in lock)
unfolding create_cet
create_cet-IsSplit i v v_id w w_id lock v_spk w_spk = elim (Bool-cases (ltb v_id w_id)) [
  | inl first ↦ rw first (record {
    spends = (refl, tt);
    one_input = refl;
    no_more = omega (arith, total-discard_dust dust_limit (out v v_spk ∷ out w w_spk ∷ []));
    no_less = omega (arith, total-discard_dust dust_limit (out v v_spk ∷ out w w_spk ∷ []));
    first_paid = paid v v_spk _ (inl refl);
    second_paid = paid w w_spk _ (inr (inl refl));
  })
  | inr last ↦ rw last (record {
    spends = (refl, tt);
    one_input = refl;
    no_more = omega (arith, total-discard_dust dust_limit (out w w_spk ∷ out v v_spk ∷ []));
    no_less = omega (arith, total-discard_dust dust_limit (out w w_spk ∷ out v v_spk ∷ []));
    first_paid = paid v v_spk _ (inr (inl refl));
    second_paid = paid w w_spk _ (inl refl);
  })
]

-- The transactions go with the payouts one by one, and each payout comes to the total.
abbrev pub Splits : OutPoint → ℕ → Script → Script → List Payout → List Transaction → Type 0
Splits prev total_collateral offer_spk accept_spk [] [] = Unit
Splits prev total_collateral offer_spk accept_spk [] (tx ∷ txs) = ⊥
Splits prev total_collateral offer_spk accept_spk (p ∷ ps) [] = ⊥
Splits prev total_collateral offer_spk accept_spk (p ∷ ps) (tx ∷ txs) =
    (p.offer + p.accept ≡ total_collateral)
    × IsSplit prev p.offer p.accept offer_spk accept_spk tx
    × Splits prev total_collateral offer_spk accept_spk ps txs

create_cets-Splits :
    (i : TxIn) (t : ℕ) (offer_spk : Script) (offer_id : ℕ) (accept_spk : Script) (accept_id : ℕ)
    (ps : List Payout) (lock : ℕ)
    → all (is_proper t) ps ≡ true
    → Splits i.previous_output t offer_spk accept_spk ps
        (create_cets i offer_spk offer_id accept_spk accept_id ps lock)
unfolding create_cets all
create_cets-Splits i t offer_spk offer_id accept_spk accept_id [] lock h = tt
create_cets-Splits i t offer_spk offer_id accept_spk accept_id (p ∷ ps) lock h = (
  unfold is_proper in ground arith,
  create_cet-IsSplit i p.offer offer_id p.accept accept_id lock offer_spk accept_spk,
  create_cets-Splits i t offer_spk offer_id accept_spk accept_id ps lock (ground arith),
)

-- The refund pays the collaterals, or all to the accepting party where bit 0 of the flags is set.
abbrev pub RefundSplits : PartyParams → PartyParams → OutPoint → ℕ → Transaction → Type 0
RefundSplits o a prev flags tx =
    IsSplit prev (if flags % 2 == 1 then 0 else o.collateral)
      (if flags % 2 == 1 then o.collateral + a.collateral else a.collateral) o.payout_script_pubkey
      a.payout_script_pubkey tx

refund-IsSplit :
    (i : TxIn) (v w lock : ℕ) (v_spk w_spk : Script)
    → IsSplit i.previous_output v w v_spk w_spk
        (create_refund_transaction (out v v_spk) (out w w_spk) i lock)
unfolding create_refund_transaction
refund-IsSplit i v w lock v_spk w_spk = record {
  spends = (refl, tt);
  one_input = refl;
  no_more = omega (arith, total-discard_dust dust_limit (out v v_spk ∷ out w w_spk ∷ []));
  no_less = omega (arith, total-discard_dust dust_limit (out v v_spk ∷ out w w_spk ∷ []));
  first_paid = paid v v_spk _ (inl refl);
  second_paid = paid w w_spk _ (inr (inl refl));
}

module _ (o a : PartyParams) (prev : OutPoint) (ps : List Payout) (refund_lock cet_lock : ℕ)
    (nseq : Option ℕ) (flags : ℕ) where
  -- Transactions that are returned spend the given output, one for each payout in order; every payout
  -- comes to the total collateral and is paid out up to dust; and so is the refund.
  pub cets_pay :
      {cets : List Transaction} {refund : Transaction}
      → create_cets_and_refund_tx o a prev ps refund_lock cet_lock nseq flags ≡ ok (cets, refund)
      → Splits prev
          (o.collateral + a.collateral)
          o.payout_script_pubkey
          a.payout_script_pubkey
          ps
          cets
        × RefundSplits o a prev flags refund
  unfolding create_cets_and_refund_tx
  cets_pay {cets} {refund} h = elim (Bool-cases (ltb (o.collateral + a.collateral) u64_mod)) [
    | inl fits ↦ elim (Bool-cases (all (is_proper (o.collateral + a.collateral)) ps)) [
      | inl proper ↦
          let e : made_cets ≡ cets = ground arith in
          let e' : made_refund ≡ refund = ground arith in
          rw (← e, ← e')
            (
              create_cets-Splits i coll o.payout_script_pubkey o.payout_serial_id
                  a.payout_script_pubkey a.payout_serial_id ps cet_lock proper,
              refund_values-Splits,
            )
      | inr improper ↦ absurd (ground arith)
    ]
    | inr large ↦ absurd (ground arith)
  ]
    where
      coll : ℕ
      coll = o.collateral + a.collateral

      i : TxIn
      i = cet_input prev nseq cet_lock

      refunds : ℕ × ℕ
      refunds = refund_values flags coll o.collateral a.collateral

      made_cets : List Transaction
      made_cets =
          create_cets i o.payout_script_pubkey o.payout_serial_id a.payout_script_pubkey
            a.payout_serial_id ps cet_lock

      made_refund : Transaction
      made_refund =
          create_refund_transaction (out refunds.0 o.payout_script_pubkey)
            (out refunds.1 a.payout_script_pubkey) (refund_input prev) refund_lock

      refund_values-Splits : RefundSplits o a prev flags made_refund
      refund_values-Splits =
          unfold refund_values in
          elim (Bool-cases (flags % 2 == 1)) [
            | inl to_accepter ↦
                rw to_accepter (refund-IsSplit (refund_input prev) 0 coll refund_lock _ _)
            | inr shared ↦
                rw shared
                  (refund-IsSplit (refund_input prev) o.collateral a.collateral refund_lock _ _)
          ]

  -- A payout that does not come to the total collateral is refused.
  pub improper_refused :
      (p : Payout)
      → o.collateral + a.collateral < u64_mod
      → Has p ps
      → p.offer + p.accept ≢ o.collateral + a.collateral
      → create_cets_and_refund_tx o a prev ps refund_lock cet_lock nseq flags ≡ err invalid_argument
  unfolding create_cets_and_refund_tx
  improper_refused p fits m ne = rw (
    lt→ltb _ _ fits,
    all-false (is_proper (o.collateral + a.collateral)) p ps m (unfold is_proper in ground arith),
  )
