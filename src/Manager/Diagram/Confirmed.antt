-- ===== src/Manager/Diagram/Confirmed.antt =====
-- The steps of the periodic check of a confirmed contract.
use dlcdevkit.Base.{
  ℕ, ◌≤◌, ◌≡◌, refl, inl, inr, ◌⊎◌, arith, Bool, true, false, some, List, ltb, Bool-cases,
}
use dlcdevkit.Base.Outcome.{ok, err, panicked}
use dlcdevkit.Dlc.Types.{Transaction}
use dlcdevkit.Kormir.Messages.{OracleAttestation}
use dlcdevkit.Manager.Contract.{
  ContractId, SignedContract, Contract, confirmed, closed, get_contract_id,
}
use dlcdevkit.Manager.Store.{get_contract}
use dlcdevkit.Manager.Store.Slots.{IsKeyed}
use dlcdevkit.Manager.Environment.{
  Environment, State, M, Result, ConfirmationStatus, confirmations, ask, next, ◌>>=◌, ◌>>◌, return,
  when,
}
use dlcdevkit.Manager.Handlers.{update, send}
use dlcdevkit.Manager.Closing.{
  txid_of, pre_closed_with, closed_with, close_by, close_contract, refund_due, refund_of,
  check_and_broadcast_refund, check_refund,
}
use dlcdevkit.Manager.Diagram.{IsBuried, Closes, Follows, Follows-refl, bind-Follows, ask-Follows}
use dlcdevkit.Manager.Diagram.Cooperative.{pre_close-Follows}
use dlcdevkit.Manager.Diagram.Closings.{
  Keeps, bind-Keeps, send-Keeps, Keeps-Follows, same_slot, closed_step, refunded_step,
  check_and_broadcast_refund-Follows,
}

module _ (env : Environment) (c : SignedContract) (cet : Transaction)
    (attestations : List OracleAttestation) (s : State) where
  -- The states that a CET brings the contract to, and what must hold for the last.
  abbrev pub IsClosing : Contract → Type 0
  IsClosing k =
      (k ≡ pre_closed_with c attestations cet)
      ⊎ ((k ≡ closed (closed_with env c (some attestations) cet)) × IsBuried env cet)

  close_by-IsClosing :
      (status : ConfirmationStatus) (k : Contract)
      → env.get_transaction_confirmations (txid_of env cet) ≡ ok status
      → (close_by env c cet attestations (confirmations status) s).1 ≡ ok k
      → IsClosing k
  close_by-IsClosing status k is h = elim (Bool-cases (ltb (confirmations status) 1)) [
    | inl few ↦ inl (sent (rw few at h))
    | inr one ↦ elim (Bool-cases (ltb (confirmations status) env.nb_confirmations)) [
      | inl fewer ↦ inl (cc (rw (one, fewer) at h))
      | inr enough ↦
          inr
            (cc (rw (one, enough) at h), (status, is, ground (arith, enough), ground (arith, one)))
    ]
  ]
    where
      sent :
          ((send env cet >> return (pre_closed_with c attestations cet)) s).1 ≡ ok k
          → k ≡ pre_closed_with c attestations cet
      sent h = by_result (send env cet s) h
        where
          by_result :
              (r : State × Result (Unit {0}))
              → (next r (λ u. return (pre_closed_with c attestations cet))).1 ≡ ok k
              → k ≡ pre_closed_with c attestations cet
          by_result (t, ok u) h = cc
          by_result (t, err e) h = cc
          by_result (t, panicked) h = cc

  pub close_contract-IsClosing :
      (k : Contract) → (close_contract env c cet attestations s).1 ≡ ok k → IsClosing k
  unfolding close_contract
  close_contract-IsClosing k h =
      by_answer (env.get_transaction_confirmations (txid_of env cet)) refl h
    where
      by_answer :
          (r : Result ConfirmationStatus)
          → env.get_transaction_confirmations (txid_of env cet) ≡ r
          → (next (s, r) (λ status. close_by env c cet attestations (confirmations status))).1
            ≡ ok k
          → IsClosing k
      by_answer (ok status) e h = close_by-IsClosing status k e h
      by_answer (err x) e h = cc
      by_answer panicked e h = cc

  pub close_contract-Keeps : Keeps (close_contract env c cet attestations) s
  unfolding close_contract
  close_contract-Keeps =
      bind-Keeps (ask (env.get_transaction_confirmations (txid_of env cet))) _ s refl
        λ status. by_count (confirmations status)
    where
      by_count : (n : ℕ) → Keeps (close_by env c cet attestations n) s
      by_count n = elim (Bool-cases (ltb n 1)) [
        | inl few ↦ rw few (bind-Keeps (send env cet) _ s (send-Keeps env cet s) (λ u. refl))
        | inr one ↦ elim (Bool-cases (ltb n env.nb_confirmations)) [
          | inl fewer ↦ rw (one, fewer) refl
          | inr enough ↦ rw (one, enough) refl
        ]
      ]

module _ (env : Environment) (s : State) (keyed : IsKeyed env.hashes s.contracts) (id : ContractId)
    (c : SignedContract) (found : get_contract s.contracts id ≡ some (confirmed c)) where
  -- A contract closed by a CET that was signed.
  pub closing-Follows :
      {A : Type 0} (cet : Transaction) (attestations : List OracleAttestation)
      (finish : Contract → M A)
      → Closes env c (some attestations) cet
      → ((k : Contract) (t : State)
          → Follows env t (update env k t).0
          → Follows env t (finish k t).0)
      → Follows env s ((close_contract env c cet attestations >>= finish) s).0
  closing-Follows cet attestations finish cause stores =
      let after = (close_contract env c cet attestations s).0 in
      let keeps = close_contract-Keeps env c cet attestations s in
      let kept = Keeps-Follows env s after keeps keyed in
      let at = same_slot env s after keeps id (some (confirmed c)) found in
      bind-Follows env s (close_contract env c cet attestations) finish kept λ k is_k.
        stores k after (
          updated after kept.keyed at k cet attestations cause
            (close_contract-IsClosing env c cet attestations s k is_k))
    where
      updated :
          (t : State)
          → IsKeyed env.hashes t.contracts
          → get_contract t.contracts id ≡ some (confirmed c)
          → (k : Contract) (cet : Transaction) (attestations : List OracleAttestation)
          → Closes env c (some attestations) cet
          → IsClosing env c cet attestations s k
          → Follows env t (update env k t).0
      updated t keyed at k cet attestations cause (inl e) =
          rw e (pre_close-Follows env t keyed id c _ at refl cause)
      updated t keyed at k cet attestations cause (inr (e, buried)) =
          rw e (closed_step env t keyed id c at (some attestations) cet cause buried)

-- The refund of a contract, which is still confirmed if the refund has confirmations.
pub check_refund-Follows :
    (env : Environment) (s : State)
    → IsKeyed env.hashes s.contracts
    → (id : ContractId) (c : SignedContract)
    → ((status : ConfirmationStatus)
        → env.get_transaction_confirmations (txid_of env (refund_of c)) ≡ ok status
        → 1 ≤ confirmations status
        → get_contract s.contracts id ≡ some (confirmed c))
    → Follows env s (check_refund env c s).0
unfolding check_refund
check_refund-Follows env s keyed id c live = elim (Bool-cases (refund_due env c)) [
  | inl due ↦ rw due (
      ask-Follows env s keyed (env.get_transaction_confirmations (txid_of env (refund_of c))) _
        λ status e. elim (Bool-cases (ltb 0 (confirmations status))) [
          | inl known ↦
              rw known (refunded_step env s keyed id c (live status e (ground (arith, known))) due)
          | inr unknown ↦ rw unknown (by_setting env.automatic_refund)
        ])
  | inr early ↦ rw early (Follows-refl env s keyed)
]
  where
    own : ContractId
    own = get_contract_id env.hashes c.accepted_contract

    by_setting :
        (b : Bool)
        → Follows env s (when b (do refund ← check_and_broadcast_refund env own; return tt) s).0
    by_setting true =
        let f = check_and_broadcast_refund-Follows env s keyed own in
        bind-Follows env s (check_and_broadcast_refund env own) _ f
          (λ k e. Follows-refl env _ f.keyed)
    by_setting false = Follows-refl env s keyed
