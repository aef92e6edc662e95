-- ===== src/Manager/Input/Checks.antt =====
-- What the terms that pass are known for, and which terms pass.
use dlcdevkit.Base.{
  ℕ, ◌+◌, ◌≤◌, ◌<◌, ◌≡◌, ◌⊎◌, inl, inr, arith, List, [], ◌∷◌, length, All, ltb, ◌==◌, ◌&&◌, not,
  Bool-cases,
}
use dlcdevkit.Base.Outcome.{Outcome, guard, ok, >>=-eq-ok}
use dlcdevkit.Base.Word.{add_amount}
use dlcdevkit.Dlc.Util.{validate_fee_rate}
use dlcdevkit.Manager.Input.{
  Error, invalid_parameters, OracleInput, ContractInputInfo, ContractInput, validate_oracle,
  validate_oracles, validate_fee, validate,
}

-- A threshold from 1 to the number of keys.
abbrev pub IsReachable : OracleInput → Type 0
IsReachable o = (0 < o.threshold) × (o.threshold ≤ length o.public_keys)

oracle_lem : (o : OracleInput) → validate_oracle o ≡ ok tt → IsReachable o
unfolding validate_oracle
oracle_lem o h = (ground arith, ground arith)

-- The tests of `validate` one by one.
offer_lem :
    (o : ℕ) → guard (not (ltb 0 o && ltb o 1000)) invalid_parameters ≡ ok tt → (o ≡ 0) ⊎ (1000 ≤ o)
offer_lem o h = elim (Bool-cases (o == 0)) [
  | inl none_in ↦ inl (ground arith)
  | inr some_in ↦ inr (ground (arith, h))
]

sum_lem :
    (o a t : ℕ)
    → ◌≡◌ {A = Outcome Error ℕ} (add_amount o a) (ok t)
    → guard (not (ltb t 1000)) invalid_parameters ≡ ok tt
    → 1000 ≤ o + a
sum_lem o a t h g = ground (arith, h, g)

some_lem : (n : ℕ) → guard (not (n == 0)) invalid_parameters ≡ ok tt → 0 < n
some_lem n h = ground (arith, h)

fee_lem : (f : ℕ) → validate_fee f ≡ ok tt → f ≤ 6250
unfolding validate_fee validate_fee_rate
fee_lem f h = elim (Bool-cases (ltb 6250 f)) [
  | inl high ↦ absurd (ground (arith, rw high at h))
  | inr low ↦ ground arith
]

module _ {Descriptor : Type 0} where
  oracles_lem :
      (is : List (ContractInputInfo Descriptor))
      → validate_oracles is ≡ ok tt
      → All (λ (i : ContractInputInfo Descriptor). IsReachable i.oracles) is
  unfolding validate_oracles
  oracles_lem [] h = tt
  oracles_lem (i ∷ is) h =
      let (u, e, h') = >>=-eq-ok (validate_oracle i.oracles) _ h in
      (oracle_lem i.oracles e, oracles_lem is h')

  -- What is asked of the terms: the offering party puts in nothing or at least the dust limit, both
  -- together put in at least the dust limit, there is a contract, each contract can be decided by its
  -- oracles, and the fee rate is at most 6250.
  pub record IsSound (c : ContractInput Descriptor) : Type 0 where
    pub offer_not_dust : (c.offer_collateral ≡ 0) ⊎ (1000 ≤ c.offer_collateral)
    pub total_not_dust : 1000 ≤ c.offer_collateral + c.accept_collateral
    pub some_contract : 0 < length c.contract_infos
    pub reachable :
        All (λ (i : ContractInputInfo Descriptor). IsReachable i.oracles) c.contract_infos
    pub fee_small : c.fee_rate ≤ 6250

  -- Terms that pass are sound: whatever the number of keys, no threshold is beyond it.
  pub validate-IsSound : (c : ContractInput Descriptor) → validate c ≡ ok tt → IsSound c
  unfolding validate
  validate-IsSound c h =
      let (u1, e1, h1) =
        >>=-eq-ok
          (guard (not (ltb 0 c.offer_collateral && ltb c.offer_collateral 1000)) invalid_parameters)
          _ h in
      let (t, e2, h2) = >>=-eq-ok (add_amount c.offer_collateral c.accept_collateral) _ h1 in
      let (u3, e3, h3) = >>=-eq-ok (guard (not (ltb t 1000)) invalid_parameters) _ h2 in
      let (u4, e4, h4) =
        >>=-eq-ok (guard (not (length c.contract_infos == 0)) invalid_parameters) _ h3 in
      let (u5, e5, h5) = >>=-eq-ok (validate_oracles c.contract_infos) _ h4 in
      record {
        offer_not_dust = offer_lem c.offer_collateral e1;
        total_not_dust = sum_lem c.offer_collateral c.accept_collateral t e2 e3;
        some_contract = some_lem (length c.contract_infos) e4;
        reachable = oracles_lem c.contract_infos e5;
        fee_small = fee_lem c.fee_rate h5;
      }
