-- ===== src/Manager/Closing/Attested.antt =====
-- What the attestations are that close a contract.
use dlcdevkit.Base.{
  ℕ, ◌≤◌, ◌≡◌, refl, ap, sym, ◌∙◌, inl, inr, true, false, Option, none, some, List, [], ◌∷◌, ◌+◌,
  Bool, length, All, Has, leb, leb→le, ◌&&◌, Bool-cases,
}
use dlcdevkit.Base.Outcome.{ok, err, panicked, Outcome-cases}
use dlcdevkit.Kormir.Messages.{OracleAnnouncement, OracleAttestation, validate_attestation}
use dlcdevkit.Manager.Contract.{ContractInfo, SignedContract}
use dlcdevkit.Manager.Environment.{Environment, OracleClient, Result}
use dlcdevkit.Manager.Closing.{
  is_matured, matured_from, valid_attestation, ask_oracle, cons_some, attestations_of,
  find_closable, get_closable_contract_info,
}

and_right : (a b : Bool) → (a && b) ≡ true → b ≡ true
and_right true b h = h
and_right false b h = cc

cons_some-All :
    {A : Type 0} (P : A → Type 0) (o : Option A) (xs : List A)
    → ((a : A) → o ≡ some a → P a)
    → All P xs
    → All P (cons_some o xs)
cons_some-All P none xs here rest = rest
cons_some-All P (some a) xs here rest = (here a refl, rest)

module _ (env : Environment) where
  -- An attestation that the oracle of a matured announcement gave, and that is valid for it.
  abbrev pub IsAttestation : List OracleAnnouncement → OracleAttestation → Type 0
  IsAttestation anns att =
      (ann : OracleAnnouncement) × (client : OracleClient) × Has ann anns
      × (ann.oracle_event.event_maturity_epoch ≤ env.unix_time_now)
      × (env.oracles ann.oracle_public_key ≡ some client)
      × (client.get_attestation ann.oracle_event.event_id ≡ ok att)
      × (validate_attestation env.secp att ann ≡ ok tt)

  -- Enough of them for one of the infos of a contract.
  abbrev pub IsEnough : SignedContract → ContractInfo → List (ℕ × OracleAttestation) → Type 0
  IsEnough c info atts =
      Has info c.accepted_contract.offered_contract.contract_info
      × (info.threshold ≤ length atts)
      × All (λ (a : ℕ × OracleAttestation). IsAttestation info.oracle_announcements a.1) atts

  abbrev Matured : List OracleAnnouncement → ℕ × OracleAnnouncement → Type 0
  Matured anns a = Has a.1 anns × (a.1.oracle_event.event_maturity_epoch ≤ env.unix_time_now)

  matured_from-All :
      (full anns : List OracleAnnouncement)
      → ((a : OracleAnnouncement) → Has a anns → Has a full)
      → (i : ℕ) → All (Matured full) (matured_from env i anns)
  unfolding matured_from is_matured
  matured_from-All full [] inside i = tt
  matured_from-All full (ann ∷ anns) inside i =
      elim (Bool-cases (leb ann.oracle_event.event_maturity_epoch env.unix_time_now)) [
        | inl due ↦ rw due (
          (inside ann (inl refl), leb→le _ _ due),
          matured_from-All full anns (λ a at. inside a (inr at)) (i + 1),
        )
        | inr early ↦ rw early (matured_from-All full anns (λ a at. inside a (inr at)) i)
      ]

  valid_attestation-some :
      (i : ℕ) (ann : OracleAnnouncement) (att : OracleAttestation) (a : ℕ × OracleAttestation)
      → valid_attestation env i ann (ok att) ≡ some a
      → (a.1 ≡ att) × (validate_attestation env.secp att ann ≡ ok tt)
  valid_attestation-some i ann att a h =
      elim (Outcome-cases (validate_attestation env.secp att ann)) [
        | inl (u, valid) ↦
            let found : some (i, att) ≡ some a = rw (valid_attestation, valid) at h in
            let same : (i, att) ≡ a = cc found in
            (ap (λ (x : ℕ × OracleAttestation). x.1) (sym same), valid)
        | inr (inl (x, refused)) ↦ absurd (cc (rw (valid_attestation, refused) at h))
        | inr (inr stopped) ↦ absurd (cc (rw (valid_attestation, stopped) at h))
      ]

  attestations_of-All :
      (full : List OracleAnnouncement) (anns : List (ℕ × OracleAnnouncement))
      → All (Matured full) anns
      → All (λ (a : ℕ × OracleAttestation). IsAttestation full a.1) (attestations_of env anns)
  unfolding attestations_of
  attestations_of-All full [] matured = tt
  attestations_of-All full ((i, ann) ∷ anns) ((at, due), matured) =
      by_oracle (env.oracles ann.oracle_public_key) refl (attestations_of-All full anns matured)
    where
      Valid : ℕ × OracleAttestation → Type 0
      Valid a = IsAttestation full a.1

      by_oracle :
          (o : Option OracleClient)
          → env.oracles ann.oracle_public_key ≡ o
          → All Valid (attestations_of env anns)
          → All Valid (cons_some (ask_oracle env i ann o) (attestations_of env anns))
      by_oracle none e rest = rest
      by_oracle (some client) e rest =
          by_answer (client.get_attestation ann.oracle_event.event_id) refl
        where
          by_answer :
              (r : Result OracleAttestation)
              → client.get_attestation ann.oracle_event.event_id ≡ r
              → All Valid (cons_some (valid_attestation env i ann r) (attestations_of env anns))
          by_answer (err x) e' = rest
          by_answer panicked e' = rest
          by_answer (ok att) e' =
              cons_some-All Valid (valid_attestation env i ann (ok att)) (attestations_of env anns)
                (λ a h.
                  let (same, valid) = valid_attestation-some i ann att a h in
                  (
                    ann,
                    client,
                    at,
                    due,
                    e,
                    e' ∙ ap ok (sym same),
                    ap (λ (x : OracleAttestation). validate_attestation env.secp x ann) same
                        ∙ valid,
                  ))
                rest

  find_closable-IsEnough :
      (infos : List ContractInfo) (adaptors : List ℕ) (info : ContractInfo) (adaptor : ℕ)
      (atts : List (ℕ × OracleAttestation))
      → find_closable env infos adaptors ≡ some (info, adaptor, atts)
      → Has info infos
        × (info.threshold ≤ length atts)
        × All (λ (a : ℕ × OracleAttestation). IsAttestation info.oracle_announcements a.1) atts
  unfolding find_closable
  find_closable-IsEnough [] adaptors info adaptor atts h = cc
  find_closable-IsEnough (i ∷ infos) [] info adaptor atts h = cc
  find_closable-IsEnough (i ∷ infos) (a ∷ adaptors) info adaptor atts h =
      let matured = matured_from env 0 i.oracle_announcements in
      let made = attestations_of env matured in
      elim (Bool-cases (leb i.threshold (length matured) && leb i.threshold (length made))) [
        | inl enough ↦
            let found : some (i, a, made) ≡ some (info, adaptor, atts) = rw enough at h in
            let same : i ≡ info = cc found in
            let same_atts : made ≡ atts = cc found in
            rw (← same, ← same_atts)
              (
                inl refl,
                leb→le _ _ (and_right _ _ enough),
                attestations_of-All i.oracle_announcements matured
                    (matured_from-All i.oracle_announcements i.oracle_announcements (λ x at. at) 0),
              )
        | inr few ↦
            let (at, enough, valid) =
              find_closable-IsEnough infos adaptors info adaptor atts (rw few at h) in
            (inr at, enough, valid)
      ]

  -- What is found to close a contract is one of its infos, with enough attestations.
  pub get_closable-IsEnough :
      (c : SignedContract) (info : ContractInfo) (adaptor : ℕ) (atts : List (ℕ × OracleAttestation))
      → get_closable_contract_info env c ≡ some (info, adaptor, atts)
      → IsEnough c info atts
  unfolding get_closable_contract_info
  get_closable-IsEnough c info adaptor atts h =
      find_closable-IsEnough c.accepted_contract.offered_contract.contract_info
        c.accepted_contract.adaptor_infos info adaptor atts h
