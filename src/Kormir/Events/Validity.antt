-- ===== src/Kormir/Events/Validity.antt =====
-- Attestations pass the checks of those who receive them, and of an announced event one is always made.
use dlcdevkit.Base.{
  ℕ, ◌<◌, ◌≡◌, refl, sym, ap, ◌∙◌, arith, true, List, [], ◌∷◌, length, ◌==◌, ==_iff, ==_refl,
}
use dlcdevkit.Base.Int.{ℤ}
use dlcdevkit.Base.Outcome.{ok, guard-passes, >>=-eq-ok}
use dlcdevkit.Kormir.Messages.{
  Text, digit_decomposition_event, DigitDecompositionEventDescriptor, OracleAnnouncement,
  OracleAttestation, Schnorr, expected_nb_nonces, tagged_attestation_msg, verify_outcomes,
  nonces_match, validate_attestation,
}
use dlcdevkit.Kormir.Events.{check_nonces, sign_outcome, sign_outcomes, sign_numeric_event}
use dlcdevkit.Kormir.Events.Clamping.{IsBinary}
use dlcdevkit.Kormir.Events.Attesting.{outcome_texts-reads, sign_numeric-parts}

more_nonces :
    (d : DigitDecompositionEventDescriptor)
    → IsBinary d
    → 0 < expected_nb_nonces (digit_decomposition_event d)
unfolding expected_nb_nonces
more_nonces d b = ground (arith, b.some_digits)

module _ (secp : Schnorr) (key : ℕ) where
  -- A signature that was made is one of the outcome by the nonce, and verifies.
  sign_outcome-made :
      (o : Text) (k sig : ℕ)
      → sign_outcome secp key o k ≡ ok sig
      → (secp.schnorrsig_sign_with_nonce (tagged_attestation_msg secp o) key k ≡ sig)
        × (secp.verify_schnorr sig (tagged_attestation_msg secp o) (secp.x_only_public_key key)
            ≡ true)
  unfolding sign_outcome
  sign_outcome-made o k sig h =
      let msg = tagged_attestation_msg secp o in
      let signature = secp.schnorrsig_sign_with_nonce msg key k in
      let (verified, made) =
        guard-passes (secp.verify_schnorr signature msg (secp.x_only_public_key key)) _ _ h in
      let same : signature ≡ sig = cc made in (same, rw (← same) verified)

  sign_outcomes-verify :
      (os : List Text) (ks sigs : List ℕ)
      → sign_outcomes secp key os ks ≡ ok sigs
      → length ks ≡ length os
      → (verify_outcomes secp (secp.x_only_public_key key) sigs os ≡ ok tt)
        × (length os ≡ length sigs)
  unfolding sign_outcomes verify_outcomes
  sign_outcomes-verify [] ks sigs h len = let e : [] ≡ sigs = cc in rw (← e) (refl, refl)
  sign_outcomes-verify (o ∷ os) [] sigs h len = absurd (omega arith)
  sign_outcomes-verify (o ∷ os) (k ∷ ks) sigs h len =
      let (sig, made, h1) = >>=-eq-ok (sign_outcome secp key o k) _ h in
      let (rest, signed, done) = >>=-eq-ok (sign_outcomes secp key os ks) _ h1 in
      let e : sig ∷ rest ≡ sigs = cc in
      let (verified, len') = sign_outcomes-verify os ks rest signed (omega arith) in
      rw (← e) (rw ((sign_outcome-made o k sig made).1) verified, omega (arith, len'))

  sign_outcomes-nonces :
      ((msg : List ℕ) (k nonce : ℕ)
        → secp.signature_nonce (secp.schnorrsig_sign_with_nonce msg k nonce)
          ≡ secp.x_only_public_key nonce)
      → (os : List Text) (ks sigs ns : List ℕ) → sign_outcomes secp key os ks ≡ ok sigs
      → check_nonces secp ks ns ≡ ok tt
      → nonces_match secp sigs ns ≡ true
  unfolding sign_outcomes check_nonces nonces_match
  sign_outcomes-nonces law [] ks sigs ns h c = let e : [] ≡ sigs = cc in rw (← e) refl
  sign_outcomes-nonces law (o ∷ os) [] sigs ns h c = let e : [] ≡ sigs = cc in rw (← e) refl
  sign_outcomes-nonces law (o ∷ os) (k ∷ ks) sigs [] h c =
      let (sig, made, h1) = >>=-eq-ok (sign_outcome secp key o k) _ h in
      let (rest, signed, done) = >>=-eq-ok (sign_outcomes secp key os ks) _ h1 in
      let e : sig ∷ rest ≡ sigs = cc in rw (← e) refl
  sign_outcomes-nonces law (o ∷ os) (k ∷ ks) sigs (n ∷ ns) h c =
      let (sig, made, h1) = >>=-eq-ok (sign_outcome secp key o k) _ h in
      let (rest, signed, done) = >>=-eq-ok (sign_outcomes secp key os ks) _ h1 in
      let e : sig ∷ rest ≡ sigs = cc in
      let (own, c') = guard-passes (secp.x_only_public_key k == n) _ _ c in
      let at : secp.signature_nonce sig ≡ n =
        ap secp.signature_nonce (sym (sign_outcome-made o k sig made).0)
        ∙ law _ _ _
        ∙ (==_iff _ _).0 own in
      rw (← e, at, ==_refl n, sign_outcomes-nonces law os ks rest ns signed c') refl

  -- Whatever numeric outcome is attested, the attestation passes the validity checks against its
  -- announcement, if a signature begins with the public key of its nonce.
  pub sign_numeric_event-validates :
      ((msg : List ℕ) (k nonce : ℕ)
        → secp.signature_nonce (secp.schnorrsig_sign_with_nonce msg k nonce)
          ≡ secp.x_only_public_key nonce)
      → (ann : OracleAnnouncement) (outcome : ℤ) (nonce_keys : List ℕ) (att : OracleAttestation)
      → sign_numeric_event secp key ann outcome nonce_keys ≡ ok att
      → validate_attestation secp att ann ≡ ok tt
  unfolding validate_attestation
  sign_numeric_event-validates law ann outcome nonce_keys att h =
      let (d, s) = sign_numeric-parts secp key ann outcome nonce_keys att h in
      let (verified, len) =
        sign_outcomes-verify att.outcomes nonce_keys att.signatures s.signed s.one_key_each in
      let own : (att.oracle_public_key == ann.oracle_public_key) ≡ true =
        (==_iff _ _).1 (s.by_key ∙ s.own_key) in
      rw
        (
          (==_iff _ _).1 len,
          own,
          s.by_key,
          verified,
          sign_outcomes-nonces law att.outcomes nonce_keys att.signatures
              ann.oracle_event.oracle_nonces s.signed s.own_nonces,
        )
        refl

  -- There is at least one outcome, and as many signatures as outcomes.
  pub sign_numeric_event-some :
      (ann : OracleAnnouncement) (outcome : ℤ) (nonce_keys : List ℕ) (att : OracleAttestation)
      → sign_numeric_event secp key ann outcome nonce_keys ≡ ok att
      → (0 < length att.outcomes) × (length att.outcomes ≡ length att.signatures)
  sign_numeric_event-some ann outcome nonce_keys att h =
      let (d, s) = sign_numeric-parts secp key ann outcome nonce_keys att h in
      (
        omega (
          arith,
          ap length s.texts,
          (outcome_texts-reads d outcome s.binary).1,
          more_nonces d s.binary,
        ),
        (sign_outcomes-verify att.outcomes nonce_keys att.signatures s.signed s.one_key_each).1,
      )
