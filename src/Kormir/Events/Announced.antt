-- ===== src/Kormir/Events/Announced.antt =====
-- Of a numeric event that was announced, every outcome can be attested.
use dlcdevkit.Base.{
  ℕ, ◌+◌, ◌≡◌, refl, sym, ◌∙◌, arith, Bool, true, not, ◌||◌, ltb, List, [], ◌∷◌, length, ◌==◌,
  ==_iff, ==_refl, if◌then◌else◌,
}
use dlcdevkit.Base.Int.{ℤ}
use dlcdevkit.Base.Outcome.{ok, guard-passes, >>=-eq-ok}
use dlcdevkit.Kormir.Messages.{
  Text, digit_decomposition_event, DigitDecompositionEventDescriptor, OracleEvent,
  OracleAnnouncement, OracleAttestation, Schnorr, tagged_attestation_msg, validate_attestation,
  validate_event, validate_announcement, expected_nb_nonces,
}
use dlcdevkit.Kormir.Events.{
  check_nonces, sign_outcome, sign_outcomes, sign_numeric_event, announce, create_numeric_event,
  map_internal, signed_announcement, public_keys, is_empty, outcome_texts, attest, invalid_event_id,
  invalid_number_of_digits, invalid_nonces,
}
use dlcdevkit.Kormir.Events.Clamping.{
  IsBinary, limit, nearest, get_max_value-limit, get_min_value-limit, clamp-nearest,
}
use dlcdevkit.Kormir.Events.Attesting.{outcome_texts-reads, read_outcome}
use dlcdevkit.Kormir.Events.Validity.{sign_numeric_event-validates}

module _ (secp : Schnorr) (key : ℕ) where
  announce-eq :
      (event : OracleEvent) (ann : OracleAnnouncement)
      → announce secp key event ≡ ok ann
      → signed_announcement secp key event ≡ ann
  unfolding announce
  announce-eq event ann h =
      let (u, checked, h1) = >>=-eq-ok (map_internal (validate_event event)) _ h in
      let (u', valid, made) =
        >>=-eq-ok (map_internal (validate_announcement secp (signed_announcement secp key event))) _
          h1 in
      cc made

  own_nonces : (ks : List ℕ) → check_nonces secp ks (public_keys secp ks) ≡ ok tt
  unfolding check_nonces
  own_nonces [] = refl
  own_nonces (k ∷ ks) = rw (==_refl (secp.x_only_public_key k)) (own_nonces ks)

  length-public_keys : (ks : List ℕ) → length (public_keys secp ks) ≡ length ks
  length-public_keys [] = omega arith
  length-public_keys (k ∷ ks) = omega (arith, length-public_keys ks)

  -- The descriptor and the announcement that a creation makes.
  abbrev described : Bool → Text → ℤ → ℕ → DigitDecompositionEventDescriptor
  described is_signed unit precision num_digits = record {
    base = 2;
    is_signed = is_signed;
    unit = unit;
    precision = precision;
    nb_digits = num_digits;
  }

  abbrev numeric_event : DigitDecompositionEventDescriptor → Text → ℕ → List ℕ → OracleEvent
  numeric_event d event_id epoch nonces = record {
    oracle_nonces = nonces;
    event_maturity_epoch = epoch;
    event_descriptor = digit_decomposition_event d;
    event_id = event_id;
  }

  create_numeric-parts :
      (event_id unit : Text) (num_digits epoch : ℕ) (is_signed : Bool) (precision : ℤ)
      (nonces : List ℕ) (ann : OracleAnnouncement)
      → create_numeric_event secp key event_id 2 num_digits is_signed precision unit epoch nonces
        ≡ ok ann
      → (let d = described is_signed unit precision num_digits in
          IsBinary d
          × (length nonces ≡ expected_nb_nonces (digit_decomposition_event d))
          × (signed_announcement secp key (numeric_event d event_id epoch nonces) ≡ ann))
  unfolding create_numeric_event expected_nb_nonces
  create_numeric-parts event_id unit num_digits epoch is_signed precision nonces ann h =
      let (named, h1) = guard-passes (not (is_empty event_id)) invalid_event_id _ h in
      let (digits, h2) =
        guard-passes (not (num_digits == 0 || ltb 63 num_digits)) invalid_number_of_digits _ h1 in
      let (count, h3) =
        guard-passes (length nonces == (if is_signed then num_digits + 1 else num_digits))
          invalid_nonces _ h2 in
      (
        record { base_two = refl; some_digits = ground arith; few_digits = ground arith },
        (==_iff _ _).0 count,
        announce-eq _ ann h3,
      )

  module _
      (law : (msg : List ℕ) (k nonce : ℕ)
        → secp.verify_schnorr
            (secp.schnorrsig_sign_with_nonce msg k nonce)
            msg
            (secp.x_only_public_key k)
          ≡ true) where
    sign_outcomes_total :
        (os : List Text) (ks : List ℕ) → (sigs : List ℕ) × (sign_outcomes secp key os ks ≡ ok sigs)
    unfolding sign_outcomes sign_outcome
    sign_outcomes_total [] ks = ([], refl)
    sign_outcomes_total (o ∷ os) [] = ([], refl)
    sign_outcomes_total (o ∷ os) (k ∷ ks) =
        let (sigs, e) = sign_outcomes_total os ks in
        let sig = secp.schnorrsig_sign_with_nonce (tagged_attestation_msg secp o) key k in
        (sig ∷ sigs, rw (law (tagged_attestation_msg secp o) key k, e) refl)

    sign_announced :
        (d : DigitDecompositionEventDescriptor) (event_id : Text) (epoch : ℕ) (nonce_keys : List ℕ)
        (outcome : ℤ)
        → IsBinary d
        → length nonce_keys ≡ expected_nb_nonces (digit_decomposition_event d)
        → (let ann =
              signed_announcement secp key
                (numeric_event d event_id epoch (public_keys secp nonce_keys)) in
            let texts = outcome_texts d (nearest d.is_signed (limit d.nb_digits) outcome) in
            (sigs : List ℕ) × (sign_numeric_event secp key ann outcome nonce_keys
              ≡ ok (attest secp key event_id sigs texts)))
    unfolding sign_numeric_event
    sign_announced d event_id epoch nonce_keys outcome b len =
        let texts = outcome_texts d (nearest d.is_signed (limit d.nb_digits) outcome) in
        let (sigs, signed) = sign_outcomes_total texts nonce_keys in
        let each : (length nonce_keys == length texts) ≡ true =
          (==_iff _ _).1 (len ∙ sym (outcome_texts-reads d outcome b).1) in
        let two : (d.base == 2) ≡ true = (==_iff _ _).1 b.base_two in
        (
          sigs,
          rw
              (
                two,
                ==_refl (secp.x_only_public_key key),
                own_nonces nonce_keys,
                get_max_value-limit d b,
                get_min_value-limit d b,
                clamp-nearest d.is_signed (limit d.nb_digits) outcome,
                each,
                signed,
              )
              refl,
        )

-- Once a numeric event is announced with the public keys of its nonces, any outcome at all is attested:
-- the attestation passes the validity checks against the announcement, and stands for the nearest value
-- of the announced range. Signatures are assumed to verify and to begin with the key of their nonce.
pub create_numeric_event-attestable :
    (secp : Schnorr) (key : ℕ)
    → ((msg : List ℕ) (k nonce : ℕ)
        → secp.verify_schnorr
            (secp.schnorrsig_sign_with_nonce msg k nonce)
            msg
            (secp.x_only_public_key k)
          ≡ true)
    → ((msg : List ℕ) (k nonce : ℕ)
        → secp.signature_nonce (secp.schnorrsig_sign_with_nonce msg k nonce)
          ≡ secp.x_only_public_key nonce)
    → (event_id unit : Text) (num_digits epoch : ℕ) (is_signed : Bool) (precision : ℤ)
      (nonce_keys : List ℕ) (ann : OracleAnnouncement)
    → create_numeric_event secp key event_id 2 num_digits is_signed precision unit epoch
        (public_keys secp nonce_keys)
      ≡ ok ann
    → (outcome : ℤ)
    → (att : OracleAttestation) × (sign_numeric_event secp key ann outcome nonce_keys ≡ ok att)
      × (validate_attestation secp att ann ≡ ok tt)
      × (read_outcome is_signed att.outcomes ≡ nearest is_signed (limit num_digits) outcome)
create_numeric_event-attestable secp key verifies begins event_id unit num_digits epoch is_signed
      precision nonce_keys ann h outcome =
    let (b, len, made) =
      create_numeric-parts secp key event_id unit num_digits epoch is_signed precision
        (public_keys secp nonce_keys) ann h in
    let d = described secp key is_signed unit precision num_digits in
    let (sigs, signed) =
      sign_announced secp key verifies d event_id epoch nonce_keys outcome b
        (sym (length-public_keys secp key nonce_keys) ∙ len) in
    let texts = outcome_texts d (nearest is_signed (limit num_digits) outcome) in
    let at = rw made at signed in
    (
      attest secp key event_id sigs texts,
      at,
      sign_numeric_event-validates secp key begins ann outcome nonce_keys _ at,
      (outcome_texts-reads d outcome b).0,
    )
