-- ===== src/Kormir/Events/Attesting.antt =====
-- What an attestation of a numeric event says, and that it passes the checks of the others.
use dlcdevkit.Base.{
  ℕ, ◌+◌, ◌^◌, ◌≤◌, ◌≡◌, refl, sym, ap, ◌∙◌, inl, inr, arith, Bool, true, false, List, [], ◌∷◌,
  length, list_eqb, ◌==◌, ==_iff, Bool-cases, if◌then◌else◌,
}
use dlcdevkit.Base.Int.{ℤ, pos, lt_int, magnitude}
use dlcdevkit.Base.Outcome.{ok, guard-passes, >>=-eq-ok}
use dlcdevkit.Kormir.Messages.{
  Text, EventDescriptor, digit_decomposition_event, enum_event, DigitDecompositionEventDescriptor,
  OracleAnnouncement, OracleAttestation, Schnorr, expected_nb_nonces,
}
use dlcdevkit.Kormir.Events.{
  get_max_value, get_min_value, clamp, sign_text, format_binary, outcome_texts, check_nonces,
  sign_outcomes, digit_descriptor, sign_numeric_event, attest,
}
use dlcdevkit.Kormir.Events.Digits.{read_binary, format_binary-reads}
use dlcdevkit.Kormir.Events.Clamping.{
  IsBinary, limit, nearest, lowest, get_max_value-limit, get_min_value-limit, clamp-nearest,
  magnitude-nearest, with_sign, with_sign-magnitude, nearest-unsigned, pow_bound,
}

-- The number that the outcomes of an attestation stand for: a minus or a plus first, if it is signed.
abbrev pub read_outcome : Bool → List Text → ℤ
read_outcome false texts = pos (read_binary texts)
read_outcome true [] = pos 0
read_outcome true (sign ∷ texts) = with_sign (list_eqb sign (45 ∷ [])) (read_binary texts)

sign_text-minus : (n : ℤ) → list_eqb (sign_text n) (45 ∷ []) ≡ lt_int n (pos 0)
unfolding list_eqb
sign_text-minus n = elim (Bool-cases (lt_int n (pos 0))) [ inl e ↦ rw e refl | inr e ↦ rw e refl ]

-- The outcome that is signed is read back from its texts, one for each nonce.
pub outcome_texts-reads :
    (d : DigitDecompositionEventDescriptor) (outcome : ℤ)
    → IsBinary d
    → (let n = nearest d.is_signed (limit d.nb_digits) outcome in
        (read_outcome d.is_signed (outcome_texts d n) ≡ n)
        × (length (outcome_texts d n) ≡ expected_nb_nonces (digit_decomposition_event d)))
unfolding outcome_texts expected_nb_nonces
outcome_texts-reads d outcome b = by_sign d.is_signed
  where
    top : 2 ^ d.nb_digits ≤ 2 ^ 63
    top = pow_bound d.nb_digits 63 b.few_digits

    low : 2 ^ 1 ≤ 2 ^ d.nb_digits
    low = pow_bound 1 d.nb_digits b.some_digits

    reads :
        (s : Bool)
        → (let m = magnitude (nearest s (limit d.nb_digits) outcome) in
            (read_binary (format_binary d.nb_digits m) ≡ m)
            × (length (format_binary d.nb_digits m) ≡ d.nb_digits))
    reads s =
        format_binary-reads d.nb_digits (magnitude (nearest s (limit d.nb_digits) outcome))
          b.some_digits (omega (arith, magnitude-nearest s (limit d.nb_digits) outcome, low))
          (omega (arith, magnitude-nearest s (limit d.nb_digits) outcome, top, low))

    by_sign :
        (s : Bool)
        → (let n = nearest s (limit d.nb_digits) outcome in
            let digits = format_binary d.nb_digits (magnitude n) in
            let texts = if s then sign_text n ∷ digits else digits in
            (read_outcome s texts ≡ n)
            × (length texts ≡ (if s then d.nb_digits + 1 else d.nb_digits)))
    by_sign true =
        let n = nearest true (limit d.nb_digits) outcome in
        (
          rw (sign_text-minus n, (reads true).0) (with_sign-magnitude n),
          omega (arith, (reads true).1),
        )
    by_sign false =
        (rw (reads false).0 (nearest-unsigned (limit d.nb_digits) outcome), (reads false).1)

range_checked :
    (d : DigitDecompositionEventDescriptor) (m : ℤ)
    → get_max_value d ≡ ok m
    → d.base ≡ 2
    → IsBinary d
unfolding get_max_value
range_checked d m h base = record {
  base_two = base;
  some_digits = ground arith;
  few_digits = ground arith;
}

-- The parts of a signature of a numeric event that was made.
pub record IsSigned (secp : Schnorr) (key : ℕ) (ann : OracleAnnouncement) (outcome : ℤ)
    (nonce_keys : List ℕ) (att : OracleAttestation) (d : DigitDecompositionEventDescriptor)
    : Type 0 where
  pub described : ann.oracle_event.event_descriptor ≡ digit_decomposition_event d
  pub binary : IsBinary d
  pub own_key : secp.x_only_public_key key ≡ ann.oracle_public_key
  pub own_nonces : check_nonces secp nonce_keys ann.oracle_event.oracle_nonces ≡ ok tt
  pub texts : att.outcomes ≡ outcome_texts d (nearest d.is_signed (limit d.nb_digits) outcome)
  pub one_key_each : length nonce_keys ≡ length att.outcomes
  pub signed : sign_outcomes secp key att.outcomes nonce_keys ≡ ok att.signatures
  pub by_key : att.oracle_public_key ≡ secp.x_only_public_key key
  pub of_event : att.event_id ≡ ann.oracle_event.event_id

digit_descriptor-eq :
    (e : EventDescriptor) (d : DigitDecompositionEventDescriptor)
    → digit_descriptor e ≡ ok d
    → e ≡ digit_decomposition_event d
digit_descriptor-eq (enum_event e) d h = cc
digit_descriptor-eq (digit_decomposition_event e) d h = cc

pub sign_numeric-parts :
    (secp : Schnorr) (key : ℕ) (ann : OracleAnnouncement) (outcome : ℤ) (nonce_keys : List ℕ)
    (att : OracleAttestation)
    → sign_numeric_event secp key ann outcome nonce_keys ≡ ok att
    → (d : DigitDecompositionEventDescriptor) × IsSigned secp key ann outcome nonce_keys att d
unfolding sign_numeric_event
sign_numeric-parts secp key ann outcome nonce_keys att h =
    let (d, described, h1) = >>=-eq-ok (digit_descriptor ann.oracle_event.event_descriptor) _ h in
    let (base, h2) = guard-passes (d.base == 2) _ _ h1 in
    let (own, h3) = guard-passes (secp.x_only_public_key key == ann.oracle_public_key) _ _ h2 in
    let (u, nonces, h4) =
      >>=-eq-ok (check_nonces secp nonce_keys ann.oracle_event.oracle_nonces) _ h3 in
    let (top, is_top, h5) = >>=-eq-ok (get_max_value d) _ h4 in
    let (low, is_low, h6) = >>=-eq-ok (get_min_value d) _ h5 in
    let texts = outcome_texts d (clamp low top outcome) in
    let (len, h7) = guard-passes (length nonce_keys == length texts) _ _ h6 in
    let (sigs, signed, made) = >>=-eq-ok (sign_outcomes secp key texts nonce_keys) _ h7 in
    let b = range_checked d top is_top ((==_iff _ _).0 base) in
    let low_is : low ≡ lowest d.is_signed (limit d.nb_digits) =
      cc (is_low, get_min_value-limit d b) in
    let top_is : top ≡ pos (limit d.nb_digits) = cc (is_top, get_max_value-limit d b) in
    let same : attest secp key ann.oracle_event.event_id sigs texts ≡ att = cc in
    let outs : texts ≡ att.outcomes = ap (λ (a : OracleAttestation). a.outcomes) same in
    let ss : sigs ≡ att.signatures = ap (λ (a : OracleAttestation). a.signatures) same in
    (
      d,
      record {
        described = digit_descriptor-eq _ d described;
        binary = b;
        own_key = (==_iff _ _).0 own;
        own_nonces = nonces;
        texts =
            sym outs
            ∙ ap (outcome_texts d) (
                ap (λ (l : ℤ). clamp l top outcome) low_is
                ∙ ap (λ (t : ℤ). clamp (lowest d.is_signed (limit d.nb_digits)) t outcome) top_is
                ∙ clamp-nearest d.is_signed (limit d.nb_digits) outcome);
        one_key_each = (==_iff _ _).0 len ∙ ap length outs;
        signed =
            ap (λ (o : List Text). sign_outcomes secp key o nonce_keys) (sym outs)
            ∙ signed
            ∙ ap ok ss;
        by_key = sym (ap (λ (a : OracleAttestation). a.oracle_public_key) same);
        of_event = sym (ap (λ (a : OracleAttestation). a.event_id) same);
      },
    )

-- The outcomes of an attestation of a numeric event stand for the value of the event's range that is
-- nearest to the outcome given, with one text for each nonce that the event must have.
pub sign_numeric_event-reads :
    (secp : Schnorr) (key : ℕ) (ann : OracleAnnouncement) (outcome : ℤ) (nonce_keys : List ℕ)
    (att : OracleAttestation)
    → sign_numeric_event secp key ann outcome nonce_keys ≡ ok att
    → (d : DigitDecompositionEventDescriptor) × (ann.oracle_event.event_descriptor
        ≡ digit_decomposition_event d)
      × (read_outcome d.is_signed att.outcomes ≡ nearest d.is_signed (limit d.nb_digits) outcome)
      × (length att.outcomes ≡ expected_nb_nonces ann.oracle_event.event_descriptor)
sign_numeric_event-reads secp key ann outcome nonce_keys att h =
    let (d, s) = sign_numeric-parts secp key ann outcome nonce_keys att h in
    let (reads, len) = outcome_texts-reads d outcome s.binary in
    (
      d,
      s.described,
      ap (read_outcome d.is_signed) s.texts ∙ reads,
      ap length s.texts ∙ len ∙ ap expected_nb_nonces (sym s.described),
    )
