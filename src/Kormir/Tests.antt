-- ===== src/Kormir/Tests.antt =====
-- An oracle with small signatures: the key of the nonce and a check sum of the message and the key.
use dlcdevkit.Base.{
  ℕ, ◌+◌, ◌*◌, ◌/◌, ◌%◌, ◌≡◌, refl, ap, arith, true, false, some, List, [], ◌∷◌, ◌==◌, ==_iff,
  length, list_eqb,
}
use dlcdevkit.Base.Int.{ℤ, pos, negsuc}
use dlcdevkit.Base.Outcome.{ok, err}
use dlcdevkit.Base.Word.{sum}
use dlcdevkit.Kormir.Messages.{
  Text, digit_decomposition_event, DigitDecompositionEventDescriptor, OracleAnnouncement,
  OracleAttestation, Schnorr, expected_nb_nonces, validate_attestation, validate_event,
  validate_announcement, tagged_announcement_msg, tagged_attestation_msg,
}
use dlcdevkit.Kormir.Events
use dlcdevkit.Kormir.Events.{
  Result, announce, event_already_signed, public_keys, check_nonces, get_max_value, get_min_value,
  clamp, binary, format_binary, outcome_texts, sign_outcome, sign_outcomes,
}
use dlcdevkit.Kormir.Events.Clamping.{limit, nearest}
use dlcdevkit.Kormir.Events.Attesting.{read_outcome, sign_numeric_event-reads}
use dlcdevkit.Kormir.Events.Validity.{sign_numeric_event-validates}
use dlcdevkit.Kormir.Events.Announced.{create_numeric_event-attestable}
use dlcdevkit.Kormir.Storage.{
  MemoryStorage, OracleEventData, new_storage, get_event, get_next_nonce_indexes, index_range,
  save_announcement, save_signatures, sign_found, attestation,
}
use dlcdevkit.Kormir.Oracle.{
  Oracle, get_nonce_key, get_nonce_keys, save, create_numeric_event, unsigned, attest_numeric,
  save_attestation, sign_enum_event, sign_numeric_event,
}
use dlcdevkit.Kormir.Oracle.Ledger.{Distinct}
use dlcdevkit.Kormir.Oracle.Nonces.{
  Call, create_numeric, sign_numeric, perform, used_by, nonces_used_once,
}
use dlcdevkit.Kormir.Oracle.Stored.{sign_numeric_event-stored, signed_once}
use dlcdevkit.Manager.Monitor.Maps.{insert}

abbrev check_sum : List ℕ → ℕ → ℕ
check_sum msg key = (sum msg + key) % 1000

abbrev schnorr : Schnorr
schnorr = record {
  sha256 = λ bytes. bytes;
  to_tlv_bytes = λ event. event.event_id;
  x_only_public_key = λ k. k;
  sign_schnorr = λ msg key. check_sum msg key;
  schnorrsig_sign_with_nonce = λ msg key nonce. nonce * 1000 + check_sum msg key;
  verify_schnorr = λ sig msg key. sig % 1000 == check_sum msg key;
  signature_nonce = λ sig. sig / 1000;
}

verifies :
    (msg : List ℕ) (k nonce : ℕ)
    → schnorr.verify_schnorr
        (schnorr.schnorrsig_sign_with_nonce msg k nonce)
        msg
        (schnorr.x_only_public_key k)
      ≡ true
verifies msg k nonce = (==_iff _ _).1 (omega arith)

begins :
    (msg : List ℕ) (k nonce : ℕ)
    → schnorr.signature_nonce (schnorr.schnorrsig_sign_with_nonce msg k nonce)
      ≡ schnorr.x_only_public_key nonce
begins msg k nonce = omega arith

abbrev oracle : Oracle
oracle = record { secp = schnorr; key_pair = 5; derive_priv = λ i. some (i + 70) }

-- "id" and "kW"
abbrev event_id : Text
event_id = 105 ∷ 100 ∷ []

abbrev unit : Text
unit = 107 ∷ 87 ∷ []

abbrev keys : List ℕ
keys = 70 ∷ 71 ∷ 72 ∷ []

-- Two digits and a sign.
abbrev announced : OracleAnnouncement
announced = record {
  announcement_signature = 88;
  oracle_public_key = 5;
  oracle_event = record {
    oracle_nonces = keys;
    event_maturity_epoch = 9;
    event_descriptor =
        digit_decomposition_event
          (record { base = 2; is_signed = true; unit = unit; precision = pos 0; nb_digits = 2 });
    event_id = event_id;
  };
}

abbrev minus_two : OracleAttestation
minus_two = record {
  event_id = event_id;
  oracle_public_key = 5;
  signatures = 70746 ∷ 71750 ∷ 72749 ∷ [];
  outcomes = (45 ∷ []) ∷ (49 ∷ []) ∷ (48 ∷ []) ∷ [];
}

made :
    Events.create_numeric_event schnorr 5 event_id 2 2 true
      (pos 0)
      unit
      9
      (public_keys schnorr keys)
    ≡ ok announced
unfolding Events.create_numeric_event announce validate_event validate_announcement
    expected_nb_nonces tagged_announcement_msg
made = refl

answered : Events.sign_numeric_event schnorr 5 announced (negsuc 1) keys ≡ ok minus_two
unfolding Events.sign_numeric_event check_nonces get_max_value get_min_value clamp binary
    format_binary outcome_texts sign_outcome sign_outcomes tagged_attestation_msg
answered = refl

create_numeric_event-attestable_example :
    (att : OracleAttestation) × (Events.sign_numeric_event schnorr 5 announced (negsuc 8) keys
      ≡ ok att)
    × (validate_attestation schnorr att announced ≡ ok tt)
    × (read_outcome true att.outcomes ≡ nearest true (limit 2) (negsuc 8))
create_numeric_event-attestable_example =
    create_numeric_event-attestable schnorr 5 verifies begins event_id unit 2 9 true (pos 0) keys
      announced made (negsuc 8)

sign_numeric_event-reads_example :
    (d : DigitDecompositionEventDescriptor) × (announced.oracle_event.event_descriptor
      ≡ digit_decomposition_event d)
    × (read_outcome d.is_signed minus_two.outcomes
        ≡ nearest d.is_signed (limit d.nb_digits) (negsuc 1))
    × (length minus_two.outcomes ≡ expected_nb_nonces announced.oracle_event.event_descriptor)
sign_numeric_event-reads_example =
    sign_numeric_event-reads schnorr 5 announced (negsuc 1) keys minus_two answered

sign_numeric_event-validates_example : validate_attestation schnorr minus_two announced ≡ ok tt
sign_numeric_event-validates_example =
    sign_numeric_event-validates schnorr 5 begins announced (negsuc 1) keys minus_two answered

-- The event is announced, signed, announced again under the same id and signed again.
abbrev calls : List Call
calls =
    create_numeric event_id 2 true (pos 0) unit 9
    ∷ sign_numeric event_id (negsuc 1)
    ∷ sign_numeric event_id (pos 1)
    ∷ create_numeric event_id 1 false (pos 0) unit 9
    ∷ sign_numeric event_id (pos 1)
    ∷ []

used_in_turn : used_by oracle new_storage calls ≡ 0 ∷ 1 ∷ 2 ∷ 3 ∷ []
unfolding perform create_numeric_event sign_numeric_event get_next_nonce_indexes index_range save
    save_announcement save_attestation save_signatures sign_found get_event attest_numeric unsigned
    get_nonce_key get_nonce_keys insert list_eqb Events.create_numeric_event announce validate_event
    validate_announcement expected_nb_nonces tagged_announcement_msg Events.sign_numeric_event
    check_nonces get_max_value get_min_value clamp binary format_binary outcome_texts sign_outcome
    sign_outcomes tagged_attestation_msg
used_in_turn = refl

nonces_used_once_example : Distinct (used_by oracle new_storage calls)
nonces_used_once_example = nonces_used_once oracle calls (omega arith)

-- The event in a storage, before and after it is signed.
abbrev stored_event : List (Text × ℕ) → OracleEventData
stored_event sigs = record {
  event_id = event_id;
  announcement = announced;
  indexes = 0 ∷ 1 ∷ 2 ∷ [];
  signatures = sigs;
}

abbrev storage : List (Text × ℕ) → MemoryStorage
storage sigs = record { current_index = 3; events = (event_id, stored_event sigs) ∷ [] }

abbrev signatures : List (Text × ℕ)
signatures = (45 ∷ [], 70746) ∷ (49 ∷ [], 71750) ∷ (48 ∷ [], 72749) ∷ []

signed_in_storage :
    sign_numeric_event oracle (storage []) event_id (negsuc 1) ≡ (storage signatures, ok minus_two)
unfolding sign_numeric_event save_attestation save_signatures sign_found get_event attest_numeric
    unsigned get_nonce_key get_nonce_keys insert list_eqb Events.sign_numeric_event check_nonces
    get_max_value get_min_value clamp binary format_binary outcome_texts sign_outcome sign_outcomes
    tagged_attestation_msg
signed_in_storage = refl

sign_numeric_event-stored_example :
    (e : OracleEventData) × (get_event
        (sign_numeric_event oracle (storage []) event_id (negsuc 1)).0
        event_id
      ≡ some e)
    × (attestation e ≡ some minus_two)
sign_numeric_event-stored_example =
    sign_numeric_event-stored oracle (storage []) event_id (negsuc 1) minus_two
      (ap (λ (r : MemoryStorage × Result OracleAttestation). r.1) signed_in_storage)

signed_once_example :
    ((other : Text)
      → sign_enum_event oracle
          (sign_numeric_event oracle (storage []) event_id (negsuc 1)).0
          event_id
          other
        ≡ (
          (sign_numeric_event oracle (storage []) event_id (negsuc 1)).0,
          err event_already_signed,
        ))
    × ((other : ℤ)
        → sign_numeric_event oracle
            (sign_numeric_event oracle (storage []) event_id (negsuc 1)).0
            event_id
            other
          ≡ (
            (sign_numeric_event oracle (storage []) event_id (negsuc 1)).0,
            err event_already_signed,
          ))
signed_once_example =
    signed_once oracle (storage []) event_id (negsuc 1) minus_two
      (ap (λ (r : MemoryStorage × Result OracleAttestation). r.1) signed_in_storage)
