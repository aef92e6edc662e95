-- ===== src/Kormir/Messages.antt =====
-- dlc-messages/src/oracle_msgs.rs: announcements and attestations, and their validity checks.
use dlcdevkit.Base.{ℕ, ◌+◌, Bool, true, ◌&&◌, List, [], ◌∷◌, ◌++◌, length, ◌==◌, if◌then◌else◌}
use dlcdevkit.Base.Int.{ℤ}
use dlcdevkit.Base.Outcome.{ok, guard, ◌>>◌}
use dlcdevkit.Dlc.Types.{Result, secp256k1, invalid_argument}

-- A text is its bytes, a key or a signature the number that its bytes write.
abbrev pub Text : Type 0
Text = List ℕ

pub record EnumEventDescriptor : Type 0 where
  pub outcomes : List Text

pub record DigitDecompositionEventDescriptor : Type 0 where
  pub base : ℕ
  pub is_signed : Bool
  pub unit : Text
  pub precision : ℤ
  pub nb_digits : ℕ

pub data EventDescriptor : Type 0 where
  enum_event : EnumEventDescriptor → EventDescriptor
  digit_decomposition_event : DigitDecompositionEventDescriptor → EventDescriptor

pub record OracleEvent : Type 0 where
  pub oracle_nonces : List ℕ
  pub event_maturity_epoch : ℕ
  pub event_descriptor : EventDescriptor
  pub event_id : Text

pub record OracleAnnouncement : Type 0 where
  pub announcement_signature : ℕ
  pub oracle_public_key : ℕ
  pub oracle_event : OracleEvent

pub record OracleAttestation : Type 0 where
  pub event_id : Text
  pub oracle_public_key : ℕ
  pub signatures : List ℕ
  pub outcomes : List Text

-- What is called of secp256k1 and of the hash, and the encoding that the macros generate.
pub record Schnorr : Type 0 where
  pub sha256 : List ℕ → List ℕ
  pub to_tlv_bytes : OracleEvent → List ℕ
  pub x_only_public_key : ℕ → ℕ
  pub sign_schnorr : List ℕ → ℕ → ℕ
  -- the message, the key and the nonce
  pub schnorrsig_sign_with_nonce : List ℕ → ℕ → ℕ → ℕ
  pub verify_schnorr : ℕ → List ℕ → ℕ → Bool
  -- the first 32 bytes of a signature
  pub signature_nonce : ℕ → ℕ

-- "DLC/oracle/announcement/v0" and "DLC/oracle/attestation/v0"
abbrev pub announcement_tag : List ℕ
announcement_tag =
    68 ∷ 76 ∷ 67 ∷ 47 ∷ 111 ∷ 114 ∷ 97 ∷ 99 ∷ 108 ∷ 101 ∷ 47 ∷ 97 ∷ 110 ∷ 110 ∷ 111 ∷ 117 ∷ 110 ∷ 99
    ∷ 101 ∷ 109 ∷ 101 ∷ 110 ∷ 116 ∷ 47 ∷ 118 ∷ 48 ∷ []

abbrev pub attestation_tag : List ℕ
attestation_tag =
    68 ∷ 76 ∷ 67 ∷ 47 ∷ 111 ∷ 114 ∷ 97 ∷ 99 ∷ 108 ∷ 101 ∷ 47 ∷ 97 ∷ 116 ∷ 116 ∷ 101 ∷ 115 ∷ 116 ∷ 97
    ∷ 116 ∷ 105 ∷ 111 ∷ 110 ∷ 47 ∷ 118 ∷ 48 ∷ []

unfoldable pub tagged_announcement_msg : Schnorr → OracleEvent → List ℕ
tagged_announcement_msg secp event =
    let tag_hash = secp.sha256 announcement_tag in
    secp.sha256 (tag_hash ++ (tag_hash ++ secp.to_tlv_bytes event))

unfoldable pub tagged_attestation_msg : Schnorr → Text → List ℕ
tagged_attestation_msg secp outcome =
    let tag_hash = secp.sha256 attestation_tag in secp.sha256 (tag_hash ++ (tag_hash ++ outcome))

unfoldable pub expected_nb_nonces : EventDescriptor → ℕ
expected_nb_nonces (enum_event d) = 1
expected_nb_nonces (digit_decomposition_event d) =
    if d.is_signed then d.nb_digits + 1 else d.nb_digits

unfoldable pub validate_event : OracleEvent → Result (Unit {0})
validate_event event =
    guard (expected_nb_nonces event.event_descriptor == length event.oracle_nonces) invalid_argument

unfoldable pub validate_announcement : Schnorr → OracleAnnouncement → Result (Unit {0})
validate_announcement secp ann = do
  guard
      (secp.verify_schnorr ann.announcement_signature
        (tagged_announcement_msg secp ann.oracle_event) ann.oracle_public_key)
      secp256k1
  validate_event ann.oracle_event

-- `try_for_each` over the signatures and their outcomes.
unfoldable pub verify_outcomes : Schnorr → ℕ → List ℕ → List Text → Result (Unit {0})
verify_outcomes secp key [] outcomes = ok tt
verify_outcomes secp key (sig ∷ sigs) [] = ok tt
verify_outcomes secp key (sig ∷ sigs) (outcome ∷ outcomes) = do
  guard (secp.verify_schnorr sig (tagged_attestation_msg secp outcome) key) invalid_argument
  verify_outcomes secp key sigs outcomes

-- `all` over the signatures and the announced nonces.
unfoldable pub nonces_match : Schnorr → List ℕ → List ℕ → Bool
nonces_match secp [] nonces = true
nonces_match secp (sig ∷ sigs) [] = true
nonces_match secp (sig ∷ sigs) (nonce ∷ nonces) =
    secp.signature_nonce sig == nonce && nonces_match secp sigs nonces

unfoldable pub validate_attestation :
    Schnorr → OracleAttestation → OracleAnnouncement → Result (Unit {0})
validate_attestation secp att ann = do
  guard (length att.outcomes == length att.signatures) invalid_argument
  guard (att.oracle_public_key == ann.oracle_public_key) invalid_argument
  verify_outcomes secp att.oracle_public_key att.signatures att.outcomes
  guard (nonces_match secp att.signatures ann.oracle_event.oracle_nonces) invalid_argument

-- `OracleAttestation::nonces`
unfoldable pub nonces : Schnorr → List ℕ → List ℕ
nonces secp [] = []
nonces secp (sig ∷ sigs) = secp.signature_nonce sig ∷ nonces secp sigs
