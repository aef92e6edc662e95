-- ===== src/Kormir/Events.antt =====
-- kormir/src/lib.rs: the functions that make announcements and attestations.
pub mod Clamping
pub mod Digits
pub mod Attesting
pub mod Validity
pub mod Announced
use dlcdevkit.Base.{
  ℕ, zero, suc, ◌+◌, ◌-◌, ◌/◌, ◌%◌, ◌^◌, Bool, true, false, not, ◌&&◌, ◌||◌, List, [], ◌∷◌, ◌++◌,
  length, replicate, ltb, ◌==◌, list_eqb, if◌then◌else◌,
}
use dlcdevkit.Base.Int.{ℤ, pos, negsuc, lt_int, min_int, max_int, negate, magnitude, of_bits}
use dlcdevkit.Base.Outcome.{Outcome, ok, err, panicked, guard, ◌>>=◌, ◌>>◌}
use dlcdevkit.Base.Word.{u64_mod}
use dlcdevkit.Dlc.Types as Dlc
use dlcdevkit.Kormir.Messages.{
  Text, EventDescriptor, enum_event, digit_decomposition_event, DigitDecompositionEventDescriptor,
  OracleEvent, OracleAnnouncement, OracleAttestation, Schnorr, tagged_announcement_msg,
  tagged_attestation_msg, validate_event, validate_announcement,
}

pub data Error : Type 0 where
  invalid_argument invalid_event_id invalid_outcomes invalid_base invalid_number_of_digits : Error
  invalid_nonces event_already_signed not_found storage_failure invalid_outcome : Error
  invalid_event_descriptor invalid_announcement internal : Error

abbrev pub Result : Type 0 → Type 0
Result A = Outcome Error A

-- `.map_err(|_| Error::Internal)` on a validity check.
abbrev pub map_internal : Outcome Dlc.Error (Unit {0}) → Result (Unit {0})
map_internal (ok u) = ok tt
map_internal (err e) = err internal
map_internal panicked = panicked

abbrev pub is_empty {ℓ} : {A : Type ℓ} → List A → Bool
is_empty [] = true
is_empty (x ∷ xs) = false

-- The public keys of nonces.
abbrev pub public_keys : Schnorr → List ℕ → List ℕ
public_keys secp [] = []
public_keys secp (k ∷ ks) = secp.x_only_public_key k ∷ public_keys secp ks

-- `contains`
unfoldable pub has_outcome : List Text → Text → Bool
has_outcome [] o = false
has_outcome (x ∷ xs) o = list_eqb x o || has_outcome xs o

-- The announcement of an event, signed. A key pair is its secret key.
abbrev pub signed_announcement : Schnorr → ℕ → OracleEvent → OracleAnnouncement
signed_announcement secp key event = record {
  announcement_signature = secp.sign_schnorr (tagged_announcement_msg secp event) key;
  oracle_public_key = secp.x_only_public_key key;
  oracle_event = event;
}

-- The end of both creations: the checks and the signature.
unfoldable pub announce : Schnorr → ℕ → OracleEvent → Result OracleAnnouncement
announce secp key event = do
  map_internal (validate_event event)
  map_internal (validate_announcement secp (signed_announcement secp key event))
  ok (signed_announcement secp key event)

unfoldable pub create_enum_event :
    Schnorr → (key : ℕ) → Text → List Text → ℕ → ℕ → Result OracleAnnouncement
create_enum_event secp key event_id outcomes event_maturity_epoch nonce = do
  guard (not (is_empty event_id)) invalid_event_id
  guard (not (is_empty outcomes)) invalid_outcomes
  announce secp key (record {
    oracle_nonces = nonce ∷ [];
    event_maturity_epoch = event_maturity_epoch;
    event_descriptor = enum_event (record { outcomes = outcomes });
    event_id = event_id;
  })

unfoldable pub create_numeric_event :
    Schnorr
    → (key : ℕ) → Text
    → (base num_digits : ℕ) → Bool
    → ℤ
    → Text
    → ℕ
    → List ℕ
    → Result OracleAnnouncement
create_numeric_event secp key event_id base num_digits is_signed precision unit epoch nonces = do
  guard (not (is_empty event_id)) invalid_event_id
  guard (base == 2) invalid_base
  guard (not (num_digits == 0 || ltb 63 num_digits)) invalid_number_of_digits
  guard (length nonces == (if is_signed then num_digits + 1 else num_digits)) invalid_nonces
  announce secp key (record {
    oracle_nonces = nonces;
    event_maturity_epoch = epoch;
    event_descriptor = digit_decomposition_event (record {
      base = base;
      is_signed = is_signed;
      unit = unit;
      precision = precision;
      nb_digits = num_digits;
    });
    event_id = event_id;
  })

-- The message, its signature and the check of the signature.
unfoldable pub sign_outcome : Schnorr → (key : ℕ) → Text → (nonce_key : ℕ) → Result ℕ
sign_outcome secp key outcome nonce_key = do
  let msg = tagged_attestation_msg secp outcome
  let sig = secp.schnorrsig_sign_with_nonce msg key nonce_key
  guard (secp.verify_schnorr sig msg (secp.x_only_public_key key)) internal
  ok sig

-- Whether the first nonce announced is that of the key; there may be none.
unfoldable pub is_first_nonce : ℕ → List ℕ → Bool
is_first_nonce nonce [] = false
is_first_nonce nonce (n ∷ ns) = nonce == n

abbrev pub attest : Schnorr → ℕ → Text → List ℕ → List Text → OracleAttestation
attest secp key event_id signatures outcomes = record {
  event_id = event_id;
  oracle_public_key = secp.x_only_public_key key;
  signatures = signatures;
  outcomes = outcomes;
}

abbrev pub enum_outcomes : EventDescriptor → Result (List Text)
enum_outcomes (enum_event d) = ok d.outcomes
enum_outcomes (digit_decomposition_event d) = err invalid_event_descriptor

unfoldable pub sign_enum_event :
    Schnorr → (key : ℕ) → OracleAnnouncement → Text → (nonce_key : ℕ) → Result OracleAttestation
sign_enum_event secp key ann outcome nonce_key = do
  outcomes ← enum_outcomes ann.oracle_event.event_descriptor
  guard (has_outcome outcomes outcome) invalid_outcome
  guard (secp.x_only_public_key key == ann.oracle_public_key) invalid_announcement
  guard (is_first_nonce (secp.x_only_public_key nonce_key) ann.oracle_event.oracle_nonces)
      invalid_nonces
  sig ← sign_outcome secp key outcome nonce_key
  ok (attest secp key ann.oracle_event.event_id (sig ∷ []) (outcome ∷ []))

-- In wrapping 64-bit arithmetic.
unfoldable pub get_max_value : DigitDecompositionEventDescriptor → Result ℤ
get_max_value d =
    if d.nb_digits == 0 || ltb 63 d.nb_digits
    then err invalid_number_of_digits
    else ok (of_bits ((d.base ^ d.nb_digits % u64_mod + (u64_mod - 1)) % u64_mod))

unfoldable pub get_min_value : DigitDecompositionEventDescriptor → Result ℤ
get_min_value d =
    if d.is_signed then (do max_value ← get_max_value d; ok (negate max_value)) else ok (pos 0)

unfoldable pub clamp : ℤ → ℤ → ℤ → ℤ
clamp min_value max_value outcome =
    if lt_int outcome min_value || lt_int max_value outcome
    then max_int (min_int outcome max_value) min_value
    else outcome

-- The binary digits of a number as characters, each one a text, in front of `res`. Of the rounds that
-- are given, the last writes the number's highest digit.
unfoldable pub binary : ℕ → ℕ → List Text → List Text
binary zero n res = res
binary (suc rounds) n res =
    let rest = binary rounds (n / 2) (((48 + n % 2) ∷ []) ∷ res) in
    if ltb n 2 then ((48 + n) ∷ []) ∷ res else rest

-- `format!("{:0width$b}", n)` of a 64-bit number.
unfoldable pub format_binary : ℕ → ℕ → List Text
format_binary width n =
    let digits = binary 64 n [] in replicate (width - length digits) (48 ∷ []) ++ digits

-- "-" and "+"
abbrev pub sign_text : ℤ → Text
sign_text n = if lt_int n (pos 0) then 45 ∷ [] else 43 ∷ []

unfoldable pub outcome_texts : DigitDecompositionEventDescriptor → ℤ → List Text
outcome_texts d n =
    let digits = format_binary d.nb_digits (magnitude n) in
    if d.is_signed then sign_text n ∷ digits else digits

-- `try_for_each` over the nonce keys and the announced nonces.
unfoldable pub check_nonces : Schnorr → List ℕ → List ℕ → Result (Unit {0})
check_nonces secp [] nonces = ok tt
check_nonces secp (k ∷ ks) [] = ok tt
check_nonces secp (k ∷ ks) (nonce ∷ nonces) = do
  guard (secp.x_only_public_key k == nonce) invalid_nonces
  check_nonces secp ks nonces

-- The signatures of the outcomes, each by its nonce key.
unfoldable pub sign_outcomes : Schnorr → (key : ℕ) → List Text → List ℕ → Result (List ℕ)
sign_outcomes secp key [] nonce_keys = ok []
sign_outcomes secp key (o ∷ os) [] = ok []
sign_outcomes secp key (o ∷ os) (k ∷ ks) = do
  sig ← sign_outcome secp key o k
  sigs ← sign_outcomes secp key os ks
  ok (sig ∷ sigs)

abbrev pub digit_descriptor : EventDescriptor → Result DigitDecompositionEventDescriptor
digit_descriptor (enum_event d) = err invalid_event_descriptor
digit_descriptor (digit_decomposition_event d) = ok d

unfoldable pub sign_numeric_event :
    Schnorr → (key : ℕ) → OracleAnnouncement → ℤ → (nonce_keys : List ℕ) → Result OracleAttestation
sign_numeric_event secp key ann outcome nonce_keys = do
  d ← digit_descriptor ann.oracle_event.event_descriptor
  guard (d.base == 2) invalid_base
  guard (secp.x_only_public_key key == ann.oracle_public_key) invalid_announcement
  check_nonces secp nonce_keys ann.oracle_event.oracle_nonces
  max_value ← get_max_value d
  min_value ← get_min_value d
  let outcomes = outcome_texts d (clamp min_value max_value outcome)
  guard (length nonce_keys == length outcomes) invalid_nonces
  signatures ← sign_outcomes secp key outcomes nonce_keys
  ok (attest secp key ann.oracle_event.event_id signatures outcomes)
