-- ===== src/Kormir/Oracle.antt =====
-- kormir/src/lib.rs: the oracle, over the storage in memory. Its calls come one at a time.
pub mod Ledger
pub mod Nonces
pub mod Stored
use dlcdevkit.Base.{
  ℕ, ◌+◌, ◌^◌, Bool, true, false, not, Option, none, some, List, [], ◌∷◌, length, ltb, ◌==◌,
  if◌then◌else◌,
}
use dlcdevkit.Base.Int.{ℤ}
use dlcdevkit.Base.Outcome.{Outcome, ok, err, panicked, guard, ok_or, unwrap, ◌>>=◌, ◌>>◌}
use dlcdevkit.Kormir.Messages.{Text, OracleAnnouncement, OracleAttestation, Schnorr}
use dlcdevkit.Kormir.Events.{
  Result, internal, not_found, event_already_signed, is_empty, public_keys,
}
use dlcdevkit.Kormir.Events
use dlcdevkit.Kormir.Storage.{
  MemoryStorage, OracleEventData, get_next_nonce_indexes, save_announcement, save_signatures,
  get_event,
}

pub record Oracle : Type 0 where
  pub secp : Schnorr
  pub key_pair : ℕ
  -- the private key that `nonce_xpriv` gives for a hardened index
  pub derive_priv : ℕ → Option ℕ

unfoldable pub public_key : Oracle → ℕ
public_key oracle = oracle.secp.x_only_public_key oracle.key_pair

-- An index from 2^31 up is no hardened index, and a derivation may fail: both unwraps panic.
unfoldable pub get_nonce_key : Oracle → ℕ → Result ℕ
get_nonce_key oracle index =
    if ltb index (2 ^ 31) then unwrap (oracle.derive_priv index) else panicked

unfoldable pub get_nonce_keys : Oracle → List ℕ → Result (List ℕ)
get_nonce_keys oracle [] = ok []
get_nonce_keys oracle (i ∷ is) = do
  key ← get_nonce_key oracle i
  keys ← get_nonce_keys oracle is
  ok (key ∷ keys)

-- What a call leaves in the storage, and what it returns.
abbrev pub Return : Type 0
Return = MemoryStorage × Result OracleAnnouncement

-- The announcement is saved, if it was made.
unfoldable pub save : MemoryStorage → List ℕ → Result OracleAnnouncement → Return
save s indexes (ok ann) = ((save_announcement s ann indexes).0, ok ann)
save s indexes (err e) = (s, err e)
save s indexes panicked = (s, panicked)

-- `indexes[0]` of a list that was seen to have one element.
abbrev pub only : List ℕ → Result ℕ
only [] = err internal
only (i ∷ []) = ok i
only (i ∷ j ∷ is) = err internal

unfoldable pub create_enum_event : Oracle → MemoryStorage → Text → List Text → ℕ → Return
create_enum_event oracle s event_id outcomes event_maturity_epoch =
    let (after, nonce_indexes) = get_next_nonce_indexes s 1 in
    save after nonce_indexes (do
      index ← only nonce_indexes
      nonce_key ← get_nonce_key oracle index
      Events.create_enum_event oracle.secp oracle.key_pair event_id outcomes event_maturity_epoch
          (oracle.secp.x_only_public_key nonce_key))

unfoldable pub create_numeric_event :
    Oracle → MemoryStorage → Text → (num_digits : ℕ) → Bool → ℤ → Text → ℕ → Return
create_numeric_event oracle s event_id num_digits is_signed precision unit epoch =
    let (after, indexes) =
      get_next_nonce_indexes s (if is_signed then num_digits + 1 else num_digits) in
    save after indexes (do
      nonce_keys ← get_nonce_keys oracle indexes
      Events.create_numeric_event oracle.secp oracle.key_pair event_id 2 num_digits is_signed
          precision unit epoch (public_keys oracle.secp nonce_keys))

-- The event of an id, which has no signatures yet.
unfoldable pub unsigned : MemoryStorage → Text → Result OracleEventData
unsigned s event_id = do
  event ← ok_or (get_event s event_id) not_found
  guard (is_empty event.signatures) event_already_signed
  ok event

-- `outcomes.iter().cloned().zip(signatures)`
abbrev pub zip : List Text → List ℕ → List (Text × ℕ)
zip [] sigs = []
zip (o ∷ os) [] = []
zip (o ∷ os) (sig ∷ sigs) = (o, sig) ∷ zip os sigs

-- `vec![(outcome, signatures[0])]`
abbrev pub first_signature : Text → List ℕ → Result (List (Text × ℕ))
first_signature outcome [] = panicked
first_signature outcome (sig ∷ sigs) = ok ((outcome, sig) ∷ [])

abbrev pub after_save :
    OracleAttestation
    → MemoryStorage × Result OracleEventData
    → MemoryStorage × Result OracleAttestation
after_save att (s, saved) = (s, saved >>= λ _. ok att)

-- The attestation and its signatures, which are saved if they were made.
unfoldable pub save_attestation :
    MemoryStorage
    → Text
    → Result (OracleAttestation × List (Text × ℕ))
    → MemoryStorage × Result OracleAttestation
save_attestation s event_id (ok (att, sigs)) = after_save att (save_signatures s event_id sigs)
save_attestation s event_id (err e) = (s, err e)
save_attestation s event_id panicked = (s, panicked)

-- What `sign_enum_event` and `sign_numeric_event` do before they save.
unfoldable pub attest_enum :
    Oracle → MemoryStorage → Text → Text → Result (OracleAttestation × List (Text × ℕ))
attest_enum oracle s event_id outcome = do
  event ← unsigned s event_id
  nonce_index ← only event.indexes
  nonce_key ← get_nonce_key oracle nonce_index
  att ← Events.sign_enum_event oracle.secp oracle.key_pair event.announcement outcome nonce_key
  sigs ← first_signature outcome att.signatures
  ok (att, sigs)

unfoldable pub attest_numeric :
    Oracle → MemoryStorage → Text → ℤ → Result (OracleAttestation × List (Text × ℕ))
attest_numeric oracle s event_id outcome = do
  event ← unsigned s event_id
  nonce_keys ← get_nonce_keys oracle event.indexes
  att ← Events.sign_numeric_event oracle.secp oracle.key_pair event.announcement outcome nonce_keys
  ok (att, zip att.outcomes att.signatures)

unfoldable pub sign_enum_event :
    Oracle → MemoryStorage → Text → Text → MemoryStorage × Result OracleAttestation
sign_enum_event oracle s event_id outcome =
    save_attestation s event_id (attest_enum oracle s event_id outcome)

unfoldable pub sign_numeric_event :
    Oracle → MemoryStorage → Text → ℤ → MemoryStorage × Result OracleAttestation
sign_numeric_event oracle s event_id outcome =
    save_attestation s event_id (attest_numeric oracle s event_id outcome)
