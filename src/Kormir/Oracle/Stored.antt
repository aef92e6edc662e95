-- ===== src/Kormir/Oracle/Stored.antt =====
-- What a signature leaves in the storage: the attestation that was returned, for good.
use dlcdevkit.Base.{
  Bool-cases, inl, inr, ℕ, ◌<◌, ◌≡◌, refl, sym, ap, ◌∙◌, arith, false, some, List, [], ◌∷◌, length,
  list_eqb, list_eqb→eq, list_eqb_refl,
}
use dlcdevkit.Base.Int.{ℤ}
use dlcdevkit.Base.Outcome.{Outcome, ok, err, panicked, >>=-eq-ok}
use dlcdevkit.Kormir.Messages.{Text, OracleAttestation}
use dlcdevkit.Kormir.Events
use dlcdevkit.Kormir.Events.{is_empty, event_already_signed}
use dlcdevkit.Kormir.Events.Attesting.{sign_numeric-parts}
use dlcdevkit.Kormir.Events.Validity.{sign_numeric_event-some}
use dlcdevkit.Kormir.Storage.{
  MemoryStorage, OracleEventData, get_event, save_signatures, sign_found, attestation, firsts,
  seconds,
}
use dlcdevkit.Kormir.Oracle.{
  Oracle, unsigned, get_nonce_keys, attest_enum, attest_numeric, save_attestation, zip,
  sign_enum_event, sign_numeric_event,
}
use dlcdevkit.Kormir.Oracle.Ledger.{IsOpen}
use dlcdevkit.Kormir.Oracle.Nonces.{unsigned-IsOpen}
use dlcdevkit.Manager.Monitor.Maps.{lookup-insert}

zip-parts :
    (os : List Text) (sigs : List ℕ)
    → length os ≡ length sigs
    → (firsts (zip os sigs) ≡ os) × (seconds (zip os sigs) ≡ sigs)
zip-parts [] [] len = (refl, refl)
zip-parts [] (x ∷ xs) len = absurd (omega arith)
zip-parts (o ∷ os) [] len = absurd (omega arith)
zip-parts (o ∷ os) (x ∷ xs) len =
    let (e, e') = zip-parts os xs (omega arith) in (rw e refl, rw e' refl)

zip_some :
    (os : List Text) (sigs : List ℕ)
    → 0 < length os
    → length os ≡ length sigs
    → is_empty (zip os sigs) ≡ false
zip_some [] sigs h len = absurd (omega arith)
zip_some (o ∷ os) [] h len = absurd (omega arith)
zip_some (o ∷ os) (x ∷ xs) h len = refl

-- The signatures are found in the storage after they were saved for an open event.
saved :
    (s : MemoryStorage) (id : Text) (e : OracleEventData) (att : OracleAttestation)
    (sigs : List (Text × ℕ))
    → IsOpen s id e
    → (let (after, result) = save_attestation s id (ok (att, sigs)) in
        (result ≡ ok att) × (get_event after id ≡ some (record e { signatures = sigs })))
unfolding save_attestation save_signatures sign_found get_event
saved s id e att sigs o =
    rw (o.found, o.open_still)
      (
        refl,
        lookup-insert list_eqb list_eqb→eq list_eqb_refl id id _ s.events
            ∙ rw (list_eqb_refl id) refl,
      )

-- The attestation that is read from the storage is the one whose parts were saved.
attestation-zip :
    (e : OracleEventData) (att : OracleAttestation)
    → 0 < length att.outcomes
    → length att.outcomes ≡ length att.signatures
    → att.event_id ≡ e.announcement.oracle_event.event_id
    → att.oracle_public_key ≡ e.announcement.oracle_public_key
    → attestation (record e { signatures = zip att.outcomes att.signatures }) ≡ some att
unfolding attestation
attestation-zip e att many len of_event by_key =
    rw
      (
        zip_some att.outcomes att.signatures many len,
        (zip-parts att.outcomes att.signatures len).0,
        (zip-parts att.outcomes att.signatures len).1,
        ← of_event,
        ← by_key,
      )
      refl

module _ (oracle : Oracle) (s : MemoryStorage) (id : Text) where
  numeric_parts :
      (outcome : ℤ) (att : OracleAttestation) (sigs : List (Text × ℕ))
      → attest_numeric oracle s id outcome ≡ ok (att, sigs)
      → (e : OracleEventData) × IsOpen s id e
        × (attestation (record e { signatures = sigs }) ≡ some att)
  unfolding attest_numeric
  numeric_parts outcome att sigs h =
      let (e, opened, h1) = >>=-eq-ok (unsigned s id) _ h in
      let (keys, k, h2) = >>=-eq-ok (get_nonce_keys oracle e.indexes) _ h1 in
      let (a, made, h3) =
        >>=-eq-ok
          (Events.sign_numeric_event oracle.secp oracle.key_pair e.announcement outcome keys) _
          h2 in
      let same : a ≡ att = cc h3 in
      let same_sigs : zip a.outcomes a.signatures ≡ sigs = cc h3 in
      let (d, parts) = sign_numeric-parts oracle.secp oracle.key_pair _ outcome keys a made in
      let (many, len) = sign_numeric_event-some oracle.secp oracle.key_pair _ outcome keys a made in
      (
        e,
        unsigned-IsOpen s id e opened,
        ap (λ (l : List (Text × ℕ)). attestation (record e { signatures = l })) (sym same_sigs)
            ∙ attestation-zip e a many len parts.of_event (parts.by_key ∙ parts.own_key)
            ∙ ap some same,
      )

  save_attestation-stored :
      (r : Outcome Events.Error (OracleAttestation × List (Text × ℕ))) (att : OracleAttestation)
      → ((a : OracleAttestation) (sigs : List (Text × ℕ))
          → r ≡ ok (a, sigs)
          → (e : OracleEventData) × IsOpen s id e
            × (attestation (record e { signatures = sigs }) ≡ some a))
      → (save_attestation s id r).1 ≡ ok att
      → (e : OracleEventData) × (get_event (save_attestation s id r).0 id ≡ some e)
        × (attestation e ≡ some att)
  unfolding save_attestation
  save_attestation-stored (ok (a, sigs)) att parts h =
      let (e, o, reads) = parts a sigs refl in
      let (result, found) = saved s id e a sigs o in
      let same : a ≡ att = cc (sym result ∙ h) in
      (record e { signatures = sigs }, found, reads ∙ ap some same)
  save_attestation-stored (err e) att parts h = cc h
  save_attestation-stored panicked att parts h = cc h

-- The attestation of a numeric event that a call returned is the one that is read from the storage
-- afterwards.
pub sign_numeric_event-stored :
    (oracle : Oracle) (s : MemoryStorage) (id : Text) (outcome : ℤ) (att : OracleAttestation)
    → (sign_numeric_event oracle s id outcome).1 ≡ ok att
    → (e : OracleEventData) × (get_event (sign_numeric_event oracle s id outcome).0 id ≡ some e)
      × (attestation e ≡ some att)
unfolding sign_numeric_event
sign_numeric_event-stored oracle s id outcome att h =
    save_attestation-stored oracle s id _ att (numeric_parts oracle s id outcome) h

signed_refused :
    (oracle : Oracle) (s : MemoryStorage) (id : Text) (e : OracleEventData)
    → get_event s id ≡ some e
    → is_empty e.signatures ≡ false
    → ((outcome : Text) → sign_enum_event oracle s id outcome ≡ (s, err event_already_signed))
      × ((outcome : ℤ) → sign_numeric_event oracle s id outcome ≡ (s, err event_already_signed))
unfolding sign_enum_event sign_numeric_event attest_enum attest_numeric unsigned save_attestation
signed_refused oracle s id e found full =
    ((λ outcome. rw (found, full) refl), (λ outcome. rw (found, full) refl))

has_signatures :
    (e : OracleEventData) (att : OracleAttestation)
    → attestation e ≡ some att
    → is_empty e.signatures ≡ false
unfolding attestation
has_signatures e att h = elim (Bool-cases (is_empty e.signatures)) [
  | inl none_yet ↦ absurd (cc (rw none_yet at h))
  | inr some_there ↦ some_there
]

-- After a call that attested a numeric event, that event is not attested again: a call with any outcome
-- returns an error and leaves the storage as it was.
pub signed_once :
    (oracle : Oracle) (s : MemoryStorage) (id : Text) (outcome : ℤ) (att : OracleAttestation)
    → (sign_numeric_event oracle s id outcome).1 ≡ ok att
    → ((other : Text)
        → sign_enum_event oracle (sign_numeric_event oracle s id outcome).0 id other
          ≡ ((sign_numeric_event oracle s id outcome).0, err event_already_signed))
      × ((other : ℤ)
          → sign_numeric_event oracle (sign_numeric_event oracle s id outcome).0 id other
            ≡ ((sign_numeric_event oracle s id outcome).0, err event_already_signed))
signed_once oracle s id outcome att h =
    let (e, found, reads) = sign_numeric_event-stored oracle s id outcome att h in
    signed_refused oracle _ id e found (has_signatures e att reads)
