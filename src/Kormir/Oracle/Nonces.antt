-- ===== src/Kormir/Oracle/Nonces.antt =====
-- Sequences of calls of the oracle: no nonce signs twice.
use mathlib.Core.List.{append-nil, append_assoc}
use dlcdevkit.Base.{
  length, ℕ, ◌+◌, ◌%◌, ◌^◌, ◌<◌, ◌≡◌, ◌≢◌, refl, ap, ◌∙◌, arith, Bool, true, Option, none, some,
  List, [], ◌∷◌, ◌++◌, list_eqb, if◌then◌else◌,
}
use dlcdevkit.Base.Int.{ℤ}
use dlcdevkit.Base.Outcome.{ok, err, panicked, ok_or, guard-passes, >>=-eq-ok}
use dlcdevkit.Kormir.Messages.{Text, OracleAnnouncement, OracleAttestation}
use dlcdevkit.Kormir.Events
use dlcdevkit.Kormir.Events.{Result, is_empty, not_found, event_already_signed}
use dlcdevkit.Kormir.Events.Validity.{sign_numeric_event-some}
use dlcdevkit.Manager.Monitor.Maps.{lookup}
use dlcdevkit.Kormir.Storage.{
  MemoryStorage, OracleEventData, new_storage, get_event, get_next_nonce_indexes, save_announcement,
  save_signatures, sign_found,
}
use dlcdevkit.Kormir.Oracle.{
  Oracle, only, get_nonce_key, get_nonce_keys, create_enum_event, create_numeric_event, save,
  unsigned, attest_enum, attest_numeric, save_attestation, first_signature, zip, sign_enum_event,
  sign_numeric_event,
}
use dlcdevkit.Kormir.Oracle.Ledger.{
  Distinct, IsOpen, IsFresh, IsFresh-raise, IsFresh-announce, IsFresh-sign,
}

pub data Call : Type 0 where
  create_enum : Text → List Text → ℕ → Call
  create_numeric : Text → ℕ → Bool → ℤ → Text → ℕ → Call
  sign_enum : Text → Text → Call
  sign_numeric : Text → ℤ → Call

-- The nonces that a call asks for.
abbrev pub nonces_of : Call → ℕ
nonces_of (create_enum id outcomes epoch) = 1
nonces_of (create_numeric id n is_signed precision unit epoch) = if is_signed then n + 1 else n
nonces_of (sign_enum id outcome) = 0
nonces_of (sign_numeric id outcome) = 0

abbrev pub indexes_of : Option OracleEventData → List ℕ
indexes_of none = []
indexes_of (some e) = e.indexes

-- The storage after a call that signs, and the nonces that its attestation used, if it returned one.
abbrev pub attested : List ℕ → MemoryStorage × Result OracleAttestation → MemoryStorage × List ℕ
attested indexes (s, ok att) = (s, indexes)
attested indexes (s, err e) = (s, [])
attested indexes (s, panicked) = (s, [])

unfoldable pub perform : Oracle → MemoryStorage → Call → MemoryStorage × List ℕ
perform oracle s (create_enum id outcomes epoch) =
    ((create_enum_event oracle s id outcomes epoch).0, [])
perform oracle s (create_numeric id n is_signed precision unit epoch) =
    ((create_numeric_event oracle s id n is_signed precision unit epoch).0, [])
perform oracle s (sign_enum id outcome) =
    attested (indexes_of (get_event s id)) (sign_enum_event oracle s id outcome)
perform oracle s (sign_numeric id outcome) =
    attested (indexes_of (get_event s id)) (sign_numeric_event oracle s id outcome)

-- The nonces that the attestations of a sequence of calls used, in order.
abbrev pub used_by : Oracle → MemoryStorage → List Call → List ℕ
used_by oracle s [] = []
used_by oracle s (call ∷ calls) =
    let (after, used) = perform oracle s call in used ++ used_by oracle after calls

abbrev pub nonces_asked : List Call → ℕ
nonces_asked [] = 0
nonces_asked (call ∷ calls) = nonces_of call + nonces_asked calls

module _ (s : MemoryStorage) (used : List ℕ) (f : IsFresh s used) where
  -- A creation that was given its nonces.
  IsFresh-create :
      (num : ℕ) (r : Result OracleAnnouncement)
      → s.current_index + num < 2 ^ 32
      → (let (after, indexes) = get_next_nonce_indexes s num in
          let left = (save after indexes r).0 in
          IsFresh left used × (left.current_index ≡ s.current_index + num))
  unfolding get_next_nonce_indexes save save_announcement
  IsFresh-create num (ok ann) fits =
      let at : (s.current_index + num % 2 ^ 32) % 2 ^ 32 ≡ s.current_index + num = omega arith in
      (IsFresh-announce s _ _ _ used f num refl fits at, at)
  IsFresh-create num (err e) fits =
      let at : (s.current_index + num % 2 ^ 32) % 2 ^ 32 ≡ s.current_index + num = omega arith in
      (IsFresh-raise s _ used (omega (arith, at)) f, at)
  IsFresh-create num panicked fits =
      let at : (s.current_index + num % 2 ^ 32) % 2 ^ 32 ≡ s.current_index + num = omega arith in
      (IsFresh-raise s _ used (omega (arith, at)) f, at)

  -- A signature that is saved for an open event.
  IsFresh-attested :
      (id : Text) (e : OracleEventData) (att : OracleAttestation) (sigs : List (Text × ℕ))
      → IsOpen s id e
      → sigs ≢ []
      → (let (after, now) =
            attested (indexes_of (get_event s id)) (save_attestation s id (ok (att, sigs))) in
          IsFresh after (used ++ now) × (after.current_index ≡ s.current_index))
  unfolding save_attestation save_signatures sign_found get_event
  IsFresh-attested id e att sigs o signed =
      rw (o.found, o.open_still)
        (
          IsFresh-sign s id (record e { signatures = sigs }) s.current_index used f e o signed refl,
          refl,
        )

  -- A call that signs, of which it is known that it signs an open event if it signs.
  IsFresh-save :
      (id : Text) (r : Result (OracleAttestation × List (Text × ℕ)))
      → ((att : OracleAttestation) (sigs : List (Text × ℕ))
          → r ≡ ok (att, sigs)
          → (e : OracleEventData) × IsOpen s id e × (sigs ≢ []))
      → (let (after, now) = attested (indexes_of (get_event s id)) (save_attestation s id r) in
          IsFresh after (used ++ now) × (after.current_index ≡ s.current_index))
  IsFresh-save id (ok (att, sigs)) opened =
      let (e, o, signed) = opened att sigs refl in IsFresh-attested id e att sigs o signed
  IsFresh-save id (err e) opened = unfold save_attestation in (rw (append-nil used) f, refl)
  IsFresh-save id panicked opened = unfold save_attestation in (rw (append-nil used) f, refl)

pub unsigned-IsOpen :
    (s : MemoryStorage) (id : Text) (e : OracleEventData) → unsigned s id ≡ ok e → IsOpen s id e
unfolding unsigned get_event
unsigned-IsOpen s id e h =
    let (event, found, h1) = >>=-eq-ok (ok_or (lookup list_eqb id s.events) not_found) _ h in
    let (no_signatures, h2) = guard-passes (is_empty event.signatures) event_already_signed _ h1 in
    let same : event ≡ e = cc h2 in
    record {
      found = found_some _ found ∙ ap some same;
      open_still = empty e.signatures (rw same at no_signatures);
    }
  where
    found_some :
        (o : Option OracleEventData) → {x : OracleEventData} → ok_or o not_found ≡ ok x → o ≡ some x
    found_some none h = cc
    found_some (some y) h = cc

    empty : (sigs : List (Text × ℕ)) → is_empty sigs ≡ true → sigs ≡ []
    empty [] h = refl
    empty (x ∷ xs) h = cc

module _ (oracle : Oracle) (s : MemoryStorage) (id : Text) where
  attest_enum-IsOpen :
      (outcome : Text) (att : OracleAttestation) (sigs : List (Text × ℕ))
      → attest_enum oracle s id outcome ≡ ok (att, sigs)
      → (e : OracleEventData) × IsOpen s id e × (sigs ≢ [])
  unfolding attest_enum
  attest_enum-IsOpen outcome att sigs h =
      let (e, opened, h1) = >>=-eq-ok (unsigned s id) _ h in
      let (i, o, h2) = >>=-eq-ok (only e.indexes) _ h1 in
      let (key, k, h3) = >>=-eq-ok (get_nonce_key oracle i) _ h2 in
      let (a, made, h4) =
        >>=-eq-ok (Events.sign_enum_event oracle.secp oracle.key_pair e.announcement outcome key) _
          h3 in
      let (l, first, h5) = >>=-eq-ok (first_signature outcome a.signatures) _ h4 in
      let same : l ≡ sigs = cc h5 in
      (e, unsigned-IsOpen s id e opened, rw (← same) (some_first a.signatures first))
    where
      some_first : (l : List ℕ) → {r : List (Text × ℕ)} → first_signature outcome l ≡ ok r → r ≢ []
      some_first [] h e = cc
      some_first (x ∷ xs) h e = cc

  attest_numeric-IsOpen :
      (outcome : ℤ) (att : OracleAttestation) (sigs : List (Text × ℕ))
      → attest_numeric oracle s id outcome ≡ ok (att, sigs)
      → (e : OracleEventData) × IsOpen s id e × (sigs ≢ [])
  unfolding attest_numeric
  attest_numeric-IsOpen outcome att sigs h =
      let (e, opened, h1) = >>=-eq-ok (unsigned s id) _ h in
      let (keys, k, h2) = >>=-eq-ok (get_nonce_keys oracle e.indexes) _ h1 in
      let (a, made, h3) =
        >>=-eq-ok
          (Events.sign_numeric_event oracle.secp oracle.key_pair e.announcement outcome keys) _
          h2 in
      let same : zip a.outcomes a.signatures ≡ sigs = cc h3 in
      let (some_outcome, len) =
        sign_numeric_event-some oracle.secp oracle.key_pair _ outcome keys a made in
      (
        e,
        unsigned-IsOpen s id e opened,
        rw (← same) (some_zip a.outcomes a.signatures some_outcome len),
      )
    where
      some_zip :
          (os : List Text) (sigs : List ℕ)
          → 0 < length os
          → length os ≡ length sigs
          → zip os sigs ≢ []
      some_zip [] sigs h len e = absurd (omega arith)
      some_zip (o ∷ os) [] h len e = absurd (omega arith)
      some_zip (o ∷ os) (x ∷ xs) h len e = cc

module _ (oracle : Oracle) where
  -- Each call keeps what is known of the nonces.
  perform-IsFresh :
      (s : MemoryStorage) (used : List ℕ) (call : Call)
      → s.current_index + nonces_of call < 2 ^ 32
      → IsFresh s used
      → (let (after, now) = perform oracle s call in
          IsFresh after (used ++ now) × (after.current_index ≡ s.current_index + nonces_of call))
  unfolding perform create_enum_event create_numeric_event sign_enum_event sign_numeric_event
  perform-IsFresh s used (create_enum id outcomes epoch) fits f =
      rw (append-nil used) (IsFresh-create s used f 1 _ fits)
  perform-IsFresh s used (create_numeric id n is_signed precision unit epoch) fits f =
      rw (append-nil used) (IsFresh-create s used f _ _ fits)
  perform-IsFresh s used (sign_enum id outcome) fits f =
      let (fresh, at) = IsFresh-save s used f id _ (attest_enum-IsOpen oracle s id outcome) in
      (fresh, omega (arith, at))
  perform-IsFresh s used (sign_numeric id outcome) fits f =
      let (fresh, at) = IsFresh-save s used f id _ (attest_numeric-IsOpen oracle s id outcome) in
      (fresh, omega (arith, at))

  run-IsFresh :
      (s : MemoryStorage) (used : List ℕ) (calls : List Call)
      → s.current_index + nonces_asked calls < 2 ^ 32
      → IsFresh s used
      → Distinct (used ++ used_by oracle s calls)
  run-IsFresh s used [] fits f = rw (append-nil used) f.used_once
  run-IsFresh s used (call ∷ calls) fits f =
      let (after, now) = perform oracle s call in
      let (fresh, at) = perform-IsFresh s used call (omega arith) f in
      rw (← append_assoc used now (used_by oracle after calls))
        (run-IsFresh after (used ++ now) calls (omega (arith, at)) fresh)

  new-IsFresh : IsFresh new_storage []
  new-IsFresh = record {
    used_once = tt;
    handed_out = λ x m. elim m [ ];
    unused = λ id e o x m. elim m [ ];
    own = λ id e o. cc o.found;
    below = λ id e o. cc o.found;
    apart = λ id id' e e' o. cc o.found;
  }

-- In any sequence of calls on a new storage that asks for fewer than 2 ^ 32 nonces in all, no index of
-- a nonce is used by two signatures of the attestations that were returned, whatever calls fail and
-- whichever events are announced again under the same id.
pub nonces_used_once :
    (oracle : Oracle) (calls : List Call)
    → nonces_asked calls < 2 ^ 32
    → Distinct (used_by oracle new_storage calls)
nonces_used_once oracle calls fits =
    run-IsFresh oracle new_storage [] calls (omega arith) (new-IsFresh oracle)
