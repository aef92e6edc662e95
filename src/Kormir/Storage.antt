-- ===== src/Kormir/Storage.antt =====
-- kormir/src/storage.rs: the storage in memory. Its calls come one at a time, so that no lock is ever
-- held by another and the unwraps of `try_read` and `try_write` succeed; the fields that the feature
-- "nostr" adds are left out.
use dlcdevkit.Base.{
  ℕ, zero, suc, ◌+◌, ◌%◌, ◌^◌, Option, none, some, List, [], ◌∷◌, list_eqb, if◌then◌else◌,
}
use dlcdevkit.Base.Outcome.{ok, err}
use dlcdevkit.Kormir.Messages.{Text, OracleAnnouncement, OracleAttestation}
use dlcdevkit.Kormir.Events.{not_found, event_already_signed, is_empty, Result}
use dlcdevkit.Manager.Monitor.Maps.{lookup, insert, values}

pub record OracleEventData : Type 0 where
  pub event_id : Text
  pub announcement : OracleAnnouncement
  pub indexes : List ℕ
  pub signatures : List (Text × ℕ)

abbrev pub firsts : List (Text × ℕ) → List Text
firsts [] = []
firsts ((o, sig) ∷ sigs) = o ∷ firsts sigs

abbrev pub seconds : List (Text × ℕ) → List ℕ
seconds [] = []
seconds ((o, sig) ∷ sigs) = sig ∷ seconds sigs

-- `OracleEventData::attestation`
unfoldable pub attestation : OracleEventData → Option OracleAttestation
attestation d =
    if is_empty d.signatures
    then none
    else some (record {
      event_id = d.announcement.oracle_event.event_id;
      oracle_public_key = d.announcement.oracle_public_key;
      signatures = seconds d.signatures;
      outcomes = firsts d.signatures;
    })

-- The counter of nonces, and the events by their id.
pub record MemoryStorage : Type 0 where
  pub current_index : ℕ
  pub events : List (Text × OracleEventData)

abbrev pub new_storage : MemoryStorage
new_storage = record { current_index = 0; events = [] }

unfoldable pub list_events : MemoryStorage → List OracleEventData
list_events s = values s.events

-- The 32-bit numbers from `index` on, one for each round.
unfoldable pub index_range : ℕ → ℕ → List ℕ
index_range index zero = []
index_range index (suc num) = index ∷ index_range ((index + 1) % 2 ^ 32) num

unfoldable pub get_next_nonce_indexes : MemoryStorage → ℕ → MemoryStorage × List ℕ
get_next_nonce_indexes s num = (
  record s { current_index = (s.current_index + num % 2 ^ 32) % 2 ^ 32 },
  index_range s.current_index num,
)

-- An event with the id of another takes its place.
unfoldable pub save_announcement :
    MemoryStorage → OracleAnnouncement → (indexes : List ℕ) → MemoryStorage × Text
save_announcement s ann indexes =
    let event_id = ann.oracle_event.event_id in
    (
      record s {
        events =
            insert list_eqb event_id
              (record {
                event_id = event_id;
                announcement = ann;
                indexes = indexes;
                signatures = [];
              })
              s.events;
      },
      event_id,
    )

-- The event that was found, given its signatures unless it has some.
unfoldable pub sign_found :
    MemoryStorage
    → Text
    → List (Text × ℕ)
    → Option OracleEventData
    → MemoryStorage × Result OracleEventData
sign_found s id sigs none = (s, err not_found)
sign_found s id sigs (some event) =
    let signed : OracleEventData = record event { signatures = sigs } in
    if is_empty event.signatures
    then (record s { events = insert list_eqb id signed s.events }, ok signed)
    else (s, err event_already_signed)

unfoldable pub save_signatures :
    MemoryStorage → Text → List (Text × ℕ) → MemoryStorage × Result OracleEventData
save_signatures s id sigs = sign_found s id sigs (lookup list_eqb id s.events)

unfoldable pub get_event : MemoryStorage → Text → Option OracleEventData
get_event s event_id = lookup list_eqb event_id s.events
