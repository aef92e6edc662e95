-- ===== src/Messages/Handler.antt =====
-- dlc-messages/src/message_handler.rs: the queues of a peer, and the segments that it is receiving.
pub mod Steps
pub mod Delivery
use dlcdevkit.Base.{
  ℕ, List, [], ◌∷◌, ◌++◌, length, map, ltb, ◌==◌, if◌then◌else◌, ◌||◌, Option, none, some, Bool,
  true, false,
}
use dlcdevkit.Base.Outcome.{Outcome, ok, err, panicked, Partial, ◌>>=◌}
use dlcdevkit.Messages.Segments.{
  SegmentStart, SegmentChunk, SegmentReader, Error, new_reader, get_segments, expecting_chunk,
  process_segment_start, process_segment_chunk,
}

pub data WireMessage (Message : Type 0) : Type 0 where
  plain : Message → WireMessage Message
  segment_start : SegmentStart → WireMessage Message
  segment_chunk : SegmentChunk → WireMessage Message

-- `LightningError`, without its text. Each one disconnects the peer.
pub data LightningError : Type 0 where
  disconnect : LightningError

-- What is called of the lightning crate, and the serializations that its macros generate.
pub record Codec (Message : Type 0) : Type 0 where
  pub encode : Message → List ℕ
  pub type_id : Message → ℕ
  pub max_buf_size : ℕ
  pub write_u16 : ℕ → List ℕ
  pub read_u16 : List ℕ → Option (ℕ × List ℕ)
  -- `Readable::read`, of the message of a type and of the two segments: an error for bytes that do not parse
  pub read_as : ℕ → List ℕ → Outcome LightningError Message
  pub read_segment_start : List ℕ → Outcome LightningError SegmentStart
  pub read_segment_chunk : List ℕ → Outcome LightningError SegmentChunk

-- The types of dlc-messages/src/types.rs that `read_dlc_message` lists, in its order: from an offer to a
-- sign message, from the offer of a channel to the last message of its renewal, the offer of a
-- collaborative close, and a rejection. CLOSE_TYPE and RENEW_CHANNEL_REVOKE_TYPE are not among them.
unfoldable pub is_listed : ℕ → Bool
is_listed t =
    (t == 42778)
    || (t == 42780)
    || (t == 42782)
    || (t == 43000)
    || (t == 43002)
    || (t == 43004)
    || (t == 43006)
    || (t == 43008)
    || (t == 43010)
    || (t == 43012)
    || (t == 43014)
    || (t == 43016)
    || (t == 43018)
    || (t == 43020)
    || (t == 43022)
    || (t == 43024)

abbrev pub segment_start_type : ℕ
segment_start_type = 42900

abbrev pub segment_chunk_type : ℕ
segment_chunk_type = 42902

module _ {Message : Type 0} (codec : Codec Message) where
  unfoldable pub read_dlc_message :
      ℕ → List ℕ → Outcome LightningError (Option (WireMessage Message))
  read_dlc_message msg_type buffer =
      if is_listed msg_type
      then (codec.read_as msg_type buffer >>= λ m. ok (some (plain m)))
      else ok none

  -- `CustomMessageReader::read`
  unfoldable pub read : ℕ → List ℕ → Outcome LightningError (Option (WireMessage Message))
  read msg_type buffer =
      if msg_type == segment_start_type
      then (codec.read_segment_start buffer >>= λ s. ok (some (segment_start s)))
      else if msg_type == segment_chunk_type
      then (codec.read_segment_chunk buffer >>= λ c. ok (some (segment_chunk c)))
      else read_dlc_message msg_type buffer

pub record MessageHandler (Message : Type 0) : Type 0 where
  pub msg_events : List (ℕ × WireMessage Message)
  pub msg_received : List (ℕ × Message)
  -- by node; one that is not in the map has a new reader
  pub segment_readers : ℕ → SegmentReader

module _ {Message : Type 0} where
  abbrev pub new_handler : MessageHandler Message
  new_handler = record { msg_events = []; msg_received = []; segment_readers = λ _. new_reader }

  unfoldable pub get_and_clear_received_messages :
      MessageHandler Message → MessageHandler Message × List (ℕ × Message)
  get_and_clear_received_messages h = (record h { msg_received = [] }, h.msg_received)

  unfoldable pub get_and_clear_pending_msg :
      MessageHandler Message → MessageHandler Message × List (ℕ × WireMessage Message)
  get_and_clear_pending_msg h = (record h { msg_events = [] }, h.msg_events)

  unfoldable pub has_pending_messages : MessageHandler Message → Bool
  has_pending_messages h = elim h.msg_events [ [] ↦ false | x ∷ xs ↦ true ]

  abbrev pub push_events :
      MessageHandler Message → List (ℕ × WireMessage Message) → MessageHandler Message
  push_events h events = record h { msg_events = h.msg_events ++ events }

  unfoldable pub send_message :
      Codec Message → MessageHandler Message → ℕ → Message → Partial (MessageHandler Message)
  send_message codec h node_id msg =
      let segments = get_segments codec.write_u16 (codec.encode msg) (codec.type_id msg) in
      if ltb codec.max_buf_size (length (codec.encode msg))
      then (do
        (seg_start, seg_chunks) ← segments
        ok (
            push_events h (
              (node_id, segment_start seg_start)
              ∷ map (λ (c : SegmentChunk). (node_id, segment_chunk c)) seg_chunks)))
      else ok (push_events h ((node_id, plain msg) ∷ []))

  abbrev pub push_received : MessageHandler Message → ℕ → Message → MessageHandler Message
  push_received h org m = record h { msg_received = h.msg_received ++ ((org, m) ∷ []) }

  unfoldable pub set_reader : MessageHandler Message → ℕ → SegmentReader → MessageHandler Message
  set_reader h org r = record h {
    segment_readers = λ node. if node == org then r else h.segment_readers node;
  }

  -- What the bytes of a whole message were read as.
  unfoldable pub after_read :
      MessageHandler Message
      → ℕ
      → Outcome LightningError (Option (WireMessage Message))
      → MessageHandler Message × Outcome LightningError (Unit {0})
  after_read h org (err e) = (h, err disconnect)
  after_read h org panicked = (h, panicked)
  after_read h org (ok none) = (h, panicked)
  after_read h org (ok (some (plain m))) = (push_received h org m, ok tt)
  after_read h org (ok (some (segment_start s))) = (h, err disconnect)
  after_read h org (ok (some (segment_chunk c))) = (h, err disconnect)

  -- The type in front of a whole message, and the bytes behind it.
  unfoldable pub after_type :
      Codec Message
      → MessageHandler Message
      → ℕ
      → Option (ℕ × List ℕ)
      → MessageHandler Message × Outcome LightningError (Unit {0})
  after_type codec h org none = (h, err disconnect)
  after_type codec h org (some (message_type, rest)) =
      after_read h org (read codec message_type rest)

  -- A message whose last segment has come.
  unfoldable pub handle_whole :
      Codec Message
      → MessageHandler Message
      → ℕ
      → List ℕ
      → MessageHandler Message × Outcome LightningError (Unit {0})
  handle_whole codec h org bytes = after_type codec h org (codec.read_u16 bytes)

  -- What `process_segment_chunk` left and returned.
  unfoldable pub after_chunk :
      Codec Message
      → MessageHandler Message
      → ℕ
      → SegmentReader × Outcome Error (Option (List ℕ))
      → MessageHandler Message × Outcome LightningError (Unit {0})
  after_chunk codec h org (r, err e) = (set_reader h org r, err disconnect)
  after_chunk codec h org (r, panicked) = (set_reader h org r, panicked)
  after_chunk codec h org (r, ok none) = (set_reader h org r, ok tt)
  after_chunk codec h org (r, ok (some bytes)) = handle_whole codec (set_reader h org r) org bytes

  unfoldable pub handle_chunk :
      Codec Message
      → MessageHandler Message
      → SegmentChunk
      → ℕ
      → MessageHandler Message × Outcome LightningError (Unit {0})
  handle_chunk codec h s org =
      after_chunk codec h org (process_segment_chunk (h.segment_readers org) s)

  -- What `process_segment_start` left and returned.
  unfoldable pub after_start :
      MessageHandler Message
      → ℕ
      → SegmentReader × Outcome Error (Unit {0})
      → MessageHandler Message × Outcome LightningError (Unit {0})
  after_start h org (r, ok u) = (set_reader h org r, ok tt)
  after_start h org (r, err e) = (set_reader h org r, err disconnect)
  after_start h org (r, panicked) = (set_reader h org r, panicked)

  -- A message to a reader that expects no chunk.
  unfoldable pub handle_fresh :
      MessageHandler Message
      → WireMessage Message
      → ℕ
      → MessageHandler Message × Outcome LightningError (Unit {0})
  handle_fresh h (plain m) org = (push_received h org m, ok tt)
  handle_fresh h (segment_start s) org =
      after_start h org (process_segment_start (h.segment_readers org) s)
  handle_fresh h (segment_chunk c) org = (h, err disconnect)

  -- While a chunk is expected, any other message resets the reader.
  unfoldable pub handle_expecting :
      Codec Message
      → MessageHandler Message
      → WireMessage Message
      → ℕ
      → MessageHandler Message × Outcome LightningError (Unit {0})
  handle_expecting codec h (segment_chunk s) org = handle_chunk codec h s org
  handle_expecting codec h (plain m) org = handle_fresh (set_reader h org new_reader) (plain m) org
  handle_expecting codec h (segment_start s) org =
      handle_fresh (set_reader h org new_reader) (segment_start s) org

  unfoldable pub handle_custom_message :
      Codec Message
      → MessageHandler Message
      → WireMessage Message
      → ℕ
      → MessageHandler Message × Outcome LightningError (Unit {0})
  handle_custom_message codec h msg org =
      if expecting_chunk (h.segment_readers org)
      then handle_expecting codec h msg org
      else handle_fresh h msg org
