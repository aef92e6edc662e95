-- ===== src/Messages/Handler/Delivery.antt =====
-- What one handler sends, another receives.
use dlcdevkit.Base.{
  ℕ, zero, suc, ◌+◌, ◌-◌, ◌*◌, ◌≤◌, ◌<◌, ◌≡◌, refl, ap, ◌∙◌, arith, List, [], ◌∷◌, ◌++◌, length,
  map, take, drop, length-take, length-drop, length-append, take-append-drop, lt→ltb, some, true,
  ◌==◌, ==_iff, Bool-cases, inl, inr,
}
use dlcdevkit.Base.Outcome.{ok}
use dlcdevkit.Messages.Segments.{
  SegmentStart, SegmentChunk, SegmentReader, new_reader, max_chunk_size, take_chunks, get_segments,
}
use dlcdevkit.Messages.Segments.Reading.{IsValid}
use dlcdevkit.Messages.Segments.RoundTrip.{
  take_chunks-full, take_chunks-last, append_assoc, count_segments-eq, segments_made,
}
use dlcdevkit.Messages.Handler.{
  WireMessage, plain, segment_start, segment_chunk, Codec, MessageHandler, new_handler, push_events,
  push_received, set_reader, handle_whole, after_type, after_read, send_message, is_listed, read,
  read_dlc_message, segment_start_type, segment_chunk_type,
}
use dlcdevkit.Messages.Handler.Steps.{
  IsDelivered, before, received-set_reader, received_last, set_reader-same, step_last, step_more,
  step_start,
}

same_type : (a b : ℕ) → (a == b) ≡ true → a ≡ b
same_type a b h = (==_iff a b).0 h

module _ {Message : Type 0} (codec : Codec Message) where
  wire : List SegmentChunk → List (WireMessage Message)
  wire cs = map (λ (c : SegmentChunk). segment_chunk c) cs

  module _ (m : Message) (whole : List ℕ)
      (reads : (h : MessageHandler Message) (org : ℕ)
        → handle_whole codec h org whole ≡ (push_received h org m, ok tt)) where
    deliver-chunks :
        (h : MessageHandler Message) (org n x : ℕ) (acc bytes : List ℕ)
        → h.segment_readers org ≡ record { cur_data = x ∷ acc; remaining_segments = suc n }
        → (x ∷ acc) ++ bytes ≡ whole
        → n * max_chunk_size < length bytes
        → length bytes ≤ suc n * max_chunk_size
        → IsDelivered codec h org (wire (take_chunks (suc n) bytes)) m
    unfolding wire
    deliver-chunks h org zero x acc bytes e all lo hi = rw (take_chunks-last bytes (omega arith)) (
        received_last codec h (set_reader h org new_reader) org
          (segment_chunk (record { bytes = bytes })) m
          (step_last codec h org x acc (record { bytes = bytes }) e
            ∙ rw all (reads (set_reader h org new_reader) org))
          (received-set_reader codec h org new_reader) (set_reader-same codec h org new_reader))
    deliver-chunks h org (suc n) x acc bytes e all lo hi =
        let c : SegmentChunk = record { bytes = take max_chunk_size bytes } in
        let r : SegmentReader = record {
          cur_data = (x ∷ acc) ++ c.bytes;
          remaining_segments = suc n;
        } in
        let full : length c.bytes ≡ max_chunk_size =
          omega (arith, length-take max_chunk_size bytes) in
        let len : length (drop max_chunk_size bytes) ≡ length bytes - max_chunk_size =
          length-drop max_chunk_size bytes in
        rw (take_chunks-full (suc n) bytes (omega arith)) (
          before codec h (set_reader h org r) org (segment_chunk c) _ m
            (step_more codec h org n x acc c e full) (received-set_reader codec h org r)
            (deliver-chunks (set_reader h org r) org n x (acc ++ c.bytes)
              (drop max_chunk_size bytes) (set_reader-same codec h org r)
              (append_assoc (x ∷ acc) c.bytes (drop max_chunk_size bytes)
                ∙ ap (λ (l : List ℕ). (x ∷ acc) ++ l) (take-append-drop max_chunk_size bytes)
                ∙ all)
              (omega (arith, len)) (omega (arith, len))))

  -- What the codec is known for at a message: the type is written in two bytes and read back, and the
  -- generated serialization reads what it writes of the message.
  pub record Parses (m : Message) : Type 0 where
    pub two : length (codec.write_u16 (codec.type_id m)) ≡ 2
    pub type_read :
        codec.read_u16 (codec.write_u16 (codec.type_id m) ++ codec.encode m)
        ≡ some (codec.type_id m, codec.encode m)
    pub parsed : codec.read_as (codec.type_id m) (codec.encode m) ≡ ok m

  -- The types that are listed are not those of segments, so the message is read.
  read-listed :
      (t : ℕ) (bytes : List ℕ) (m : Message)
      → is_listed t ≡ true
      → codec.read_as t bytes ≡ ok m
      → read codec t bytes ≡ ok (some (plain m))
  unfolding read read_dlc_message is_listed
  read-listed t bytes m listed parsed = elim (Bool-cases (t == segment_start_type)) [
    | inl start ↦ absurd (cc (rw (same_type t segment_start_type start) at listed))
    | inr other ↦ elim (Bool-cases (t == segment_chunk_type)) [
      | inl chunk ↦ absurd (cc (rw (same_type t segment_chunk_type chunk) at listed))
      | inr other' ↦ rw (other, other', listed, parsed) refl
    ]
  ]

  whole_read :
      (m : Message)
      → Parses m
      → is_listed (codec.type_id m) ≡ true
      → (h : MessageHandler Message) (org : ℕ)
      → handle_whole codec h org (codec.write_u16 (codec.type_id m) ++ codec.encode m)
        ≡ (push_received h org m, ok tt)
  unfolding handle_whole after_type after_read
  whole_read m p listed h org =
      rw (p.type_read, read-listed (codec.type_id m) (codec.encode m) m listed p.parsed) refl

  deliver-head :
      (m : Message) (whole : List ℕ)
      → ((h : MessageHandler Message) (org : ℕ)
          → handle_whole codec h org whole ≡ (push_received h org m, ok tt))
      → (h : MessageHandler Message) (org n : ℕ) (head rest : List ℕ) → 0 < length head
      → h.segment_readers org ≡ record { cur_data = head; remaining_segments = suc n }
      → head ++ rest ≡ whole
      → n * max_chunk_size < length rest
      → length rest ≤ suc n * max_chunk_size
      → IsDelivered codec h org (wire (take_chunks (suc n) rest)) m
  deliver-head m whole reads h org n [] rest pos e all lo hi = absurd (omega arith)
  deliver-head m whole reads h org n (x ∷ acc) rest pos e all lo hi =
      deliver-chunks m whole reads h org n x acc rest e all lo hi

  -- What a new handler has to send after `send_message`.
  abbrev pub events : MessageHandler Message → List (WireMessage Message)
  events h = map (λ (e : ℕ × WireMessage Message). e.1) h.msg_events

  events-wire :
      (node : ℕ) (cs : List SegmentChunk)
      → map
          (λ (e : ℕ × WireMessage Message). e.1)
          (map (λ (c : SegmentChunk). (node, segment_chunk c)) cs)
        ≡ wire cs
  unfolding wire
  events-wire node [] = refl
  events-wire node (c ∷ cs) =
      ap (λ (l : List (WireMessage Message)). segment_chunk c ∷ l) (events-wire node cs)

  -- The handler after sending a message in segments.
  segmented : ℕ → SegmentStart → List SegmentChunk → MessageHandler Message
  segmented to s cs =
      push_events new_handler
        ((to, segment_start s) ∷ map (λ (c : SegmentChunk). (to, segment_chunk c)) cs)

  sent :
      (m : Message) (to : ℕ) (s : SegmentStart) (cs : List SegmentChunk)
      → codec.max_buf_size < length (codec.encode m)
      → get_segments codec.write_u16 (codec.encode m) (codec.type_id m) ≡ ok (s, cs)
      → send_message codec new_handler to m ≡ ok (segmented to s cs)
  unfolding send_message segmented
  sent m to s cs long e = rw (lt→ltb _ _ long, e) refl

  -- A message of a type that read_dlc_message lists, too long for the transport's buffer, which holds at least
  -- 65535 bytes, and that 1000 segments hold: sending it succeeds; when its segments are handled in order by a handler whose reader for the sender is in any
  -- valid state, every call succeeds, exactly that message is received, and the reader is as new. The generated
  -- serialization is assumed to parse what it writes of this message, and its type.
  pub send-IsDelivered :
      (m : Message) (to org : ℕ) (g : MessageHandler Message)
      → Parses m
      → is_listed (codec.type_id m) ≡ true
      → 65535 ≤ codec.max_buf_size
      → codec.max_buf_size < length (codec.encode m)
      → length (codec.encode m) ≤ 65524 + 999 * max_chunk_size
      → IsValid (g.segment_readers org)
      → (h : MessageHandler Message) × (send_message codec new_handler to m ≡ ok h)
        × IsDelivered codec g org (events h) m
  send-IsDelivered m to org g p listed buf long fits valid =
      let bytes = codec.encode m in
      let ty = codec.write_u16 (codec.type_id m) in
      let head = ty ++ take 65524 bytes in
      let rest = drop 65524 bytes in
      let len : length head ≡ 65526 =
        omega (arith, p.two, length-append ty (take 65524 bytes), length-take 65524 bytes) in
      let len_rest : length bytes - 65526 + 2 ≡ length rest =
        omega (arith, length-drop 65524 bytes) in
      let (n, counted, small, lo, hi) =
        count_segments-eq (length bytes - 65526 + 2) (omega arith) (omega arith) in
      let (h', started, same, reader) = step_start codec g org n head valid small len in
      let all : head ++ rest ≡ ty ++ bytes =
        append_assoc ty (take 65524 bytes) rest
        ∙ ap (λ (l : List ℕ). ty ++ l) (take-append-drop 65524 bytes) in
      (
        segmented to (record { nb_segments = suc (suc n); bytes = head })
            (take_chunks (suc n) rest),
        sent m to (record { nb_segments = suc (suc n); bytes = head }) (take_chunks (suc n) rest)
            long
            (segments_made codec.write_u16 bytes (codec.type_id m) n (omega arith) len counted),
        unfold segmented in
            rw (events-wire to (take_chunks (suc n) rest)) (
              before codec g h' org _ _ m started same (
                deliver-head m (ty ++ bytes) (whole_read m p listed) h' org n head rest
                  (omega (arith, len)) reader all (omega (arith, len_rest))
                  (omega (arith, len_rest)))),
      )
