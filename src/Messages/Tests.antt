-- ===== src/Messages/Tests.antt =====
-- A message of 70000 bytes on its way, and readers in concrete states.
use dlcdevkit.Base.{
  true, ℕ, zero, suc, ◌+◌, ◌*◌, ◌/◌, ◌%◌, ◌≡◌, ◌≢◌, refl, inl, inr, ap, arith, List, [], ◌∷◌, ◌++◌,
  length, replicate, Option, none, some,
}
use dlcdevkit.Base.Outcome.{ok, err, panicked}
use dlcdevkit.Messages.Segments.{
  SegmentStart, SegmentChunk, SegmentReader, new_reader, get_segments, process_segment_start,
  process_segment_chunk,
}
use dlcdevkit.Messages.Segments.Reading.{
  IsValid, process_segment_start-IsValid, process_segment_chunk-IsValid,
}
use dlcdevkit.Messages.Segments.RoundTrip.{feed, process-get_segments}
use dlcdevkit.Messages.Handler.{
  disconnect, is_listed, Codec, MessageHandler, new_handler, send_message,
}
use dlcdevkit.Messages.Handler.Steps.{IsDelivered}
use dlcdevkit.Messages.Handler.Delivery.{Parses, events, send-IsDelivered}

abbrev big_endian : ℕ → List ℕ
big_endian n = (n / 256) ∷ (n % 256) ∷ []

abbrev read_big_endian : List ℕ → Option (ℕ × List ℕ)
read_big_endian [] = none
read_big_endian (x ∷ []) = none
read_big_endian (x ∷ y ∷ rest) = some (256 * x + y, rest)

-- A message that is its bytes.
abbrev bytes_codec : Codec (List ℕ)
bytes_codec = record {
  encode = λ m. m;
  type_id = λ m. 42778;
  max_buf_size = 65536;
  write_u16 = big_endian;
  read_u16 = read_big_endian;
  read_as = λ t bytes. ok bytes;
  read_segment_start = λ bytes. err disconnect;
  read_segment_chunk = λ bytes. err disconnect;
}

length-replicate : (n x : ℕ) → length (replicate n x) ≡ n
length-replicate zero x = refl
length-replicate (suc n) x = ap suc (length-replicate n x)

unfoldable message : List ℕ
message = replicate 70000 1

length-message : length message ≡ 70000
unfolding message
length-message = length-replicate 70000 1

process-get_segments_example :
    (start : SegmentStart) × (chunks : List SegmentChunk) × (n : ℕ) × (get_segments big_endian
        message 42778
      ≡ ok (start, chunks))
    × (process_segment_start new_reader start).1 ≡ ok tt
    × (feed (process_segment_start new_reader start).0 chunks
        ≡ (new_reader, replicate n (ok none) ++ (ok (some (big_endian 42778 ++ message)) ∷ [])))
process-get_segments_example =
    process-get_segments big_endian message 42778 refl (omega (arith, length-message))
      (omega (arith, length-message))

parses : Parses bytes_codec message
parses = record { two = refl; type_read = refl; parsed = refl }

an_offer_listed : is_listed 42778 ≡ true
unfolding is_listed
an_offer_listed = refl

send-IsDelivered_example :
    (h : MessageHandler (List ℕ)) × (send_message bytes_codec new_handler 7 message ≡ ok h)
    × IsDelivered bytes_codec new_handler 9 (events bytes_codec h) message
send-IsDelivered_example =
    send-IsDelivered bytes_codec message 7 9 new_handler parses an_offer_listed (omega arith)
      (omega (arith, length-message)) (omega (arith, length-message)) (inl (refl, refl))

abbrev waiting_reader : SegmentReader
waiting_reader = record { cur_data = 7 ∷ []; remaining_segments = 1 }

abbrev end_chunk : SegmentChunk
end_chunk = record { bytes = 8 ∷ 9 ∷ [] }

waiting_reader-IsValid : IsValid waiting_reader
waiting_reader-IsValid = inr (λ e. cc e, omega arith, omega arith)

process_segment_chunk-IsValid_example :
    IsValid (process_segment_chunk waiting_reader end_chunk).0
    × ((process_segment_chunk waiting_reader end_chunk).1 ≢ panicked)
process_segment_chunk-IsValid_example =
    process_segment_chunk-IsValid waiting_reader end_chunk waiting_reader-IsValid

abbrev early_start : SegmentStart
early_start = record { nb_segments = 2; bytes = 1 ∷ [] }

process_segment_start-IsValid_example :
    IsValid (process_segment_start waiting_reader early_start).0
    × ((process_segment_start waiting_reader early_start).1 ≢ panicked)
process_segment_start-IsValid_example =
    process_segment_start-IsValid waiting_reader early_start waiting_reader-IsValid
