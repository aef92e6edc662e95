-- ===== src/Messages/Segments.antt =====
-- dlc-messages/src/segmentation/mod.rs and segment_reader.rs, in a build with debug assertions.
pub mod Reading
pub mod RoundTrip
use dlcdevkit.Base.{
  ℕ, zero, suc, ◌+◌, ◌-◌, ◌/◌, ◌%◌, Bool, true, false, not, ◌&&◌, ◌||◌, List, [], ◌∷◌, ◌++◌, length,
  take, drop, min, ltb, ◌==◌, if◌then◌else◌, Option, none, some,
}
use dlcdevkit.Base.Outcome.{Outcome, ok, err, panicked, Partial, assert, ◌>>=◌, ◌>>◌}

abbrev pub max_data_size : ℕ
max_data_size = 65535

abbrev pub max_start_data_size : ℕ
max_start_data_size = 65526

abbrev pub max_chunk_size : ℕ
max_chunk_size = 65528

abbrev pub max_segments : ℕ
max_segments = 1000

abbrev pub u16_mod : ℕ
u16_mod = 65536

pub record SegmentStart : Type 0 where
  pub nb_segments : ℕ
  pub bytes : List ℕ

pub record SegmentChunk : Type 0 where
  pub bytes : List ℕ

-- `nb_segments`, which is cut to 16 bits, and checked where one is added.
unfoldable pub count_segments : ℕ → Partial ℕ
count_segments len_minus_start =
    let nb = (len_minus_start / max_chunk_size + 1) % u16_mod in
    if len_minus_start % max_chunk_size == 0
    then ok nb
    else if ltb (nb + 1) u16_mod
    then ok (nb + 1)
    else panicked

-- The loop that drains the data, over the number of chunks to make.
unfoldable pub take_chunks : ℕ → List ℕ → List SegmentChunk
take_chunks zero bytes = []
take_chunks (suc n) bytes =
    record { bytes = take (min (length bytes) max_chunk_size) bytes }
    ∷ take_chunks n (drop (min (length bytes) max_chunk_size) bytes)

-- `write_u16` is the serialization of the type.
unfoldable pub get_segments :
    (ℕ → List ℕ) → (bytes : List ℕ) (msg_type : ℕ) → Partial (SegmentStart × List SegmentChunk)
get_segments write_u16 bytes msg_type = do
  assert (ltb max_data_size (length bytes))
  nb_segments ← count_segments (length bytes - max_start_data_size + 2)
  assert (ltb 1 nb_segments)
  let start_data = write_u16 msg_type ++ take (max_start_data_size - 2) bytes
  assert (max_start_data_size == length start_data)
  ok (
    record { nb_segments = nb_segments; bytes = start_data },
    take_chunks (nb_segments - 1) (drop (max_start_data_size - 2) bytes),
  )

pub record SegmentReader : Type 0 where
  pub cur_data : List ℕ
  pub remaining_segments : ℕ

pub data Error : Type 0 where
  invalid_state invalid_parameter : Error

abbrev pub new_reader : SegmentReader
new_reader = record { cur_data = []; remaining_segments = 0 }

unfoldable pub expecting_chunk : SegmentReader → Bool
expecting_chunk r = not (r.remaining_segments == 0)

abbrev pub is_empty : List ℕ → Bool
is_empty [] = true
is_empty (x ∷ xs) = false

-- The reader after the call, and what the call returns.
unfoldable pub process_segment_start :
    SegmentReader → SegmentStart → SegmentReader × Outcome Error (Unit {0})
process_segment_start r s =
    if not (is_empty r.cur_data)
    then (r, err invalid_state)
    else if ltb s.nb_segments 2 || ltb max_segments s.nb_segments
    then (r, err invalid_parameter)
    else if ltb (length s.bytes) max_start_data_size
    then (r, err invalid_parameter)
    else (record { cur_data = s.bytes; remaining_segments = s.nb_segments - 1 }, ok tt)

-- Taking one off no remaining segments panics, when the data has been appended.
unfoldable pub process_segment_chunk :
    SegmentReader → SegmentChunk → SegmentReader × Outcome Error (Option (List ℕ))
process_segment_chunk r c =
    let bytes = r.cur_data ++ c.bytes in
    if is_empty r.cur_data
    then (r, err invalid_state)
    else if ltb 1 r.remaining_segments && not (length c.bytes == max_chunk_size)
    then (r, err invalid_parameter)
    else if r.remaining_segments == 0
    then (record { cur_data = bytes; remaining_segments = 0 }, panicked)
    else if r.remaining_segments == 1
    then (new_reader, ok (some bytes))
    else (record { cur_data = bytes; remaining_segments = r.remaining_segments - 1 }, ok none)
