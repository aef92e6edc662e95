-- ===== src/Messages/Segments/RoundTrip.antt =====
-- A message that is cut into segments is put together again.
use dlcdevkit.Base.{
  ℕ, zero, suc, ◌+◌, ◌-◌, ◌*◌, ◌/◌, ◌%◌, ◌≤◌, ◌<◌, ◌≡◌, refl, inl, inr, ap, ◌∙◌, arith, List, [],
  ◌∷◌, ◌++◌, length, take, drop, min, replicate, take-append-drop, length-take, length-drop,
  length-append, Bool-cases, lt→ltb, Option, none, some, true, false, ◌==◌, ltb,
}
use dlcdevkit.Base.Outcome.{Outcome, ok}
use dlcdevkit.Messages.Segments.{
  SegmentStart, SegmentChunk, SegmentReader, Error, new_reader, max_chunk_size, take_chunks,
  count_segments, get_segments, process_segment_start, process_segment_chunk,
}

-- The reader after chunks that come one after the other, and what each call returned.
abbrev pub feed :
    SegmentReader → List SegmentChunk → SegmentReader × List (Outcome Error (Option (List ℕ)))
feed r [] = (r, [])
feed r (c ∷ cs) =
    let step = process_segment_chunk r c in let rest = feed step.0 cs in (rest.0, step.1 ∷ rest.1)

pub take_all : (xs : List ℕ) → take (length xs) xs ≡ xs
take_all [] = refl
take_all (x ∷ xs) = ap (λ (l : List ℕ). x ∷ l) (take_all xs)

-- A full chunk that is not the last one is taken in.
pub full_chunk :
    (n x : ℕ) (acc : List ℕ) (c : SegmentChunk)
    → length c.bytes ≡ max_chunk_size
    → process_segment_chunk (record { cur_data = x ∷ acc; remaining_segments = suc (suc n) }) c
      ≡ (record { cur_data = (x ∷ acc) ++ c.bytes; remaining_segments = suc n }, ok none)
full_chunk n x acc c h =
    let more : ltb 1 (suc (suc n)) ≡ true = ground arith in
    let full : (length c.bytes == max_chunk_size) ≡ true = ground arith in
    let some_left : (suc (suc n) == 0) ≡ false = ground arith in
    let not_last : (suc (suc n) == 1) ≡ false = ground arith in
    let left : suc (suc n) - 1 ≡ suc n = omega arith in
    unfold process_segment_chunk in rw (more, full, some_left, not_last, left) refl

pub last_chunk :
    (x : ℕ) (acc : List ℕ) (c : SegmentChunk)
    → process_segment_chunk (record { cur_data = x ∷ acc; remaining_segments = 1 }) c
      ≡ (new_reader, ok (some ((x ∷ acc) ++ c.bytes)))
unfolding process_segment_chunk
last_chunk x acc c = refl

pub take_chunks-full :
    (n : ℕ) (bytes : List ℕ)
    → max_chunk_size ≤ length bytes
    → take_chunks (suc n) bytes
      ≡ record { bytes = take max_chunk_size bytes } ∷ take_chunks n (drop max_chunk_size bytes)
take_chunks-full n bytes h =
    let e : min (length bytes) max_chunk_size ≡ max_chunk_size = omega arith in
    unfold take_chunks in rw e refl

pub take_chunks-last :
    (bytes : List ℕ)
    → length bytes ≤ max_chunk_size
    → take_chunks 1 bytes ≡ record { bytes = bytes } ∷ []
take_chunks-last bytes h =
    let e : min (length bytes) max_chunk_size ≡ length bytes = omega arith in
    unfold take_chunks in rw (e, take_all bytes) refl

pub append_assoc : (xs ys zs : List ℕ) → (xs ++ ys) ++ zs ≡ xs ++ (ys ++ zs)
append_assoc [] ys zs = refl
append_assoc (x ∷ xs) ys zs = ap (λ (l : List ℕ). x ∷ l) (append_assoc xs ys zs)

feed-take_chunks :
    (n x : ℕ) (acc bytes : List ℕ)
    → n * max_chunk_size < length bytes
    → length bytes ≤ suc n * max_chunk_size
    → feed (record { cur_data = x ∷ acc; remaining_segments = suc n }) (take_chunks (suc n) bytes)
      ≡ (new_reader, replicate n (ok none) ++ (ok (some ((x ∷ acc) ++ bytes)) ∷ []))
feed-take_chunks zero x acc bytes lo hi =
    rw (take_chunks-last bytes (omega arith), last_chunk x acc) refl
feed-take_chunks (suc n) x acc bytes lo hi =
    let full : length (take max_chunk_size bytes) ≡ max_chunk_size =
      omega (arith, length-take max_chunk_size bytes) in
    let len : length (drop max_chunk_size bytes) ≡ length bytes - max_chunk_size =
      length-drop max_chunk_size bytes in
    let rest =
      feed-take_chunks n x (acc ++ take max_chunk_size bytes) (drop max_chunk_size bytes)
        (omega (arith, len)) (omega (arith, len)) in
    rw
      (
        take_chunks-full (suc n) bytes (omega arith),
        full_chunk n x acc (record { bytes = take max_chunk_size bytes }) full,
        rest,
        append_assoc acc (take max_chunk_size bytes) (drop max_chunk_size bytes),
        take-append-drop max_chunk_size bytes,
      )
      refl

-- The number of segments leaves no byte behind, and no chunk empty.
pub count_segments-eq :
    (len : ℕ)
    → 0 < len
    → len ≤ 999 * max_chunk_size
    → (n : ℕ) × (count_segments len ≡ ok (suc (suc n)))
      × (n < 999)
      × (n * max_chunk_size < len)
      × (len ≤ suc n * max_chunk_size)
unfolding count_segments
count_segments-eq len pos small =
    let kept : (len / max_chunk_size + 1) % 65536 ≡ len / max_chunk_size + 1 = omega arith in
    elim (Bool-cases (len % max_chunk_size == 0)) [
      | inl whole ↦
          let back : len / max_chunk_size + 1 ≡ suc (suc (len / max_chunk_size - 1)) =
            ground arith in
          (
            len / max_chunk_size - 1,
            rw (whole, kept, back),
            ground arith,
            ground arith,
            ground arith,
          )
      | inr part ↦
          let room : ltb (len / max_chunk_size + 1 + 1) 65536 ≡ true = ground arith in
          let back : len / max_chunk_size + 1 + 1 ≡ suc (suc (len / max_chunk_size)) =
            omega arith in
          (
            len / max_chunk_size,
            rw (part, kept, room, back),
            ground arith,
            ground arith,
            ground arith,
          )
    ]

pub start_taken :
    (n : ℕ) (head : List ℕ)
    → n < 999
    → length head ≡ 65526
    → process_segment_start new_reader (record { nb_segments = suc (suc n); bytes = head })
      ≡ (record { cur_data = head; remaining_segments = suc n }, ok tt)
start_taken n head small len =
    let enough : ltb (suc (suc n)) 2 ≡ false = ground arith in
    let not_many : ltb 1000 (suc (suc n)) ≡ false = ground arith in
    let filled : ltb (length head) 65526 ≡ false = ground (arith, len) in
    let left : suc (suc n) - 1 ≡ suc n = omega arith in
    unfold process_segment_start in rw (enough, not_many, filled, left) refl

feed_head :
    (n : ℕ) (head rest : List ℕ)
    → 0 < length head
    → n * max_chunk_size < length rest
    → length rest ≤ suc n * max_chunk_size
    → feed (record { cur_data = head; remaining_segments = suc n }) (take_chunks (suc n) rest)
      ≡ (new_reader, replicate n (ok none) ++ (ok (some (head ++ rest)) ∷ []))
feed_head n [] rest h lo hi = absurd (omega arith)
feed_head n (x ∷ acc) rest h lo hi = feed-take_chunks n x acc rest lo hi

pub segments_made :
    (write_u16 : ℕ → List ℕ) (bytes : List ℕ) (msg_type n : ℕ)
    → 65535 < length bytes
    → length (write_u16 msg_type ++ take 65524 bytes) ≡ 65526
    → count_segments (length bytes - 65526 + 2) ≡ ok (suc (suc n))
    → get_segments write_u16 bytes msg_type
      ≡ ok (
        record { nb_segments = suc (suc n); bytes = write_u16 msg_type ++ take 65524 bytes },
        take_chunks (suc n) (drop 65524 bytes),
      )
segments_made write_u16 bytes msg_type n long len counted =
    let large : ltb 65535 (length bytes) ≡ true = lt→ltb _ _ long in
    let several : ltb 1 (suc (suc n)) ≡ true = lt→ltb _ _ (omega arith) in
    let left : suc (suc n) - 1 ≡ suc n = omega arith in
    unfold get_segments in rw (large, counted, several, len, left) refl

-- A message of more than 65535 bytes, and not more than 1000 segments hold, is cut into segments; a new
-- reader takes them all in, in order, returns nothing before the last one, then the type followed by the
-- message, and is as new again. The type is assumed to be written in two bytes.
pub process-get_segments :
    (write_u16 : ℕ → List ℕ) (bytes : List ℕ) (msg_type : ℕ)
    → length (write_u16 msg_type) ≡ 2
    → 65535 < length bytes
    → length bytes ≤ 65524 + 999 * max_chunk_size
    → (start : SegmentStart) × (chunks : List SegmentChunk) × (n : ℕ) × (get_segments write_u16
          bytes msg_type
        ≡ ok (start, chunks))
      × (process_segment_start new_reader start).1 ≡ ok tt
      × (feed (process_segment_start new_reader start).0 chunks
          ≡ (new_reader, replicate n (ok none) ++ (ok (some (write_u16 msg_type ++ bytes)) ∷ [])))
process-get_segments write_u16 bytes msg_type two long fits =
    let head = write_u16 msg_type ++ take 65524 bytes in
    let rest = drop 65524 bytes in
    let len : length head ≡ 65526 = omega (
      arith,
      two,
      length-append (write_u16 msg_type) (take 65524 bytes),
      length-take 65524 bytes,
    ) in
    let len_rest : length bytes - 65526 + 2 ≡ length rest =
      omega (arith, length-drop 65524 bytes) in
    let (n, counted, small, lo, hi) =
      count_segments-eq (length bytes - 65526 + 2) (omega arith) (omega arith) in
    let taken = start_taken n head small len in
    (
      record { nb_segments = suc (suc n); bytes = head },
      take_chunks (suc n) rest,
      n,
      segments_made write_u16 bytes msg_type n long len counted,
      ap (λ (step : SegmentReader × Outcome Error (Unit {0})). step.1) taken,
      rw taken (
          feed_head n head rest (omega (arith, len)) (omega (arith, len_rest))
            (omega (arith, len_rest))
          ∙ whole n),
    )
  where
    joined :
        (write_u16 msg_type ++ take 65524 bytes) ++ drop 65524 bytes ≡ write_u16 msg_type ++ bytes
    joined =
        append_assoc (write_u16 msg_type) (take 65524 bytes) (drop 65524 bytes)
        ∙ ap (λ (l : List ℕ). write_u16 msg_type ++ l) (take-append-drop 65524 bytes)

    whole :
        (n : ℕ)
        → ◌≡◌ {A = SegmentReader × List (Outcome Error (Option (List ℕ)))}
            (
              new_reader,
              replicate n (ok none)
                  ++ (ok (some ((write_u16 msg_type ++ take 65524 bytes) ++ drop 65524 bytes))
                      ∷ []),
            )
            (new_reader, replicate n (ok none) ++ (ok (some (write_u16 msg_type ++ bytes)) ∷ []))
    whole n = rw joined refl
