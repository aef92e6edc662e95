-- ===== src/Messages/Segments/Reading.antt =====
-- The states of a segment reader.
use dlcdevkit.Base.{
  ℕ, ◌-◌, ◌≤◌, ◌<◌, ◌≡◌, ◌≢◌, true, false, refl, ◌⊎◌, inl, inr, arith, List, [], ◌∷◌, ◌++◌, length,
  Bool-cases, ltb, ◌==◌, not, ◌||◌, ◌&&◌,
}
use dlcdevkit.Base.Outcome.{panicked}
use dlcdevkit.Messages.Segments.{
  SegmentStart, SegmentChunk, SegmentReader, is_empty, process_segment_start, process_segment_chunk,
}

-- A reader holds no data and waits for nothing, or it holds data and waits for 1 to 999 chunks.
abbrev pub IsValid : SegmentReader → Type 0
IsValid r =
    ((r.cur_data ≡ []) × (r.remaining_segments ≡ 0))
    ⊎ ((r.cur_data ≢ []) × (0 < r.remaining_segments) × (r.remaining_segments < 1000))

empty : (l : List ℕ) → is_empty l ≡ true → l ≡ []
empty [] h = refl
empty (x ∷ l) h = cc

filled : (l : List ℕ) → is_empty l ≡ false → l ≢ []
filled [] h = cc
filled (x ∷ l) h = λ e. cc e

filled_append : (l k : List ℕ) → l ≢ [] → (l ++ k) ≢ []
filled_append [] k h = absurd (h refl)
filled_append (x ∷ l) k h = λ e. cc e

long_filled : (l : List ℕ) → 65526 ≤ length l → l ≢ []
long_filled [] h = absurd (omega arith)
long_filled (x ∷ l) h = λ e. cc e

-- A start leaves a valid reader valid, and is never a panic.
pub process_segment_start-IsValid :
    (r : SegmentReader) (s : SegmentStart)
    → IsValid r
    → IsValid (process_segment_start r s).0 × ((process_segment_start r s).1 ≢ panicked)
unfolding process_segment_start
process_segment_start-IsValid r s h = elim (Bool-cases (is_empty r.cur_data)) [
  | inl fresh ↦ elim (Bool-cases (ltb s.nb_segments 2 || ltb 1000 s.nb_segments)) [
    | inl bad ↦ rw (fresh, bad) (h, λ e. cc e)
    | inr good ↦ elim (Bool-cases (ltb (length s.bytes) 65526)) [
      | inl short ↦ rw (fresh, good, short) (h, λ e. cc e)
      | inr long ↦
          rw (fresh, good, long)
            (inr (long_filled s.bytes (ground arith), ground arith, ground arith), λ e. cc e)
    ]
  ]
  | inr busy ↦ rw busy (h, λ e. cc e)
]

-- A chunk leaves a valid reader valid, and is never a panic.
pub process_segment_chunk-IsValid :
    (r : SegmentReader) (c : SegmentChunk)
    → IsValid r
    → IsValid (process_segment_chunk r c).0 × ((process_segment_chunk r c).1 ≢ panicked)
unfolding process_segment_chunk
process_segment_chunk-IsValid r c h = elim (Bool-cases (is_empty r.cur_data)) [
  | inl fresh ↦ rw fresh (h, λ e. cc e)
  | inr busy ↦ elim (Bool-cases (ltb 1 r.remaining_segments && not (length c.bytes == 65528))) [
    | inl bad ↦ rw (busy, bad) (h, λ e. cc e)
    | inr good ↦ elim (Bool-cases (r.remaining_segments == 0)) [
      | inl none_left ↦ absurd (elim h [
        | inl (fresh, e) ↦ filled r.cur_data busy fresh
        | inr (held, pos, small) ↦ ground arith
      ])
      | inr some_left ↦ elim (Bool-cases (r.remaining_segments == 1)) [
        | inl last ↦ rw (busy, good, some_left, last) (inl (refl, refl), λ e. cc e)
        | inr more ↦
            rw (busy, good, some_left, more)
              (
                inr (
                  filled_append r.cur_data c.bytes (filled r.cur_data busy),
                  ground arith,
                  fewer h,
                ),
                λ e. cc e,
              )
      ]
    ]
  ]
]
  where
    fewer : IsValid r → r.remaining_segments - 1 < 1000
    fewer (inl (fresh, e)) = omega arith
    fewer (inr (held, pos, small)) = omega arith
