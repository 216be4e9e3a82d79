-- ===== src/Jobs/Stitching.antt =====
-- The timeline of a recording that is transcribed in chunks.
use ai_kaeyris.Prelude.{
  ℕ, zero, suc, ◌+◌, ◌*◌, ◌≤◌, ◌≡◌, refl, sym, ap, ◌∙◌, some, List, [], ◌∷◌, ◌++◌, map, arith,
  subst, ◌⊎◌, inl, inr, Result, ok, err,
}
use ai_kaeyris.Models.{Segment}
use ai_kaeyris.Jobs.Adapters.{TranscriptionAdapter, TranscriptionResult, TranscriptionReply, heard}
use ai_kaeyris.Jobs.Transcription.{
  TranscriptionFailure, shift_segment, stitch, transcribe_chunks, nothing_heard,
  transcribe_with_optional_chunking,
}

-- The segments lie between two instants, each ends after it starts, and they start in order.
abbrev pub InOrder : ℕ → ℕ → List Segment → Type 0
InOrder lo hi [] = lo ≤ hi
InOrder lo hi (s ∷ ss) =
    (lo ≤ s.start_time)
    × (s.start_time ≤ s.end_time)
    × (s.end_time ≤ hi)
    × InOrder s.start_time hi ss

InOrder-le : (lo hi : ℕ) (ss : List Segment) → InOrder lo hi ss → lo ≤ hi
InOrder-le lo hi [] h = h
InOrder-le lo hi (s ∷ ss) h = omega (arith, h.0, h.1, h.2)

InOrder-shift :
    (offset lo hi : ℕ) (ss : List Segment)
    → InOrder lo hi ss
    → InOrder (lo + offset) (hi + offset) (map (shift_segment offset) ss)
unfolding shift_segment
InOrder-shift offset lo hi [] h = omega (arith, h)
InOrder-shift offset lo hi (s ∷ ss) (a, b, c, d) =
    (omega arith, omega arith, omega arith, InOrder-shift offset s.start_time hi ss d)

InOrder-append :
    (lo mid mid' hi : ℕ) (xs ys : List Segment)
    → mid ≤ mid'
    → InOrder lo mid xs
    → InOrder mid' hi ys
    → InOrder lo hi (xs ++ ys)
InOrder-append lo mid mid' hi [] [] le h k = omega arith
InOrder-append lo mid mid' hi [] (y ∷ ys) le h (a, b, c, d) = (omega arith, b, c, d)
InOrder-append lo mid mid' hi (x ∷ xs) ys le (a, b, c, d) k = (
  a,
  b,
  omega (arith, InOrder-le mid' hi ys k),
  InOrder-append x.start_time mid mid' hi xs ys le d k,
)

-- What an adapter hears in a chunk lies within the chunk.
abbrev pub HeardInside : ℕ → TranscriptionReply → Type 0
HeardInside duration (heard r) = InOrder 0 duration r.segments
HeardInside duration TranscriptionReply.transient_error = Unit
HeardInside duration TranscriptionReply.permanent_error = Unit

-- What the chunk adds to the timeline.
stitch-InOrder :
    (offset duration end : ℕ) (acc r : TranscriptionResult)
    → end ≡ duration + offset
    → InOrder 0 offset acc.segments
    → InOrder 0 duration r.segments
    → InOrder 0 end (stitch offset acc r).segments
unfolding stitch
stitch-InOrder offset duration end acc r e h k =
    subst (λ x. InOrder 0 x (acc.segments ++ map (shift_segment offset) r.segments)) (sym e)
      (InOrder-append 0 offset (0 + offset) (duration + offset) acc.segments _ (omega arith) h
        (InOrder-shift offset 0 duration r.segments k))

-- A success is a timeline, and a failure promises nothing.
abbrev pub Timeline : ℕ → Result TranscriptionFailure TranscriptionResult → Type 0
Timeline end (ok r) = InOrder 0 end r.segments
Timeline end (err e) = Unit

reply-cases :
    (r : TranscriptionReply)
    → ((x : TranscriptionResult) × (r ≡ heard x))
      ⊎ (r ≡ TranscriptionReply.transient_error)
      ⊎ (r ≡ TranscriptionReply.permanent_error)
reply-cases (heard x) = inl (x, refl)
reply-cases TranscriptionReply.transient_error = inr (inl refl)
reply-cases TranscriptionReply.permanent_error = inr (inr refl)

transcribe_chunks-Timeline :
    (a : TranscriptionAdapter) (duration i left end : ℕ) (acc : TranscriptionResult)
    → ((k : ℕ) → HeardInside duration (a.transcribe k))
    → end ≡ (i + left) * duration
    → InOrder 0 (i * duration) acc.segments
    → Timeline end (transcribe_chunks a duration i left acc).0
unfolding transcribe_chunks
transcribe_chunks-Timeline a duration i zero end acc h e k =
    subst (λ x. InOrder 0 x acc.segments) (ap (λ x. x * duration) (omega arith) ∙ sym e) k
transcribe_chunks-Timeline a duration i (suc left) end acc h e k =
    elim (reply-cases (a.transcribe i)) [
      | inl (r, reply) ↦ ground (
        arith,
        reply,
        transcribe_chunks-Timeline a duration (suc i) left end (stitch (i * duration) acc r) h
            (e ∙ ap (λ x. x * duration) (omega arith))
            (stitch-InOrder (i * duration) duration (suc i * duration) acc r (omega arith) k
              (subst (HeardInside duration) reply (h i))),
      )
      | inr (inl reply) ↦ ground (arith, reply)
      | inr (inr reply) ↦ ground (arith, reply)
    ]

-- When the segments of each chunk lie within the chunk and start in order, so do the segments of
-- the whole recording, between 0 and the end of its last chunk, if the transcription succeeds.
pub transcribe_with_optional_chunking-Timeline :
    (a : TranscriptionAdapter) (duration chunks : ℕ)
    → ((k : ℕ) → HeardInside (suc duration) (a.transcribe k))
    → Timeline
        (chunks * suc duration)
        (transcribe_with_optional_chunking a (suc duration) (some chunks)).0
unfolding transcribe_with_optional_chunking
transcribe_with_optional_chunking-Timeline a duration zero h = tt
transcribe_with_optional_chunking-Timeline a duration (suc n) h =
    transcribe_chunks-Timeline a (suc duration) 0 (suc n) _ nothing_heard h
      (ap (λ x. x * suc duration) (omega arith)) (omega arith)
