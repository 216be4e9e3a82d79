-- ===== src/Jobs/Transcription.antt =====
-- The call of the transcription adapter, chunk by chunk (app/jobs/jdr.py, app/services/jdr/audio.py).
use ai_kaeyris.Prelude.{
  ℕ, zero, suc, ◌+◌, ◌*◌, ◌/◌, ◌%◌, min, Option, none, some, List, [], ◌∷◌, ◌++◌, map, is_empty,
  ltb, ◌==◌, if◌then◌else◌, Result, ok, err,
}
use ai_kaeyris.Text.{Text, strip}
use ai_kaeyris.Models.{Segment}
use ai_kaeyris.Jobs.Adapters.{TranscriptionAdapter, TranscriptionResult, TranscriptionReply, heard}
use ai_kaeyris.Jobs.Source.{join}

-- What the call may raise: the two errors of the adapter, and `AudioChunkingError`.
pub data TranscriptionFailure : Type 0 where
  transient_failure permanent_failure chunking_failure : TranscriptionFailure

-- The segment at its place in the whole recording.
unfoldable pub shift_segment : ℕ → Segment → Segment
shift_segment offset s = record s {
  start_time = s.start_time + offset;
  end_time = s.end_time + offset;
}

-- `value or previous`
abbrev keep_last : Text → Text → Text
keep_last [] previous = previous
keep_last (c ∷ s) previous = c ∷ s

unfoldable pub stitch : ℕ → TranscriptionResult → TranscriptionResult → TranscriptionResult
unfolding shift_segment
stitch offset acc r = record {
  segments = acc.segments ++ map (shift_segment offset) r.segments;
  language = keep_last r.language acc.language;
  model_used = keep_last r.model_used acc.model_used;
  provider = keep_last r.provider acc.provider;
}

-- The loop over the chunks: `i` is the number of the next one and `left` how many are left;
-- `duration` is the length of a chunk, in the unit of the segments' times. The
-- second part lists the calls of `on_progress`: the chunks done at each.
unfoldable pub transcribe_chunks :
    TranscriptionAdapter
    → ℕ
    → ℕ
    → ℕ
    → TranscriptionResult
    → Result TranscriptionFailure TranscriptionResult × List ℕ
unfolding stitch
transcribe_chunks a duration i zero acc = (ok acc, [])
transcribe_chunks a duration i (suc left) acc = elim (a.transcribe i) [
  | heard r ↦
      let (result, calls) =
        transcribe_chunks a duration (suc i) left (stitch (i * duration) acc r) in
      (result, suc i ∷ calls)
  | TranscriptionReply.transient_error ↦ (err transient_failure, [])
  | TranscriptionReply.permanent_error ↦ (err permanent_failure, [])
]

abbrev pub nothing_heard : TranscriptionResult
nothing_heard = record { segments = []; language = []; model_used = []; provider = [] }

abbrev single_shot : TranscriptionReply → Result TranscriptionFailure TranscriptionResult
single_shot (heard r) = ok r
single_shot TranscriptionReply.transient_error = err transient_failure
single_shot TranscriptionReply.permanent_error = err permanent_failure

-- `chunks` is the number of files that ffmpeg makes, or `none` when it fails.
abbrev over_chunks :
    TranscriptionAdapter → ℕ → Option ℕ → Result TranscriptionFailure TranscriptionResult × List ℕ
over_chunks a duration none = (err chunking_failure, [])
over_chunks a duration (some zero) = (err chunking_failure, [])
over_chunks a duration (some (suc n)) = transcribe_chunks a duration 0 (suc n) nothing_heard

unfoldable pub transcribe_with_optional_chunking :
    TranscriptionAdapter → ℕ → Option ℕ → Result TranscriptionFailure TranscriptionResult × List ℕ
unfolding transcribe_chunks
transcribe_with_optional_chunking a zero chunks = (single_shot (a.transcribe 0), [])
transcribe_with_optional_chunking a (suc d) chunks = over_chunks a (suc d) chunks

-- `round` of the exact quotient, halves to even.
abbrev round_div : ℕ → ℕ → ℕ
round_div a b =
    if ltb (a % b * 2) b
    then a / b
    else if ltb b (a % b * 2)
    then a / b + 1
    else if a / b % 2 == 0
    then a / b
    else a / b + 1

-- `_on_chunk`: 100 is left to the end of the job.
unfoldable pub percent_of : ℕ → ℕ → ℕ
percent_of chunks_done chunks_total = min 99 (round_div (chunks_done * 100) chunks_total)

-- The text of all segments, in order.
abbrev spoken : List Segment → List Text
spoken [] = []
spoken (s ∷ ss) =
    let rest = spoken ss in if is_empty (strip s.text) then rest else strip s.text ∷ rest

unfoldable pub full_text : List Segment → Text
full_text segments = join (32 ∷ []) (spoken segments)
