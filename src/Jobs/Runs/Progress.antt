-- ===== src/Jobs/Runs/Progress.antt =====
-- What the progress reporter is told by a run of the transcription job.
use ai_kaeyris.Prelude.{
  ℕ, ◌≤◌, ◌≡◌, refl, Option, none, some, List, [], ◌∷◌, ◌++◌, arith, All, Result, ok, err,
}
use ai_kaeyris.Models.{AudioSource, TranscriptionMode, diarised, non_diarised}
use ai_kaeyris.Jobs.Exec.{Exec, JobState, JobError, Phase, done, continue, report}
use ai_kaeyris.Jobs.Adapters.{
  TranscriptionResult, TranscriptionAdapter, build_transcription_adapter_for_user,
  load_session_model_settings,
}
use ai_kaeyris.Jobs.Transcription.{
  TranscriptionFailure, transient_failure, permanent_failure, chunking_failure, percent_of,
  transcribe_with_optional_chunking,
}
use ai_kaeyris.Jobs.Writes.{check_transcribable}
use ai_kaeyris.Jobs.Runs.{
  Worker, first_phase, prepare_audio, report_chunks, settle_transcription, persist, listen_with,
  listen, prepare_if_there, finish, hear_and_finish, run_transcription, transcribe_session,
}

-- A call of the reporter that does not say that the job is complete.
abbrev pub IsPartial : Phase × Option ℕ → Type 0
IsPartial (done, percent) = ⊥
IsPartial (phase, none) = Unit
IsPartial (phase, some percent) = percent ≤ 99

All-append :
    (xs ys : List (Phase × Option ℕ))
    → All IsPartial xs
    → All IsPartial ys
    → All IsPartial (xs ++ ys)
All-append [] ys h k = k
All-append (x ∷ xs) ys h k = (h.0, All-append xs ys h.1 k)

percent_of-le : (n total : ℕ) → percent_of n total ≤ 99
unfolding percent_of
percent_of-le n total = ground arith

-- The calls so far are partial, however the action ends.
abbrev Partial : {A : Type 0} → Result JobError A × JobState → Type 0
Partial r = All IsPartial r.1.progress

Partial-bind :
    {A B : Type 0} (f : A → Exec B) (r : Result JobError A × JobState)
    → Partial r
    → ((a : A) (s : JobState) → All IsPartial s.progress → Partial (f a s))
    → Partial (continue r.0 f r.1)
Partial-bind f (ok a, s) h k = k a s h
Partial-bind f (err e, s) h k = h

-- Partial calls, and after a success one that says that the job is complete.
abbrev pub IsComplete : {A : Type 0} → Result JobError A × JobState → Type 0
IsComplete (ok a, s) =
    (calls : List (Phase × Option ℕ)) × (s.progress ≡ calls ++ (done, some 100) ∷ [])
    × All IsPartial calls
IsComplete (err e, s) = All IsPartial s.progress

IsComplete-bind :
    {A B : Type 0} (f : A → Exec B) (r : Result JobError A × JobState)
    → Partial r
    → ((a : A) (s : JobState) → All IsPartial s.progress → IsComplete (f a s))
    → IsComplete (continue r.0 f r.1)
IsComplete-bind f (ok a, s) h k = k a s h
IsComplete-bind f (err e, s) h k = h

module _ (w : Worker) (sid : ℕ) where
  prepare_if_there-Partial :
      (audio : AudioSource) (s : JobState)
      → All IsPartial s.progress
      → Partial (prepare_if_there w sid audio s)
  unfolding prepare_if_there prepare_audio
  prepare_if_there-Partial audio s h = ground arith

  report_chunks-Partial :
      (total : Option ℕ) (ns : List ℕ) (s : JobState)
      → All IsPartial s.progress
      → Partial (report_chunks w sid total ns s)
  unfolding report_chunks
  report_chunks-Partial total [] s h = h
  report_chunks-Partial none (n ∷ ns) s h = h
  report_chunks-Partial (some total) (n ∷ ns) s h =
      report_chunks-Partial (some total) ns _
        (All-append s.progress _ h (percent_of-le n total, tt))

  settle_transcription-Partial :
      (r : Result TranscriptionFailure TranscriptionResult) (s : JobState)
      → All IsPartial s.progress
      → Partial (settle_transcription w sid r s)
  unfolding settle_transcription
  settle_transcription-Partial (ok r) s h = h
  settle_transcription-Partial (err transient_failure) s h = All-append s.progress _ h (tt, tt)
  settle_transcription-Partial (err permanent_failure) s h = All-append s.progress _ h (tt, tt)
  settle_transcription-Partial (err chunking_failure) s h = All-append s.progress _ h (tt, tt)

  first_phase-IsPartial : (d : ℕ) → IsPartial (first_phase w sid d, some 0)
  first_phase-IsPartial d = ground arith

  listen_with-Partial :
      (adapter : TranscriptionAdapter) (s : JobState)
      → All IsPartial s.progress
      → Partial (listen_with w sid adapter s)
  unfolding listen_with
  listen_with-Partial adapter s h =
      let heard = transcribe_with_optional_chunking adapter w.chunk_duration w.chunk_files in
      Partial-bind (λ (_ : Unit {0}). settle_transcription w sid heard.0)
        (report_chunks w sid w.chunk_files heard.1 _)
        (report_chunks-Partial w.chunk_files heard.1 _
          (All-append s.progress _ h (first_phase-IsPartial w.chunk_duration, tt)))
        λ _ s' k. settle_transcription-Partial heard.0 s' k

  listen-Partial : (s : JobState) → All IsPartial s.progress → Partial (listen w sid s)
  unfolding listen
  listen-Partial s h =
      Partial-bind (listen_with w sid)
        (build_transcription_adapter_for_user w.factories (load_session_model_settings sid s.db), s)
        h λ adapter s' k. listen_with-Partial adapter s' k

  persist-Partial :
      (mode : TranscriptionMode) (r : TranscriptionResult) (s : JobState)
      → All IsPartial s.progress
      → Partial (persist w sid mode r s)
  unfolding persist
  persist-Partial non_diarised r s h = ground arith
  persist-Partial diarised r s h = ground arith

  finish-IsComplete :
      (mode : TranscriptionMode) (r : TranscriptionResult) (s : JobState)
      → All IsPartial s.progress
      → IsComplete (finish w sid mode r s)
  unfolding finish
  finish-IsComplete mode r s h =
      IsComplete-bind (λ (_ : Unit {0}). report done (some 100)) (persist w sid mode r s)
        (persist-Partial mode r s h) λ _ s' k. (s'.progress, refl, k)

  hear_and_finish-IsComplete :
      (mode : TranscriptionMode) (s : JobState)
      → All IsPartial s.progress
      → IsComplete (hear_and_finish w sid mode s)
  unfolding hear_and_finish
  hear_and_finish-IsComplete mode s h =
      IsComplete-bind (finish w sid mode) (listen w sid s) (listen-Partial s h)
        λ r s' k. finish-IsComplete mode r s' k

  run_transcription-IsComplete :
      (audio : AudioSource) (mode : TranscriptionMode) (s : JobState)
      → All IsPartial s.progress
      → IsComplete (run_transcription w sid (audio, mode) s)
  unfolding run_transcription
  run_transcription-IsComplete audio mode s h =
      IsComplete-bind (λ (_ : Unit {0}). hear_and_finish w sid mode)
        (prepare_if_there w sid audio _) (prepare_if_there-Partial audio _ h)
        λ _ s' k. hear_and_finish-IsComplete mode s' k

-- When the reporter was told of no completed job before: a run of the transcription job that fails
-- never reports the phase `done` or a percentage above 99; one that succeeds reports `done` with
-- 100 percent as its last call, and nothing such before it.
pub transcribe_session-IsComplete :
    (w : Worker) (sid : ℕ) (s : JobState)
    → All IsPartial s.progress
    → IsComplete (transcribe_session w sid s)
unfolding transcribe_session
transcribe_session-IsComplete w sid s h =
    IsComplete-bind (run_transcription w sid) (check_transcribable sid s.db, s) h
      λ checked s' k. run_transcription-IsComplete w sid checked.0 checked.1 s' k
