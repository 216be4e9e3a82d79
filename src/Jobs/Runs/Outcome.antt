-- ===== src/Jobs/Runs/Outcome.antt =====
-- What a run of the transcription job leaves behind, on every branch.
use ai_kaeyris.Prelude.{
  ℕ, ◌≡◌, refl, ap, Option, none, some, List, [], ◌∷◌, select, arith, All, Result, ok, err,
  Result-cases, inl, inr,
}
use ai_kaeyris.Text.{Text, codes}
use ai_kaeyris.Table.{update_where}
use ai_kaeyris.Models.{
  Db, Session, SessionState, AudioSource, AudioPath, raw, prepared, TranscriptionMode, diarised,
  non_diarised, transcribing, transcribed, transcription_failed, audio_uploaded,
}
use ai_kaeyris.Repositories.{session_is, update_state, update_audio_source_file, bulk_create_chunks}
use ai_kaeyris.Jobs.Exec.{
  Exec, JobState, JobError, Reason, transient, permanent, unexpected, done, continue, commit_or,
  report, session_not_found, no_audio_source, audio_purged, local_settings_missing,
}
use ai_kaeyris.Jobs.Adapters.{
  TranscriptionResult, TranscriptionAdapter, build_transcription_adapter_for_user,
  load_session_model_settings,
}
use ai_kaeyris.Jobs.Transcription.{
  TranscriptionFailure, transient_failure, permanent_failure, chunking_failure, full_text,
  transcribe_with_optional_chunking,
}
use ai_kaeyris.Jobs.Generation.{chunked}
use ai_kaeyris.Jobs.Writes.{
  check_transcribable, mark_session_failed, transcribed_after, persist_chunks,
  persist_transcription,
}
use ai_kaeyris.Jobs.Runs.{
  Worker, fail_with, prepare_audio, report_chunks, settle_transcription, persist, listen_with,
  listen, prepare_if_there, finish, hear_and_finish, run_transcription, transcribe_session,
}

-- The row of the session, if there is one, is in the state.
abbrev pub HasState : SessionState → ℕ → Db → Type 0
HasState st sid db = All (λ (r : Session). r.state ≡ st) (select (session_is sid) db.sessions)

HasState-update_where :
    (st : SessionState) (sid : ℕ) (rows : List Session)
    → All
        (λ (r : Session). r.state ≡ st)
        (select
          (session_is sid)
          (update_where (session_is sid) (λ r. record r { state = st }) rows))
unfolding update_where
HasState-update_where st sid [] = tt
HasState-update_where st sid (r ∷ rows) = ground (arith, HasState-update_where st sid rows)

pub update_state-HasState :
    (st : SessionState) (sid : ℕ) (db : Db) → HasState st sid (update_state sid st db)
unfolding update_state
update_state-HasState st sid db = HasState-update_where st sid db.sessions

pub mark_session_failed-HasState :
    (sid : ℕ) (reason : Option Text) (db : Db)
    → HasState transcription_failed sid (mark_session_failed sid reason db)
unfolding mark_session_failed
mark_session_failed-HasState sid reason db =
    ground (arith, update_state-HasState transcription_failed sid db)

transcribed_after-HasState :
    (sid : ℕ) (o : Option Db) {db' : Db}
    → transcribed_after sid o ≡ some db'
    → HasState transcribed sid db'
transcribed_after-HasState sid none e = cc
transcribed_after-HasState sid (some db) e =
    ground (arith, update_state-HasState transcribed sid db)

-- The sessions as the first wait leaves them, with the session set to `transcribing` before it.
abbrev pub set_transcribing : Worker → Db → ℕ → List Session
set_transcribing w before sid = (w.world 0 (update_state sid transcribing before)).sessions

-- The sessions are as the second wait left them, and those that it found were `set_transcribing`.
abbrev pub IsLeft : Worker → Db → ℕ → Db → Type 0
IsLeft w before sid after =
    (d : Db) × (d.sessions ≡ set_transcribing w before sid)
    × (after.sessions ≡ (w.world 1 d).sessions)

-- What each way to fail promises of the database. On a missing setting of the owner, and on an
-- unexpected exception, the job never writes a session again after it has set it to `transcribing`.
abbrev pub AfterFailure : Worker → Db → ℕ → Reason → Db → Type 0
AfterFailure w before sid session_not_found after = after ≡ before
AfterFailure w before sid no_audio_source after = after ≡ before
AfterFailure w before sid audio_purged after = after ≡ before
AfterFailure w before sid local_settings_missing after =
    after.sessions ≡ set_transcribing w before sid
AfterFailure w before sid _ after = HasState transcription_failed sid after

abbrev pub AfterError : Worker → Db → ℕ → JobError → Db → Type 0
AfterError w before sid transient after = HasState audio_uploaded sid after
AfterError w before sid unexpected after = IsLeft w before sid after
AfterError w before sid (permanent reason) after = AfterFailure w before sid reason after

-- A postcondition for each way in which an action ends.
abbrev pub Ends :
    {A : Type 0}
    → (A → Db → Type 0)
    → (JobError → Db → Type 0)
    → Result JobError A × JobState
    → Type 0
Ends Q P (ok a, s) = Q a s.db
Ends Q P (err e, s) = P e s.db

Ends-bind :
    {A B : Type 0} (Q : A → Db → Type 0) (R : B → Db → Type 0) (P : JobError → Db → Type 0)
    (f : A → Exec B) (r : Result JobError A × JobState)
    → Ends Q P r
    → ((a : A) (s : JobState) → Q a s.db → Ends R P (f a s))
    → Ends R P (continue r.0 f r.1)
Ends-bind Q R P f (ok a, s) h k = k a s h
Ends-bind Q R P f (err e, s) h k = h

module _ (w : Worker) (sid : ℕ) (before : Db) where
  abbrev P : JobError → Db → Type 0
  P = AfterError w before sid

  -- No session was written since the first wait, or since the second one.
  abbrev Kept : {A : Type 0} → A → Db → Type 0
  Kept a db = db.sessions ≡ set_transcribing w before sid

  abbrev Left : {A : Type 0} → A → Db → Type 0
  Left a db = IsLeft w before sid db

  prepare_audio-Ends :
      (audio : AudioSource) (path : AudioPath) (s : JobState)
      → s.db.sessions ≡ set_transcribing w before sid
      → Ends Kept P (prepare_audio w sid audio path s)
  unfolding prepare_audio update_audio_source_file
  prepare_audio-Ends audio (prepared k) s h = h
  prepare_audio-Ends audio (raw k) s h = ground (
    arith,
    mark_session_failed-HasState sid (some (codes "Audio reduce failed")) s.db,
    mark_session_failed-HasState sid (some (codes "Audio source row missing after preparation."))
        s.db,
  )

  settle_transcription-Ends :
      (r : Result TranscriptionFailure TranscriptionResult) (s : JobState)
      → IsLeft w before sid s.db
      → Ends Left P (settle_transcription w sid r s)
  unfolding settle_transcription
  settle_transcription-Ends (ok r) s h = h
  settle_transcription-Ends (err transient_failure) s h =
      update_state-HasState audio_uploaded sid s.db
  settle_transcription-Ends (err permanent_failure) s h = mark_session_failed-HasState sid none s.db
  settle_transcription-Ends (err chunking_failure) s h = mark_session_failed-HasState sid none s.db

  report_chunks-Ends :
      (total : Option ℕ) (ns : List ℕ) (s : JobState)
      → IsLeft w before sid s.db
      → Ends Left P (report_chunks w sid total ns s)
  unfolding report_chunks
  report_chunks-Ends total [] s h = h
  report_chunks-Ends none (n ∷ ns) s h = h
  report_chunks-Ends (some total) (n ∷ ns) s h = report_chunks-Ends (some total) ns _ h

  -- The only error of the choice of an adapter is a missing setting.
  adapter-Ends :
      (s : JobState)
      → s.db.sessions ≡ set_transcribing w before sid
      → Ends Kept P (
        build_transcription_adapter_for_user w.factories (load_session_model_settings sid s.db),
        s,
      )
  unfolding build_transcription_adapter_for_user
  adapter-Ends s h = ground arith

  listen_with-Ends :
      (adapter : TranscriptionAdapter) (s : JobState)
      → s.db.sessions ≡ set_transcribing w before sid
      → Ends Left P (listen_with w sid adapter s)
  unfolding listen_with
  listen_with-Ends adapter s h =
      let heard = transcribe_with_optional_chunking adapter w.chunk_duration w.chunk_files in
      Ends-bind Left Left P (λ (_ : Unit {0}). settle_transcription w sid heard.0)
        (report_chunks w sid w.chunk_files heard.1 _)
        (report_chunks-Ends w.chunk_files heard.1 _ (s.db, h, refl))
        λ _ s' k. settle_transcription-Ends heard.0 s' k

  listen-Ends :
      (s : JobState) → s.db.sessions ≡ set_transcribing w before sid → Ends Left P (listen w sid s)
  unfolding listen
  listen-Ends s h =
      Ends-bind Kept Left P (listen_with w sid)
        (build_transcription_adapter_for_user w.factories (load_session_model_settings sid s.db), s)
        (adapter-Ends s h) λ adapter s' k. listen_with-Ends adapter s' k

  prepare_if_there-Ends :
      (audio : AudioSource) (s : JobState)
      → s.db.sessions ≡ set_transcribing w before sid
      → Ends Kept P (prepare_if_there w sid audio s)
  unfolding prepare_if_there fail_with
  prepare_if_there-Ends audio s h =
      ground
        (arith, prepare_audio-Ends audio audio.path s h, mark_session_failed-HasState sid none s.db)

  abbrev Written : Unit {0} → Db → Type 0
  Written u after = HasState transcribed sid after

  commit_transcribed-Ends :
      (o : Option Db) (s : JobState)
      → IsLeft w before sid s.db
      → Ends Written P (commit_or unexpected (λ db. transcribed_after sid o) s)
  commit_transcribed-Ends none s h = h
  commit_transcribed-Ends (some db) s h = update_state-HasState transcribed sid db

  persist-Ends :
      (mode : TranscriptionMode) (r : TranscriptionResult) (s : JobState)
      → IsLeft w before sid s.db
      → Ends Written P (persist w sid mode r s)
  unfolding persist persist_chunks persist_transcription
  persist-Ends non_diarised r s h =
      elim (Result-cases (chunked (full_text r.segments) w.chunk_max_chars)) [
        | inl (texts, e) ↦
            ground
              (arith, e, commit_transcribed-Ends (bulk_create_chunks w.fresh sid texts s.db) s h)
        | inr (x, e) ↦ ground (arith, e)
      ]
  persist-Ends diarised r s h = commit_transcribed-Ends _ s h

  finish-Ends :
      (mode : TranscriptionMode) (r : TranscriptionResult) (s : JobState)
      → IsLeft w before sid s.db
      → Ends Written P (finish w sid mode r s)
  unfolding finish
  finish-Ends mode r s h =
      Ends-bind Written Written P (λ (_ : Unit {0}). report done (some 100))
        (persist w sid mode r s) (persist-Ends mode r s h) λ _ s' k. k

  hear_and_finish-Ends :
      (mode : TranscriptionMode) (s : JobState)
      → s.db.sessions ≡ set_transcribing w before sid
      → Ends Written P (hear_and_finish w sid mode s)
  unfolding hear_and_finish
  hear_and_finish-Ends mode s h =
      Ends-bind Left Written P (finish w sid mode) (listen w sid s) (listen-Ends s h)
        λ r s' k. finish-Ends mode r s' k

  run_transcription-Ends :
      (audio : AudioSource) (mode : TranscriptionMode) (s : JobState)
      → s.db ≡ before
      → Ends Written P (run_transcription w sid (audio, mode) s)
  unfolding run_transcription
  run_transcription-Ends audio mode s h =
      Ends-bind Kept Written P (λ (_ : Unit {0}). hear_and_finish w sid mode)
        (prepare_if_there w sid audio _)
        (prepare_if_there-Ends audio _
          (ap (λ d. (w.world 0 (update_state sid transcribing d)).sessions) h))
        λ _ s' k. hear_and_finish-Ends mode s' k

-- An error of the check before the start, at which nothing was done.
abbrev Unstarted : Worker → Db → ℕ → Result JobError (AudioSource × TranscriptionMode) → Type 0
Unstarted w db sid (ok a) = Unit
Unstarted w db sid (err e) = AfterError w db sid e db

check_transcribable-Unstarted :
    (w : Worker) (sid : ℕ) (db : Db) → Unstarted w db sid (check_transcribable sid db)
unfolding check_transcribable
check_transcribable-Unstarted w sid db = ground arith

start-Ends :
    (w : Worker) (sid : ℕ) (s : JobState) (r : Result JobError (AudioSource × TranscriptionMode))
    → Unstarted w s.db sid r
    → Ends
        (λ (u : Unit {0}) after. HasState transcribed sid after)
        (AfterError w s.db sid)
        (continue r (run_transcription w sid) s)
start-Ends w sid s (ok (audio, mode)) h = run_transcription-Ends w sid s.db audio mode s refl
start-Ends w sid s (err e) h = h

-- However the rest of the system interferes while the transcription job waits: when the job
-- succeeds the session, if it still exists, is `transcribed`; on a transient error it is back in
-- `audio_uploaded`; on a permanent error of ffmpeg, of the file or of the adapter it is
-- `transcription_failed`; on one of the three errors of the first check the database is unchanged. On
-- missing local settings and on an unexpected exception no session is written by the job any more once
-- it has set this one to `transcribing`: the sessions are as the rest of the system left them in the
-- last wait.
pub transcribe_session-Ends :
    (w : Worker) (sid : ℕ) (s : JobState)
    → Ends
        (λ (u : Unit {0}) after. HasState transcribed sid after)
        (AfterError w s.db sid)
        (transcribe_session w sid s)
unfolding transcribe_session
transcribe_session-Ends w sid s =
    start-Ends w sid s (check_transcribable sid s.db) (check_transcribable-Unstarted w sid s.db)
