-- ===== src/Jobs/Writes.antt =====
-- The transactions by which the jobs write (app/jobs/jdr.py).
use ai_kaeyris.Prelude.{
  ℕ, ◌&&◌, ◌||◌, not, Option, none, some, List, [], ◌∷◌, is_some, ◌==◌, Result, ok, guard,
  require_some, ◌>>=◌, ◌>>◌,
}
use ai_kaeyris.Text.{Text}
use ai_kaeyris.Table.{update_where, delete_where}
use ai_kaeyris.Models.{
  Db, Session, AudioSource, TranscriptionMode, ArtifactKind, pov, Content, JobStatus, transcribed,
  transcription_failed, kind_eq,
}
use ai_kaeyris.Repositories.{
  get_session, get_audio_source, job_is, update_state, upsert_artifact, upsert_transcription,
  bulk_create_chunks, reset_summary_texts, update_summary_text, invalidate_pov_artifacts,
}
use ai_kaeyris.Jobs.Exec.{JobError, permanent, session_not_found, no_audio_source, audio_purged}
use ai_kaeyris.Jobs.Adapters.{TranscriptionResult}
use ai_kaeyris.Jobs.Generation.{SummaryInput}

-- The points of view, in one transaction.
unfoldable pub upsert_povs : ℕ → ℕ → Text → List (ℕ × Text) → Db → Option Db
upsert_povs now sid model [] db = some db
upsert_povs now sid model ((pj, text) ∷ results) db =
    elim (upsert_artifact now sid (pov pj) (Content.text text) model db) [
      | none ↦ none
      | some db' ↦ upsert_povs now sid model results db'
    ]

-- `zip(chunk_data, partial_summaries)`: each partial goes to its chunk, if it has one.
write_partial : Option ℕ → Text → Db → Db
write_partial none partial db = db
write_partial (some chunk) partial db = update_summary_text chunk partial db

unfoldable pub write_partials : List SummaryInput → List Text → Db → Db
unfolding write_partial
write_partials [] partials db = db
write_partials ((chunk, text) ∷ inputs) [] db = db
write_partials ((chunk, text) ∷ inputs) (partial ∷ partials) db =
    write_partials inputs partials (write_partial chunk partial db)

unfoldable pub delete_narrative_and_elements : ℕ → Db → Db
delete_narrative_and_elements sid db = record db {
  artifacts =
      delete_where
        (λ r.
          r.session_id == sid
          && (kind_eq r.kind ArtifactKind.narrative || kind_eq r.kind ArtifactKind.elements))
        db.artifacts;
}

-- Step 3 of _generate_summary: the atomic swap.
unfoldable pub swap_summary : ℕ → ℕ → Text → List SummaryInput → List Text → Text → Db → Option Db
unfolding write_partials delete_narrative_and_elements
swap_summary now sid model inputs partials final db =
    upsert_artifact now sid ArtifactKind.summary (Content.text final) model (
      invalidate_pov_artifacts sid (
        delete_narrative_and_elements sid
          (write_partials inputs partials (reset_summary_texts sid db))))

-- Step 1 of _transcribe_session.
unfoldable pub check_transcribable : ℕ → Db → Result JobError (AudioSource × TranscriptionMode)
check_transcribable sid db = do
  s ← require_some (get_session sid db) (permanent session_not_found)
  audio ← require_some (get_audio_source sid db) (permanent no_audio_source)
  guard (not (is_some audio.purged_at)) (permanent audio_purged)
  ok (audio, s.transcription_mode)

-- _mark_session_failed
fail_job_row : Option Text → Option ℕ → Db → Db
fail_job_row reason none db = db
fail_job_row reason (some jid) db = record db {
  jobs =
      update_where (job_is jid)
        (λ r. record r { status = JobStatus.failed; failure_reason = reason }) db.jobs;
}

abbrev current_job_of : Option Session → Option ℕ
current_job_of none = none
current_job_of (some s) = s.current_job_id

unfoldable pub mark_session_failed : ℕ → Option Text → Db → Db
unfolding fail_job_row
mark_session_failed sid reason db =
    fail_job_row reason (current_job_of (get_session sid db))
      (update_state sid transcription_failed db)

-- Step 3 of _transcribe_session, which forks on the mode; the state moves in the same commit.
abbrev pub transcribed_after : ℕ → Option Db → Option Db
transcribed_after sid none = none
transcribed_after sid (some db) = some (update_state sid transcribed db)

unfoldable pub persist_chunks : (ℕ → ℕ) → ℕ → List Text → Db → Option Db
persist_chunks fresh sid texts db = transcribed_after sid (bulk_create_chunks fresh sid texts db)

unfoldable pub persist_transcription : ℕ → ℕ → TranscriptionResult → Db → Option Db
persist_transcription now sid r db = transcribed_after sid (
    upsert_transcription
      (record {
        session_id = sid;
        segments = r.segments;
        language = r.language;
        model_used = r.model_used;
        provider = r.provider;
        completed_at = now;
      })
      db)
