-- ===== src/Sessions/Lifecycle.antt =====
-- Recovery, restart and purge, against the specification of the life of a session.
use ai_kaeyris.Prelude.{ℕ, ◌≡◌, refl, Option, none, some, arith, Result, ok, err}
use ai_kaeyris.Text.{Text}
use ai_kaeyris.Table.{apply_first}
use ai_kaeyris.Models.{
  Db, Session, created, audio_uploaded, transcription_failed, JobKind, JobStatus,
}
use ai_kaeyris.Repositories.{
  get_audio_source, update_state, set_current_job_id, set_edited_transcript, delete_artifacts,
  delete_chunks, delete_transcription,
}
use ai_kaeyris.Repositories.Slice.{
  slice, on_row, slice_laws, audio-slice, slice-upsert_status, slice-mark_audio_purged,
  slice-update_state, slice-set_current_job_id, slice-set_edited_transcript, slice-delete_artifacts,
  slice-delete_chunks, slice-delete_transcription,
}
use ai_kaeyris.Sessions.Spec
use ai_kaeyris.Sessions.{
  RqStatus, worker_lost, enqueue_session_job, delete_transcription_outputs, fail_current_job,
  has_active_job, purge_row, recover_stuck_transcription, restart_transcription_for_session,
  purge_audio_for_session,
}

abbrev pub map_ok : {E A B : Type 0} → (A → B) → Result E A → Result E B
map_ok f (ok a) = ok (f a)
map_ok f (err e) = err e

-- Two changes of the row are one.
apply_first-apply_first :
    {A : Type 0} (f g : A → A) (o : Option A)
    → apply_first f (apply_first g o) ≡ apply_first (λ a. f (g a)) o
apply_first-apply_first f g none = refl
apply_first-apply_first f g (some a) = refl

slice-restarted :
    (now jid sid : ℕ) (db : Db)
    → slice sid (
        enqueue_session_job now jid sid JobKind.transcription
          (update_state sid audio_uploaded (delete_transcription_outputs sid db)))
      ≡ Spec.restarted jid (slice sid db)
unfolding enqueue_session_job delete_transcription_outputs
slice-restarted now jid sid db = simp (slice_laws, apply_first-apply_first)

-- The restart of a transcription refines `Spec.restart`: from a session that has failed or is
-- transcribed and whose audio is still there, the session becomes `audio_uploaded` with the new
-- job, and its transcription, chunks, mapping, artifacts and edit are gone, while its audio and
-- players stay; in any other case the error says which guard refused.
pub restart-refines :
    (now jid : ℕ) (session : Session) (db : Db)
    → map_ok (slice session.id) (restart_transcription_for_session now jid session db)
      ≡ Spec.restart jid session.state (slice session.id db)
unfolding restart_transcription_for_session
restart-refines now jid session db =
    ground (arith, slice-restarted now jid session.id db, audio-slice session.id db)

pub slice-fail_current_job :
    (j now sid : ℕ) (job : Option ℕ) (reason : Option Text) (db : Db)
    → slice j (fail_current_job now sid job reason db) ≡ slice j db
unfolding fail_current_job
slice-fail_current_job j now sid none reason db = refl
slice-fail_current_job j now sid (some jid) reason db =
    slice-upsert_status j now jid JobKind.transcription sid JobStatus.failed reason db

slice-recovered :
    (now sid : ℕ) (job : Option ℕ) (reason : Option Text) (db : Db)
    → slice sid (fail_current_job now sid job reason (update_state sid transcription_failed db))
      ≡ on_row (λ r. record r { state = transcription_failed }) (slice sid db)
slice-recovered now sid job reason db = simp (slice-fail_current_job, slice_laws)

-- The recovery of a stuck transcription refines `Spec.recover`: it is refused unless the session
-- is `transcribing` and RQ knows of no active current job, and otherwise it changes nothing of the
-- session's rows but the state, which becomes `transcription_failed`.
pub recover-refines :
    (rq : ℕ → Option RqStatus) (now : ℕ) (session : Session) (db : Db)
    → map_ok (slice session.id) (recover_stuck_transcription rq now session db)
      ≡ Spec.recover (has_active_job rq session.current_job_id) session.state (slice session.id db)
unfolding recover_stuck_transcription
recover-refines rq now session db =
    ground (arith, slice-recovered now session.id session.current_job_id (some worker_lost) db)

slice-purge_row :
    (now sid : ℕ) (db : Db)
    → slice sid (purge_row now sid (get_audio_source sid db) db)
      ≡ record (slice sid db) { audio = apply_first (Spec.purged_now now) (slice sid db).audio }
slice-purge_row now sid db = ground (arith, slice-mark_audio_purged sid db now, audio-slice sid db)

slice-purged :
    (now sid : ℕ) (db : Db)
    → slice sid (
        update_state sid created (
          set_current_job_id sid none (
            set_edited_transcript sid none (
              delete_artifacts sid (
                delete_chunks sid
                  (delete_transcription sid (purge_row now sid (get_audio_source sid db) db)))))))
      ≡ Spec.purged now (slice sid db)
slice-purged now sid db = simp (
  slice-update_state, slice-set_current_job_id, slice-set_edited_transcript, slice-delete_artifacts,
  slice-delete_chunks, slice-delete_transcription, slice-purge_row, apply_first-apply_first,
)

-- The purge refines `Spec.purge`: it is refused exactly while the session is `transcribing`;
-- otherwise the session is `created` again with no current job and no edit, its audio source is
-- marked purged, and its transcription, chunks and artifacts are gone, while its mapping and
-- players stay.
pub purge-refines :
    (now : ℕ) (session : Session) (db : Db)
    → map_ok (λ r. slice session.id r.1) (purge_audio_for_session now session db)
      ≡ Spec.purge now session.state (slice session.id db)
unfolding purge_audio_for_session
purge-refines now session db = ground (arith, slice-purged now session.id db)
