-- ===== src/Sessions/Isolation.antt =====
-- The requests on one session, as the other sessions see them.
use ai_kaeyris.Prelude.{
  ℕ, ◌≡◌, ◌≢◌, refl, Option, none, some, List, arith, Option-cases, inl, inr, ==_iff, select, subst,
  sym, ◌∙◌, length, Result-cases,
}
use ai_kaeyris.Text.{Text}
use ai_kaeyris.Table.{first-holds, select-delete_where_ne}
use ai_kaeyris.Models.{
  Db, Session, audio_uploaded, transcription_failed, created, JobKind, AudioSource, raw,
}
use ai_kaeyris.Repositories.{
  session_is, audio_of, transcription_of, mapping_of, artifact_of, chunk_of, player_of, get_session,
  get_audio_source, update_state, store_audio_source, set_current_job_id, set_edited_transcript,
  delete_artifacts, delete_chunks, delete_transcription, invalidate_pov_artifacts, replace_mappings,
}
use ai_kaeyris.Repositories.Slice.{
  slice, apart, slice-upsert_status, slice-update_state_ne, slice-set_current_job_id_ne,
  slice-set_edited_transcript_ne, slice-mark_audio_purged_ne, slice-delete_transcription_ne,
  slice-delete_mappings_ne, slice-delete_artifacts_ne, slice-delete_chunks_ne,
  slice-store_audio_source_ne, slice-invalidate_pov_artifacts_ne, slice-replace_mappings_ne,
  slice-replace_players_ne,
}
use ai_kaeyris.Sessions.{
  worker_lost, fail_current_job, enqueue_session_job, delete_transcription_outputs, purge_row,
  read_upload, store_audio_source_for_session, save_session_transcription_edit, set_session_players,
  set_session_mapping, recover_stuck_transcription, restart_transcription_for_session,
  purge_audio_for_session, delete_session, delete_session_rows,
}
use ai_kaeyris.Sessions.JobRows.{is_other, others-perform}
use ai_kaeyris.Sessions.Lifecycle.{slice-fail_current_job}
use ai_kaeyris.Sessions.Requests.{
  Request, target, Surroundings, settle, perform, handle, upload, edit, set_players, set_mapping,
  recover, restart, purge, delete,
}

module _ {j sid : ℕ} (ne : j ≢ sid) (db : Db) where
  enqueue_ne :
      (now jid : ℕ) (kind : JobKind)
      → slice j (enqueue_session_job now jid sid kind db) ≡ slice j db
  unfolding enqueue_session_job
  enqueue_ne now jid kind = simp (slice-set_current_job_id_ne ne, slice-upsert_status)

  outputs_ne : slice j (delete_transcription_outputs sid db) ≡ slice j db
  unfolding delete_transcription_outputs
  outputs_ne = simp (
    slice-set_edited_transcript_ne ne,
    slice-delete_artifacts_ne ne,
    slice-delete_mappings_ne ne,
    slice-delete_chunks_ne ne,
    slice-delete_transcription_ne ne,
  )

  purge_row_ne :
      (now : ℕ) (audio : Option AudioSource) → slice j (purge_row now sid audio db) ≡ slice j db
  purge_row_ne now audio = ground (arith, slice-mark_audio_purged_ne ne db now)

  delete_rows_ne : slice j (delete_session_rows sid db) ≡ slice j db
  unfolding slice delete_session_rows
  delete_rows_ne = rw (
    select-delete_where_ne (session_is j) (session_is sid) db.sessions (λ r. apart ne r.id),
    select-delete_where_ne (audio_of j) (audio_of sid) db.audio_sources
        (λ r. apart ne r.session_id),
    select-delete_where_ne (transcription_of j) (transcription_of sid) db.transcriptions
        (λ r. apart ne r.session_id),
    select-delete_where_ne (mapping_of j) (mapping_of sid) db.mappings (λ r. apart ne r.session_id),
    select-delete_where_ne (artifact_of j) (artifact_of sid) db.artifacts
        (λ r. apart ne r.session_id),
    select-delete_where_ne (chunk_of j) (chunk_of sid) db.chunks (λ r. apart ne r.session_id),
    select-delete_where_ne (player_of j) (player_of sid) db.players (λ r. apart ne r.session_id),
  )

module _ {j : ℕ} (s : Session) (ne : j ≢ s.id) (db : Db) where
  restarted_ne :
      (now jid : ℕ)
      → slice j (
          enqueue_session_job now jid s.id JobKind.transcription
            (update_state s.id audio_uploaded (delete_transcription_outputs s.id db)))
        ≡ slice j db
  restarted_ne now jid = simp (enqueue_ne ne, slice-update_state_ne ne, outputs_ne ne)

  recovered_ne :
      (now : ℕ) (job : Option ℕ) (reason : Option Text)
      → slice j (fail_current_job now s.id job reason (update_state s.id transcription_failed db))
        ≡ slice j db
  recovered_ne now job reason = simp (slice-fail_current_job, slice-update_state_ne ne)

  purged_ne :
      (now : ℕ) (audio : Option AudioSource)
      → slice j (
          update_state s.id created (
            set_current_job_id s.id none (
              set_edited_transcript s.id none (
                delete_artifacts s.id
                  (delete_chunks s.id (delete_transcription s.id (purge_row now s.id audio db)))))))
        ≡ slice j db
  purged_ne now audio = simp (
    slice-update_state_ne ne,
    slice-set_current_job_id_ne ne,
    slice-set_edited_transcript_ne ne,
    slice-delete_artifacts_ne ne,
    slice-delete_chunks_ne ne,
    slice-delete_transcription_ne ne,
    purge_row_ne ne,
  )

  stored_ne :
      (now jid : ℕ) (row : AudioSource)
      → row.session_id ≡ s.id
      → slice j (
          enqueue_session_job now jid s.id JobKind.transcription
            (update_state s.id audio_uploaded (store_audio_source row db)))
        ≡ slice j db
  stored_ne now jid row e = rw (
    enqueue_ne ne _ now jid JobKind.transcription,
    slice-update_state_ne ne _ audio_uploaded,
    slice-store_audio_source_ne ne db row e,
  )

  mapped_ne :
      (m : List (Text × ℕ))
      → slice j (invalidate_pov_artifacts s.id (replace_mappings s.id m db)) ≡ slice j db
  mapped_ne m = simp (slice-invalidate_pov_artifacts_ne ne, slice-replace_mappings_ne ne)

module _ {j : ℕ} (s : Session) (ne : j ≢ s.id) (db : Db) (w : Surroundings) where
  upload_ne :
      (mime : Text) (reads : List Text)
      → slice j (
          settle
            (store_audio_source_for_session w.digest w.limit w.now w.jid w.probed s mime reads db)
            db)
        ≡ slice j db
  unfolding store_audio_source_for_session
  upload_ne mime reads = elim (Result-cases (read_upload w.limit 0 reads)) [
    | inl (bytes, e) ↦ ground (
      arith,
      e,
      stored_ne s ne db w.now w.jid
          (record {
            session_id = s.id;
            path = raw s.id;
            sha256 = w.digest bytes;
            size_bytes = length bytes;
            duration_seconds = w.probed;
            purged_at = none;
          })
          refl,
    )
    | inr (x, e) ↦ ground (arith, e)
  ]

  pub perform_ne : (r : Request) → slice j (perform w r s db) ≡ slice j db
  unfolding perform save_session_transcription_edit set_session_players set_session_mapping
      recover_stuck_transcription restart_transcription_for_session purge_audio_for_session
      delete_session
  perform_ne (upload sid mime reads) = upload_ne mime reads
  perform_ne (edit sid content) =
      ground (arith, slice-set_edited_transcript_ne ne db (some content))
  perform_ne (set_players sid pjs gm campaign) = ground (arith, slice-replace_players_ne ne db pjs)
  perform_ne (set_mapping sid mapping gm campaign) = ground (arith, mapped_ne s ne db mapping)
  perform_ne (recover sid) =
      ground (arith, recovered_ne s ne db w.now s.current_job_id (some worker_lost))
  perform_ne (restart sid) = ground (arith, restarted_ne s ne db w.now w.jid)
  perform_ne (purge sid) = ground (arith, purged_ne s ne db w.now (get_audio_source s.id db))
  perform_ne (delete sid) = delete_rows_ne ne db

-- The current job of the session that a request is about.
abbrev pub current_job : ℕ → Db → Option ℕ
current_job sid db = elim (get_session sid db) [ none ↦ none | some s ↦ s.current_job_id ]

current_job-found :
    (sid : ℕ) (db : Db) (s : Session)
    → get_session sid db ≡ some s
    → current_job sid db ≡ s.current_job_id
current_job-found sid db s e = ground (arith, e)

-- Whatever a request on one session does, be it an upload, an edit, a change of players or of the
-- mapping, a recovery, a restart, a purge or a deletion, and whether it succeeds or fails, every
-- other session keeps its row, audio, transcription, mapping, artifacts, chunks and players, and its
-- job rows but one of the job that RQ gives this request or of the current job of the session that
-- the request is about.
pub handle-isolated :
    (w : Surroundings) (r : Request) (db : Db) (j : ℕ)
    → j ≢ target r
    → (slice j (handle w r db) ≡ slice j db)
      × (select (is_other j w.jid (current_job (target r) db)) (handle w r db).jobs
          ≡ select (is_other j w.jid (current_job (target r) db)) db.jobs)
unfolding handle
handle-isolated w r db j ne = elim (Option-cases (get_session (target r) db)) [
  | inl e ↦ (rw (e, handle) refl, rw (e, handle) refl)
  | inr (s, e) ↦
      let apart_from : j ≢ s.id = λ h.
        ne (h ∙ (==_iff s.id (target r)).0 (first-holds (session_is (target r)) db.sessions e)) in
      (
        rw (e, handle) (perform_ne s apart_from db w r),
        subst
            (λ c.
              select (is_other j w.jid c) (handle w r db).jobs
              ≡ select (is_other j w.jid c) db.jobs)
            (sym (current_job-found (target r) db s e))
            (rw (e, handle) (others-perform s apart_from db w r)),
      )
]
