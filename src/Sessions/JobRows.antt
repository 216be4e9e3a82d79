-- ===== src/Sessions/JobRows.antt =====
-- The job rows (app/services/jdr/db/models.py) of the sessions that a request is not about.
use ai_kaeyris.Prelude.{
  ℕ, ◌≡◌, ◌≢◌, refl, Bool, true, false, ◌&&◌, not, Option, none, some, List, is_some, arith, select,
  length, ◌==◌, ==_refl, opt_eq, Bool-cases, Result-cases, inl, inr,
}
use ai_kaeyris.Text.{Text}
use ai_kaeyris.Table.{first, select-update_where_ne, select-insert_ne, select-delete_where_ne}
use ai_kaeyris.Models.{
  Db, Job, JobKind, JobStatus, Session, audio_uploaded, transcription_failed, raw,
}
use ai_kaeyris.Repositories.{
  job_is, job_of, upsert_status, update_state, store_audio_source, set_current_job_id,
  set_edited_transcript, mark_audio_purged, update_session_row, delete_artifacts, delete_chunks,
  delete_mappings, delete_transcription, invalidate_pov_artifacts, replace_mappings,
  replace_players,
}
use ai_kaeyris.Repositories.Slice.{apart}
use ai_kaeyris.Sessions.{
  worker_lost, read_upload, fail_current_job, enqueue_session_job, delete_transcription_outputs,
  store_audio_source_for_session, save_session_transcription_edit, set_session_players,
  set_session_mapping, recover_stuck_transcription, restart_transcription_for_session,
  purge_audio_for_session, delete_session, delete_session_rows,
}
use ai_kaeyris.Sessions.Requests.{
  Request, Surroundings, perform, upload, edit, set_players, set_mapping, recover, restart, purge,
  delete,
}

-- A row of the session that is neither of the job that a request enqueues nor of the given one.
abbrev pub is_other : ℕ → ℕ → Option ℕ → Job → Bool
is_other j jid current r =
    r.session_id == j && (not (r.id == jid) && not (opt_eq current (some r.id)))

-- No row of the job is such a row.
abbrev IsExcluded : ℕ → ℕ → Option ℕ → ℕ → Type 0
IsExcluded j jid current id =
    (sid n : ℕ)
    → (n == id) ≡ true
    → (sid == j && (not (n == jid) && not (opt_eq current (some n)))) ≡ false

module _ (j jid : ℕ) (current : Option ℕ) where
  others-upsert_status :
      (now id : ℕ) (kind : JobKind) (sid : ℕ) (status : JobStatus) (reason : Option Text) (db : Db)
      → IsExcluded j jid current id
      → select (is_other j jid current) (upsert_status now id kind sid status reason db).jobs
        ≡ select (is_other j jid current) db.jobs
  unfolding upsert_status
  others-upsert_status now id kind sid status reason db not_other =
      elim (Bool-cases (is_some (first (job_is id) db.jobs))) [
        | inl there ↦ rw there (
            select-update_where_ne (is_other j jid current) (job_is id) _ db.jobs
              (λ r h. not_other r.session_id r.id h) (λ r h. not_other sid r.id h))
        | inr absent ↦
            rw absent
              (select-insert_ne (is_other j jid current) _ db.jobs (not_other sid id (==_refl id)))
      ]

  enqueued-IsExcluded : IsExcluded j jid current jid
  enqueued-IsExcluded sid n h = ground (arith, h)

  others-enqueue :
      (now sid : ℕ) (kind : JobKind) (db : Db)
      → select (is_other j jid current) (enqueue_session_job now jid sid kind db).jobs
        ≡ select (is_other j jid current) db.jobs
  unfolding enqueue_session_job set_current_job_id update_session_row
  others-enqueue now sid kind db =
      others-upsert_status now jid kind sid JobStatus.queued none db enqueued-IsExcluded

others-fail :
    (j jid now sid : ℕ) (current : Option ℕ) (reason : Option Text) (db : Db)
    → select (is_other j jid current) (fail_current_job now sid current reason db).jobs
      ≡ select (is_other j jid current) db.jobs
unfolding fail_current_job
others-fail j jid now sid none reason db = refl
others-fail j jid now sid (some id) reason db =
    others-upsert_status j jid (some id) now id JobKind.transcription sid JobStatus.failed reason db
      (λ sid n h. ground (arith, h))

module _ {j : ℕ} (s : Session) (ne : j ≢ s.id) (db : Db) (w : Surroundings) where
  abbrev others : Db → List Job
  others d = select (is_other j w.jid s.current_job_id) d.jobs

  others-upload :
      (mime : Text) (reads : List Text)
      → others (perform w (upload s.id mime reads) s db) ≡ others db
  unfolding perform store_audio_source_for_session update_state store_audio_source
      update_session_row
  others-upload mime reads = elim (Result-cases (read_upload w.limit 0 reads)) [
    | inl (bytes, e) ↦ ground (
      arith,
      e,
      others-enqueue j w.jid s.current_job_id w.now s.id JobKind.transcription (
          update_state s.id audio_uploaded (
            store_audio_source
              (record {
                session_id = s.id;
                path = raw s.id;
                sha256 = w.digest bytes;
                size_bytes = length bytes;
                duration_seconds = w.probed;
                purged_at = none;
              })
              db)),
    )
    | inr (x, e) ↦ ground (arith, e)
  ]

  pub others-perform : (r : Request) → others (perform w r s db) ≡ others db
  unfolding perform save_session_transcription_edit set_session_players set_session_mapping
      recover_stuck_transcription restart_transcription_for_session purge_audio_for_session
      delete_session delete_session_rows delete_transcription_outputs update_state
      update_session_row set_edited_transcript set_current_job_id delete_artifacts delete_chunks
      delete_mappings delete_transcription invalidate_pov_artifacts replace_mappings replace_players
      mark_audio_purged
  others-perform (upload sid mime reads) = others-upload mime reads
  others-perform (edit sid content) = ground arith
  others-perform (set_players sid pjs gm campaign) = ground arith
  others-perform (set_mapping sid mapping gm campaign) = ground arith
  others-perform (recover sid) = ground (
    arith,
    others-fail j w.jid w.now s.id s.current_job_id (some worker_lost)
        (update_state s.id transcription_failed db),
  )
  others-perform (restart sid) = ground (
    arith,
    others-enqueue j w.jid s.current_job_id w.now s.id JobKind.transcription
        (update_state s.id audio_uploaded (delete_transcription_outputs s.id db)),
  )
  others-perform (purge sid) = ground arith
  others-perform (delete sid) =
      select-delete_where_ne (is_other j w.jid s.current_job_id) (job_of s.id) db.jobs
        (λ r h. ground (arith, apart ne r.session_id h))
