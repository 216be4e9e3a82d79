-- ===== src/Sessions.antt =====
-- app/services/jdr/logic.py: the life of a session outside the worker: audio upload, edit of the
-- transcription, players and speaker mapping, recovery, restart, purge and deletion. Each operation
-- runs in the transaction of its request: an error leaves the database as it was.
pub mod Upload
pub mod Spec
pub mod Lifecycle
pub mod Requests
pub mod Isolation
pub mod Participants
pub mod JobRows
mod Tests
use ai_kaeyris.Prelude.{
  ℕ, Bool, true, false, ◌&&◌, ◌||◌, not, Option, none, some, List, [], ◌∷◌, ◌++◌, map, is_some, any,
  length, select, ltb, ◌+◌, ◌==◌, opt_eq, if◌then◌else◌, Result, ok, err, guard, ◌>>=◌, ◌>>◌,
}
use ai_kaeyris.Text.{Text, codes, text_eq}
use ai_kaeyris.Table.{delete_where}
use ai_kaeyris.Models.{
  Db, Session, SessionState, created, audio_uploaded, transcribing, transcription_failed,
  transcribed, is_transcribed, is_transcribing, AudioSource, raw, AudioPath, JobKind, JobStatus, Pj,
}
use ai_kaeyris.Repositories.{
  session_is, audio_of, transcription_of, mapping_of, artifact_of, job_of, chunk_of, player_of,
  get_audio_source, update_state, set_current_job_id, set_edited_transcript, store_audio_source,
  mark_audio_purged, delete_transcription, delete_mappings, delete_artifacts, delete_chunks,
  replace_mappings, replace_players, invalidate_pov_artifacts, upsert_status,
}

pub data SessionError : Type 0 where
  unsupported_audio_mime audio_already_uploaded audio_upload_too_large : SessionError
  session_not_transcribed_for_edit : SessionError
  invalid_player_list invalid_mapping : SessionError
  transcription_not_stuck transcription_still_active : SessionError
  transcription_restart_not_allowed no_audio_to_transcribe : SessionError
  audio_purge_blocked audio_read_not_found : SessionError

-- What RQ reports of a job; `none` is `NoSuchJobError`.
pub data RqStatus : Type 0 where
  queued deferred scheduled started finished failed stopped canceled : RqStatus

-- `_ACTIVE_RQ_JOB_STATUSES`
abbrev pub is_active_status : RqStatus → Bool
is_active_status RqStatus.queued = true
is_active_status RqStatus.deferred = true
is_active_status RqStatus.scheduled = true
is_active_status RqStatus.started = true
is_active_status _ = false

-- What is asked of the disk and of RQ; both are best effort, and their failures are only logged.
pub data Effect : Type 0 where
  unlink : AudioPath → Effect
  remove_raw_dir : ℕ → Effect
  stop_job cancel_job : ℕ → Effect

-- enqueue_session_job; `jid` is the identifier that RQ gives the new job.
unfoldable pub enqueue_session_job : ℕ → ℕ → ℕ → JobKind → Db → Db
enqueue_session_job now jid sid kind db =
    set_current_job_id sid (some jid) (upsert_status now jid kind sid JobStatus.queued none db)

-- Upload

-- `ACCEPTED_AUDIO_MIMES`
abbrev pub accepted_mime : Text → Bool
accepted_mime m =
    text_eq m (codes "audio/mp4")
    || text_eq m (codes "audio/m4a")
    || text_eq m (codes "audio/x-m4a")

-- The streaming read: `reads` are the results of `upload_file.read`, of which an empty one ends the
-- file; `size` counts the bytes so far.
unfoldable pub read_upload : ℕ → ℕ → List Text → Result SessionError Text
read_upload limit size [] = ok []
read_upload limit size ([] ∷ reads) = ok []
read_upload limit size ((b ∷ bs) ∷ reads) =
    let rest = read_upload limit (size + length (b ∷ bs)) reads in
    if ltb limit (size + length (b ∷ bs))
    then err audio_upload_too_large
    else (rest >>= λ bytes. ok ((b ∷ bs) ++ bytes))

-- `digest` is SHA-256, and `probed` the duration that ffprobe found, if any.
module _ (digest : Text → Text) (limit now jid : ℕ) (probed : Option ℕ) where
  unfoldable pub store_audio_source_for_session :
      Session → Text → List Text → Db → Result SessionError Db
  unfolding read_upload enqueue_session_job
  store_audio_source_for_session session mime reads db = do
    guard (accepted_mime mime) unsupported_audio_mime
    guard (not (is_some (get_audio_source session.id db))) audio_already_uploaded
    bytes ← read_upload limit 0 reads
    ok (
        enqueue_session_job now jid session.id JobKind.transcription (
          update_state session.id audio_uploaded (
            store_audio_source
              (record {
                session_id = session.id;
                path = raw session.id;
                sha256 = digest bytes;
                size_bytes = length bytes;
                duration_seconds = probed;
                purged_at = none;
              })
              db)))

-- Edit

unfoldable pub save_session_transcription_edit : Session → Text → Db → Result SessionError Db
save_session_transcription_edit session content db = do
  guard (is_transcribed session.state) session_not_transcribed_for_edit
  ok (set_edited_transcript session.id (some content) db)

-- Players and mapping

-- The PJ belongs to the GM, and to the campaign when one is given.
abbrev pub owned_pj : ℕ → Option ℕ → ℕ → Pj → Bool
owned_pj gm none pj r = r.id == pj && r.owner_gm_key_id == gm
owned_pj gm (some c) pj r = r.id == pj && r.owner_gm_key_id == gm && opt_eq r.campaign_id (some c)

-- `missing = unique_ids - found` is empty.
unfoldable pub all_owned : ℕ → Option ℕ → List ℕ → Db → Bool
all_owned gm campaign [] db = true
all_owned gm campaign (pj ∷ pjs) db =
    let rest = all_owned gm campaign pjs db in any (owned_pj gm campaign pj) db.pjs && rest

unfoldable pub set_session_players : Session → List ℕ → ℕ → Option ℕ → Db → Result SessionError Db
set_session_players session pjs gm campaign db = do
  guard (all_owned gm campaign pjs db) invalid_player_list
  ok (replace_players session.id pjs db)

unfoldable pub set_session_mapping :
    Session → List (Text × ℕ) → ℕ → Option ℕ → Db → Result SessionError Db
set_session_mapping session mapping gm campaign db = do
  guard (all_owned gm campaign (map (λ e. e.1) mapping) db) invalid_mapping
  ok (invalidate_pov_artifacts session.id (replace_mappings session.id mapping db))

-- Recovery and restart

module _ (rq : ℕ → Option RqStatus) where
  abbrev pub is_rq_job_active : ℕ → Bool
  is_rq_job_active jid = elim (rq jid) [ none ↦ false | some s ↦ is_active_status s ]

  abbrev pub has_active_job : Option ℕ → Bool
  has_active_job none = false
  has_active_job (some jid) = is_rq_job_active jid

abbrev pub worker_lost : Text
worker_lost = codes "Transcription interrupted unexpectedly (worker lost before completion)."

unfoldable pub fail_current_job : ℕ → ℕ → Option ℕ → Option Text → Db → Db
fail_current_job now sid none reason db = db
fail_current_job now sid (some jid) reason db =
    upsert_status now jid JobKind.transcription sid JobStatus.failed reason db

unfoldable pub recover_stuck_transcription :
    (ℕ → Option RqStatus) → ℕ → Session → Db → Result SessionError Db
unfolding fail_current_job
recover_stuck_transcription rq now session db = do
  guard (is_transcribing session.state) transcription_not_stuck
  guard (not (has_active_job rq session.current_job_id)) transcription_still_active
  ok (
      fail_current_job now session.id session.current_job_id (some worker_lost)
        (update_state session.id transcription_failed db))

-- `_RESTARTABLE_TRANSCRIPTION_STATES`
abbrev pub is_restartable : SessionState → Bool
is_restartable transcription_failed = true
is_restartable transcribed = true
is_restartable _ = false

-- The audio source is there and its file not purged.
abbrev pub is_usable : Option AudioSource → Bool
is_usable none = false
is_usable (some a) = not (is_some a.purged_at)

unfoldable pub delete_transcription_outputs : ℕ → Db → Db
delete_transcription_outputs sid db =
    set_edited_transcript sid none
      (delete_artifacts sid (delete_mappings sid (delete_chunks sid (delete_transcription sid db))))

unfoldable pub restart_transcription_for_session : ℕ → ℕ → Session → Db → Result SessionError Db
unfolding delete_transcription_outputs enqueue_session_job
restart_transcription_for_session now jid session db = do
  guard (is_restartable session.state) transcription_restart_not_allowed
  guard (is_usable (get_audio_source session.id db)) no_audio_to_transcribe
  ok (
      enqueue_session_job now jid session.id JobKind.transcription
        (update_state session.id audio_uploaded (delete_transcription_outputs session.id db)))

-- Purge and deletion

-- The file is unlinked when it is not purged yet.
abbrev unlink_audio : Option AudioSource → List Effect
unlink_audio none = []
unlink_audio (some a) = if is_some a.purged_at then [] else unlink a.path ∷ []

abbrev purge_row : ℕ → ℕ → Option AudioSource → Db → Db
purge_row now sid audio db = if is_usable audio then mark_audio_purged now sid db else db

unfoldable pub purge_audio_for_session : ℕ → Session → Db → Result SessionError (List Effect × Db)
purge_audio_for_session now session db = do
  guard (not (is_transcribing session.state)) audio_purge_blocked
  let sid = session.id
  let audio = get_audio_source sid db
  ok (
    unlink_audio audio ++ remove_raw_dir sid ∷ [],
    update_state sid created (
        set_current_job_id sid none (
          set_edited_transcript sid none (
            delete_artifacts sid
              (delete_chunks sid (delete_transcription sid (purge_row now sid audio db)))))),
  )

-- _abort_active_session_job: a running job is stopped, a waiting one cancelled.
abbrev abort_command : ℕ → Option RqStatus → List Effect
abort_command jid none = []
abort_command jid (some RqStatus.started) = stop_job jid ∷ []
abort_command jid (some s) = if is_active_status s then cancel_job jid ∷ [] else []

abbrev abort_active_session_job : (ℕ → Option RqStatus) → Option ℕ → List Effect
abort_active_session_job rq none = []
abort_active_session_job rq (some jid) = abort_command jid (rq jid)

-- The row goes, and by the cascade of its relationships every row that refers to it.
unfoldable pub delete_session_rows : ℕ → Db → Db
delete_session_rows sid db = record db {
  sessions = delete_where (session_is sid) db.sessions;
  audio_sources = delete_where (audio_of sid) db.audio_sources;
  transcriptions = delete_where (transcription_of sid) db.transcriptions;
  mappings = delete_where (mapping_of sid) db.mappings;
  artifacts = delete_where (artifact_of sid) db.artifacts;
  jobs = delete_where (job_of sid) db.jobs;
  chunks = delete_where (chunk_of sid) db.chunks;
  players = delete_where (player_of sid) db.players;
}

unfoldable pub delete_session : (ℕ → Option RqStatus) → Session → Db → List Effect × Db
unfolding delete_session_rows
delete_session rq session db = (
  abort_active_session_job rq session.current_job_id
      ++ unlink_audio (get_audio_source session.id db)
      ++ remove_raw_dir session.id ∷ [],
  delete_session_rows session.id db,
)

-- get_audio_for_session; `on_disk` is the size of a file, if there is one.
unfoldable pub get_audio_for_session :
    (AudioPath → Option ℕ) → ℕ → Db → Result SessionError (AudioPath × ℕ)
get_audio_for_session on_disk sid db = elim (get_audio_source sid db) [
  | none ↦ err audio_read_not_found
  | some a ↦
      if is_some a.purged_at
      then err audio_read_not_found
      else elim (on_disk a.path) [ none ↦ err audio_read_not_found | some n ↦ ok (a.path, n) ]
]
