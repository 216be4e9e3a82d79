-- ===== src/Repositories/Slice.antt =====
-- The rows of one session, and the statements of the repositories on them.
use ai_kaeyris.Prelude.{
  ℕ, ◌≡◌, ◌≢◌, refl, true, false, Option, none, some, List, [], ◌∷◌, ◌&&◌, select, select-append,
  append-nil, arith, ◌==◌,
}
use ai_kaeyris.Text.{Text}
use ai_kaeyris.Table.{
  first, delete_where, apply_first, select-update_where_ne, select-delete_where,
  select-delete_where_ne, select-insert_ne, first-update_where,
}
use ai_kaeyris.Models.{
  Db, Session, SessionState, JobKind, JobStatus, AudioSource, Transcription, SessionPjMapping,
  Artifact, Chunk, SessionPlayer, is_pov,
}
use ai_kaeyris.Repositories.{
  session_is, audio_of, transcription_of, mapping_of, artifact_of, chunk_of, player_of, get_session,
  get_audio_source, update_session_row, update_state, set_current_job_id, set_edited_transcript,
  mark_audio_purged, delete_transcription, delete_mappings, delete_artifacts, delete_chunks,
  upsert_status, store_audio_source, invalidate_pov_artifacts, mapping_rows, player_rows, dedup,
  replace_mappings, replace_players,
}

-- The rows of one session. Its job rows, the projection of RQ's jobs by their identifiers, are left
-- out here.
pub record Slice : Type 0 where
  pub row : Option Session
  pub audio : Option AudioSource
  pub transcription : Option Transcription
  pub mappings : List SessionPjMapping
  pub artifacts : List Artifact
  pub chunks : List Chunk
  pub players : List SessionPlayer

unfoldable pub slice : ℕ → Db → Slice
slice sid db = record {
  row = get_session sid db;
  audio = get_audio_source sid db;
  transcription = first (transcription_of sid) db.transcriptions;
  mappings = select (mapping_of sid) db.mappings;
  artifacts = select (artifact_of sid) db.artifacts;
  chunks = select (chunk_of sid) db.chunks;
  players = select (player_of sid) db.players;
}

-- A change of the session's row, or of its audio source.
abbrev pub on_row : (Session → Session) → Slice → Slice
on_row f s = record s { row = apply_first f s.row }

abbrev pub on_audio : (AudioSource → AudioSource) → Slice → Slice
on_audio f s = record s { audio = apply_first f s.audio }

pub audio-slice : (sid : ℕ) (db : Db) → (slice sid db).audio ≡ get_audio_source sid db
unfolding slice
audio-slice sid db = refl

pub row-slice : (sid : ℕ) (db : Db) → (slice sid db).row ≡ get_session sid db
unfolding slice
row-slice sid db = refl

pub apart : {j sid : ℕ} → j ≢ sid → (k : ℕ) → (k == sid) ≡ true → (k == j) ≡ false
apart h k e = ground arith

-- On the session itself.
module _ (sid : ℕ) (db : Db) where
  pub slice-update_session_row :
      (f : Session → Session)
      → ((r : Session) → (f r).id ≡ r.id)
      → slice sid (update_session_row sid f db) ≡ on_row f (slice sid db)
  unfolding slice update_session_row
  slice-update_session_row f keep =
      rw (first-update_where (session_is sid) f db.sessions (λ r h. rw (keep r) h))

  pub slice-mark_audio_purged :
      (now : ℕ)
      → slice sid (mark_audio_purged now sid db)
        ≡ on_audio (λ a. record a { purged_at = some now }) (slice sid db)
  unfolding slice mark_audio_purged
  slice-mark_audio_purged now = rw (
      first-update_where (audio_of sid) (λ r. record r { purged_at = some now }) db.audio_sources
        (λ r h. h))

  pub slice-delete_transcription :
      slice sid (delete_transcription sid db) ≡ record (slice sid db) { transcription = none }
  unfolding slice delete_transcription
  slice-delete_transcription = rw (select-delete_where (transcription_of sid) db.transcriptions)

  pub slice-delete_mappings :
      slice sid (delete_mappings sid db) ≡ record (slice sid db) { mappings = [] }
  unfolding slice delete_mappings
  slice-delete_mappings = rw (select-delete_where (mapping_of sid) db.mappings)

  pub slice-delete_artifacts :
      slice sid (delete_artifacts sid db) ≡ record (slice sid db) { artifacts = [] }
  unfolding slice delete_artifacts
  slice-delete_artifacts = rw (select-delete_where (artifact_of sid) db.artifacts)

  pub slice-delete_chunks : slice sid (delete_chunks sid db) ≡ record (slice sid db) { chunks = [] }
  unfolding slice delete_chunks
  slice-delete_chunks = rw (select-delete_where (chunk_of sid) db.chunks)

-- The three updates of the row.
module _ (sid : ℕ) (db : Db) where
  pub slice-update_state :
      (state : SessionState)
      → slice sid (update_state sid state db)
        ≡ on_row (λ r. record r { state = state }) (slice sid db)
  unfolding update_state
  slice-update_state state = slice-update_session_row sid db _ (λ r. refl)

  pub slice-set_current_job_id :
      (job : Option ℕ)
      → slice sid (set_current_job_id sid job db)
        ≡ on_row (λ r. record r { current_job_id = job }) (slice sid db)
  unfolding set_current_job_id
  slice-set_current_job_id job = slice-update_session_row sid db _ (λ r. refl)

  pub slice-set_edited_transcript :
      (text : Option Text)
      → slice sid (set_edited_transcript sid text db)
        ≡ on_row (λ r. record r { edited_transcript_md = text }) (slice sid db)
  unfolding set_edited_transcript
  slice-set_edited_transcript text = slice-update_session_row sid db _ (λ r. refl)

-- The projection of a job's status is no row of the session.
pub slice-upsert_status :
    (j now jid : ℕ) (kind : JobKind) (sid : ℕ) (status : JobStatus) (reason : Option Text) (db : Db)
    → slice j (upsert_status now jid kind sid status reason db) ≡ slice j db
unfolding slice upsert_status
slice-upsert_status j now jid kind sid status reason db = ground arith

-- On another session.
module _ {j sid : ℕ} (ne : j ≢ sid) (db : Db) where
  pub slice-update_session_row_ne :
      (f : Session → Session)
      → ((r : Session) → (f r).id ≡ r.id)
      → slice j (update_session_row sid f db) ≡ slice j db
  unfolding slice update_session_row
  slice-update_session_row_ne f keep = rw (
      select-update_where_ne (session_is j) (session_is sid) f db.sessions (λ r. apart ne r.id)
        (λ r h. rw (keep r) (apart ne r.id h)))

  pub slice-mark_audio_purged_ne : (now : ℕ) → slice j (mark_audio_purged now sid db) ≡ slice j db
  unfolding slice mark_audio_purged
  slice-mark_audio_purged_ne now = rw (
      select-update_where_ne (audio_of j) (audio_of sid) (λ r. record r { purged_at = some now })
        db.audio_sources (λ r. apart ne r.session_id) (λ r. apart ne r.session_id))

  pub slice-delete_transcription_ne : slice j (delete_transcription sid db) ≡ slice j db
  unfolding slice delete_transcription
  slice-delete_transcription_ne = rw (
      select-delete_where_ne (transcription_of j) (transcription_of sid) db.transcriptions
        (λ r. apart ne r.session_id))

  pub slice-delete_mappings_ne : slice j (delete_mappings sid db) ≡ slice j db
  unfolding slice delete_mappings
  slice-delete_mappings_ne = rw (
      select-delete_where_ne (mapping_of j) (mapping_of sid) db.mappings
        (λ r. apart ne r.session_id))

  pub slice-delete_artifacts_ne : slice j (delete_artifacts sid db) ≡ slice j db
  unfolding slice delete_artifacts
  slice-delete_artifacts_ne = rw (
      select-delete_where_ne (artifact_of j) (artifact_of sid) db.artifacts
        (λ r. apart ne r.session_id))

  pub slice-delete_chunks_ne : slice j (delete_chunks sid db) ≡ slice j db
  unfolding slice delete_chunks
  slice-delete_chunks_ne =
      rw (select-delete_where_ne (chunk_of j) (chunk_of sid) db.chunks (λ r. apart ne r.session_id))

  pub slice-update_state_ne :
      (state : SessionState) → slice j (update_state sid state db) ≡ slice j db
  unfolding update_state
  slice-update_state_ne state = slice-update_session_row_ne _ (λ r. refl)

  pub slice-set_current_job_id_ne :
      (job : Option ℕ) → slice j (set_current_job_id sid job db) ≡ slice j db
  unfolding set_current_job_id
  slice-set_current_job_id_ne job = slice-update_session_row_ne _ (λ r. refl)

  pub slice-set_edited_transcript_ne :
      (text : Option Text) → slice j (set_edited_transcript sid text db) ≡ slice j db
  unfolding set_edited_transcript
  slice-set_edited_transcript_ne text = slice-update_session_row_ne _ (λ r. refl)

  pub slice-store_audio_source_ne :
      (row : AudioSource) → row.session_id ≡ sid → slice j (store_audio_source row db) ≡ slice j db
  unfolding slice store_audio_source
  slice-store_audio_source_ne row e =
      rw (select-insert_ne (audio_of j) row db.audio_sources (ground arith))

  pub slice-invalidate_pov_artifacts_ne : slice j (invalidate_pov_artifacts sid db) ≡ slice j db
  unfolding slice invalidate_pov_artifacts
  slice-invalidate_pov_artifacts_ne = rw (
      select-delete_where_ne (artifact_of j) (λ r. r.session_id == sid && is_pov r.kind)
        db.artifacts (λ r h. apart ne r.session_id (ground arith)))

mapping_rows_ne :
    {j sid : ℕ} → j ≢ sid → (m : List (Text × ℕ)) → select (mapping_of j) (mapping_rows sid m) ≡ []
unfolding mapping_rows
mapping_rows_ne ne [] = refl
mapping_rows_ne ne ((label, pj) ∷ m) = ground (arith, mapping_rows_ne ne m)

player_rows_ne :
    {j sid : ℕ} → j ≢ sid → (pjs : List ℕ) → select (player_of j) (player_rows sid pjs) ≡ []
unfolding player_rows
player_rows_ne ne [] = refl
player_rows_ne ne (pj ∷ pjs) = ground (arith, player_rows_ne ne pjs)

module _ {j sid : ℕ} (ne : j ≢ sid) (db : Db) where
  pub slice-replace_mappings_ne :
      (m : List (Text × ℕ)) → slice j (replace_mappings sid m db) ≡ slice j db
  unfolding slice replace_mappings
  slice-replace_mappings_ne m = rw (
    select-append (mapping_of j) (delete_where (mapping_of sid) db.mappings) (mapping_rows sid m),
    mapping_rows_ne ne m,
    append-nil,
    select-delete_where_ne (mapping_of j) (mapping_of sid) db.mappings (λ r. apart ne r.session_id),
  )

  pub slice-replace_players_ne : (pjs : List ℕ) → slice j (replace_players sid pjs db) ≡ slice j db
  unfolding slice replace_players
  slice-replace_players_ne pjs = rw (
    select-append (player_of j) (delete_where (player_of sid) db.players)
        (player_rows sid (dedup [] pjs)),
    player_rows_ne ne (dedup [] pjs),
    append-nil,
    select-delete_where_ne (player_of j) (player_of sid) db.players (λ r. apart ne r.session_id),
  )

-- How each statement acts on the rows of its session.
pub ruleset slice_laws = (
  slice-update_state, slice-set_current_job_id, slice-set_edited_transcript,
  slice-mark_audio_purged, slice-delete_transcription, slice-delete_mappings,
  slice-delete_artifacts, slice-delete_chunks, slice-upsert_status,
)
