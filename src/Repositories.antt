-- ===== src/Repositories.antt =====
-- app/services/jdr/db/repositories.py: the statements of the repositories on the tables of a
-- session. What a repository may raise (a foreign key or a uniqueness constraint) is an `Option`.
pub mod Slice
pub mod Chunks
use ai_kaeyris.Prelude.{
  ℕ, suc, Bool, true, false, ◌&&◌, ◌||◌, not, Option, none, some, List, [], ◌∷◌, ◌++◌, is_some,
  is_empty, any, leb, ltb, head?, select, ◌==◌, if◌then◌else◌,
}
use ai_kaeyris.Text.{Text, text_eq}
use ai_kaeyris.Table.{first, update_where, delete_where, insert}
use ai_kaeyris.Models.{
  Db, Session, SessionState, AudioSource, AudioPath, Segment, Transcription, SessionPjMapping,
  Artifact, ArtifactKind, Content, Job, JobKind, JobStatus, Chunk, SessionPlayer, kind_eq, is_pov,
}

-- The rows of one session.
abbrev pub session_is : ℕ → Session → Bool
session_is sid r = r.id == sid

abbrev pub audio_of : ℕ → AudioSource → Bool
audio_of sid r = r.session_id == sid

abbrev pub transcription_of : ℕ → Transcription → Bool
transcription_of sid r = r.session_id == sid

abbrev pub mapping_of : ℕ → SessionPjMapping → Bool
mapping_of sid r = r.session_id == sid

abbrev pub artifact_of : ℕ → Artifact → Bool
artifact_of sid r = r.session_id == sid

abbrev pub job_of : ℕ → Job → Bool
job_of sid r = r.session_id == sid

abbrev pub chunk_of : ℕ → Chunk → Bool
chunk_of sid r = r.session_id == sid

abbrev pub player_of : ℕ → SessionPlayer → Bool
player_of sid r = r.session_id == sid

abbrev pub job_is : ℕ → Job → Bool
job_is jid r = r.id == jid

abbrev pub artifact_is : ℕ → ArtifactKind → Artifact → Bool
artifact_is sid kind r = r.session_id == sid && kind_eq r.kind kind

-- `db.get(Session, session_id)`
abbrev pub get_session : ℕ → Db → Option Session
get_session sid db = first (session_is sid) db.sessions

-- SessionRepository

unfoldable pub update_session_row : ℕ → (Session → Session) → Db → Db
update_session_row sid f db = record db { sessions = update_where (session_is sid) f db.sessions }

unfoldable pub update_state : ℕ → SessionState → Db → Db
unfolding update_session_row
update_state sid state = update_session_row sid (λ r. record r { state = state })

unfoldable pub set_current_job_id : ℕ → Option ℕ → Db → Db
unfolding update_session_row
set_current_job_id sid job = update_session_row sid (λ r. record r { current_job_id = job })

unfoldable pub set_edited_transcript : ℕ → Option Text → Db → Db
unfolding update_session_row
set_edited_transcript sid text =
    update_session_row sid (λ r. record r { edited_transcript_md = text })

abbrev pub get_audio_source : ℕ → Db → Option AudioSource
get_audio_source sid db = first (audio_of sid) db.audio_sources

unfoldable pub store_audio_source : AudioSource → Db → Db
store_audio_source row db = record db { audio_sources = insert row db.audio_sources }

unfoldable pub mark_audio_purged : ℕ → ℕ → Db → Db
mark_audio_purged now sid db = record db {
  audio_sources =
      update_where (audio_of sid) (λ r. record r { purged_at = some now }) db.audio_sources;
}

-- `none` when the session has no audio source.
unfoldable pub update_audio_source_file : ℕ → AudioPath → Text → ℕ → Option ℕ → Db → Option Db
update_audio_source_file sid path sha size duration db = elim (get_audio_source sid db) [
  | none ↦ none
  | some a ↦ some (record db {
    audio_sources =
        update_where (audio_of sid)
          (λ r. record r {
            path = path;
            sha256 = sha;
            size_bytes = size;
            duration_seconds = duration;
          })
          db.audio_sources;
  })
]

-- TranscriptionRepository

unfoldable pub delete_transcription : ℕ → Db → Db
delete_transcription sid db = record db {
  transcriptions = delete_where (transcription_of sid) db.transcriptions;
}

-- `none`: the session is gone, and the foreign key refuses the row.
unfoldable pub upsert_transcription : Transcription → Db → Option Db
upsert_transcription row db =
    if is_some (first (transcription_of row.session_id) db.transcriptions)
    then some (record db {
      transcriptions = update_where (transcription_of row.session_id) (λ _. row) db.transcriptions;
    })
    else if is_some (get_session row.session_id db)
    then some (record db { transcriptions = insert row db.transcriptions })
    else none

-- MappingRepository

unfoldable pub delete_mappings : ℕ → Db → Db
delete_mappings sid db = record db { mappings = delete_where (mapping_of sid) db.mappings }

unfoldable pub mapping_rows : ℕ → List (Text × ℕ) → List SessionPjMapping
mapping_rows sid [] = []
mapping_rows sid ((label, pj) ∷ rest) =
    record { session_id = sid; speaker_label = label; pj_id = pj } ∷ mapping_rows sid rest

unfoldable pub replace_mappings : ℕ → List (Text × ℕ) → Db → Db
unfolding mapping_rows
replace_mappings sid mapping db = record db {
  mappings = delete_where (mapping_of sid) db.mappings ++ mapping_rows sid mapping;
}

-- ORDER BY speaker_label, by code points.
label_le : Text → Text → Bool
label_le [] t = true
label_le (c ∷ s) [] = false
label_le (c ∷ s) (d ∷ t) =
    let rest = label_le s t in if ltb c d then true else if c == d then rest else false

insert_by_label : SessionPjMapping → List SessionPjMapping → List SessionPjMapping
unfolding label_le
insert_by_label m [] = m ∷ []
insert_by_label m (n ∷ ns) =
    if label_le m.speaker_label n.speaker_label then m ∷ n ∷ ns else n ∷ insert_by_label m ns

sort_by_label : List SessionPjMapping → List SessionPjMapping
unfolding insert_by_label
sort_by_label [] = []
sort_by_label (m ∷ ms) = insert_by_label m (sort_by_label ms)

unfoldable pub list_mappings : ℕ → Db → List SessionPjMapping
unfolding sort_by_label
list_mappings sid db = sort_by_label (select (mapping_of sid) db.mappings)

-- ArtifactRepository

-- A regeneration clears the provenance of a manual edit.
abbrev pub regenerated : ℕ → Content → Text → Artifact → Artifact
regenerated now content model r = record r {
  content = content;
  model_used = model;
  generated_at = now;
  is_edited = false;
  edited_at = none;
  edited_by = none;
}

abbrev pub generated : ℕ → ℕ → ArtifactKind → Content → Text → Artifact
generated now sid kind content model = record {
  session_id = sid;
  kind = kind;
  content = content;
  model_used = model;
  generated_at = now;
  is_edited = false;
  edited_at = none;
  edited_by = none;
}

-- `none`: the session is gone, and the foreign key refuses the row.
unfoldable pub upsert_artifact : ℕ → ℕ → ArtifactKind → Content → Text → Db → Option Db
upsert_artifact now sid kind content model db =
    if is_some (first (artifact_is sid kind) db.artifacts)
    then some (record db {
      artifacts = update_where (artifact_is sid kind) (regenerated now content model) db.artifacts;
    })
    else if is_some (get_session sid db)
    then some (record db { artifacts = insert (generated now sid kind content model) db.artifacts })
    else none

-- A manual edit, of an artifact that exists: `none` is the route's 404.
unfoldable pub update_content : ℕ → ℕ → ArtifactKind → Content → Option Text → Db → Option Db
update_content now sid kind content by db =
    if is_some (first (artifact_is sid kind) db.artifacts)
    then some (record db {
      artifacts =
          update_where (artifact_is sid kind)
            (λ r. record r {
              content = content;
              is_edited = true;
              edited_at = some now;
              edited_by = by;
            })
            db.artifacts;
    })
    else none

unfoldable pub invalidate_pov_artifacts : ℕ → Db → Db
invalidate_pov_artifacts sid db = record db {
  artifacts = delete_where (λ r. r.session_id == sid && is_pov r.kind) db.artifacts;
}

unfoldable pub delete_artifacts : ℕ → Db → Db
delete_artifacts sid db = record db { artifacts = delete_where (artifact_of sid) db.artifacts }

-- JobRepository

abbrev started_stamp : ℕ → JobStatus → Option ℕ → Option ℕ
started_stamp now JobStatus.running none = some now
started_stamp now _ t = t

abbrev ended_stamp : ℕ → JobStatus → Option ℕ → Option ℕ
ended_stamp now JobStatus.succeeded t = some now
ended_stamp now JobStatus.failed t = some now
ended_stamp now _ t = t

unfoldable pub upsert_status : ℕ → ℕ → JobKind → ℕ → JobStatus → Option Text → Db → Db
upsert_status now jid kind sid status reason db =
    if is_some (first (job_is jid) db.jobs)
    then record db {
      jobs =
          update_where (job_is jid)
            (λ r. record r {
              kind = kind;
              session_id = sid;
              status = status;
              failure_reason = reason;
              started_at = started_stamp now status r.started_at;
              ended_at = ended_stamp now status r.ended_at;
            })
            db.jobs;
    }
    else record db {
      jobs =
          insert
            (record {
              id = jid;
              kind = kind;
              session_id = sid;
              status = status;
              failure_reason = reason;
              started_at = none;
              ended_at = none;
            })
            db.jobs;
    }

-- ChunkRepository

-- ORDER BY ordre.
unfoldable pub insert_by_ordre : Chunk → List Chunk → List Chunk
insert_by_ordre c [] = c ∷ []
insert_by_ordre c (d ∷ ds) = if leb c.ordre d.ordre then c ∷ d ∷ ds else d ∷ insert_by_ordre c ds

unfoldable pub sort_by_ordre : List Chunk → List Chunk
unfolding insert_by_ordre
sort_by_ordre [] = []
sort_by_ordre (c ∷ cs) = insert_by_ordre c (sort_by_ordre cs)

unfoldable pub list_chunks : ℕ → Db → List Chunk
unfolding sort_by_ordre
list_chunks sid db = sort_by_ordre (select (chunk_of sid) db.chunks)

-- One row per text, `ordre` counting from `i`; `fresh` gives the identifiers.
abbrev chunk_rows : (ℕ → ℕ) → ℕ → ℕ → List Text → List Chunk
chunk_rows fresh sid i [] = []
chunk_rows fresh sid i (t ∷ ts) =
    record { id = fresh i; session_id = sid; ordre = i; text = t; summary_text = none }
    ∷ chunk_rows fresh sid (suc i) ts

-- The uniqueness constraint on (session_id, ordre) is broken when the session has chunks already.
abbrev clashes : List Chunk → List Chunk → Bool
clashes old new = any (λ c. any (λ d. d.session_id == c.session_id && d.ordre == c.ordre) old) new

unfoldable pub bulk_create_chunks : (ℕ → ℕ) → ℕ → List Text → Db → Option Db
bulk_create_chunks fresh sid texts db =
    let rows = chunk_rows fresh sid 0 texts in
    if clashes db.chunks rows || not (is_empty rows) && not (is_some (get_session sid db))
    then none
    else some (record db { chunks = db.chunks ++ rows })

unfoldable pub update_summary_text : ℕ → Text → Db → Db
update_summary_text cid summary db = record db {
  chunks =
      update_where (λ c. c.id == cid) (λ c. record c { summary_text = some summary }) db.chunks;
}

unfoldable pub reset_summary_texts : ℕ → Db → Db
reset_summary_texts sid db = record db {
  chunks = update_where (chunk_of sid) (λ c. record c { summary_text = none }) db.chunks;
}

unfoldable pub delete_chunks : ℕ → Db → Db
delete_chunks sid db = record db { chunks = delete_where (chunk_of sid) db.chunks }

-- SessionPlayerRepository

abbrev pub seen : ℕ → List ℕ → Bool
seen pj = any (λ other. other == pj)

-- The first of each repeated identifier, in order; `done` holds those that went before.
unfoldable pub dedup : List ℕ → List ℕ → List ℕ
dedup done [] = []
dedup done (pj ∷ pjs) =
    let rest = dedup (pj ∷ done) pjs in
    let skip = dedup done pjs in if seen pj done then skip else pj ∷ rest

unfoldable pub player_rows : ℕ → List ℕ → List SessionPlayer
player_rows sid [] = []
player_rows sid (pj ∷ pjs) = record { session_id = sid; pj_id = pj } ∷ player_rows sid pjs

unfoldable pub replace_players : ℕ → List ℕ → Db → Db
unfolding dedup player_rows
replace_players sid pjs db = record db {
  players = delete_where (player_of sid) db.players ++ player_rows sid (dedup [] pjs);
}
