-- ===== src/Sessions/Requests.antt =====
-- The requests on a session as the routes make them: the session is loaded, the operation runs,
-- and `get_db_session` (app/core/db.py) commits what it did, or rolls back on an error.
use ai_kaeyris.Prelude.{ℕ, Option, none, some, List, Result, ok, err}
use ai_kaeyris.Text.{Text}
use ai_kaeyris.Models.{Db, Session}
use ai_kaeyris.Repositories.{get_session}
use ai_kaeyris.Sessions.{
  SessionError, RqStatus, Effect, store_audio_source_for_session, save_session_transcription_edit,
  set_session_players, set_session_mapping, recover_stuck_transcription,
  restart_transcription_for_session, purge_audio_for_session, delete_session,
}

-- What a request meets outside the database: the clock, RQ, SHA-256, ffprobe and the settings.
pub record Surroundings : Type 0 where
  pub now : ℕ
  pub jid : ℕ
  pub rq : ℕ → Option RqStatus
  pub digest : Text → Text
  pub probed : Option ℕ
  pub limit : ℕ

pub data Request : Type 0 where
  upload : ℕ → Text → List Text → Request
  edit : ℕ → Text → Request
  set_players : ℕ → List ℕ → ℕ → Option ℕ → Request
  set_mapping : ℕ → List (Text × ℕ) → ℕ → Option ℕ → Request
  recover restart purge delete : ℕ → Request

abbrev pub target : Request → ℕ
target (upload sid mime reads) = sid
target (edit sid content) = sid
target (set_players sid pjs gm campaign) = sid
target (set_mapping sid mapping gm campaign) = sid
target (recover sid) = sid
target (restart sid) = sid
target (purge sid) = sid
target (delete sid) = sid

-- Commit, or roll back.
abbrev pub settle : Result SessionError Db → Db → Db
settle (ok db') db = db'
settle (err e) db = db

abbrev pub settle_pair : Result SessionError (List Effect × Db) → Db → Db
settle_pair (ok r) db = r.1
settle_pair (err e) db = db

unfoldable pub perform : Surroundings → Request → Session → Db → Db
perform w (upload sid mime reads) s db =
    settle (store_audio_source_for_session w.digest w.limit w.now w.jid w.probed s mime reads db) db
perform w (edit sid content) s db = settle (save_session_transcription_edit s content db) db
perform w (set_players sid pjs gm campaign) s db =
    settle (set_session_players s pjs gm campaign db) db
perform w (set_mapping sid mapping gm campaign) s db =
    settle (set_session_mapping s mapping gm campaign db) db
perform w (recover sid) s db = settle (recover_stuck_transcription w.rq w.now s db) db
perform w (restart sid) s db = settle (restart_transcription_for_session w.now w.jid s db) db
perform w (purge sid) s db = settle_pair (purge_audio_for_session w.now s db) db
perform w (delete sid) s db = (delete_session w.rq s db).1

-- A session that is not there is a 404.
unfoldable pub handle : Surroundings → Request → Db → Db
handle w r db = elim (get_session (target r) db) [ none ↦ db | some s ↦ perform w r s db ]
