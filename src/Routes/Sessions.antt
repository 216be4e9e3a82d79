-- ===== src/Routes/Sessions.antt =====
-- app/services/jdr/router.py and batch/router.py: the routes that create, change and delete a
-- session. A reply shows the session again and is left out; `w` is what the request meets outside
-- the database.
pub mod Reading
pub mod Own
pub mod Shown
mod Tests
use ai_kaeyris.Prelude.{
  ℕ, Bool, true, false, not, Option, none, some, is_some, List, ◌==◌, if◌then◌else◌, Result, ok,
  err, guard, require_some, ◌>>=◌, ◌>>◌,
}
use ai_kaeyris.Text.{Text}
use ai_kaeyris.Table.{first, insert}
use ai_kaeyris.Models.{
  Db, Session, SessionState, created, TranscriptionMode, diarised, non_diarised, CampaignMember,
  is_transcribed,
}
use ai_kaeyris.Repositories.{update_session_row}
use ai_kaeyris.Auth.{AuthenticatedKey}
use ai_kaeyris.Campaigns.{campaign_is, membership, is_gm}
use ai_kaeyris.Sessions.{
  SessionError, Effect, store_audio_source_for_session, save_session_transcription_edit,
  set_session_players, set_session_mapping, recover_stuck_transcription,
  restart_transcription_for_session, purge_audio_for_session, delete_session,
}
use ai_kaeyris.Sessions.Requests.{Surroundings}
use ai_kaeyris.Routes.{
  RouteError, internal_error, wrong_mode, session_not_transcribed, require_session,
}

-- `refused` is the error class that stands for an exception of the service.
pub data SessionRouteError : Type 0 where
  immutable_field campaign_forbidden transcription_not_ready : SessionRouteError
  route : RouteError → SessionRouteError
  refused : SessionError → SessionRouteError

abbrev pub routed : {A : Type 0} → Result RouteError A → Result SessionRouteError A
routed (ok a) = ok a
routed (err e) = err (route e)

abbrev pub served : {A : Type 0} → Result SessionError A → Result SessionRouteError A
served (ok a) = ok a
served (err e) = err (refused e)

abbrev pub is_diarised : TranscriptionMode → Bool
is_diarised diarised = true
is_diarised non_diarised = false

-- `session = await resolve_session_for_gm(...)`, or 404.
abbrev pub seen_session : ℕ → AuthenticatedKey → Db → Result SessionRouteError Session
seen_session sid auth db = routed (require_session sid auth db)

-- Creation

abbrev pub new_session : ℕ → Text → ℕ → ℕ → ℕ → Option Text → Option TranscriptionMode → Session
new_session sid title recorded_at gm cid context mode = record {
  id = sid;
  title = title;
  recorded_at = recorded_at;
  gm_key_id = gm;
  campaign_id = some cid;
  state = created;
  transcription_mode = mode_or mode;
  campaign_context = context;
  edited_transcript_md = none;
  current_job_id = none;
}
  where
    mode_or : Option TranscriptionMode → TranscriptionMode
    mode_or none = diarised
    mode_or (some m) = m

-- A web account must be game master of the campaign.
abbrev may_create : Option ℕ → ℕ → Db → Bool
may_create none cid db = true
may_create (some uid) cid db = gm_member (first (membership uid cid) db.members)
  where
    gm_member : Option CampaignMember → Bool
    gm_member none = false
    gm_member (some m) = is_gm m.role

-- The foreign key refuses an unknown campaign, which nothing catches.
unfoldable pub create_session :
    ℕ
    → AuthenticatedKey
    → Text
    → ℕ
    → ℕ
    → Option Text
    → Option TranscriptionMode
    → Db
    → Result SessionRouteError Db
create_session sid auth title recorded_at cid context mode db =
    guard (may_create auth.user_id cid db) campaign_forbidden
    >> (guard (is_some (first (campaign_is cid) db.campaigns)) (route internal_error)
        >> ok (record db {
          sessions =
              insert (new_session sid title recorded_at auth.id cid context mode) db.sessions;
        }))

-- Change

abbrev pub titled : Option Text → Session → Session
titled none s = s
titled (some t) s = record s { title = t }

abbrev pub in_context : Option (Option Text) → Session → Session
in_context none s = s
in_context (some c) s = record s { campaign_context = c }

-- `logic.update_session`: a context that is given may be null.
unfoldable pub update_session : ℕ → Option Text → Option (Option Text) → Db → Db
unfolding update_session_row
update_session sid title context db =
    update_session_row sid (λ s. in_context context (titled title s)) db

-- `names_mode`: the raw body has a key `transcription_mode`.
unfoldable pub patch_session :
    Bool
    → Option Text
    → Option (Option Text)
    → ℕ
    → AuthenticatedKey
    → Db
    → Result SessionRouteError Db
unfolding update_session
patch_session names_mode title context sid auth db =
    guard (not names_mode) immutable_field
    >> (seen_session sid auth db >>= λ s. ok (update_session s.id title context db))

unfoldable pub put_session_mapping :
    List (Text × ℕ) → ℕ → AuthenticatedKey → Db → Result SessionRouteError Db
unfolding set_session_mapping
put_session_mapping mapping sid auth db = seen_session sid auth db >>= λ s.
    guard (is_diarised s.transcription_mode) (route wrong_mode)
    >> (guard (is_transcribed s.state) (route session_not_transcribed)
        >> served (set_session_mapping s mapping auth.id s.campaign_id db))

unfoldable pub post_session_players :
    List ℕ → ℕ → AuthenticatedKey → Db → Result SessionRouteError Db
unfolding set_session_players
post_session_players pjs sid auth db = seen_session sid auth db >>= λ s.
    guard (not (is_diarised s.transcription_mode)) (route wrong_mode)
    >> served (set_session_players s pjs auth.id s.campaign_id db)

unfoldable pub put_transcription_edit :
    Text → ℕ → AuthenticatedKey → Db → Result SessionRouteError Db
unfolding save_session_transcription_edit
put_transcription_edit content sid auth db =
    seen_session sid auth db >>= λ s. served (save_session_transcription_edit s content db)

module _ (w : Surroundings) where
  unfoldable pub recover_route : ℕ → AuthenticatedKey → Db → Result SessionRouteError Db
  unfolding recover_stuck_transcription
  recover_route sid auth db =
      seen_session sid auth db >>= λ s. served (recover_stuck_transcription w.rq w.now s db)

  unfoldable pub restart_route : ℕ → AuthenticatedKey → Db → Result SessionRouteError Db
  unfolding restart_transcription_for_session
  restart_route sid auth db =
      seen_session sid auth db >>= λ s. served (restart_transcription_for_session w.now w.jid s db)

  unfoldable pub post_audio :
      Text → List Text → ℕ → AuthenticatedKey → Db → Result SessionRouteError Db
  unfolding store_audio_source_for_session
  post_audio mime reads sid auth db = seen_session sid auth db >>= λ s.
      served (store_audio_source_for_session w.digest w.limit w.now w.jid w.probed s mime reads db)

  abbrev only_rows : Result SessionRouteError (List Effect × Db) → Result SessionRouteError Db
  only_rows (ok r) = ok r.1
  only_rows (err e) = err e

  unfoldable pub purge_audio : ℕ → AuthenticatedKey → Db → Result SessionRouteError Db
  unfolding purge_audio_for_session
  purge_audio sid auth db =
      seen_session sid auth db >>= λ s. only_rows (served (purge_audio_for_session w.now s db))

  unfoldable pub delete_session_route : ℕ → AuthenticatedKey → Db → Result SessionRouteError Db
  unfolding delete_session
  delete_session_route sid auth db =
      seen_session sid auth db >>= λ s. ok (delete_session w.rq s db).1
