-- ===== src/Routes/Sessions/Reading.antt =====
-- app/services/jdr/router.py: the routes that read a session.
use ai_kaeyris.Prelude.{
  ℕ, Bool, true, ◌&&◌, not, Option, none, some, List, map, select, is_some, is_empty, opt_eq, ◌==◌,
  Result, ok, err, guard, require_some, ◌>>=◌, ◌>>◌,
}
use ai_kaeyris.Text.{Text}
use ai_kaeyris.Table.{first}
use ai_kaeyris.Models.{Db, Session, Chunk, Transcription, SessionPjMapping, is_transcribed}
use ai_kaeyris.Repositories.{player_of, transcription_of, get_session, list_mappings, list_chunks}
use ai_kaeyris.Auth.{AuthenticatedKey}
use ai_kaeyris.Campaigns.{membership}
use ai_kaeyris.Access.{get_for_gm}
use ai_kaeyris.Routes.{session_not_found, wrong_mode}
use ai_kaeyris.Routes.Sessions.{
  SessionRouteError, route, campaign_forbidden, transcription_not_ready, is_diarised, seen_session,
}

-- A web account is a member of the campaign, where there are both.
abbrev is_member : Option ℕ → Option ℕ → Db → Bool
is_member (some uid) (some cid) db = is_some (first (membership uid cid) db.members)
is_member _ _ db = true

abbrev listed_for : ℕ → Option ℕ → Session → Bool
listed_for gm none s = s.gm_key_id == gm
listed_for gm (some cid) s = s.gm_key_id == gm && opt_eq s.campaign_id (some cid)

unfoldable pub list_sessions :
    AuthenticatedKey → Option ℕ → Db → Result SessionRouteError (List Session)
list_sessions auth campaign db =
    guard (is_member auth.user_id campaign db) campaign_forbidden
    >> ok (select (listed_for auth.id campaign) db.sessions)

abbrev campaign_of : Option Session → Option ℕ
campaign_of none = none
campaign_of (some s) = s.campaign_id

-- A session of another key is a 404, or a 403 to who is no member of its campaign.
unfoldable pub get_session_route : ℕ → AuthenticatedKey → Db → Result SessionRouteError Session
unfolding get_for_gm
get_session_route sid auth db = elim (get_for_gm sid auth.id none db) [
  | none ↦
      guard (is_member auth.user_id (campaign_of (get_session sid db)) db) campaign_forbidden
      >> err (route session_not_found)
  | some s ↦ guard (is_member auth.user_id s.campaign_id db) campaign_forbidden >> ok s
]

unfoldable pub get_session_chunks :
    ℕ → AuthenticatedKey → Db → Result SessionRouteError (List Chunk)
get_session_chunks sid auth db = seen_session sid auth db >>= λ s.
    guard (not (is_diarised s.transcription_mode)) (route wrong_mode)
    >> (guard (not (is_empty (list_chunks s.id db))) transcription_not_ready
        >> ok (list_chunks s.id db))

abbrev label_and_pj : SessionPjMapping → Text × ℕ
label_and_pj r = (r.speaker_label, r.pj_id)

-- The labels of a session are distinct, so the dictionary has one entry for each row.
unfoldable pub get_session_mapping :
    ℕ → AuthenticatedKey → Db → Result SessionRouteError (List (Text × ℕ))
get_session_mapping sid auth db = seen_session sid auth db >>= λ s.
    guard (is_diarised s.transcription_mode) (route wrong_mode)
    >> ok (map label_and_pj (list_mappings s.id db))

unfoldable pub get_session_players : ℕ → AuthenticatedKey → Db → Result SessionRouteError (List ℕ)
get_session_players sid auth db = seen_session sid auth db >>= λ s.
    guard (not (is_diarised s.transcription_mode)) (route wrong_mode)
    >> ok (map (λ r. r.pj_id) (select (player_of s.id) db.players))

unfoldable pub get_transcription_route :
    ℕ → AuthenticatedKey → Db → Result SessionRouteError Transcription
get_transcription_route sid auth db = seen_session sid auth db >>= λ s.
    guard (is_diarised s.transcription_mode) (route wrong_mode)
    >> require_some (first (transcription_of sid) db.transcriptions) transcription_not_ready

-- `render` is `render_transcription_md` (Markdown), with the names left as they are.
unfoldable pub get_transcription_md :
    (Session → Transcription → Text) → ℕ → AuthenticatedKey → Db → Result SessionRouteError Text
get_transcription_md render sid auth db = seen_session sid auth db >>= λ s.
    elim s.edited_transcript_md [
      | some text ↦ guard (is_transcribed s.state) transcription_not_ready >> ok text
      | none ↦
          guard (is_diarised s.transcription_mode) (route wrong_mode)
          >> (require_some (first (transcription_of sid) db.transcriptions) transcription_not_ready
              >>= λ t. ok (render s t))
    ]
