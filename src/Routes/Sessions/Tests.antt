-- ===== src/Routes/Sessions/Tests.antt =====
-- Runs of the session routes, and instances of their theorems.
use ai_kaeyris.Prelude.{◌≡◌, refl, arith, true, false, none, some, [], ◌∷◌, ok, err, ◌==◌, ◌&&◌}
use ai_kaeyris.Text.{codes}
use ai_kaeyris.Table.{first, update_where}
use ai_kaeyris.Models.{Db, Session, CampaignRole, Role}
use ai_kaeyris.Samples.{two_sessions}
use ai_kaeyris.Repositories.{set_edited_transcript}
use ai_kaeyris.Repositories.Slice.{slice}
use ai_kaeyris.Auth.{AuthenticatedKey, Source}
use ai_kaeyris.Access.{resolve_session_for_gm}
use ai_kaeyris.Access.Sight.{IsLetIn}
use ai_kaeyris.Sessions.{delete_session, delete_session_rows, save_session_transcription_edit}
use ai_kaeyris.Sessions.Requests.{Surroundings}
use ai_kaeyris.Routes.{session_not_found, wrong_mode}
use ai_kaeyris.Routes.Sessions.{
  route, immutable_field, campaign_forbidden, create_session, patch_session, put_session_mapping,
  put_transcription_edit, delete_session_route,
}
use ai_kaeyris.Routes.Sessions.Own.{deletion, session_route-IsOwn}
use ai_kaeyris.Routes.Sessions.Reading.{get_transcription_md}
use ai_kaeyris.Routes.Sessions.Shown.{put_transcription_edit-is_exported}

abbrev outside : Surroundings
outside = record {
  now = 9;
  jid = 77;
  rq = λ job. none;
  digest = λ bytes. bytes;
  probed = none;
  limit = 4;
}

abbrev gm : AuthenticatedKey
gm = record {
  id = 7;
  name = codes "mj";
  role = Role.gm;
  pj_id = none;
  source = Source.api_key;
  user_id = none;
}

abbrev stranger : AuthenticatedKey
stranger = record gm { id = 8 }

-- The web account 2 is a player of campaign 5, to which session 1 was moved.
abbrev web_player : AuthenticatedKey
web_player = record gm { source = Source.web_session; user_id = some 2 }

abbrev in_campaign : Db
in_campaign = record two_sessions {
  sessions =
      update_where (λ s. true) (λ s. record s { campaign_id = some 5 }) two_sessions.sessions;
  campaigns = record { id = 5; name = codes "C"; description = none; owner_user_id = 1 } ∷ [];
  members =
      record { user_id = 2; campaign_id = 5; role = CampaignRole.pj; character_id = none } ∷ [];
}

strangers_see_nothing :
    delete_session_route outside 1 stranger two_sessions ≡ err (route session_not_found)
unfolding delete_session_route resolve_session_for_gm
strangers_see_nothing = refl

players_change_nothing :
    patch_session false none none 1 web_player in_campaign ≡ err (route session_not_found)
unfolding patch_session resolve_session_for_gm update_where
players_change_nothing = refl

players_create_nothing :
    create_session 3 web_player (codes "S") 0 5 none none in_campaign ≡ err campaign_forbidden
unfolding create_session
players_create_nothing = refl

mode_is_immutable : patch_session true none none 1 gm two_sessions ≡ err immutable_field
unfolding patch_session
mode_is_immutable = refl

mapping_is_for_diarised : put_session_mapping [] 1 gm two_sessions ≡ err (route wrong_mode)
unfolding put_session_mapping resolve_session_for_gm
mapping_is_for_diarised = refl

abbrev edited_rows : Db
edited_rows = record two_sessions {
  sessions =
      update_where (λ s. s.id == 1) (λ s. record s { edited_transcript_md = some (codes "Fin.") })
        two_sessions.sessions;
}

put_transcription_edit-is_exported_example :
    get_transcription_md (λ s t. []) 1 gm edited_rows ≡ ok (codes "Fin.")
unfolding put_transcription_edit save_session_transcription_edit set_edited_transcript
    resolve_session_for_gm update_where
put_transcription_edit-is_exported_example =
    put_transcription_edit-is_exported (λ s t. []) (codes "Fin.") 1 gm two_sessions edited_rows refl

-- Session 1 is deleted, and session 2 is left alone.
abbrev remaining : Db
remaining = delete_session_rows 1 two_sessions

session_route-IsOwn_example :
    (s : Session) × (first (λ r. r.id == 1 && r.gm_key_id == 7) two_sessions.sessions ≡ some s)
    × IsLetIn true Source.api_key none s.campaign_id two_sessions
    × (slice 2 remaining ≡ slice 2 two_sessions)
unfolding delete_session_route resolve_session_for_gm delete_session
session_route-IsOwn_example =
    session_route-IsOwn outside deletion 1 2 gm two_sessions remaining refl (ground arith)
