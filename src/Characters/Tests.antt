-- ===== src/Characters/Tests.antt =====
-- Runs on characters, and instances of the theorems on them.
use ai_kaeyris.Prelude.{◌≡◌, refl, true, any, none, some, [], ◌∷◌, ok, err}
use ai_kaeyris.Text.{codes, text_eq}
use ai_kaeyris.Table.{update_where}
use ai_kaeyris.Models.{
  Db, User, UserStatus, SystemRole, CampaignRole, ApiKeyStatus, Role, Pj, transcribed,
  audio_uploaded, non_diarised, diarised,
}
use ai_kaeyris.Samples.{empty_db, session_in}
use ai_kaeyris.Repositories.{session_is}
use ai_kaeyris.Access.{require_campaign_gm, require_campaign_membership}
use ai_kaeyris.Characters.{
  duplicate_pj, campaign_access, new_pj, insert_pj, requested_campaign, create_pj, update_pj,
  list_pjs, list_player_sessions, is_pj_mapped_on_session,
}
use ai_kaeyris.Characters.Participation.{list_player_sessions-agrees}

-- Account 2 is game master of campaign 5, account 1 a player; both sign in with key 7.
abbrev account : User
account = record {
  id = 2;
  username = codes "mj";
  system_role = SystemRole.admin;
  password_hash = [];
  status = UserStatus.active;
  api_key_id = some 7;
  default_campaign_id = some 5;
  deleted_at = none;
  last_login_at = none;
}

abbrev table : Db
table = record empty_db {
  users = record account { id = 1 } ∷ account ∷ [];
  api_keys =
      record {
        id = 7;
        name = codes "mj";
        hash = [];
        role = Role.gm;
        pj_id = none;
        status = ApiKeyStatus.active;
      }
      ∷ [];
  campaigns = record { id = 5; name = codes "C"; description = none; owner_user_id = 2 } ∷ [];
  members =
      record { user_id = 1; campaign_id = 5; role = CampaignRole.pj; character_id = none }
      ∷ record { user_id = 2; campaign_id = 5; role = CampaignRole.gm; character_id = none }
      ∷ [];
  sessions = session_in 1 transcribed non_diarised ∷ session_in 2 audio_uploaded diarised ∷ [];
  players = record { session_id = 1; pj_id = 4 } ∷ [];
  mappings = record { session_id = 1; speaker_label = codes "s"; pj_id = 3 } ∷ [];
}

abbrev aria : Pj
aria = new_pj 4 (codes "Aria") 7 5 (some 1)

abbrev with_aria : Db
with_aria = record table { pjs = aria ∷ [] }

second_aria : create_pj 6 (codes "Aria") 7 none (some 5) (some 2) with_aria ≡ err duplicate_pj
unfolding create_pj requested_campaign insert_pj require_campaign_gm require_campaign_membership
    text_eq
second_aria = refl

-- A player of the campaign changes no character, and sees those of its campaigns.
not_by_player :
    update_pj 4 7 (some (codes "Bram")) none none (some 1) with_aria ≡ err campaign_access
unfolding update_pj require_campaign_gm require_campaign_membership
not_by_player = refl

unlinked :
    update_pj 4 7 none (some none) none (some 2) with_aria
    ≡ ok (
        some (
          new_pj 4 (codes "Aria") 7 5 none,
          record table { pjs = new_pj 4 (codes "Aria") 7 5 none ∷ [] },
        ))
unfolding update_pj require_campaign_gm require_campaign_membership update_where text_eq
unlinked = refl

seen_by_player : list_pjs 9 (some 5) (some 1) with_aria ≡ ok (aria ∷ [])
unfolding list_pjs require_campaign_membership
seen_by_player = refl

-- Session 1 is not diarised, so its leftover mapping of character 3 counts for nothing.
list_player_sessions-agrees_example :
    any (session_is 1) (list_player_sessions 3 none table) ≡ is_pj_mapped_on_session 1 3 none table
list_player_sessions-agrees_example = list_player_sessions-agrees 3 1 none table (refl, (refl, tt))

plays : is_pj_mapped_on_session 1 4 none table ≡ true
unfolding is_pj_mapped_on_session
plays = refl
