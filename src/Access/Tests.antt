-- ===== src/Access/Tests.antt =====
-- Runs on a small database of two users, and instances of the theorems on access.
use ai_kaeyris.Prelude.{ℕ, ◌≡◌, refl, true, false, none, some, [], ◌∷◌, ok, err}
use ai_kaeyris.Text.{codes}
use ai_kaeyris.Table.{update_where}
use ai_kaeyris.Models.{
  Db, User, UserStatus, SystemRole, Campaign, CampaignMember, CampaignRole, Role, Session,
  audio_uploaded, diarised,
}
use ai_kaeyris.Samples.{empty_db, session_in, pj_of_gm}
use ai_kaeyris.Auth.{AuthenticatedKey, Source}
use ai_kaeyris.Access.{
  CampaignScope, campaign_access_error, campaign_membership_error, ensure_user_membership,
  ensure_default_campaign, require_campaign_gm, require_campaign_membership, adopt_users,
  adopt_existing_users_into_default_campaign, resolve_session_for_gm, get_for_gm,
}
use ai_kaeyris.Access.Sight.{IsLetIn, resolve_session_for_gm-IsLetIn}
use ai_kaeyris.Access.Adoption.{IsAdoption, adopt_existing_users-IsAdoption}

abbrev account : ℕ → SystemRole → User
account id role = record {
  id = id;
  username = codes "u";
  system_role = role;
  password_hash = [];
  status = UserStatus.active;
  api_key_id = some 7;
  default_campaign_id = none;
  deleted_at = none;
  last_login_at = none;
}

abbrev before : Db
before = record empty_db {
  users = account 1 SystemRole.user ∷ account 2 SystemRole.admin ∷ [];
  sessions = session_in 1 audio_uploaded diarised ∷ [];
}

abbrev home : Campaign
home = record { id = 5; name = codes "Campagne"; description = none; owner_user_id = 2 }

abbrev member_of_home : ℕ → CampaignRole → CampaignMember
member_of_home uid role = record {
  user_id = uid;
  campaign_id = 5;
  role = role;
  character_id = none;
}

abbrev after : Db
after = record before {
  campaigns = home ∷ [];
  members = member_of_home 1 CampaignRole.pj ∷ member_of_home 2 CampaignRole.gm ∷ [];
  users =
      record (account 1 SystemRole.user) { default_campaign_id = some 5 }
      ∷ record (account 2 SystemRole.admin) { default_campaign_id = some 5 }
      ∷ [];
  sessions = record (session_in 1 audio_uploaded diarised) { campaign_id = some 5 } ∷ [];
}

adopt_existing_users-IsAdoption_example : IsAdoption home before after
unfolding adopt_existing_users_into_default_campaign ensure_default_campaign adopt_users
    ensure_user_membership update_where
adopt_existing_users-IsAdoption_example =
    adopt_existing_users-IsAdoption 5 (codes "Campagne") before after home (refl, (refl, tt)) refl

-- Adopting again leaves everything as it is.
adopted_twice :
    adopt_existing_users_into_default_campaign 6 (codes "Campagne") after ≡ ok (some home, after)
unfolding adopt_existing_users_into_default_campaign ensure_default_campaign adopt_users
    ensure_user_membership update_where
adopted_twice = refl

player_is_no_gm : require_campaign_gm 1 5 after ≡ err campaign_access_error
unfolding require_campaign_gm require_campaign_membership
player_is_no_gm = refl

-- A character of no campaign fits no member.
foreign_character :
    ensure_user_membership
      (account 1 SystemRole.user)
      5
      none
      (some 4)
      (record after { pjs = pj_of_gm 4 ∷ [] })
    ≡ err campaign_membership_error
unfolding ensure_user_membership
foreign_character = refl

abbrev web_caller : AuthenticatedKey
web_caller = record {
  id = 7;
  name = codes "mj";
  role = Role.gm;
  pj_id = none;
  source = Source.web_session;
  user_id = some 2;
}

abbrev scope_of_caller : CampaignScope
scope_of_caller = record {
  campaign_id = 5;
  role = CampaignRole.gm;
  user_id = some 2;
  character_id = none;
}

abbrev shown_session : Session
shown_session = record (session_in 1 audio_uploaded diarised) { campaign_id = some 5 }

resolve_session_for_gm-IsLetIn_example :
    (shown_session.id ≡ 1)
    × (shown_session.gm_key_id ≡ 7)
    × IsLetIn true Source.web_session (some 2) (some 5) after
unfolding resolve_session_for_gm get_for_gm
resolve_session_for_gm-IsLetIn_example =
    resolve_session_for_gm-IsLetIn 1 web_caller true after shown_session refl

-- A player of the campaign is not shown the session for a change, but may read it.
hidden_from_player :
    resolve_session_for_gm 1 (record web_caller { user_id = some 1 }) true after ≡ none
unfolding resolve_session_for_gm get_for_gm
hidden_from_player = refl

read_by_player :
    resolve_session_for_gm 1 (record web_caller { user_id = some 1 }) false after
    ≡ some shown_session
unfolding resolve_session_for_gm get_for_gm
read_by_player = refl
