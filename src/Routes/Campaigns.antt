-- ===== src/Routes/Campaigns.antt =====
-- app/services/jdr/router.py: the routes of campaigns and of characters (PJ), which need a web
-- session for the former. `lower` and `db_key` are as for Campaigns.
use ai_kaeyris.Prelude.{ℕ, Option, none, List, Result, ok, require_some, ◌>>=◌}
use ai_kaeyris.Text.{Text}
use ai_kaeyris.Models.{Db}
use ai_kaeyris.Auth.{AuthenticatedKey, Source}
use ai_kaeyris.Campaigns.{
  CampaignError, campaign_forbidden, create_campaign, update_campaign, delete_campaign,
}
use ai_kaeyris.Campaigns.Summaries.{
  CampaignSummary, list_for_user, get_summary_for_user, get_campaign,
}

abbrev signed_in_as : Source → Option ℕ → Option ℕ
signed_in_as Source.web_session uid = uid
signed_in_as Source.api_key uid = none

-- `_web_user_id`; `_map_campaign_error` keeps the name of the exception.
unfoldable pub web_user_id : AuthenticatedKey → Result CampaignError ℕ
web_user_id auth = require_some (signed_in_as auth.source auth.user_id) campaign_forbidden

unfoldable pub list_campaigns_route :
    AuthenticatedKey → Db → Result CampaignError (List CampaignSummary)
unfolding web_user_id
list_campaigns_route auth db = web_user_id auth >>= λ uid. ok (list_for_user uid db)

unfoldable pub get_campaign_route : ℕ → AuthenticatedKey → Db → Result CampaignError CampaignSummary
unfolding web_user_id
get_campaign_route cid auth db = web_user_id auth >>= λ uid. get_campaign cid uid db

unfoldable pub delete_campaign_route : ℕ → AuthenticatedKey → Db → Result CampaignError Db
unfolding web_user_id
delete_campaign_route cid auth db = web_user_id auth >>= λ uid. delete_campaign cid uid db

module _ (lower db_key : Text → Text) where
  -- The reply is the summary of the campaign, read after the commit; without one it is a 403.
  unfoldable pub create_campaign_route :
      ℕ
      → Text
      → Option Text
      → AuthenticatedKey
      → Db
      → Result CampaignError (Option CampaignSummary × Db)
  unfolding web_user_id
  create_campaign_route cid name description auth db = web_user_id auth >>= λ uid.
      create_campaign lower db_key cid uid name description db >>= λ db'.
      ok (get_summary_for_user uid cid db', db')

  unfoldable pub patch_campaign_route :
      ℕ
      → Option Text
      → Option (Option Text)
      → AuthenticatedKey
      → Db
      → Result CampaignError (Option CampaignSummary × Db)
  unfolding web_user_id
  patch_campaign_route cid name description auth db = web_user_id auth >>= λ uid.
      update_campaign lower db_key cid uid name description db >>= λ db'.
      ok (get_summary_for_user uid cid db', db')
