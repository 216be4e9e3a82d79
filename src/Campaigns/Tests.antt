-- ===== src/Campaigns/Tests.antt =====
-- Runs on campaigns, and instances of their theorems.
use ai_kaeyris.Prelude.{ℕ, ◌≡◌, refl, false, none, [], ◌∷◌, map, ◌==◌, if◌then◌else◌, err}
use ai_kaeyris.Text.{Text, codes, strip, lstrip, rstrip, is_space, text_eq}
use ai_kaeyris.Table.{update_where, delete_where}
use ai_kaeyris.Models.{Db, Campaign, CampaignMember, CampaignRole}
use ai_kaeyris.Samples.{empty_db}
use ai_kaeyris.Campaigns.{
  duplicate_campaign, create_campaign, delete_campaign, user_has_campaign_named,
}
use ai_kaeyris.Campaigns.Apart.{AreNamedApart}
use ai_kaeyris.Campaigns.Names.{NamingRequest, naming_request, naming_request-AreNamedApart}
use ai_kaeyris.Campaigns.Deletion.{IsUnreferenced, delete_campaign-IsUnreferenced}

-- "É" and "é" are one letter in two cases.
abbrev lower_accents : Text → Text
lower_accents = map (λ c. if c == 201 then 233 else c)

abbrev ascii_only : Text → Text
ascii_only t = t

abbrev campaign_at : ℕ → Text → Campaign
campaign_at id name = record { id = id; name = name; description = none; owner_user_id = 1 }

abbrev gm_of : ℕ → CampaignMember
gm_of cid = record { user_id = 1; campaign_id = cid; role = CampaignRole.gm; character_id = none }

abbrev one_campaign : Db
one_campaign = record empty_db {
  campaigns = campaign_at 5 (codes "É") ∷ [];
  members = gm_of 5 ∷ [];
}

naming_request-AreNamedApart_example :
    AreNamedApart lower_accents
      (naming_request lower_accents lower_accents
        (NamingRequest.create 6 1 (codes " é ") none)
        one_campaign).campaigns
naming_request-AreNamedApart_example =
    naming_request-AreNamedApart lower_accents lower_accents
      (NamingRequest.create 6 1 (codes " é ") none) one_campaign (λ name. refl) refl
      (refl, refl, tt)

refused_name :
    create_campaign lower_accents lower_accents 6 1 (codes " é ") none one_campaign
    ≡ err duplicate_campaign
unfolding create_campaign user_has_campaign_named strip lstrip rstrip is_space text_eq
refused_name = refl

-- A database that knows the case of ASCII letters only does not find the campaign by its own name.
missed_name :
    user_has_campaign_named lower_accents ascii_only 1 (codes "É") none one_campaign ≡ false
unfolding user_has_campaign_named strip lstrip rstrip is_space text_eq
missed_name = refl

delete_campaign-IsUnreferenced_example : IsUnreferenced 5 1 one_campaign empty_db
unfolding delete_campaign delete_where update_where
delete_campaign-IsUnreferenced_example =
    delete_campaign-IsUnreferenced 5 1 one_campaign empty_db refl
