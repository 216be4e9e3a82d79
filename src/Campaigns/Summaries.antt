-- ===== src/Campaigns/Summaries.antt =====
-- app/services/jdr/logic.py and db/repositories.py: the campaigns of an account with their sessions.
-- `ORDER BY created_at` is the order of the table.
use ai_kaeyris.Prelude.{
  ℕ, ◌≡◌, refl, ap, ◌∙◌, Bool, true, false, Option, none, some, List, [], ◌∷◌, ◌++◌, map, select,
  head?, length, max, ◌==◌, arith, Result, ok, err, require_some, ◌>>=◌, inl, inr, Bool-cases,
  Option-cases,
}
use ai_kaeyris.Table.{first}
use ai_kaeyris.Models.{Db, Campaign, CampaignMember, CampaignRole, Session}
use ai_kaeyris.Campaigns.{
  CampaignError, campaign_not_found, campaign_forbidden, campaign_is, in_campaign, membership,
}

pub record CampaignSummary : Type 0 where
  pub campaign : Campaign
  pub role : CampaignRole
  pub session_count : ℕ
  pub last_session_at : Option ℕ

-- `func.max`
abbrev pub latest : List Session → Option ℕ
latest [] = none
latest (s ∷ sessions) = elim (latest sessions) [
  | none ↦ some s.recorded_at
  | some t ↦ some (max s.recorded_at t)
]

abbrev pub summary_of : List Session → Campaign → CampaignMember → CampaignSummary
summary_of sessions c m = record {
  campaign = c;
  role = m.role;
  session_count = length (select (in_campaign c.id) sessions);
  last_session_at = latest (select (in_campaign c.id) sessions);
}

-- The join of campaigns with the memberships of an account.
unfoldable pub joined_summaries :
    ℕ → List CampaignMember → List Session → List Campaign → List CampaignSummary
joined_summaries uid members sessions [] = []
joined_summaries uid members sessions (c ∷ campaigns) =
    map (summary_of sessions c) (select (membership uid c.id) members)
    ++ joined_summaries uid members sessions campaigns

unfoldable pub list_for_user : ℕ → Db → List CampaignSummary
unfolding joined_summaries
list_for_user uid db = joined_summaries uid db.members db.sessions db.campaigns

unfoldable pub get_summary_for_user : ℕ → ℕ → Db → Option CampaignSummary
unfolding joined_summaries
get_summary_for_user uid cid db =
    head? (joined_summaries uid db.members db.sessions (select (campaign_is cid) db.campaigns))

unfoldable pub get_campaign : ℕ → ℕ → Db → Result CampaignError CampaignSummary
unfolding get_summary_for_user
get_campaign cid uid db =
    require_some (first (campaign_is cid) db.campaigns) campaign_not_found >>= λ c.
    require_some (get_summary_for_user uid cid db) campaign_forbidden

-- The listing and the reading agree

abbrev summary_is : ℕ → CampaignSummary → Bool
summary_is cid s = s.campaign.id == cid

abbrev shown : Result CampaignError CampaignSummary → Option CampaignSummary
shown (ok s) = some s
shown (err e) = none

own_summaries :
    (cid : ℕ) (c : Campaign) (sessions : List Session) (members : List CampaignMember)
    (rest : List CampaignSummary)
    → campaign_is cid c ≡ true
    → select (summary_is cid) (map (summary_of sessions c) members ++ rest)
      ≡ map (summary_of sessions c) members ++ select (summary_is cid) rest
own_summaries cid c sessions [] rest own = refl
own_summaries cid c sessions (m ∷ members) rest own =
    ground (arith, own_summaries cid c sessions members rest own)

other_summaries :
    (cid : ℕ) (c : Campaign) (sessions : List Session) (members : List CampaignMember)
    (rest : List CampaignSummary)
    → campaign_is cid c ≡ false
    → select (summary_is cid) (map (summary_of sessions c) members ++ rest)
      ≡ select (summary_is cid) rest
other_summaries cid c sessions [] rest other = refl
other_summaries cid c sessions (m ∷ members) rest other =
    ground (arith, other_summaries cid c sessions members rest other)

joined_summaries-select :
    (uid cid : ℕ) (members : List CampaignMember) (sessions : List Session)
    (campaigns : List Campaign)
    → select (summary_is cid) (joined_summaries uid members sessions campaigns)
      ≡ joined_summaries uid members sessions (select (campaign_is cid) campaigns)
unfolding joined_summaries
joined_summaries-select uid cid members sessions [] = refl
joined_summaries-select uid cid members sessions (c ∷ campaigns) =
    elim (Bool-cases (campaign_is cid c)) [
      | inl own ↦ ground (
        arith,
        own_summaries cid c sessions (select (membership uid c.id) members)
            (joined_summaries uid members sessions campaigns) own,
        joined_summaries-select uid cid members sessions campaigns,
      )
      | inr other ↦ ground (
        arith,
        other_summaries cid c sessions (select (membership uid c.id) members)
            (joined_summaries uid members sessions campaigns) other,
        joined_summaries-select uid cid members sessions campaigns,
      )
    ]

refused_or_shown :
    (uid : ℕ) (members : List CampaignMember) (sessions : List Session) (campaigns : List Campaign)
    → head? (joined_summaries uid members sessions campaigns)
      ≡ shown (
          require_some (head? campaigns) campaign_not_found >>= λ c.
          require_some (head? (joined_summaries uid members sessions campaigns)) campaign_forbidden)
unfolding joined_summaries
refused_or_shown uid members sessions [] = refl
refused_or_shown uid members sessions (c ∷ campaigns) =
    elim (Option-cases (head? (joined_summaries uid members sessions (c ∷ campaigns)))) [
      | inl absent ↦ ground (arith, absent)
      | inr (s, found) ↦ ground (arith, found)
    ]

-- What the reading of a campaign shows is the entry that the listing has for it, and where the
-- listing has none the reading is refused.
pub get_campaign-agrees :
    (cid uid : ℕ) (db : Db)
    → first (summary_is cid) (list_for_user uid db) ≡ shown (get_campaign cid uid db)
unfolding get_campaign list_for_user get_summary_for_user
get_campaign-agrees cid uid db =
    ap head? (joined_summaries-select uid cid db.members db.sessions db.campaigns)
    ∙ refused_or_shown uid db.members db.sessions (select (campaign_is cid) db.campaigns)
