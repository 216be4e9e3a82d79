-- ===== src/Campaigns.antt =====
-- app/services/jdr/logic.py and db/repositories.py: the creation, change and deletion of campaigns.
-- `lower` is Python's `str.lower`, and `db_key` the database's `lower(trim(...))`.
pub mod Apart
pub mod Names
pub mod Deletion
pub mod Summaries
mod Tests
use ai_kaeyris.Prelude.{
  ℕ, ◌≡◌, Bool, true, false, ◌&&◌, not, Option, none, some, List, [], ◌∷◌, ◌++◌, is_some, is_empty,
  select, ◌==◌, opt_eq, if◌then◌else◌, Result, ok, err, guard, require_some, ◌>>=◌, ◌>>◌,
}
use ai_kaeyris.Text.{Text, strip, text_eq}
use ai_kaeyris.Table.{first, update_where, delete_where, insert}
use ai_kaeyris.Models.{Db, User, Campaign, CampaignMember, CampaignRole, Session, Pj}

-- `integrity_error` is the database's, on a foreign key.
pub data CampaignError : Type 0 where
  campaign_not_found campaign_forbidden duplicate_campaign campaign_has_sessions : CampaignError
  integrity_error : CampaignError

abbrev pub campaign_is : ℕ → Campaign → Bool
campaign_is cid c = c.id == cid

abbrev pub in_campaign : ℕ → Session → Bool
in_campaign cid s = opt_eq s.campaign_id (some cid)

abbrev pub pj_in_campaign : ℕ → Pj → Bool
pj_in_campaign cid r = opt_eq r.campaign_id (some cid)

abbrev pub is_gm : CampaignRole → Bool
is_gm CampaignRole.gm = true
is_gm CampaignRole.pj = false

abbrev pub membership : ℕ → ℕ → CampaignMember → Bool
membership uid cid r = r.user_id == uid && r.campaign_id == cid

-- A member who is GM, or the error that the services raise.
abbrev require_gm : ℕ → ℕ → Db → Result CampaignError (Unit {0})
require_gm uid cid db = do
  m ← require_some (first (membership uid cid) db.members) campaign_forbidden
  guard (is_gm m.role) campaign_forbidden

abbrev pub with_default : ℕ → User → User
with_default cid u =
    if is_some u.default_campaign_id then u else record u { default_campaign_id = some cid }

module _ (lower db_key : Text → Text) where
  -- Another campaign of the owner has the name.
  abbrev pub clashes_with : ℕ → Text → Option ℕ → Campaign → Bool
  clashes_with owner name exclude c =
      c.owner_user_id == owner
      && text_eq (db_key c.name) (lower (strip name))
      && not (opt_eq exclude (some c.id))

  unfoldable pub user_has_campaign_named : ℕ → Text → Option ℕ → Db → Bool
  user_has_campaign_named owner name exclude db =
      is_some (first (clashes_with owner name exclude) db.campaigns)

  -- `cid` is the new identifier; `owner` is the account of the request.
  unfoldable pub create_campaign : ℕ → ℕ → Text → Option Text → Db → Result CampaignError Db
  unfolding user_has_campaign_named
  create_campaign cid owner name description db = do
    guard (not (user_has_campaign_named owner name none db)) duplicate_campaign
    ok (record db {
      campaigns =
          insert
            (record {
              id = cid;
              name = strip name;
              description = description;
              owner_user_id = owner;
            })
            db.campaigns;
      members =
          insert
            (record {
              user_id = owner;
              campaign_id = cid;
              role = CampaignRole.gm;
              character_id = none;
            })
            db.members;
      users = update_where (λ u. u.id == owner) (with_default cid) db.users;
    })

  abbrev check_name : Option Text → Campaign → Db → Result CampaignError (Unit {0})
  check_name none c db = ok tt
  check_name (some name) c db =
      guard (not (user_has_campaign_named c.owner_user_id name (some c.id) db)) duplicate_campaign

  abbrev pub renamed : Option Text → Campaign → Campaign
  renamed none c = c
  renamed (some name) c = record c { name = strip name }

  -- The new description, if it is to be set.
  abbrev pub described : Option (Option Text) → Campaign → Campaign
  described none c = c
  described (some d) c = record c { description = d }

  unfoldable pub update_campaign :
      ℕ → ℕ → Option Text → Option (Option Text) → Db → Result CampaignError Db
  unfolding user_has_campaign_named
  update_campaign cid uid name description db = do
    c ← require_some (first (campaign_is cid) db.campaigns) campaign_not_found
    require_gm uid cid db
    check_name name c db
    ok (record db {
      campaigns =
          update_where (campaign_is cid) (λ r. described description (renamed name r)) db.campaigns;
    })

-- The row goes with its memberships; a default that names it is cleared, and a character in it makes
-- the database refuse.
abbrev without_default : User → User
without_default u = record u { default_campaign_id = none }

unfoldable pub delete_campaign : ℕ → ℕ → Db → Result CampaignError Db
delete_campaign cid uid db = do
  c ← require_some (first (campaign_is cid) db.campaigns) campaign_not_found
  require_gm uid cid db
  guard (is_empty (select (in_campaign cid) db.sessions)) campaign_has_sessions
  guard (is_empty (select (pj_in_campaign cid) db.pjs)) integrity_error
  ok (record db {
    campaigns = delete_where (campaign_is cid) db.campaigns;
    members = delete_where (λ m. m.campaign_id == cid) db.members;
    users = update_where (λ u. opt_eq u.default_campaign_id (some cid)) without_default db.users;
  })
