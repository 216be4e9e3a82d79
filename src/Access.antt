-- ===== src/Access.antt =====
-- app/services/jdr/campaign_context.py and session_access.py: the campaign that a caller acts in,
-- and the sessions that it may see. Members are in the order of `joined_at`.
pub mod Scope
pub mod Sight
pub mod Updated
pub mod Adoption
mod Tests
use ai_kaeyris.Prelude.{
  ℕ, Bool, true, false, ◌&&◌, not, Option, none, some, List, [], ◌∷◌, is_some, head?, ◌==◌, opt_eq,
  if◌then◌else◌, Result, ok, err, guard, require_some, ◌>>=◌, ◌>>◌,
}
use ai_kaeyris.Text.{Text}
use ai_kaeyris.Table.{first, update_where, insert}
use ai_kaeyris.Models.{
  Db, User, Campaign, CampaignMember, CampaignRole, SystemRole, Role, Pj, Session, is_active,
  is_admin,
}
use ai_kaeyris.Users.{user_is}
use ai_kaeyris.Auth.{AuthenticatedKey, Source}
use ai_kaeyris.Campaigns.{campaign_is, membership, is_gm, with_default}

pub data CampaignContextError : Type 0 where
  campaign_membership_error campaign_access_error : CampaignContextError

pub record ActiveCampaignContext : Type 0 where
  pub id : ℕ
  pub name : Text
  pub role : CampaignRole
  pub character_id : Option ℕ

pub record CampaignScope : Type 0 where
  pub campaign_id : ℕ
  pub role : CampaignRole
  pub user_id : Option ℕ
  pub character_id : Option ℕ

abbrev pub campaign_role_for_system_role : SystemRole → CampaignRole
campaign_role_for_system_role SystemRole.admin = CampaignRole.gm
campaign_role_for_system_role SystemRole.user = CampaignRole.pj

-- The default campaign

abbrev pub get_default_campaign : Db → Option Campaign
get_default_campaign db = head? db.campaigns

abbrev default_campaign : ℕ → ℕ → Text → Campaign
default_campaign cid owner name = record {
  id = cid;
  name = name;
  description = none;
  owner_user_id = owner;
}

-- `cid` is the identifier of a new row.
unfoldable pub ensure_default_campaign : ℕ → ℕ → Text → Db → Campaign × Db
ensure_default_campaign cid owner name db = elim (get_default_campaign db) [
  | some c ↦ (c, db)
  | none ↦ (
    default_campaign cid owner name,
    record db { campaigns = insert (default_campaign cid owner name) db.campaigns },
  )
]

-- Memberships

abbrev pub pj_is : ℕ → Pj → Bool
pj_is pj p = p.id == pj

abbrev given_role : Option CampaignRole → CampaignMember → CampaignMember
given_role none m = m
given_role (some role) m = record m { role = role }

abbrev given_character : Option ℕ → CampaignMember → CampaignMember
given_character none m = m
given_character (some pj) m = record m { character_id = some pj }

-- The role of a new member: `role or campaign_role_for_system_role(...)`.
abbrev role_or : Option CampaignRole → SystemRole → CampaignRole
role_or none r = campaign_role_for_system_role r
role_or (some role) r = role

abbrev new_member : User → ℕ → Option CampaignRole → Option ℕ → CampaignMember
new_member u cid role character = record {
  user_id = u.id;
  campaign_id = cid;
  role = role_or role u.system_role;
  character_id = character;
}

-- A member's character belongs to the member's campaign.
abbrev character_fits : Option ℕ → ℕ → List Pj → Bool
character_fits none cid pjs = true
character_fits (some pj) cid pjs = elim (first (pj_is pj) pjs) [
  | none ↦ false
  | some p ↦ opt_eq p.campaign_id (some cid)
]

-- What follows the write of the row `m`: the check of its character, and the user's default.
abbrev settle_member :
    User
    → ℕ
    → CampaignMember
    → List CampaignMember
    → Db
    → Result CampaignContextError (CampaignMember × Db)
settle_member u cid m members db = do
  guard (character_fits m.character_id cid db.pjs) campaign_membership_error
  ok (
    m,
    record db {
      members = members;
      users = update_where (user_is u.id) (with_default cid) db.users;
    },
  )

unfoldable pub ensure_user_membership :
    User
    → ℕ
    → Option CampaignRole
    → Option ℕ
    → Db
    → Result CampaignContextError (CampaignMember × Db)
ensure_user_membership u cid role character db = elim (first (membership u.id cid) db.members) [
  | none ↦
      settle_member u cid (new_member u cid role character)
        (insert (new_member u cid role character) db.members) db
  | some m ↦
      settle_member u cid (given_character character (given_role role m))
        (update_where (membership u.id cid) (λ r. given_character character (given_role role r))
          db.members)
        db
]

unfoldable pub ensure_default_campaign_for_user :
    ℕ
    → Text
    → ℕ
    → User
    → Option CampaignRole
    → Db
    → Result CampaignContextError (CampaignMember × Db)
unfolding ensure_default_campaign ensure_user_membership
ensure_default_campaign_for_user cid name owner u role db =
    let (c, db') = ensure_default_campaign cid owner name db in
    ensure_user_membership u c.id role none db'

unfoldable pub require_campaign_membership : ℕ → ℕ → Db → Result CampaignContextError CampaignMember
require_campaign_membership uid cid db =
    require_some (first (membership uid cid) db.members) campaign_access_error

unfoldable pub require_campaign_gm : ℕ → ℕ → Db → Result CampaignContextError CampaignMember
unfolding require_campaign_membership
require_campaign_gm uid cid db = do
  m ← require_campaign_membership uid cid db
  guard (is_gm m.role) campaign_access_error
  ok m

-- The campaign that a caller acts in

-- The oldest membership of the user whose campaign is there.
unfoldable pub first_joined :
    ℕ → List CampaignMember → List Campaign → Option (Campaign × CampaignMember)
first_joined uid [] campaigns = none
first_joined uid (m ∷ members) campaigns =
    let rest = first_joined uid members campaigns in
    if m.user_id == uid
    then elim (first (campaign_is m.campaign_id) campaigns) [ none ↦ rest | some c ↦ some (c, m) ]
    else rest

-- The membership in the user's default campaign.
unfoldable pub default_joined : User → Db → Option (Campaign × CampaignMember)
default_joined u db = elim u.default_campaign_id [
  | none ↦ none
  | some cid ↦
      elim (first (campaign_is cid) db.campaigns) as (λ _. Option (Campaign × CampaignMember)) [
        | none ↦ none
        | some c ↦
            elim (first (membership u.id cid) db.members)
              as (λ _. Option (Campaign × CampaignMember)) [ none ↦ none | some m ↦ some (c, m) ]
      ]
]

abbrev active_in : Campaign × CampaignMember → ActiveCampaignContext
active_in (c, m) = record { id = c.id; name = c.name; role = m.role; character_id = m.character_id }

abbrev map_active : Option (Campaign × CampaignMember) → Option ActiveCampaignContext
map_active none = none
map_active (some row) = some (active_in row)

unfoldable pub resolve_active_campaign_for_user : User → Db → Option ActiveCampaignContext
unfolding default_joined first_joined
resolve_active_campaign_for_user u db =
    if not (is_active u.status) then none else elim (default_joined u db) [
      | some row ↦ some (active_in row)
      | none ↦ map_active (first_joined u.id db.members db.campaigns)
    ]

scope_of_user : ℕ → Db → Option CampaignScope
unfolding resolve_active_campaign_for_user
scope_of_user uid db = elim (first (user_is uid) db.users) [
  | none ↦ none
  | some u ↦ elim (resolve_active_campaign_for_user u db) as (λ _. Option CampaignScope) [
    | none ↦ none
    | some a ↦ some (record {
      campaign_id = a.id;
      role = a.role;
      user_id = some u.id;
      character_id = a.character_id;
    })
  ]
]

scope_of_pj : ℕ → Db → Option CampaignScope
scope_of_pj pj db = elim (first (pj_is pj) db.pjs) [
  | none ↦ none
  | some p ↦ elim p.campaign_id as (λ _. Option CampaignScope) [
    | none ↦ none
    | some cid ↦ some (record {
      campaign_id = cid;
      role = CampaignRole.pj;
      user_id = none;
      character_id = some p.id;
    })
  ]
]

scope_of_default : Db → Option CampaignScope
scope_of_default db = elim (get_default_campaign db) [
  | none ↦ none
  | some c ↦
      some
        (record { campaign_id = c.id; role = CampaignRole.gm; user_id = none; character_id = none })
]

abbrev scope_of_key : Role → Option ℕ → Db → Option CampaignScope
scope_of_key Role.player (some pj) db = scope_of_pj pj db
scope_of_key Role.player none db = scope_of_default db
scope_of_key Role.gm pj db = scope_of_default db

abbrev scope_by : Source → Option ℕ → Role → Option ℕ → Db → Option CampaignScope
scope_by Source.web_session (some uid) role pj db = scope_of_user uid db
scope_by Source.web_session none role pj db = scope_of_key role pj db
scope_by Source.api_key user role pj db = scope_of_key role pj db

unfoldable pub resolve_campaign_scope_for_auth : AuthenticatedKey → Db → Option CampaignScope
unfolding scope_of_user scope_of_pj scope_of_default
resolve_campaign_scope_for_auth auth db = scope_by auth.source auth.user_id auth.role auth.pj_id db

-- The sessions that a game master sees

-- The session belongs to the game master, and to the campaign when one is given.
abbrev pub session_of_gm : ℕ → ℕ → Option ℕ → Session → Bool
session_of_gm sid gm none s = s.id == sid && s.gm_key_id == gm
session_of_gm sid gm (some cid) s =
    s.id == sid && s.gm_key_id == gm && opt_eq s.campaign_id (some cid)

unfoldable pub get_for_gm : ℕ → ℕ → Option ℕ → Db → Option Session
get_for_gm sid gm campaign db = first (session_of_gm sid gm campaign) db.sessions

-- The check of a web account against the campaign of the session.
abbrev pub passes : Bool → Option CampaignMember → Bool
passes require_gm_role none = false
passes require_gm_role (some m) = not (require_gm_role && not (is_gm m.role))

abbrev shown_to : Bool → Source → Option ℕ → Option ℕ → Db → Bool
shown_to require_gm_role Source.web_session (some uid) (some cid) db =
    passes require_gm_role (first (membership uid cid) db.members)
shown_to require_gm_role _ _ _ db = true

unfoldable pub resolve_session_for_gm : ℕ → AuthenticatedKey → Bool → Db → Option Session
unfolding get_for_gm
resolve_session_for_gm sid auth require_gm_role db = elim (get_for_gm sid auth.id none db) [
  | none ↦ none
  | some s ↦
      if shown_to require_gm_role auth.source auth.user_id s.campaign_id db then some s else none
]

-- The adoption of the users that were there before campaigns

unfoldable pub adopt_users : ℕ → List User → Db → Result CampaignContextError Db
unfolding ensure_user_membership
adopt_users cid [] db = ok db
adopt_users cid (u ∷ users) db =
    ensure_user_membership u cid (some (campaign_role_for_system_role u.system_role)) none db
    >>= λ (m, db'). adopt_users cid users db'

-- The oldest active administrator, or else the oldest user.
abbrev adopting_owner : Db → Option User
adopting_owner db = elim (first (λ u. is_active u.status && is_admin u.system_role) db.users) [
  | some u ↦ some u
  | none ↦ head? db.users
]

abbrev pub unplaced : Session → Bool
unplaced s = not (is_some s.campaign_id)

unfoldable pub adopt_existing_users_into_default_campaign :
    ℕ → Text → Db → Result CampaignContextError (Option Campaign × Db)
unfolding ensure_default_campaign adopt_users
adopt_existing_users_into_default_campaign cid name db = elim (adopting_owner db) [
  | none ↦ ok (none, db)
  | some owner ↦
      let (c, db') = ensure_default_campaign cid owner.id name db in
      adopt_users c.id db'.users db' >>= λ after. ok (
        some c,
        record after {
          sessions =
              update_where unplaced (λ s. record s { campaign_id = some c.id }) after.sessions;
        },
      )
]
