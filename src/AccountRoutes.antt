-- ===== src/AccountRoutes.antt =====
-- app/services/jdr/auth_router.py: the first-run setup, the login and the logout, the current user,
-- and the accounts. Each route is one transaction; what `require_gm` and `require_api_key` let
-- through is `auth`.
pub mod Setup
pub mod Logout
mod Tests
use ai_kaeyris.Prelude.{
  ℕ, Bool, true, false, Option, none, some, [], opt_eq, if◌then◌else◌, Result, ok, err,
  require_some, ◌>>=◌,
}
use ai_kaeyris.Text.{Text}
use ai_kaeyris.Table.{first}
use ai_kaeyris.Models.{
  Db, User, WebSession, Campaign, CampaignMember, CampaignRole, SystemRole, UserStatus,
}
use ai_kaeyris.Users.{
  UserError, duplicate_user, user_not_found, setup_closed, last_active_admin, blank_username,
  blank_password, Crypto, user_is, create_first_gm, create_user, authenticate_user,
  create_web_session, validate_web_session, revoke_web_session, update_user, delete_user,
}
use ai_kaeyris.Auth.{AuthenticatedKey}
use ai_kaeyris.Jobs.Adapters.{or_else, truthy}
use ai_kaeyris.Campaigns.{campaign_is}
use ai_kaeyris.Access.{
  CampaignScope, ActiveCampaignContext, CampaignContextError, ensure_default_campaign,
  ensure_user_membership, campaign_role_for_system_role, resolve_campaign_scope_for_auth,
  resolve_active_campaign_for_user,
}
use ai_kaeyris.Settings.{SettingsError, require_admin_user}

-- The error classes of the routes; `unhandled` is an exception that no route turns into an answer.
pub data AccountError : Type 0 where
  duplicate_user_error user_not_found_error setup_closed_error : AccountError
  last_active_admin_error admin_required_error unauthorized unhandled : AccountError

abbrev app_error : UserError → AccountError
app_error duplicate_user = duplicate_user_error
app_error user_not_found = user_not_found_error
app_error setup_closed = setup_closed_error
app_error last_active_admin = last_active_admin_error
app_error blank_username = unhandled
app_error blank_password = unhandled

abbrev pub answered : {A : Type 0} → Result UserError A → Result AccountError A
answered (ok a) = ok a
answered (err e) = err (app_error e)

abbrev pub handled : {E A : Type 0} → AccountError → Result E A → Result AccountError A
handled e (ok a) = ok a
handled e (err x) = err e

-- What a request draws: identifiers, random tokens and the time, and the settings it uses.
pub record Draw : Type 0 where
  pub uid : ℕ
  pub key : ℕ
  pub cid : ℕ
  pub key_token : Text
  pub token : Text
  pub now : ℕ
  pub ttl : ℕ
  pub campaign_name : Text

unfoldable pub owner_user_for_auth : AuthenticatedKey → Db → Option User
owner_user_for_auth auth db = elim auth.user_id as (λ _. Option User) [
  | some uid ↦ first (user_is uid) db.users
  | none ↦ first (λ u. opt_eq u.api_key_id (some auth.id)) db.users
]

-- `(await create_…)`: the row that an insertion returns.
abbrev pub created : ℕ → Db → Result AccountError User
created uid db = require_some (first (user_is uid) db.users) unhandled

abbrev default_scope : Draw → User → Db → Result AccountError (Option CampaignScope × Db)
default_scope d owner db =
    let (c, db') = ensure_default_campaign d.cid owner.id d.campaign_name db in
    handled unhandled (
      ensure_user_membership owner c.id (some (campaign_role_for_system_role owner.system_role))
        none db')
    >>= λ (m, after). ok (
      some (record {
        campaign_id = c.id;
        role = campaign_role_for_system_role owner.system_role;
        user_id = some owner.id;
        character_id = none;
      }),
      after,
    )

unfoldable pub active_or_default_scope :
    Draw → AuthenticatedKey → Db → Result AccountError (Option CampaignScope × Db)
unfolding owner_user_for_auth
active_or_default_scope d auth db = elim (resolve_campaign_scope_for_auth auth db) [
  | some scope ↦ ok (some scope, db)
  | none ↦ elim (owner_user_for_auth auth db) [
    | none ↦ ok (none, db)
    | some owner ↦ default_scope d owner db
  ]
]

module _ (c : Crypto) where
  -- The text is that of the cookie.
  unfoldable pub post_setup : Draw → Text → Text → Db → Result AccountError (Text × Db)
  post_setup d username password db =
      answered (create_first_gm c d.uid d.key d.key_token username password db) >>= λ db1.
      created d.uid db1 >>= λ user.
      let (campaign, db2) = ensure_default_campaign d.cid user.id d.campaign_name db1 in
      handled unhandled (ensure_user_membership user campaign.id none none db2) >>= λ (m, db3).
      ok (d.token, create_web_session c d.now d.ttl d.token user db3)

  -- Without a cookie the answer is 401, and the transaction is committed.
  unfoldable pub post_login : Draw → Text → Text → Db → Result AccountError (Option Text × Db)
  post_login d username password db =
      answered (authenticate_user c d.key d.key_token username password db) >>= λ (user, db').
      elim user [
        | none ↦ ok (none, db')
        | some u ↦ ok (some d.token, create_web_session c d.now d.ttl d.token u db')
      ]

  abbrev revoke_token : ℕ → Bool → Text → Db → Db
  revoke_token now true token db = revoke_web_session c now token db
  revoke_token now false token db = db

  unfoldable pub post_logout : ℕ → Option Text → Db → Db
  unfolding revoke_web_session
  post_logout now cookie db = revoke_token now (truthy cookie) (or_else cookie []) db

  abbrev me :
      Option (User × WebSession) × Db
      → Result AccountError ((User × Option ActiveCampaignContext) × Db)
  me (none, db) = err unauthorized
  me (some (u, ws), db) = ok ((u, resolve_active_campaign_for_user u db), db)

  -- The account and its active campaign.
  unfoldable pub get_me :
      ℕ → Option Text → Db → Result AccountError ((User × Option ActiveCampaignContext) × Db)
  unfolding validate_web_session resolve_active_campaign_for_user
  get_me now cookie db =
      if truthy cookie
      then me (validate_web_session c now (or_else cookie []) db)
      else err unauthorized

  -- A new account is a player of the campaign in which the administrator acts.
  unfoldable pub post_user :
      Draw → AuthenticatedKey → Text → Text → SystemRole → Db → Result AccountError Db
  unfolding active_or_default_scope
  post_user d auth username password role db =
      handled admin_required_error (require_admin_user auth db) >>= λ admin.
      answered (create_user c d.uid d.key d.key_token username role password db) >>= λ db1.
      active_or_default_scope d auth db1 >>= λ (scope, db2). elim (campaign_of scope db2) [
        | none ↦ ok db2
        | some campaign ↦ created d.uid db2 >>= λ user.
            handled unhandled
              (ensure_user_membership user campaign.id (some CampaignRole.pj) none db2)
            >>= λ (m, db3). ok db3
      ]
    where
      campaign_of : Option CampaignScope → Db → Option Campaign
      campaign_of none db' = none
      campaign_of (some scope) db' = first (campaign_is scope.campaign_id) db'.campaigns

  unfoldable pub patch_user :
      Draw
      → AuthenticatedKey
      → ℕ
      → Option SystemRole
      → Option Text
      → Option UserStatus
      → Db
      → Result AccountError Db
  patch_user d auth uid role password status db =
      handled admin_required_error (require_admin_user auth db) >>= λ admin.
      answered (update_user c d.now d.key d.key_token uid role password status db)

  unfoldable pub delete_user_route : ℕ → AuthenticatedKey → ℕ → Db → Result AccountError Db
  delete_user_route now auth uid db =
      handled admin_required_error (require_admin_user auth db) >>= λ admin.
      answered (delete_user c now uid db)
