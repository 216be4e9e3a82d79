-- ===== src/Users.antt =====
-- app/core/users.py: accounts and web sessions. Argon2, SHA-256 and Python's `str.lower` are
-- parameters. Each operation runs in the transaction of its request. The names of the internal keys,
-- `web:<username>`, are taken to be free in the table of keys.
pub mod Keyed
pub mod Admins
pub mod Login
pub mod Lockout
mod Tests
use ai_kaeyris.Prelude.{
  ℕ, ◌+◌, ◌≡◌, Bool, true, false, ◌&&◌, ◌||◌, not, Option, none, some, List, [], ◌∷◌, ◌++◌, is_some,
  is_empty, length, select, leb, ◌==◌, if◌then◌else◌, Result, ok, err, guard, require_some, ◌>>=◌,
  ◌>>◌,
}
use ai_kaeyris.Text.{Text, codes, strip, text_eq}
use ai_kaeyris.Table.{first, update_where, insert}
use ai_kaeyris.Models.{
  Db, User, UserStatus, SystemRole, WebSession, ApiKey, ApiKeyStatus, Role, is_admin, is_active,
}

-- The exceptions of the module; the last two are `ValueError`.
pub data UserError : Type 0 where
  duplicate_user user_not_found setup_closed last_active_admin : UserError
  blank_username blank_password : UserError

-- The libraries: Argon2, SHA-256 and `str.lower`.
pub record Crypto : Type 0 where
  pub hash : Text → Text
  pub verify : Text → Text → Bool
  pub digest : Text → Text
  pub lower : Text → Text

abbrev pub user_is : ℕ → User → Bool
user_is uid r = r.id == uid

abbrev pub named : Text → User → Bool
named name r = text_eq r.username name

abbrev pub token_is : Text → WebSession → Bool
token_is h r = text_eq r.token_hash h

unfoldable pub setup_required : Db → Bool
setup_required db = is_empty db.users

abbrev pub get_user : ℕ → Db → Result UserError User
get_user uid db = require_some (first (user_is uid) db.users) user_not_found

abbrev pub update_user_row : ℕ → (User → User) → Db → Db
update_user_row uid f db = record db { users = update_where (user_is uid) f db.users }

abbrev pub is_active_admin : User → Bool
is_active_admin r = is_admin r.system_role && is_active r.status

unfoldable pub count_active_admins : List User → ℕ
count_active_admins users = length (select is_active_admin users)

abbrev pub revoke : ℕ → WebSession → WebSession
revoke now r = record r { revoked_at = some now }

abbrev pub open_session_of : ℕ → WebSession → Bool
open_session_of uid r = r.user_id == uid && not (is_some r.revoked_at)

unfoldable pub revoke_user_sessions : ℕ → ℕ → Db → Db
revoke_user_sessions now uid db = record db {
  web_sessions = update_where (open_session_of uid) (revoke now) db.web_sessions;
}

abbrev pub named_active : Text → User → Bool
named_active name r = text_eq r.username name && is_active r.status

abbrev pub is_valid_at : ℕ → WebSession → User → Bool
is_valid_at now ws u =
    not (is_some ws.revoked_at || leb ws.expires_at now || not (is_active u.status))

module _ (c : Crypto) where
  unfoldable pub normalize_username : Text → Result UserError Text
  normalize_username name = do
    let normalized = c.lower (strip name)
    guard (not (is_empty normalized)) blank_username
    ok normalized

  unfoldable pub hash_password : Text → Result UserError Text
  hash_password password = do guard (not (is_empty password)) blank_password; ok (c.hash password)

  -- `token` is the random token of the key, which nobody is given.
  abbrev pub internal_api_key : ℕ → Text → Text → ApiKey
  internal_api_key id token username = record {
    id = id;
    name = codes "web:" ++ username;
    hash = c.hash token;
    role = Role.gm;
    pj_id = none;
    status = ApiKeyStatus.active;
  }

  unfoldable pub ensure_jdr_api_key : ℕ → Text → User → Db → Db
  ensure_jdr_api_key key token user db =
      if is_some user.api_key_id
      then db
      else update_user_row user.id (λ r. record r { api_key_id = some key })
          (record db { api_keys = insert (internal_api_key key token user.username) db.api_keys })

  abbrev pub new_user : ℕ → ℕ → Text → SystemRole → Text → User
  new_user uid key name role password_hash = record {
    id = uid;
    username = name;
    system_role = role;
    password_hash = password_hash;
    status = UserStatus.active;
    api_key_id = some key;
    default_campaign_id = none;
    deleted_at = none;
    last_login_at = none;
  }

  -- `uid` and `key` are the new identifiers. _username_exists normalises the name once more.
  unfoldable pub create_user : ℕ → ℕ → Text → Text → SystemRole → Text → Db → Result UserError Db
  unfolding normalize_username hash_password
  create_user uid key token username role password db = do
    name ← normalize_username username
    again ← normalize_username name
    guard (not (is_some (first (named again) db.users))) duplicate_user
    password_hash ← hash_password password
    ok (record db {
      api_keys = insert (internal_api_key key token name) db.api_keys;
      users = insert (new_user uid key name role password_hash) db.users;
    })

  -- The lock makes the test and the insertion one step.
  unfoldable pub create_first_gm : ℕ → ℕ → Text → Text → Text → Db → Result UserError Db
  unfolding setup_required create_user
  create_first_gm uid key token username password db = do
    guard (setup_required db) setup_closed
    create_user uid key token username SystemRole.admin password db

  -- `none` is a refused login.
  unfoldable pub authenticate_user :
      ℕ → Text → Text → Text → Db → Result UserError (Option User × Db)
  unfolding normalize_username ensure_jdr_api_key
  authenticate_user key token username password db = do
    name ← normalize_username username
    ok (elim (first (named_active name) db.users) [
      | none ↦ (none, db)
      | some u ↦
          if c.verify u.password_hash password
          then (some u, ensure_jdr_api_key key token u db)
          else (none, db)
    ])

  unfoldable pub create_web_session : ℕ → ℕ → Text → User → Db → Db
  create_web_session now ttl token user db =
      update_user_row user.id (λ r. record r { last_login_at = some now })
        (record db {
          web_sessions =
              insert
                (record {
                  user_id = user.id;
                  token_hash = c.digest token;
                  expires_at = now + ttl;
                  revoked_at = none;
                  last_seen_at = none;
                })
                db.web_sessions;
        })

  -- The session of the token and its user, or `none`; a valid session is marked as seen.
  unfoldable pub validate_web_session : ℕ → Text → Db → Option (User × WebSession) × Db
  validate_web_session now token db = elim (first (token_is (c.digest token)) db.web_sessions) [
    | none ↦ (none, db)
    | some ws ↦ elim (first (user_is ws.user_id) db.users) [
      | none ↦ (none, db)
      | some u ↦
          if is_valid_at now ws u
          then (
            some (u, record ws { last_seen_at = some now }),
            record db {
              web_sessions =
                  update_where (token_is (c.digest token))
                    (λ r. record r { last_seen_at = some now }) db.web_sessions;
            },
          )
          else (none, db)
    ]
  ]

  unfoldable pub revoke_web_session : ℕ → Text → Db → Db
  revoke_web_session now token db = record db {
    web_sessions =
        update_where (λ r. token_is (c.digest token) r && not (is_some r.revoked_at)) (revoke now)
          db.web_sessions;
  }

  abbrev pub closes : UserStatus → Bool
  closes UserStatus.active = false
  closes UserStatus.inactive = true
  closes UserStatus.deleted = true

  abbrev pub closes_opt : Option UserStatus → Bool
  closes_opt none = false
  closes_opt (some s) = closes s

  abbrev pub demotes : Option SystemRole → Bool
  demotes none = false
  demotes (some role) = not (is_admin role)

  abbrev pub with_role : Option SystemRole → User → User
  with_role none r = r
  with_role (some role) r = record r { system_role = role }

  abbrev pub with_password : Option Text → User → User
  with_password none r = r
  with_password (some h) r = record r { password_hash = h }

  abbrev stamp_deleted : ℕ → UserStatus → Option ℕ → Option ℕ
  stamp_deleted now UserStatus.deleted none = some now
  stamp_deleted now _ t = t

  abbrev pub with_status : ℕ → Option UserStatus → User → User
  with_status now none r = r
  with_status now (some s) r = record r {
    status = s;
    deleted_at = stamp_deleted now s r.deleted_at;
  }

  abbrev hash_opt : Option Text → Result UserError (Option Text)
  hash_opt none = ok none
  hash_opt (some p) = do h ← hash_password p; ok (some h)

  abbrev revoke_if : Bool → ℕ → ℕ → Db → Db
  revoke_if b now uid db = if b then revoke_user_sessions now uid db else db

  unfoldable pub update_user :
      ℕ
      → ℕ
      → Text
      → ℕ
      → Option SystemRole
      → Option Text
      → Option UserStatus
      → Db
      → Result UserError Db
  unfolding hash_password ensure_jdr_api_key revoke_user_sessions count_active_admins
  update_user now key token uid role password status db = do
    user ← get_user uid db
    guard
        (not (
          is_active_admin user
          && (demotes role || closes_opt status)
          && leb (count_active_admins db.users) 1))
        last_active_admin
    h ← hash_opt password
    ok (
        ensure_jdr_api_key key token user (
          revoke_if (closes_opt status) now uid (
            update_user_row uid (λ r. with_status now status (with_password h (with_role role r)))
              db)))

  abbrev pub as_deleted : ℕ → User → User
  as_deleted now r = record r { status = UserStatus.deleted; deleted_at = some now }

  unfoldable pub delete_user : ℕ → ℕ → Db → Result UserError Db
  unfolding revoke_user_sessions count_active_admins
  delete_user now uid db = do
    user ← get_user uid db
    guard (not (is_active_admin user && leb (count_active_admins db.users) 1)) last_active_admin
    ok (revoke_user_sessions now uid (update_user_row uid (as_deleted now) db))
