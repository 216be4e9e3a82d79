-- ===== src/AccountRoutes/Setup.antt =====
-- The first-run setup of a fresh system.
use ai_kaeyris.Prelude.{ℕ, ◌≡◌, ◌+◌, ◌<◌, true, none, some, [], ◌∷◌, arith, ok, ==_refl}
use ai_kaeyris.Text.{Text}
use ai_kaeyris.Text.Equality.{text_eq_refl}
use ai_kaeyris.Table.{insert, update_where}
use ai_kaeyris.Models.{Db, User, UserStatus, SystemRole, CampaignRole}
use ai_kaeyris.Jobs.Adapters.{or_else, or_else-some, truthy}
use ai_kaeyris.Users.{
  Crypto, internal_api_key, normalize_username, hash_password, create_user, create_first_gm,
  setup_required, create_web_session, validate_web_session,
}
use ai_kaeyris.Users.Login.{Normalises}
use ai_kaeyris.Access.{
  ensure_default_campaign, ensure_user_membership, resolve_active_campaign_for_user, default_joined,
  first_joined,
}
use ai_kaeyris.AccountRoutes.{Draw, post_setup, get_me}

-- Nothing of accounts and campaigns is there yet.
abbrev pub IsFresh : Db → Type 0
IsFresh db = (db.users ≡ []) × (db.web_sessions ≡ []) × (db.campaigns ≡ []) × (db.members ≡ [])

abbrev pub owner_row : Crypto → Draw → Text → Text → User
owner_row c d name hashed = record {
  id = d.uid;
  username = name;
  system_role = SystemRole.admin;
  password_hash = hashed;
  status = UserStatus.active;
  api_key_id = some d.key;
  default_campaign_id = some d.cid;
  deleted_at = none;
  last_login_at = some d.now;
}

abbrev pub after_setup : Crypto → Draw → Text → Text → Db → Db
after_setup c d name hashed db = record db {
  users = owner_row c d name hashed ∷ [];
  api_keys = insert (internal_api_key c d.key d.key_token name) db.api_keys;
  web_sessions =
      record {
        user_id = d.uid;
        token_hash = c.digest d.token;
        expires_at = d.now + d.ttl;
        revoked_at = none;
        last_seen_at = none;
      }
      ∷ [];
  campaigns =
      record { id = d.cid; name = d.campaign_name; description = none; owner_user_id = d.uid } ∷ [];
  members =
      record { user_id = d.uid; campaign_id = d.cid; role = CampaignRole.gm; character_id = none }
      ∷ [];
}

post_setup-after :
    (c : Crypto) (d : Draw) (username password name hashed : Text) (db : Db)
    → IsFresh db
    → normalize_username c username ≡ ok name
    → normalize_username c name ≡ ok name
    → hash_password c password ≡ ok hashed
    → post_setup c d username password db ≡ ok (d.token, after_setup c d name hashed db)
unfolding post_setup create_first_gm create_user setup_required create_web_session
    ensure_default_campaign ensure_user_membership update_where
post_setup-after c d username password name hashed db
      (no_users, no_sessions, no_campaigns, no_members) e_name again e_hash =
    ground (arith, ==_refl d.uid, ==_refl d.cid)

get_me-after :
    (c : Crypto) (d : Draw) (now : ℕ) (name hashed : Text) (db : Db)
    → now < d.now + d.ttl
    → truthy (some d.token) ≡ true
    → (db' : Db) × (get_me c now (some d.token) (after_setup c d name hashed db)
        ≡ ok (
          (
            owner_row c d name hashed,
            some (record {
              id = d.cid;
              name = d.campaign_name;
              role = CampaignRole.gm;
              character_id = none;
            }),
          ),
          db',
        ))
unfolding get_me validate_web_session resolve_active_campaign_for_user default_joined first_joined
get_me-after c d now name hashed db in_time drawn = (
  (validate_web_session c now (or_else (some d.token) []) (after_setup c d name hashed db)).1,
  ground
      (arith, or_else-some d.token, text_eq_refl (c.digest d.token), ==_refl d.uid, ==_refl d.cid),
)

-- The first-run setup of a fresh system answers with a cookie, and until the web session expires
-- the bearer of the cookie is shown as an administrator of the chosen name and as the game master of
-- the default campaign. The name and the password are not blank, a normalised name is its own normal
-- form, and tokens are not empty.
pub post_setup-opens :
    (c : Crypto) (d : Draw) (now : ℕ) (username password name hashed : Text) (db : Db)
    → Normalises c
    → IsFresh db
    → normalize_username c username ≡ ok name
    → hash_password c password ≡ ok hashed
    → now < d.now + d.ttl
    → truthy (some d.token) ≡ true
    → (after : Db) × (seen : Db) × (post_setup c d username password db ≡ ok (d.token, after))
      × (get_me c now (some d.token) after
          ≡ ok (
            (
              owner_row c d name hashed,
              some (record {
                id = d.cid;
                name = d.campaign_name;
                role = CampaignRole.gm;
                character_id = none;
              }),
            ),
            seen,
          ))
post_setup-opens c d now username password name hashed db norm fresh e_name e_hash in_time drawn =
    let (seen, shown) = get_me-after c d now name hashed db in_time drawn in
    (
      after_setup c d name hashed db,
      seen,
      post_setup-after c d username password name hashed db fresh e_name (norm username name e_name)
          e_hash,
      shown,
    )
