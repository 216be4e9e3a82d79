-- ===== src/AccountRoutes/Tests.antt =====
-- Runs of the account routes, and instances of their theorems.
use ai_kaeyris.Prelude.{◌≡◌, refl, arith, some, none, ◌∷◌, ok, err}
use ai_kaeyris.Text.{codes, is_space, strip, lstrip, rstrip, text_eq}
use ai_kaeyris.Text.Strip.{strip-strip}
use ai_kaeyris.Models.{Db, CampaignRole, Role}
use ai_kaeyris.Samples.{empty_db}
use ai_kaeyris.Auth.{AuthenticatedKey, Source}
use ai_kaeyris.Users.{Crypto, normalize_username, hash_password, create_first_gm, delete_user}
use ai_kaeyris.Users.Login.{Normalises}
use ai_kaeyris.Settings.{require_admin_user}
use ai_kaeyris.AccountRoutes.{
  Draw, post_setup, post_logout, get_me, delete_user_route, setup_closed_error,
  admin_required_error, last_active_admin_error, unauthorized,
}
use ai_kaeyris.AccountRoutes.Setup.{after_setup, owner_row, post_setup-opens}
use ai_kaeyris.AccountRoutes.Logout.{post_logout-shuts_out}

abbrev plain : Crypto
plain = record {
  hash = λ p. 36 ∷ p;
  verify = λ h p. text_eq h (36 ∷ p);
  digest = λ t. t;
  lower = λ t. t;
}

plain-Normalises : Normalises plain
unfolding normalize_username
plain-Normalises name normal e = ground (arith, strip-strip name)

abbrev draw : Draw
draw = record {
  uid = 1;
  key = 11;
  cid = 5;
  key_token = codes "k";
  token = codes "c";
  now = 100;
  ttl = 60;
  campaign_name = codes "Campagne";
}

abbrev set_up : Db
set_up = after_setup plain draw (codes "mj") (36 ∷ codes "pw") empty_db

abbrev web_admin : AuthenticatedKey
web_admin = record {
  id = 11;
  name = codes "mj";
  role = Role.gm;
  pj_id = none;
  source = Source.web_session;
  user_id = some 1;
}

post_setup-opens_example :
    (after : Db) × (seen : Db) × (post_setup plain draw (codes " mj") (codes "pw") empty_db
      ≡ ok (codes "c", after))
    × (get_me plain 130 (some (codes "c")) after
        ≡ ok (
          (
            owner_row plain draw (codes "mj") (36 ∷ codes "pw"),
            some (record {
              id = 5;
              name = codes "Campagne";
              role = CampaignRole.gm;
              character_id = none;
            }),
          ),
          seen,
        ))
unfolding normalize_username hash_password strip lstrip rstrip is_space
post_setup-opens_example =
    post_setup-opens plain draw 130 (codes " mj") (codes "pw") (codes "mj") (36 ∷ codes "pw")
      empty_db plain-Normalises (refl, refl, refl, refl) refl refl (ground arith) refl

post_logout-shuts_out_example :
    get_me plain 130 (some (codes "c")) (post_logout plain 120 (some (codes "c")) set_up)
    ≡ err unauthorized
post_logout-shuts_out_example =
    post_logout-shuts_out plain 120 130 (some (codes "c")) set_up
      (post_logout plain 120 (some (codes "c")) set_up) refl

-- The setup is closed once there is an account.
setup_is_closed : post_setup plain draw (codes "x") (codes "pw") set_up ≡ err setup_closed_error
unfolding post_setup create_first_gm
setup_is_closed = refl

keys_are_no_admins :
    delete_user_route plain 120 (record web_admin { source = Source.api_key }) 1 set_up
    ≡ err admin_required_error
unfolding delete_user_route require_admin_user delete_user
keys_are_no_admins = refl

last_admin_is_kept : delete_user_route plain 120 web_admin 1 set_up ≡ err last_active_admin_error
unfolding delete_user_route require_admin_user delete_user
last_admin_is_kept = refl
