-- ===== src/Users/Tests.antt =====
-- Runs of the accounts, and instances of their theorems.
use ai_kaeyris.Prelude.{ℕ, ◌≡◌, ◌≢◌, refl, arith, Option, none, some, [], ◌∷◌, err}
use ai_kaeyris.Text.{Text, codes, text_eq}
use ai_kaeyris.Table.{update_where}
use ai_kaeyris.Models.{Db, User, UserStatus, SystemRole, WebSession}
use ai_kaeyris.Samples.{empty_db}
use ai_kaeyris.Users.{
  last_active_admin, Crypto, new_user, internal_api_key, hash_password, validate_web_session,
  update_user, delete_user, count_active_admins, ensure_jdr_api_key, revoke_user_sessions,
}
use ai_kaeyris.Users.Admins.{
  AccountRequest, IsAdministered, account_request, account_request-IsAdministered,
}
use ai_kaeyris.Users.Lockout.{update_user-locks_out}

-- A hash that shows its password.
abbrev crypto : Crypto
crypto = record {
  hash = λ p. 36 ∷ p;
  verify = λ h p. text_eq h (36 ∷ p);
  digest = λ t. t;
  lower = λ t. t;
}

abbrev one_admin : Db
one_admin = record empty_db {
  users = new_user crypto 1 11 (codes "mj") SystemRole.admin (36 ∷ codes "pw") ∷ [];
  api_keys = internal_api_key crypto 11 (codes "t") (codes "mj") ∷ [];
}

account_request-IsAdministered_example :
    IsAdministered (account_request crypto (AccountRequest.delete 5 1) one_admin).users
unfolding count_active_admins
account_request-IsAdministered_example =
    account_request-IsAdministered crypto (AccountRequest.delete 5 1) one_admin tt
      ((refl, tt), omega arith)

last_admin_stays : delete_user crypto 5 1 one_admin ≡ err last_active_admin
unfolding delete_user count_active_admins
last_admin_stays = refl

abbrev mj : User
mj = new_user crypto 1 11 (codes "mj") SystemRole.admin (36 ∷ codes "pw")

abbrev joueur : User
joueur = new_user crypto 2 12 (codes "pj") SystemRole.user (36 ∷ codes "pw")

abbrev session_of : ℕ → Text → Option ℕ → WebSession
session_of uid token revoked = record {
  user_id = uid;
  token_hash = token;
  expires_at = 900;
  revoked_at = revoked;
  last_seen_at = none;
}

-- The administrator and a player, each with an open web session.
abbrev two_users : Db
two_users = record one_admin {
  users = mj ∷ joueur ∷ [];
  web_sessions = session_of 1 (codes "a") none ∷ session_of 2 (codes "b") none ∷ [];
}

abbrev player_closed : Db
player_closed = record two_users {
  users = mj ∷ record joueur { status = UserStatus.inactive } ∷ [];
  web_sessions = session_of 1 (codes "a") none ∷ session_of 2 (codes "b") (some 10) ∷ [];
}

abbrev player_back : Db
player_back = record player_closed { users = mj ∷ joueur ∷ [] }

update_user-locks_out_example : mj.id ≢ joueur.id
unfolding update_user hash_password ensure_jdr_api_key revoke_user_sessions count_active_admins
    update_where validate_web_session text_eq
update_user-locks_out_example =
    update_user-locks_out crypto 10 20 30 5 6 2 2 [] [] (codes "a") none none none none
      UserStatus.inactive (some UserStatus.active) two_users player_closed player_back mj
      (record (session_of 1 (codes "a") none) { last_seen_at = some 30 }) refl refl refl refl

player_stays_out : (validate_web_session crypto 30 (codes "b") player_back).0 ≡ none
unfolding validate_web_session text_eq
player_stays_out = refl
