-- ===== src/Users/Login.antt =====
-- Accounts, passwords and the web sessions that a login opens.
use ai_kaeyris.Prelude.{
  ℕ, ◌+◌, ◌≡◌, refl, true, inl, inr, none, some, List, [], ◌∷◌, arith, is_some, leb, if◌then◌else◌,
  ok, err, Result-cases,
}
use ai_kaeyris.Text.{Text, text_eq}
use ai_kaeyris.Text.Equality.{text_eq_refl}
use ai_kaeyris.Table.{first, insert, first-update_where}
use ai_kaeyris.Models.{Db, User, SystemRole, WebSession, is_active}
use ai_kaeyris.Users.{
  duplicate_user, setup_closed, Crypto, user_is, named, token_is, normalize_username, hash_password,
  new_user, named_active, ensure_jdr_api_key, setup_required, create_user, create_first_gm,
  authenticate_user, create_web_session, validate_web_session,
}

-- The first-run setup succeeds at most once.
pub setup_once :
    (c : Crypto) (uid key uid' key' : ℕ) (token username password token' username' password' : Text)
    (db db' : Db)
    → create_first_gm c uid key token username password db ≡ ok db'
    → create_first_gm c uid' key' token' username' password' db' ≡ err setup_closed
unfolding create_first_gm setup_required create_user
setup_once c uid key uid' key' token username password token' username' password' db db' e =
    elim (Result-cases (normalize_username c username)) [
      | inr (x, refused) ↦ ground (arith, refused)
      | inl (name, e_name) ↦ elim (Result-cases (hash_password c password)) [
        | inr (x, refused) ↦ ground (arith, e_name, refused)
        | inl (hashed, e_hash) ↦ ground (arith, e_name, e_hash)
      ]
    ]

first_new :
    (name : Text) (u : User) (rows : List User)
    → first (named name) rows ≡ none
    → named_active name u ≡ true
    → first (named_active name) (insert u rows) ≡ some u
first_new name u [] absent e = ground arith
first_new name u (r ∷ rows) absent e = ground (arith, first_new name u rows)

taken :
    (name : Text) (u : User) (rows : List User)
    → text_eq u.username name ≡ true
    → is_some (first (named name) (insert u rows)) ≡ true
taken name u [] e = ground arith
taken name u (r ∷ rows) e = ground (arith, taken name u rows)

-- A normalised name is normalised: lower case in lower case is the same, and it brings no white
-- space to the ends.
abbrev pub Normalises : Crypto → Type 0
Normalises c =
    (name normal : Text)
    → normalize_username c name ≡ ok normal
    → normalize_username c normal ≡ ok normal

-- When a normalised name is its own normal form: the name of an account is taken, and a second
-- account of the same name is refused.
pub create_user_twice :
    (c : Crypto) (uid key uid' key' : ℕ) (token token' username password password' : Text)
    (role role' : SystemRole) (db db' : Db)
    → Normalises c
    → create_user c uid key token username role password db ≡ ok db'
    → create_user c uid' key' token' username role' password' db' ≡ err duplicate_user
unfolding create_user
create_user_twice c uid key uid' key' token token' username password password' role role' db db'
      norm e =
    elim (Result-cases (normalize_username c username)) [
      | inr (x, refused) ↦ ground (arith, refused)
      | inl (name, e_name) ↦ elim (Result-cases (hash_password c password)) [
        | inr (x, refused) ↦ ground (arith, e_name, refused)
        | inl (hashed, e_hash) ↦ ground (
          arith,
          e_name,
          e_hash,
          norm username name e_name,
          text_eq_refl name,
          taken name (new_user c uid key name role hashed) db.users,
        )
      ]
    ]

-- Who creates an account can log in with its password, when Argon2 verifies the hash it made and a
-- normalised name is its own normal form.
pub create_user-authenticates :
    (c : Crypto) (uid key : ℕ) (token token' username password : Text) (role : SystemRole)
    (db db' : Db)
    → Normalises c
    → c.verify (c.hash password) password ≡ true
    → create_user c uid key token username role password db ≡ ok db'
    → (name : Text) × (normalize_username c username ≡ ok name)
      × (authenticate_user c key token' username password db'
          ≡ ok (some (new_user c uid key name role (c.hash password)), db'))
unfolding create_user authenticate_user hash_password ensure_jdr_api_key
create_user-authenticates c uid key token token' username password role db db' norm verifies e =
    elim (Result-cases (normalize_username c username)) [
      | inr (x, refused) ↦ ground (arith, refused)
      | inl (name, e_name) ↦ (
        name,
        e_name,
        ground (
          arith,
          e_name,
          norm username name e_name,
          text_eq_refl name,
          first_new name (new_user c uid key name role (c.hash password)) db.users,
        ),
      )
    ]

opened :
    (c : Crypto) (token : Text) (r : WebSession) (rows : List WebSession)
    → first (token_is (c.digest token)) rows ≡ none
    → r.token_hash ≡ c.digest token
    → first (token_is (c.digest token)) (insert r rows) ≡ some r
opened c token r [] absent e = ground (arith, text_eq_refl r.token_hash)
opened c token r (x ∷ rows) absent e = ground (arith, opened c token r rows)

-- A web session that is opened for an active account, under a token whose digest is new, is valid
-- for exactly `ttl` seconds: until then its token leads to the account, and from then on to nobody.
pub create_web_session-valid_for :
    (c : Crypto) (now ttl later : ℕ) (token : Text) (u : User) (db : Db)
    → first (token_is (c.digest token)) db.web_sessions ≡ none
    → first (user_is u.id) db.users ≡ some u
    → is_active u.status ≡ true
    → (validate_web_session c later token (create_web_session c now ttl token u db)).0 ≡ (
        if leb (now + ttl) later
        then none
        else some (
          record u { last_login_at = some now },
          record {
            user_id = u.id;
            token_hash = c.digest token;
            expires_at = now + ttl;
            revoked_at = none;
            last_seen_at = some later;
          },
        ))
unfolding create_web_session validate_web_session
create_web_session-valid_for c now ttl later token u db absent present active = ground (
  arith,
  present,
  active,
  opened c token
      (record {
        user_id = u.id;
        token_hash = c.digest token;
        expires_at = now + ttl;
        revoked_at = none;
        last_seen_at = none;
      })
      db.web_sessions absent refl,
  first-update_where (user_is u.id) (λ r. record r { last_login_at = some now }) db.users
      (λ r h. h),
)
