-- ===== src/Auth.antt =====
-- app/core/auth.py: bearer keys, their import from the environment, and roles. Argon2 is a parameter.
pub mod Grants
pub mod Bootstrap
mod Tests
use ai_kaeyris.Prelude.{
  ℕ, suc, ◌≡◌, Bool, true, false, ◌&&◌, ◌||◌, not, Option, none, some, List, [], ◌∷◌, ◌++◌, is_some,
  is_empty, select, length, take, ◌==◌, if◌then◌else◌, Result, ok, err, guard, require_some, ◌>>=◌,
  ◌>>◌,
}
use ai_kaeyris.Text.{Text, codes, starts_with, strip}
use ai_kaeyris.Models.{Db, User, WebSession, ApiKey, ApiKeyStatus, Role}
use ai_kaeyris.Users.{Crypto, validate_web_session}

-- What `PasswordHasher.verify` comes to: `True`, `VerifyMismatchError`, or one of the errors on a
-- malformed hash.
pub data Verification : Type 0 where
  verified mismatch malformed : Verification

pub data AuthError : Type 0 where
  no_keys_configured invalid_api_key missing_credentials : AuthError
  role_required : Role → AuthError

pub data Source : Type 0 where
  api_key web_session : Source

pub record AuthenticatedKey : Type 0 where
  pub id : ℕ
  pub name : Text
  pub role : Role
  pub pj_id : Option ℕ
  pub source : Source
  pub user_id : Option ℕ

-- parse_api_keys

pub record ApiKeyEntry : Type 0 where
  pub name : Text
  pub hash : Text

pub data ParseError : Type 0 where
  invalid_entry not_argon2id : ParseError

abbrev onto_head : ℕ → List Text → List Text
onto_head c [] = (c ∷ []) ∷ []
onto_head c (part ∷ parts) = (c ∷ part) ∷ parts

-- `raw.split(sep)`
unfoldable pub split : ℕ → Text → List Text
split sep [] = [] ∷ []
split sep (c ∷ s) = let rest = split sep s in if c == sep then [] ∷ rest else onto_head c rest

abbrev before_colon : ℕ → Option (Text × Text) → Option (Text × Text)
before_colon c none = none
before_colon c (some (name, hash)) = some (c ∷ name, hash)

-- `part.partition(":")`; `none` when there is no colon.
unfoldable pub partition : Text → Option (Text × Text)
partition [] = none
partition (c ∷ s) = let rest = partition s in if c == 58 then some ([], s) else before_colon c rest

unfoldable pub parse_entry : Text → Result ParseError ApiKeyEntry
unfolding partition starts_with
parse_entry part = do
  (name, hash) ← require_some (partition part) invalid_entry
  guard (not (is_empty name || is_empty hash)) invalid_entry
  guard (starts_with (codes "$argon2id$") hash) not_argon2id
  ok (record { name = strip name; hash = strip hash })

unfoldable pub parse_parts : List Text → Result ParseError (List ApiKeyEntry)
unfolding parse_entry
parse_parts [] = ok []
parse_parts (raw ∷ parts) =
    let rest = parse_parts parts in
    if is_empty (strip raw)
    then rest
    else (parse_entry (strip raw) >>= λ entry. rest >>= λ entries. ok (entry ∷ entries))

unfoldable pub parse_api_keys : Text → Result ParseError (List ApiKeyEntry)
unfolding split parse_parts
parse_api_keys raw = if is_empty raw then ok [] else parse_parts (split 59 raw)

-- bootstrap_api_keys_from_env; `fresh` gives the new identifiers.

unfoldable pub imported : (ℕ → ℕ) → ℕ → List ApiKeyEntry → List ApiKey
imported fresh i [] = []
imported fresh i (e ∷ entries) =
    record {
      id = fresh i;
      name = e.name;
      hash = e.hash;
      role = Role.gm;
      pj_id = none;
      status = ApiKeyStatus.active;
    }
    ∷ imported fresh (suc i) entries

-- The number of the inserted rows, and the database.
unfoldable pub bootstrap_api_keys_from_env : (ℕ → ℕ) → Text → Db → Result ParseError (ℕ × Db)
unfolding parse_api_keys imported
bootstrap_api_keys_from_env fresh raw db =
    if is_empty db.api_keys
    then (do
      entries ← parse_api_keys raw
      ok (length entries, record db { api_keys = db.api_keys ++ imported fresh 0 entries }))
    else ok (0, db)

-- Verification

abbrev pub is_active_key : ApiKeyStatus → Bool
is_active_key ApiKeyStatus.active = true
is_active_key ApiKeyStatus.revoked = false

unfoldable pub list_active_keys : Db → List ApiKey
list_active_keys db = select (λ r. is_active_key r.status) db.api_keys

-- A player's key without its PJ cannot be used.
abbrev pub is_misconfigured : ApiKey → Bool
is_misconfigured r = elim r.role [ Role.gm ↦ false | Role.player ↦ not (is_some r.pj_id) ]

abbrev pub authenticated : ApiKey → AuthenticatedKey
authenticated r = record {
  id = r.id;
  name = r.name;
  role = r.role;
  pj_id = r.pj_id;
  source = Source.api_key;
  user_id = none;
}

-- `if matched is None`
abbrev pub keep_first : Option AuthenticatedKey → AuthenticatedKey → Option AuthenticatedKey
keep_first none a = some a
keep_first (some b) a = some b

abbrev pub role_eq : Role → Role → Bool
role_eq Role.gm Role.gm = true
role_eq Role.player Role.player = true
role_eq _ _ = false

-- `Depends(require_role(role))` on what `require_api_key` returned.
unfoldable pub require_role : Role → AuthenticatedKey → Result AuthError AuthenticatedKey
require_role role a = do guard (role_eq a.role role) (role_required role); ok a

module _ (verify : Text → Text → Verification) where
  abbrev pub match : Text → ApiKey → Option AuthenticatedKey → Option AuthenticatedKey
  match token r matched = elim (verify r.hash token) [
    | verified ↦ keep_first matched (authenticated r)
    | mismatch ↦ matched
    | malformed ↦ matched
  ]

  -- The loop goes through every key; `matched` is the first match so far.
  unfoldable pub verify_loop :
      Text → Option AuthenticatedKey → List ApiKey → Option AuthenticatedKey
  verify_loop token matched [] = matched
  verify_loop token matched (r ∷ entries) =
      verify_loop token (if is_misconfigured r then matched else match token r matched) entries

  unfoldable pub verify_against_registry : Text → List ApiKey → Option AuthenticatedKey
  unfolding verify_loop
  verify_against_registry token entries = verify_loop token none entries

  abbrev or_id : Option ℕ → ℕ → ℕ
  or_id none d = d
  or_id (some k) d = k

  abbrev pub authenticated_user : User → AuthenticatedKey
  authenticated_user u = record {
    id = or_id u.api_key_id u.id;
    name = u.username;
    role = Role.gm;
    pj_id = none;
    source = Source.web_session;
    user_id = some u.id;
  }

  -- The bearer token, if the header has one.
  abbrev pub bearer : Option Text → Text
  bearer none = []
  bearer (some credentials) = strip credentials

  abbrev by_token : Text → Db → Result AuthError AuthenticatedKey
  by_token token db = do
    let entries = list_active_keys db
    guard (not (is_empty entries)) no_keys_configured
    require_some (verify_against_registry token entries) invalid_api_key

  abbrev by_session : Option (User × WebSession) → Result AuthError AuthenticatedKey
  by_session none = err missing_credentials
  by_session (some (u, ws)) = ok (authenticated_user u)

  abbrev by_cookie : Crypto → ℕ → Option Text → Db → Result AuthError AuthenticatedKey × Db
  by_cookie c now none db = (err missing_credentials, db)
  by_cookie c now (some []) db = (err missing_credentials, db)
  by_cookie c now (some (k ∷ cookie)) db =
      let (validated, db') = validate_web_session c now (k ∷ cookie) db in
      (by_session validated, db')

  unfoldable pub require_api_key :
      Crypto → ℕ → Option Text → Option Text → Db → Result AuthError AuthenticatedKey × Db
  unfolding list_active_keys verify_against_registry
  require_api_key c now credentials cookie db =
      if is_empty (bearer credentials)
      then by_cookie c now cookie db
      else (by_token (bearer credentials) db, db)
