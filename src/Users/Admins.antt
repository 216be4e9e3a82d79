-- ===== src/Users/Admins.antt =====
-- The administrators among the accounts, under the account requests of app/core/users.py.
use ai_kaeyris.Prelude.{
  ℕ, ◌≤◌, ◌≡◌, refl, Bool, true, false, ◌&&◌, ◌||◌, inl, inr, Option, some, List, [], arith, select,
  leb, Result, ok, err, Result-cases, Option-cases,
}
use ai_kaeyris.Text.{Text}
use ai_kaeyris.Table.{first, update_where}
use ai_kaeyris.Models.{Db, User, UserStatus, SystemRole}
use ai_kaeyris.Users.{
  UserError, Crypto, user_is, update_user_row, is_active_admin, count_active_admins,
  revoke_user_sessions, ensure_jdr_api_key, create_user, update_user, delete_user, demotes,
  closes_opt, with_role, with_password, with_status, as_deleted, revoke_if, hash_opt,
  normalize_username, hash_password, new_user,
}
use ai_kaeyris.Users.Keyed.{
  Keyed, count-update, count-update_other, count-update_keeps, Keyed-update, Keyed-insert,
  count-insert,
}

-- The accounts have distinct identifiers, and one of them is an active administrator.
abbrev pub IsAdministered : List User → Type 0
IsAdministered users = Keyed users × (1 ≤ count_active_admins users)

-- The requests that change accounts.
pub data AccountRequest : Type 0 where
  create : ℕ → ℕ → Text → Text → SystemRole → Text → AccountRequest
  update : ℕ → ℕ → Text → ℕ → Option SystemRole → Option Text → Option UserStatus → AccountRequest
  delete : ℕ → ℕ → AccountRequest

-- A new account takes an identifier that no other has.
abbrev pub TakesFreshId : AccountRequest → Db → Type 0
TakesFreshId (create uid key token name role password) db = select (user_is uid) db.users ≡ []
TakesFreshId _ db = Unit

-- Commit, or roll back.
abbrev settled : Result UserError Db → Db → Db
settled (ok db') db = db'
settled (err e) db = db

unfoldable pub account_request : Crypto → AccountRequest → Db → Db
account_request c (create uid key token name role password) db =
    settled (create_user c uid key token name role password db) db
account_request c (update now key token uid role password status) db =
    settled (update_user c now key token uid role password status db) db
account_request c (delete now uid) db = settled (delete_user c now uid db) db

users-revoke_user_sessions :
    (now uid : ℕ) (db : Db) → (revoke_user_sessions now uid db).users ≡ db.users
unfolding revoke_user_sessions
users-revoke_user_sessions now uid db = refl

users-revoke_if :
    (c : Crypto) (b : Bool) (now uid : ℕ) (db : Db) → (revoke_if c b now uid db).users ≡ db.users
users-revoke_if c true now uid db = users-revoke_user_sessions now uid db
users-revoke_if c false now uid db = refl

ensure_jdr_api_key-IsAdministered :
    (c : Crypto) (key : ℕ) (token : Text) (user : User) (db : Db)
    → IsAdministered db.users
    → IsAdministered (ensure_jdr_api_key c key token user db).users
unfolding ensure_jdr_api_key
ensure_jdr_api_key-IsAdministered c key token user db h = ground (
  arith,
  h,
  Keyed-update user.id (λ r. record r { api_key_id = some key }) db.users (λ r. refl) h.0,
  count-update_keeps user.id (λ r. record r { api_key_id = some key }) db.users (λ r k. k),
)

-- The change of an account that `update_user` makes.
abbrev changed : Crypto → ℕ → Option SystemRole → Option Text → Option UserStatus → User → User
changed c now role h status r = with_status c now status (with_password c h (with_role c role r))

changed_same :
    (c : Crypto) (now : ℕ) (role : Option SystemRole) (h : Option Text) (status : Option UserStatus)
    (r : User)
    → (changed c now role h status r).id ≡ r.id
changed_same c now role h status r = ground arith

changed_keeps :
    (c : Crypto) (now : ℕ) (role : Option SystemRole) (h : Option Text) (status : Option UserStatus)
    → (demotes c role || closes_opt c status) ≡ false
    → (r : User) → is_active_admin r ≡ true
    → is_active_admin (changed c now role h status r) ≡ true
changed_keeps c now role h status e r k = ground arith

-- The guard of an operation that may take an administrator away: `risky` says that it does.
guarded-IsAdministered :
    (uid : ℕ) (f : User → User) (risky : Bool) (u : User) (rows : List User)
    → ((r : User) → (f r).id ≡ r.id)
    → (risky ≡ false → (r : User) → is_active_admin r ≡ true → is_active_admin (f r) ≡ true)
    → first (user_is uid) rows ≡ some u
    → (is_active_admin u && risky && leb (count_active_admins rows) 1) ≡ false
    → IsAdministered rows
    → IsAdministered (update_where (user_is uid) f rows)
guarded-IsAdministered uid f false u rows same keeps e safe h = (
  Keyed-update uid f rows same h.0,
  omega (arith, h.1, count-update_keeps uid f rows (keeps refl)),
)
guarded-IsAdministered uid f true u rows same keeps e safe h = (
  Keyed-update uid f rows same h.0,
  ground (arith, h, safe, count-update uid f rows h.0, count-update_other uid f rows u h.0 e),
)

update_user-IsAdministered :
    (c : Crypto) (now key : ℕ) (token : Text) (uid : ℕ) (role : Option SystemRole)
    (password : Option Text) (status : Option UserStatus) (db db' : Db)
    → IsAdministered db.users
    → update_user c now key token uid role password status db ≡ ok db'
    → IsAdministered db'.users
unfolding update_user
update_user-IsAdministered c now key token uid role password status db db' h e =
    elim (Option-cases (first (user_is uid) db.users)) [
      | inl absent ↦ ground (arith, absent)
      | inr (u, found) ↦ elim (Result-cases (hash_opt c password)) [
        | inr (x, refused) ↦ ground (arith, found, refused)
        | inl (hashed, e_hash) ↦
            let f = changed c now role hashed status in
            let closed = revoke_if c (closes_opt c status) now uid (update_user_row uid f db) in
            ground (
              arith,
              found,
              e_hash,
              users-revoke_if c (closes_opt c status) now uid (update_user_row uid f db),
              ensure_jdr_api_key-IsAdministered c key token u closed,
              guarded-IsAdministered uid f (demotes c role || closes_opt c status) u db.users
                  (changed_same c now role hashed status) (changed_keeps c now role hashed status)
                  found,
            )
      ]
    ]

delete_user-IsAdministered :
    (c : Crypto) (now uid : ℕ) (db db' : Db)
    → IsAdministered db.users
    → delete_user c now uid db ≡ ok db'
    → IsAdministered db'.users
unfolding delete_user
delete_user-IsAdministered c now uid db db' h e =
    elim (Option-cases (first (user_is uid) db.users)) [
      | inl absent ↦ ground (arith, absent)
      | inr (u, found) ↦ ground (
        arith,
        found,
        users-revoke_user_sessions now uid (update_user_row uid (as_deleted c now) db),
        guarded-IsAdministered uid (as_deleted c now) true u db.users (λ r. refl) (λ e. cc) found,
      )
    ]

create_user-IsAdministered :
    (c : Crypto) (uid key : ℕ) (token name : Text) (role : SystemRole) (password : Text)
    (db db' : Db)
    → select (user_is uid) db.users ≡ []
    → IsAdministered db.users
    → create_user c uid key token name role password db ≡ ok db'
    → IsAdministered db'.users
unfolding create_user
create_user-IsAdministered c uid key token name role password db db' fresh h e =
    elim (Result-cases (normalize_username c name)) [
      | inr (x, refused) ↦ ground (arith, refused)
      | inl (normal, e_name) ↦ elim (Result-cases (hash_password c password)) [
        | inr (x, refused) ↦ ground (arith, e_name, refused)
        | inl (hashed, e_hash) ↦
            let u = new_user c uid key normal role hashed in
            ground
              (arith, e_name, e_hash, h, Keyed-insert u db.users fresh h.0, count-insert u db.users)
      ]
    ]

-- A request on accounts never leaves the system without an active administrator, when there is one
-- and the accounts have distinct identifiers, provided that a new account takes a fresh identifier.
pub account_request-IsAdministered :
    (c : Crypto) (r : AccountRequest) (db : Db)
    → TakesFreshId r db
    → IsAdministered db.users
    → IsAdministered (account_request c r db).users
unfolding account_request
account_request-IsAdministered c (create uid key token name role password) db fresh h =
    elim (Result-cases (create_user c uid key token name role password db)) [
      | inl (db', e) ↦
          ground (
            arith,
            e,
            create_user-IsAdministered c uid key token name role password db db' fresh h e,
          )
      | inr (x, e) ↦ ground (arith, e, h)
    ]
account_request-IsAdministered c (update now key token uid role password status) db fresh h =
    elim (Result-cases (update_user c now key token uid role password status db)) [
      | inl (db', e) ↦
          ground (
            arith,
            e,
            update_user-IsAdministered c now key token uid role password status db db' h e,
          )
      | inr (x, e) ↦ ground (arith, e, h)
    ]
account_request-IsAdministered c (delete now uid) db fresh h =
    elim (Result-cases (delete_user c now uid db)) [
      | inl (db', e) ↦ ground (arith, e, delete_user-IsAdministered c now uid db db' h e)
      | inr (x, e) ↦ ground (arith, e, h)
    ]
