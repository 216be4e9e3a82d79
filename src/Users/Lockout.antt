-- ===== src/Users/Lockout.antt =====
-- The web sessions of an account that is deactivated or whose password is changed.
use ai_kaeyris.Prelude.{
  ℕ, ◌≡◌, ◌≢◌, Bool, true, false, inl, inr, Option, some, List, [], ◌∷◌, arith, is_some, ok,
  Result-cases, Option-cases,
}
use ai_kaeyris.Text.{Text}
use ai_kaeyris.Table.{first, update_where, first-holds}
use ai_kaeyris.Models.{Db, User, UserStatus, SystemRole, WebSession}
use ai_kaeyris.Users.{
  Crypto, user_is, token_is, update_user_row, open_session_of, revoke, revoke_user_sessions,
  ensure_jdr_api_key, validate_web_session, update_user, closes, closes_opt, revoke_if, hash_opt,
  with_role, with_password, with_status,
}

-- Every web session of the user is revoked.
abbrev pub IsLockedOut : ℕ → List WebSession → Type 0
IsLockedOut uid [] = Unit
IsLockedOut uid (r ∷ rows) = (r.user_id ≡ uid → is_some r.revoked_at ≡ true) × IsLockedOut uid rows

revoked-IsLockedOut :
    (now uid : ℕ) (rows : List WebSession)
    → IsLockedOut uid (update_where (open_session_of uid) (revoke now) rows)
unfolding update_where
revoked-IsLockedOut now uid [] = tt
revoked-IsLockedOut now uid (r ∷ rows) = ground (arith, revoked-IsLockedOut now uid rows)

-- No token of a revoked session is accepted.
found-IsLockedOut :
    (h : Text) (uid : ℕ) (rows : List WebSession) (ws : WebSession)
    → IsLockedOut uid rows
    → first (token_is h) rows ≡ some ws
    → ws.user_id ≡ uid
    → is_some ws.revoked_at ≡ true
found-IsLockedOut h uid [] ws l e k = cc
found-IsLockedOut h uid (r ∷ rows) ws l e k = ground (arith, l, found-IsLockedOut h uid rows ws l.1)

validate-IsLockedOut :
    (c : Crypto) (now uid : ℕ) (token : Text) (db : Db) (u : User) (ws : WebSession)
    → IsLockedOut uid db.web_sessions
    → (validate_web_session c now token db).0 ≡ some (u, ws)
    → u.id ≢ uid
unfolding validate_web_session
validate-IsLockedOut c now uid token db u ws l e k =
    elim (Option-cases (first (token_is (c.digest token)) db.web_sessions)) [
      | inl absent ↦ ground (arith, absent)
      | inr (r, found) ↦ elim (Option-cases (first (user_is r.user_id) db.users)) [
        | inl absent ↦ ground (arith, found, absent)
        | inr (owner, owned) ↦ ground (
          arith,
          found,
          owned,
          first-holds (user_is r.user_id) db.users {r = owner} owned,
          found-IsLockedOut (c.digest token) uid db.web_sessions r l found,
        )
      ]
    ]

sessions-ensure_jdr_api_key :
    (c : Crypto) (key : ℕ) (token : Text) (u : User) (db : Db)
    → (ensure_jdr_api_key c key token u db).web_sessions ≡ db.web_sessions
unfolding ensure_jdr_api_key
sessions-ensure_jdr_api_key c key token u db = ground arith

IsLockedOut-revoke :
    (now uid other : ℕ) (rows : List WebSession)
    → IsLockedOut uid rows
    → IsLockedOut uid (update_where (open_session_of other) (revoke now) rows)
unfolding update_where
IsLockedOut-revoke now uid other [] h = tt
IsLockedOut-revoke now uid other (r ∷ rows) h =
    ground (arith, h, IsLockedOut-revoke now uid other rows h.1)

revoke_if-IsLockedOut :
    (c : Crypto) (b : Bool) (now uid other : ℕ) (db : Db)
    → IsLockedOut uid db.web_sessions
    → IsLockedOut uid (revoke_if c b now other db).web_sessions
unfolding revoke_user_sessions
revoke_if-IsLockedOut c true now uid other db h = IsLockedOut-revoke now uid other db.web_sessions h
revoke_if-IsLockedOut c false now uid other db h = h

-- A change of an account leaves the others' revoked sessions revoked, and its own.
update_user-keeps_locked :
    (c : Crypto) (now key : ℕ) (token : Text) (uid locked : ℕ) (role : Option SystemRole)
    (password : Option Text) (status : Option UserStatus) (db db' : Db)
    → IsLockedOut locked db.web_sessions
    → update_user c now key token uid role password status db ≡ ok db'
    → IsLockedOut locked db'.web_sessions
unfolding update_user
update_user-keeps_locked c now key token uid locked role password status db db' h e =
    elim (Option-cases (first (user_is uid) db.users)) [
      | inl absent ↦ ground (arith, absent)
      | inr (u, found) ↦ elim (Result-cases (hash_opt c password)) [
        | inr (x, refused) ↦ ground (arith, found, refused)
        | inl (hashed, e_hash) ↦
            let row =
              update_user_row uid
                (λ r. with_status c now status (with_password c hashed (with_role c role r))) db in
            ground (
              arith,
              found,
              e_hash,
              sessions-ensure_jdr_api_key c key token u
                  (revoke_if c (closes_opt c status) now uid row),
              revoke_if-IsLockedOut c (closes_opt c status) now locked uid row h,
            )
      ]
    ]

update_user-IsLockedOut :
    (c : Crypto) (now key : ℕ) (token : Text) (uid : ℕ) (role : Option SystemRole)
    (password : Option Text) (status : UserStatus) (db db' : Db)
    → closes c status ≡ true
    → update_user c now key token uid role password (some status) db ≡ ok db'
    → IsLockedOut uid db'.web_sessions
unfolding update_user revoke_user_sessions
update_user-IsLockedOut c now key token uid role password status db db' closing e =
    elim (Option-cases (first (user_is uid) db.users)) [
      | inl absent ↦ ground (arith, absent)
      | inr (u, found) ↦ elim (Result-cases (hash_opt c password)) [
        | inr (x, refused) ↦ ground (arith, found, refused)
        | inl (hashed, e_hash) ↦
            let row =
              update_user_row uid
                (λ r. with_status c now (some status) (with_password c hashed (with_role c role r)))
                db in
            ground (
              arith,
              found,
              e_hash,
              closing,
              sessions-ensure_jdr_api_key c key token u (revoke_user_sessions now uid row),
              revoked-IsLockedOut now uid db.web_sessions,
            )
      ]
    ]

-- When an account is deactivated or deleted by `update_user`, a later change of any account, even
-- one that reactivates this one, does not bring back the web sessions that were open: no token
-- leads to the account.
pub update_user-locks_out :
    (c : Crypto) (now later at key key' uid other : ℕ) (token token' cookie : Text)
    (role role' : Option SystemRole) (password password' : Option Text) (status : UserStatus)
    (status' : Option UserStatus) (db db1 db2 : Db) (u : User) (ws : WebSession)
    → closes c status ≡ true
    → update_user c now key token uid role password (some status) db ≡ ok db1
    → update_user c later key' token' other role' password' status' db1 ≡ ok db2
    → (validate_web_session c at cookie db2).0 ≡ some (u, ws)
    → u.id ≢ uid
update_user-locks_out c now later at key key' uid other token token' cookie role role' password
      password' status status' db db1 db2 u ws closing e1 e2 accepted =
    validate-IsLockedOut c at uid cookie db2 u ws
      (update_user-keeps_locked c later key' token' other uid role' password' status' db1 db2
        (update_user-IsLockedOut c now key token uid role password status db db1 closing e1) e2)
      accepted
