-- ===== src/Auth/Grants.antt =====
-- Whom `require_api_key` lets in.
use ai_kaeyris.Prelude.{
  ℕ, ◌≡◌, refl, Bool, true, false, ◌&&◌, not, ◌⊎◌, ◌<◌, ◌==◌, inl, inr, Option, none, some, List,
  [], ◌∷◌, arith, is_empty, select, ok, Option-cases, Bool-cases,
}
use ai_kaeyris.Text.{Text, text_eq}
use ai_kaeyris.Table.{first}
use ai_kaeyris.Models.{Db, User, WebSession, ApiKey, UserStatus, is_active}
use ai_kaeyris.Users.{Crypto, validate_web_session, user_is, token_is, is_valid_at}
use ai_kaeyris.Auth.{
  Verification, verified, AuthenticatedKey, is_active_key, list_active_keys, is_misconfigured,
  authenticated, verify_loop, verify_against_registry, authenticated_user, bearer, by_token,
  by_cookie, require_api_key,
}

abbrev is_verified : Verification → Bool
is_verified verified = true
is_verified _ = false

abbrev pub identity_of : Option ApiKey → Option AuthenticatedKey
identity_of none = none
identity_of (some r) = some (authenticated r)

module _ (verify : Text → Text → Verification) where
  -- The key opens the door to the token: it is usable, and its hash verifies.
  abbrev pub opens : Text → ApiKey → Bool
  opens token r = not (is_misconfigured r) && is_verified (verify r.hash token)

  abbrev or_first : Option AuthenticatedKey → Option ApiKey → Option AuthenticatedKey
  or_first (some a) o = some a
  or_first none o = identity_of o

  verify_loop_lem :
      (token : Text) (matched : Option AuthenticatedKey) (rows : List ApiKey)
      → verify_loop verify token matched rows ≡ or_first matched (first (opens token) rows)
  unfolding verify_loop
  verify_loop_lem token none [] = refl
  verify_loop_lem token (some a) [] = refl
  verify_loop_lem token none (r ∷ rows) =
      ground (
        arith,
        verify_loop_lem token none rows,
        verify_loop_lem token (some (authenticated r)) rows,
      )
  verify_loop_lem token (some a) (r ∷ rows) = ground (arith, verify_loop_lem token (some a) rows)

  -- The loop over the whole registry, without a short cut, finds the first key that opens to the
  -- token: a player's key without its PJ and a malformed hash never do.
  pub verify_against_registry-first :
      (token : Text) (rows : List ApiKey)
      → verify_against_registry verify token rows ≡ identity_of (first (opens token) rows)
  unfolding verify_against_registry
  verify_against_registry-first token rows = verify_loop_lem token none rows

  -- The cookie names, by its digest, a web session that is not revoked and not past its end, and that
  -- belongs to a user who is active.
  abbrev pub IsOpen : Crypto → ℕ → Text → Db → User → WebSession → Type 0
  IsOpen c now k db u ws =
      (first (λ r. text_eq r.token_hash (c.digest k)) db.web_sessions ≡ some ws)
      × (ws.revoked_at ≡ none)
      × (now < ws.expires_at)
      × (first (λ r. r.id == ws.user_id) db.users ≡ some u)
      × (u.status ≡ UserStatus.active)

  -- The key of the token, or the user of the web session.
  abbrev pub IsGranted : Crypto → ℕ → Option Text → Option Text → Db → AuthenticatedKey → Type 0
  IsGranted c now credentials cookie db a =
      ((is_empty (bearer verify credentials) ≡ false)
        × (r : ApiKey) × (first (opens (bearer verify credentials)) (list_active_keys db) ≡ some r)
        × (is_active_key r.status ≡ true)
        × (a ≡ authenticated r))
      ⊎ ((is_empty (bearer verify credentials) ≡ true)
          × (u : User) × (ws : WebSession) × (k : Text) × (cookie ≡ some k)
          × IsOpen c now k db u ws
          × (a ≡ authenticated_user verify u))

  active_of :
      (token : Text) (rows : List ApiKey) (r : ApiKey)
      → first (opens token) (select (λ x. is_active_key x.status) rows) ≡ some r
      → is_active_key r.status ≡ true
  active_of token [] r e = cc
  active_of token (x ∷ rows) r e = ground (arith, active_of token rows r)

  active_status : (s : UserStatus) → is_active s ≡ true → s ≡ UserStatus.active
  active_status UserStatus.active h = refl
  active_status UserStatus.inactive h = cc
  active_status UserStatus.deleted h = cc

  valid-IsOpen :
      (now : ℕ) (ws : WebSession) (u : User)
      → is_valid_at now ws u ≡ true
      → (ws.revoked_at ≡ none) × (now < ws.expires_at)
  valid-IsOpen now ws u e = elim (Option-cases ws.revoked_at) [
    | inl unrevoked ↦ (unrevoked, ground (arith, unrevoked))
    | inr (t, revoked) ↦ ground (arith, revoked)
  ]

  validate-IsOpen :
      (c : Crypto) (now : ℕ) (k : Text) (db : Db) (u : User) (ws : WebSession)
      → (validate_web_session c now k db).0 ≡ some (u, ws)
      → (r : WebSession) × IsOpen c now k db u r
  unfolding validate_web_session
  validate-IsOpen c now k db u ws e =
      elim (Option-cases (first (token_is (c.digest k)) db.web_sessions)) [
        | inl absent ↦ ground (arith, absent)
        | inr (r, found) ↦ elim (Option-cases (first (user_is r.user_id) db.users)) [
          | inl nobody ↦ ground (arith, found, nobody)
          | inr (v, known) ↦ elim (Bool-cases (is_valid_at now r v)) [
            | inr invalid ↦ ground (arith, found, known, invalid)
            | inl valid ↦
                let (unrevoked, lasting) = valid-IsOpen now r v valid in
                (
                  r,
                  (
                    found,
                    unrevoked,
                    lasting,
                    ground (arith, found, known),
                    active_status u.status (ground (arith, found, known, valid)),
                  ),
                )
          ]
        ]
      ]

  by_token-granted :
      (token : Text) (db : Db) (a : AuthenticatedKey)
      → by_token verify token db ≡ ok a
      → (r : ApiKey) × (first (opens token) (list_active_keys db) ≡ some r)
        × (is_active_key r.status ≡ true)
        × (a ≡ authenticated r)
  unfolding list_active_keys
  by_token-granted token db a e = elim (Option-cases (first (opens token) (list_active_keys db))) [
    | inl absent ↦ ground (arith, absent, verify_against_registry-first token (list_active_keys db))
    | inr (r, found) ↦ (
      r,
      found,
      active_of token db.api_keys r found,
      ground (arith, found, verify_against_registry-first token (list_active_keys db)),
    )
  ]

  by_cookie-granted :
      (c : Crypto) (now : ℕ) (cookie : Option Text) (db : Db) (a : AuthenticatedKey)
      → (by_cookie verify c now cookie db).0 ≡ ok a
      → (u : User) × (ws : WebSession) × (k : Text) × (cookie ≡ some k)
        × IsOpen c now k db u ws
        × (a ≡ authenticated_user verify u)
  by_cookie-granted c now none db a e = cc
  by_cookie-granted c now (some []) db a e = cc
  by_cookie-granted c now (some (k ∷ s)) db a e =
      elim (Option-cases (validate_web_session c now (k ∷ s) db).0) [
        | inl absent ↦ ground (arith, absent)
        | inr ((u, ws), found) ↦
            let (r, valid) = validate-IsOpen c now (k ∷ s) db u ws found in
            (u, r, k ∷ s, refl, valid, ground (arith, found))
      ]

  -- Whoever is let in either presented, in the header, a token that opens an active key, and gets
  -- the identity of the first such key; or presented no token, and has the cookie of a web session of
  -- an active user that is neither revoked nor past its end. A wrong token is never made good by a cookie.
  pub require_api_key-IsGranted :
      (c : Crypto) (now : ℕ) (credentials cookie : Option Text) (db : Db) (a : AuthenticatedKey)
      → (require_api_key verify c now credentials cookie db).0 ≡ ok a
      → IsGranted c now credentials cookie db a
  unfolding require_api_key
  require_api_key-IsGranted c now credentials cookie db a e =
      elim (Bool-cases (is_empty (bearer verify credentials))) [
        | inl no_token ↦
            let (u, ws, k, given, valid, same) =
              by_cookie-granted c now cookie db a (ground (arith, e, no_token)) in
            inr (no_token, u, ws, k, given, valid, same)
        | inr token ↦
            let (r, found, active, same) =
              by_token-granted (bearer verify credentials) db a (ground (arith, e, token)) in
            inl (token, r, found, active, same)
      ]
