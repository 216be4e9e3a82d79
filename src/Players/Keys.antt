-- ===== src/Players/Keys.antt =====
-- What a player's key is good for, from its enrolment to its revocation.
use ai_kaeyris.Prelude.{
  ℕ, ◌≡◌, ◌≢◌, refl, subst, Bool, true, false, Option, none, some, List, [], ◌∷◌, arith, is_empty,
  select, ◌==◌, ok, inl, inr,
}
use ai_kaeyris.Text.{Text, strip}
use ai_kaeyris.Table.{first, update_where, insert}
use ai_kaeyris.Models.{Db, ApiKey, ApiKeyStatus, Role}
use ai_kaeyris.Users.{Crypto}
use ai_kaeyris.Auth.{
  Verification, verified, AuthenticatedKey, Source, is_active_key, bearer, list_active_keys,
  require_api_key,
}
use ai_kaeyris.Auth.Grants.{opens, verify_against_registry-first, require_api_key-IsGranted}
use ai_kaeyris.Players.{player_key, enroll_player, key_is, revoke_player}

module _ (verify : Text → Text → Verification) where
  enrolled_first :
      (token : Text) (new : ApiKey) (rows : List ApiKey)
      → is_active_key new.status ≡ true
      → opens verify token new ≡ true
      → first (opens verify token) (select (λ r. is_active_key r.status) rows) ≡ none
      → first (opens verify token) (select (λ r. is_active_key r.status) (insert new rows))
        ≡ some new
  enrolled_first token new [] active e h = ground arith
  enrolled_first token new (r ∷ rows) active e h = ground (arith, enrolled_first token new rows)

  nonempty_of_first :
      (p : ApiKey → Bool) (rows : List ApiKey) (r : ApiKey)
      → first p rows ≡ some r
      → is_empty rows ≡ false
  nonempty_of_first p [] r e = cc
  nonempty_of_first p (x ∷ rows) r e = refl

  -- Whoever is given the token of a newly enrolled player is let in with it as the player, bound to
  -- the character it was enrolled for, when Argon2 verifies the hash it made, the token has no white
  -- space at its ends and opens no key that was there before.
  pub enroll_player-lets_in :
      (c : Crypto) (id now : ℕ) (token name : Text) (pj gm : ℕ) (campaign : Option ℕ) (db db' : Db)
      (key : ApiKey)
      → verify (c.hash token) token ≡ verified
      → strip token ≡ token
      → is_empty token ≡ false
      → first (opens verify token) (list_active_keys db) ≡ none
      → enroll_player c id token name pj gm campaign db ≡ ok (key, db')
      → (require_api_key verify c now (some token) none db').0
        ≡ ok (record {
          id = id;
          name = name;
          role = Role.player;
          pj_id = some pj;
          source = Source.api_key;
          user_id = none;
        })
  unfolding enroll_player require_api_key list_active_keys
  enroll_player-lets_in c id now token name pj gm campaign db db' key good stripped given unused e =
      let new = player_key c id token name pj in
      let found = enrolled_first token new db.api_keys refl (ground (arith, good)) unused in
      ground (
        arith,
        stripped,
        given,
        found,
        nonempty_of_first (opens verify token)
            (select (λ r. is_active_key r.status) (insert new db.api_keys)) new found,
        verify_against_registry-first verify token
            (select (λ r. is_active_key r.status) (insert new db.api_keys)),
      )

  revoked_shut :
      (id : ℕ) (rows : List ApiKey) (token : Text) (r : ApiKey)
      → first (opens verify token) (
          select
            (λ k. is_active_key k.status)
            (update_where (key_is id) (λ k. record k { status = ApiKeyStatus.revoked }) rows))
        ≡ some r
      → (r.id == id) ≡ false
  unfolding update_where
  revoked_shut id [] token r e = cc
  revoked_shut id (k ∷ rows) token r e = ground (arith, revoked_shut id rows token r)

  revoked_keys :
      (id gm : ℕ) (db db' : Db)
      → revoke_player id gm db ≡ (true, db')
      → db'.api_keys
        ≡ update_where (key_is id) (λ k. record k { status = ApiKeyStatus.revoked }) db.api_keys
  unfolding revoke_player
  revoked_keys id gm db db' e = ground (arith, e)

  -- After a player's key is revoked, nobody is let in by a token as that key again.
  pub revoke_player-shuts_out :
      (c : Crypto) (id gm now : ℕ) (credentials cookie : Option Text) (db db' : Db)
      (a : AuthenticatedKey)
      → revoke_player id gm db ≡ (true, db')
      → (require_api_key verify c now credentials cookie db').0 ≡ ok a
      → a.source ≡ Source.api_key
      → a.id ≢ id
  unfolding revoke_player list_active_keys
  revoke_player-shuts_out c id gm now credentials cookie db db' a e granted by_key same =
      elim (require_api_key-IsGranted verify c now credentials cookie db' a granted) [
        | inl (token, r, found, active, identity) ↦ ground (
          arith,
          identity,
          same,
          revoked_shut id db.api_keys (bearer verify credentials) r (
              subst
                (λ rows.
                  first (opens verify (bearer verify credentials))
                    (select (λ k. is_active_key k.status) rows)
                  ≡ some r)
                (revoked_keys id gm db db' e) found),
        )
        | inr (no_token, u, ws, k, given, valid, identity) ↦ ground (arith, identity, by_key)
      ]
