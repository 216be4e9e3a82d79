-- ===== src/AccountRoutes/Logout.antt =====
-- The end of a web session.
use ai_kaeyris.Prelude.{
  ℕ, ◌≡◌, true, ◌&&◌, not, Option, some, List, [], ◌∷◌, arith, is_some, err, inl, inr, Option-cases,
}
use ai_kaeyris.Text.{Text}
use ai_kaeyris.Table.{first, update_where}
use ai_kaeyris.Models.{Db, WebSession}
use ai_kaeyris.Jobs.Adapters.{or_else}
use ai_kaeyris.Users.{Crypto, token_is, revoke, revoke_web_session, validate_web_session}
use ai_kaeyris.AccountRoutes.{post_logout, get_me, unauthorized}

revoked_first :
    (now : ℕ) (h : Text) (rows : List WebSession) (ws : WebSession)
    → first
        (token_is h)
        (update_where (λ r. token_is h r && not (is_some r.revoked_at)) (revoke now) rows)
      ≡ some ws
    → is_some ws.revoked_at ≡ true
unfolding update_where
revoked_first now h [] ws found = cc
revoked_first now h (r ∷ rows) ws found = ground (arith, revoked_first now h rows ws)

-- After a logout the cookie is refused, at whatever time and however the other tables look, while the
-- table of web sessions is as the logout left it.
pub post_logout-shuts_out :
    (c : Crypto) (now later : ℕ) (cookie : Option Text) (db db' : Db)
    → db'.web_sessions ≡ (post_logout c now cookie db).web_sessions
    → get_me c later cookie db' ≡ err unauthorized
unfolding post_logout get_me validate_web_session revoke_web_session
post_logout-shuts_out c now later cookie db db' same =
    elim (Option-cases (first (token_is (c.digest (or_else cookie []))) db'.web_sessions)) [
      | inl absent ↦ ground arith
      | inr (ws, found) ↦
          ground (arith, revoked_first now (c.digest (or_else cookie [])) db.web_sessions ws)
    ]
