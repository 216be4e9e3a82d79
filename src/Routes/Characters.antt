-- ===== src/Routes/Characters.antt =====
-- app/services/jdr/router.py: the routes of characters (PJ) and of the keys of players.
use ai_kaeyris.Prelude.{ℕ, Option, none, List, Result, ok, err, guard, require_some, ◌>>=◌, ◌>>◌}
use ai_kaeyris.Text.{Text}
use ai_kaeyris.Models.{Db, Pj, ApiKey}
use ai_kaeyris.Users.{Crypto}
use ai_kaeyris.Auth.{AuthenticatedKey}
use ai_kaeyris.Characters.{
  PjError, duplicate_pj, pj_campaign_resolution, pj_forbidden, pj_assignment, campaign_access,
  create_pj, update_pj, list_pjs,
}
use ai_kaeyris.Routes.Artifacts.{campaign_id_for_auth}
use ai_kaeyris.Players.{PlayerError, invalid_player, name_taken, enroll_player, revoke_player}

-- The error classes of the routes; `unhandled_error` is an
-- exception that no clause catches.
pub data CharacterError : Type 0 where
  duplicate_pj_conflict pj_campaign_required pj_forbidden_error : CharacterError
  invalid_user_assignment pj_not_found : CharacterError
  invalid_player_enrolment player_not_found unhandled_error : CharacterError

-- The `except` clauses of the creation, and of the listing.
abbrev pub creation_error : PjError → CharacterError
creation_error duplicate_pj = duplicate_pj_conflict
creation_error pj_campaign_resolution = pj_campaign_required
creation_error pj_forbidden = pj_forbidden_error
creation_error pj_assignment = invalid_user_assignment
creation_error campaign_access = pj_forbidden_error

-- Those of the change, which hides a character that the caller may not change.
abbrev pub change_error : PjError → CharacterError
change_error duplicate_pj = duplicate_pj_conflict
change_error pj_campaign_resolution = unhandled_error
change_error pj_forbidden = pj_not_found
change_error pj_assignment = invalid_user_assignment
change_error campaign_access = pj_not_found

abbrev answered_by : {E A : Type 0} → (E → CharacterError) → Result E A → Result CharacterError A
answered_by f (ok a) = ok a
answered_by f (err e) = err (f e)

unfoldable pub create_pj_route :
    ℕ → Text → Option ℕ → Option ℕ → AuthenticatedKey → Db → Result CharacterError (Pj × Db)
create_pj_route id name campaign user auth db =
    answered_by creation_error (create_pj id name auth.id campaign user auth.user_id db)

unfoldable pub list_pjs_route : Option ℕ → AuthenticatedKey → Db → Result CharacterError (List Pj)
list_pjs_route campaign auth db =
    answered_by creation_error (list_pjs auth.id campaign auth.user_id db)

unfoldable pub update_pj_route :
    ℕ → Option Text → Option (Option ℕ) → AuthenticatedKey → Db → Result CharacterError (Pj × Db)
update_pj_route pj name user auth db =
    answered_by change_error (update_pj pj auth.id name user none auth.user_id db) >>= λ changed.
    require_some changed pj_not_found

abbrev enrolment_error : PlayerError → CharacterError
enrolment_error invalid_player = invalid_player_enrolment
enrolment_error name_taken = unhandled_error

-- `token` is the random token of the new key, which the answer shows once.
unfoldable pub post_player :
    Crypto
    → ℕ
    → Text
    → Text
    → ℕ
    → AuthenticatedKey
    → Db
    → Result CharacterError ((ApiKey × Text) × Db)
post_player c id token name pj auth db =
    answered_by enrolment_error
      (enroll_player c id token name pj auth.id (campaign_id_for_auth auth db) db)
    >>= λ (key, db'). ok ((key, token), db')

unfoldable pub delete_player : ℕ → AuthenticatedKey → Db → Result CharacterError Db
delete_player id auth db =
    guard (revoke_player id auth.id db).0 player_not_found >> ok (revoke_player id auth.id db).1
