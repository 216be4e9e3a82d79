-- ===== src/Players.antt =====
-- app/services/jdr/logic.py: the keys of players, each bound to a character of its game master.
pub mod Keys
mod Tests
use ai_kaeyris.Prelude.{
  ℕ, Bool, true, false, ◌&&◌, not, Option, none, some, List, [], ◌∷◌, is_some, any, ◌==◌, opt_eq,
  Result, ok, err, guard, ◌>>=◌, ◌>>◌,
}
use ai_kaeyris.Text.{Text, text_eq}
use ai_kaeyris.Table.{first, update_where, insert}
use ai_kaeyris.Models.{Db, ApiKey, ApiKeyStatus, Role, Pj}
use ai_kaeyris.Users.{Crypto}
use ai_kaeyris.Sessions.{owned_pj}

-- `name_taken` is the uniqueness constraint on the names of keys.
pub data PlayerError : Type 0 where
  invalid_player name_taken : PlayerError

abbrev pub player_key : Crypto → ℕ → Text → Text → ℕ → ApiKey
player_key c id token name pj = record {
  id = id;
  name = name;
  hash = c.hash token;
  role = Role.player;
  pj_id = some pj;
  status = ApiKeyStatus.active;
}

-- `id` is the new identifier and `token` the random token, which is returned once.
unfoldable pub enroll_player :
    Crypto → ℕ → Text → Text → ℕ → ℕ → Option ℕ → Db → Result PlayerError (ApiKey × Db)
enroll_player c id token name pj gm campaign db = do
  guard (any (owned_pj gm campaign pj) db.pjs) invalid_player
  guard (not (is_some (first (λ r. text_eq r.name name) db.api_keys))) name_taken
  ok (
    player_key c id token name pj,
    record db { api_keys = insert (player_key c id token name pj) db.api_keys },
  )

abbrev is_player : Role → Bool
is_player Role.gm = false
is_player Role.player = true

abbrev pub key_is : ℕ → ApiKey → Bool
key_is id r = r.id == id

-- The join with the characters of the game master.
abbrev revocable : ℕ → ℕ → List Pj → ApiKey → Bool
revocable id gm pjs r =
    r.id == id
    && is_player r.role
    && any (λ p. opt_eq r.pj_id (some p.id) && p.owner_gm_key_id == gm) pjs

-- `false` when there is no such key.
unfoldable pub revoke_player : ℕ → ℕ → Db → Bool × Db
revoke_player id gm db = elim (first (revocable id gm db.pjs) db.api_keys) [
  | none ↦ (false, db)
  | some r ↦ (
    true,
    record db {
      api_keys =
          update_where (key_is id) (λ k. record k { status = ApiKeyStatus.revoked }) db.api_keys;
    },
  )
]
