-- ===== src/Auth/Tests.antt =====
-- Runs of the authentication, and instances of its theorems.
use ai_kaeyris.Prelude.{ℕ, refl, true, false, none, some, [], ◌∷◌}
use ai_kaeyris.Text.{Text, codes, strip, lstrip, rstrip, is_space, text_eq}
use ai_kaeyris.Models.{Db, ApiKey, ApiKeyStatus, Role}
use ai_kaeyris.Samples.{empty_db}
use ai_kaeyris.Users.{Crypto}
use ai_kaeyris.Auth.{
  Verification, verified, mismatch, malformed, authenticated, verify_loop, verify_against_registry,
  list_active_keys, require_api_key,
}
use ai_kaeyris.Auth.Grants.{IsGranted, require_api_key-IsGranted}

-- The hash of a token is the token.
abbrev verify : Text → Text → Verification
verify [] token = malformed
verify (c ∷ hash) token = elim (text_eq (c ∷ hash) token) [ true ↦ verified | false ↦ mismatch ]

abbrev crypto : Crypto
crypto = record { hash = λ p. p; verify = λ h p. text_eq h p; digest = λ t. t; lower = λ t. t }

abbrev key_with : ℕ → Text → Role → ApiKeyStatus → ApiKey
key_with id hash role status = record {
  id = id;
  name = codes "k";
  hash = hash;
  role = role;
  pj_id = none;
  status = status;
}

-- A revoked key, a player's key without a PJ and a GM's key, all for the token "s".
abbrev three_keys : Db
three_keys = record empty_db {
  api_keys =
      key_with 1 (codes "s") Role.gm ApiKeyStatus.revoked
      ∷ key_with 2 (codes "s") Role.player ApiKeyStatus.active
      ∷ key_with 3 (codes "s") Role.gm ApiKeyStatus.active
      ∷ [];
}

require_api_key-IsGranted_example :
    IsGranted verify crypto 9
      (some (codes " s "))
      none
      three_keys
      (authenticated (key_with 3 (codes "s") Role.gm ApiKeyStatus.active))
unfolding require_api_key list_active_keys verify_against_registry verify_loop strip lstrip rstrip
    is_space text_eq
require_api_key-IsGranted_example =
    require_api_key-IsGranted verify crypto 9 (some (codes " s ")) none three_keys
      (authenticated (key_with 3 (codes "s") Role.gm ApiKeyStatus.active)) refl

abbrev started : Db
started = record empty_db {
  api_keys =
      record {
        id = 40;
        name = codes "mj";
        hash = codes "$argon2id$x";
        role = Role.gm;
        pj_id = none;
        status = ApiKeyStatus.active;
      }
      ∷ [];
}
