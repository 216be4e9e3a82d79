-- ===== src/Players/Tests.antt =====
-- Instances of the theorems on players' keys.
use ai_kaeyris.Prelude.{◌≡◌, ◌≢◌, refl, true, false, none, some, [], ◌∷◌, ok}
use ai_kaeyris.Text.{Text, codes, strip, lstrip, rstrip, is_space, text_eq}
use ai_kaeyris.Table.{update_where}
use ai_kaeyris.Models.{Db, ApiKey, ApiKeyStatus, Role}
use ai_kaeyris.Samples.{empty_db, pj_of_gm}
use ai_kaeyris.Users.{Crypto}
use ai_kaeyris.Auth.{
  Verification, verified, mismatch, Source, authenticated, list_active_keys, require_api_key,
  verify_against_registry, verify_loop,
}
use ai_kaeyris.Players.{player_key, enroll_player, revoke_player}
use ai_kaeyris.Players.Keys.{enroll_player-lets_in, revoke_player-shuts_out}

abbrev crypto : Crypto
crypto = record { hash = λ p. p; verify = λ h p. text_eq h p; digest = λ t. t; lower = λ t. t }

abbrev verify : Text → Text → Verification
verify hash token = elim (text_eq hash token) [ true ↦ verified | false ↦ mismatch ]

abbrev one_pj : Db
one_pj = record empty_db { pjs = pj_of_gm 4 ∷ [] }

abbrev aria_key : ApiKey
aria_key = player_key crypto 30 (codes "s") (codes "aria") 4

abbrev enrolled : Db
enrolled = record one_pj { api_keys = aria_key ∷ [] }

enroll_player-lets_in_example :
    (require_api_key verify crypto 9 (some (codes "s")) none enrolled).0
    ≡ ok (record {
      id = 30;
      name = codes "aria";
      role = Role.player;
      pj_id = some 4;
      source = Source.api_key;
      user_id = none;
    })
unfolding enroll_player list_active_keys strip lstrip rstrip is_space text_eq
enroll_player-lets_in_example =
    enroll_player-lets_in verify crypto 30 9 (codes "s") (codes "aria") 4 7 none one_pj enrolled
      aria_key refl refl refl refl refl

-- A second key of the same token stays when the first is revoked.
abbrev bram_key : ApiKey
bram_key = player_key crypto 31 (codes "s") (codes "bram") 4

abbrev revoked : Db
revoked = record one_pj {
  api_keys = record aria_key { status = ApiKeyStatus.revoked } ∷ bram_key ∷ [];
}

revoke_player-shuts_out_example : bram_key.id ≢ aria_key.id
unfolding revoke_player update_where require_api_key list_active_keys verify_against_registry
    verify_loop strip lstrip rstrip is_space text_eq
revoke_player-shuts_out_example =
    revoke_player-shuts_out verify crypto 30 7 9 (some (codes "s")) none
      (record one_pj { api_keys = aria_key ∷ bram_key ∷ [] }) revoked (authenticated bram_key) refl
      refl refl
