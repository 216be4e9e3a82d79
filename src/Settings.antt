-- ===== src/Settings.antt =====
-- app/services/jdr/local_model_validation.py, and the model settings of an administrator in
-- app/services/jdr/auth_router.py, model_catalog.py and db/repositories.py. A proof that a local
-- model was accepted is a row of `validations`; its identifier is a secret token.
pub mod Catalog
pub mod Patch
pub mod Requests
pub mod Proofs
pub mod Kept
pub mod Invariant
pub mod Adapters
pub mod Reply
mod Tests
use ai_kaeyris.Prelude.{
  ℕ, Bool, true, false, ◌&&◌, ◌+◌, not, Option, none, some, [], ◌==◌, ltb, if◌then◌else◌, is_empty,
  Result, ok, err, guard, require_some, ◌>>=◌, ◌>>◌,
}
use ai_kaeyris.Text.{Text, strip, text_eq}
use ai_kaeyris.Table.{first, insert}
use ai_kaeyris.Models.{Db, User, LocalModelCategory, category_eq, LocalModelValidation, is_admin}
use ai_kaeyris.Users.{user_is}
use ai_kaeyris.Auth.{AuthenticatedKey, Source}
use ai_kaeyris.Jobs.Adapters.{or_else}
use ai_kaeyris.LocalModels.{Host, LocalModelProbeError, normalize_model_path, probe_local_model}

-- The error classes of the settings; a probe that failed keeps its `problem_type`, and
-- `integrity_error` is the refusal of the database, which nothing catches.
pub data SettingsError : Type 0 where
  admin_required local_model_validation_required local_model_validation_expired : SettingsError
  unknown_cloud_model cloud_api_key_invalid integrity_error : SettingsError
  probe_failed : LocalModelProbeError → SettingsError

abbrev signed_in : Source → Option ℕ → Option ℕ
signed_in Source.web_session uid = uid
signed_in _ uid = none

-- `_require_admin_user`
unfoldable pub require_admin_user : AuthenticatedKey → Db → Result SettingsError User
require_admin_user auth db =
    require_some (signed_in auth.source auth.user_id) admin_required >>= λ uid.
    require_some (first (user_is uid) db.users) admin_required >>= λ u.
    guard (is_admin u.system_role) admin_required >> ok u

-- `LocalModelValidationRepository.get_by_hash`
abbrev pub get_by_hash : Text → Db → Option LocalModelValidation
get_by_hash h db = first (λ v. text_eq v.validation_hash h) db.validations

-- A probe that fails is answered with its `problem_type`.
abbrev probed : {A : Type 0} → Result LocalModelProbeError A → Result SettingsError A
probed (ok a) = ok a
probed (err e) = err (probe_failed e)

-- `sha` is the hexadecimal SHA-256 of a text.
module _ (host : Host) (sha : Text → Text) where
  abbrev pub proof_of : ℕ → ℕ → LocalModelCategory → Text → Text → LocalModelValidation
  proof_of expires uid category path token = record {
    validation_hash = sha token;
    user_id = uid;
    category = category;
    path_hash = sha path;
    expires_at = expires;
  }

  -- The validator of `LocalModelValidationRequest` has stripped `model_path`; `token` is
  -- `secrets.token_urlsafe(32)`. An insertion under a key that is there is refused.
  unfoldable pub create_local_model_validation :
      ℕ → ℕ → Text → ℕ → LocalModelCategory → Text → Db → Result SettingsError (Text × Db)
  create_local_model_validation now ttl token uid category model_path db =
      probed (normalize_model_path host model_path) >>= λ path.
      probed (probe_local_model host category path) >>= λ probe.
      elim (get_by_hash (sha token) db) as (λ _. Result SettingsError (Text × Db)) [
        | some v ↦ err integrity_error
        | none ↦ ok (
          token,
          record db {
            validations = insert (proof_of (now + ttl) uid category path token) db.validations;
          },
        )
      ]

  -- Whose proof it is, of what, and for which path.
  abbrev pub proves : ℕ → LocalModelCategory → Text → LocalModelValidation → Bool
  proves uid category path v =
      (v.user_id == uid) && (category_eq v.category category && text_eq v.path_hash (sha path))

  unfoldable pub require_local_model_validation_hash :
      ℕ → ℕ → LocalModelCategory → Option Text → Option Text → Db → Result SettingsError Text
  require_local_model_validation_hash now uid category model_path validation_id db =
      guard (not (is_empty (strip (or_else model_path [])))) local_model_validation_required
      >> (guard (not (is_empty (strip (or_else validation_id [])))) local_model_validation_required
          >> (probed (normalize_model_path host (or_else model_path [])) >>= λ path.
              require_some (get_by_hash (sha (strip (or_else validation_id []))) db)
                local_model_validation_required
              >>= λ v.
                  guard (proves uid category path v) local_model_validation_required
                  >> (guard (ltb now v.expires_at) local_model_validation_expired
                      >> ok v.validation_hash)))
