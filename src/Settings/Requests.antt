-- ===== src/Settings/Requests.antt =====
-- app/services/jdr/auth_router.py: the requests on the model settings. `call_llm` and
-- `call_transcription` are what a cloud answers to a first call with a model and a key; `lower` is
-- `str.lower`.
use ai_kaeyris.Prelude.{
  ℕ, Bool, true, false, ◌&&◌, ◌||◌, not, Option, none, some, [], ◌∷◌, any, if◌then◌else◌, Result,
  ok, err, guard, ◌>>=◌, ◌>>◌,
}
use ai_kaeyris.Text.{Text, codes, starts_with}
use ai_kaeyris.Models.{Db, ModelSettings, LocalModelCategory}
use ai_kaeyris.Auth.{AuthenticatedKey}
use ai_kaeyris.Jobs.Adapters.{or_else, truthy}
use ai_kaeyris.LocalModels.{Host}
use ai_kaeyris.Settings.{
  SettingsError, unknown_cloud_model, cloud_api_key_invalid, require_admin_user,
  require_local_model_validation_hash, create_local_model_validation,
}
use ai_kaeyris.Settings.Catalog.{
  is_allowed_transcription_cloud_model, is_allowed_summary_cloud_model,
}
use ai_kaeyris.Settings.Patch.{
  ModelSettingsPatch, value_of, if_set, opt_text_eq, get_for_user, patched, upsert_for_user,
  needs_validation, effective_path, proof_field,
}

-- `marker in message`
unfoldable pub contains : Text → Text → Bool
unfolding starts_with
contains marker [] = starts_with marker []
contains marker (c ∷ message) = starts_with marker (c ∷ message) || contains marker message

-- What a call of a cloud model comes to: an answer, a transient error, or a permanent error with
-- its message.
pub data CloudReply : Type 0 where
  accepted transiently_failed : CloudReply
  refused : Text → CloudReply

pub record Cloud : Type 0 where
  pub call_llm : Text → Text → CloudReply
  pub call_transcription : Text → Text → CloudReply
  pub lower : Text → Text

-- Only ids that are given and not empty are looked up.
abbrev allowed_or_absent : (Text → Bool) → Option Text → Bool
allowed_or_absent is_allowed model = not (truthy model) || is_allowed (or_else model [])

unfoldable pub validate_cloud_models_in_catalog :
    ModelSettingsPatch → Result SettingsError (Unit {0})
validate_cloud_models_in_catalog p =
    guard
      (allowed_or_absent is_allowed_transcription_cloud_model
        (value_of p.transcription_cloud_model))
      unknown_cloud_model
    >> guard (allowed_or_absent is_allowed_summary_cloud_model (value_of p.summary_cloud_model))
        unknown_cloud_model

module _ (cloud : Cloud) where
  unfoldable pub looks_like_cloud_auth_error : Text → Bool
  unfolding contains
  looks_like_cloud_auth_error message =
      any (λ marker. contains marker (cloud.lower message))
        (codes "401"
          ∷ codes "403"
          ∷ codes "authentication"
          ∷ codes "forbidden"
          ∷ codes "invalid_api_key"
          ∷ codes "unauthorized"
          ∷ [])

  llm_key_answer : CloudReply → Result SettingsError (Unit {0})
  llm_key_answer accepted = ok tt
  llm_key_answer transiently_failed = ok tt
  llm_key_answer (refused message) = err cloud_api_key_invalid

  unfoldable pub probe_cloud_llm_key : Text → Text → Result SettingsError (Unit {0})
  unfolding llm_key_answer
  probe_cloud_llm_key model api_key = llm_key_answer (cloud.call_llm model api_key)

  transcription_key_answer : CloudReply → Result SettingsError (Unit {0})
  unfolding looks_like_cloud_auth_error
  transcription_key_answer accepted = ok tt
  transcription_key_answer transiently_failed = ok tt
  transcription_key_answer (refused message) =
      guard (not (looks_like_cloud_auth_error message)) cloud_api_key_invalid

  unfoldable pub probe_cloud_transcription_key : Text → Text → Result SettingsError (Unit {0})
  unfolding transcription_key_answer
  probe_cloud_transcription_key model api_key =
      transcription_key_answer (cloud.call_transcription model api_key)

  abbrev stored : (ModelSettings → Option Text) → Option ModelSettings → Option Text
  stored column none = none
  stored column (some r) = column r

  -- Whether a model that is given differs from the one of a row that there is.
  abbrev changes :
      Option (Option Text) → (ModelSettings → Option Text) → Option ModelSettings → Bool
  changes field column none = false
  changes field column (some r) =
      truthy (value_of field) && not (opt_text_eq (value_of field) (column r))

  -- A model is probed with a new key, or when it has changed.
  abbrev must_probe :
      ModelSettingsPatch
      → Option (Option Text)
      → (ModelSettings → Option Text)
      → Option ModelSettings
      → Bool
  must_probe p field column current =
      truthy (if_set field (stored column current))
      && (truthy p.deepinfra_api_key || changes field column current)

  abbrev or_value : Option Text → Option Text → Option Text
  or_value a b = if truthy a then a else b

  abbrev effective_key : ModelSettingsPatch → Option ModelSettings → Option Text
  effective_key p current = or_value p.deepinfra_api_key (stored (λ r. r.deepinfra_api_key) current)

  abbrev probe_if :
      Bool
      → (Text → Text → Result SettingsError (Unit {0}))
      → Text
      → Text
      → Result SettingsError (Unit {0})
  probe_if false probe model key = ok tt
  probe_if true probe model key = probe model key

  unfoldable pub validate_cloud_api_key_if_needed :
      ModelSettingsPatch → Option ModelSettings → Result SettingsError (Unit {0})
  unfolding probe_cloud_llm_key probe_cloud_transcription_key
  validate_cloud_api_key_if_needed p current =
      if truthy (effective_key p current)
      then (probe_if (must_probe p p.summary_cloud_model (λ r. r.summary_cloud_model) current)
            probe_cloud_llm_key
            (or_else (if_set p.summary_cloud_model (stored (λ r. r.summary_cloud_model) current))
              [])
            (or_else (effective_key p current) [])
          >> probe_if
              (must_probe p p.transcription_cloud_model (λ r. r.transcription_cloud_model) current)
              probe_cloud_transcription_key
              (or_else
                (if_set p.transcription_cloud_model
                  (stored (λ r. r.transcription_cloud_model) current))
                [])
              (or_else (effective_key p current) []))
      else ok tt

module _ (host : Host) (sha : Text → Text) where
  abbrev some_ok : Result SettingsError Text → Result SettingsError (Option Text)
  some_ok (ok h) = ok (some h)
  some_ok (err e) = err e

  unfoldable pub required_local_validation_hash_if_needed :
      ℕ
      → ℕ
      → Option ModelSettings
      → ModelSettingsPatch
      → LocalModelCategory
      → Db
      → Result SettingsError (Option Text)
  unfolding require_local_model_validation_hash
  required_local_validation_hash_if_needed now uid current p category db =
      if needs_validation category current p
      then some_ok (
          require_local_model_validation_hash host sha now uid category
            (effective_path category current p) (proof_field category p) db)
      else ok none

  unfoldable pub patch_model_settings :
      Cloud → ℕ → AuthenticatedKey → ModelSettingsPatch → Db → Result SettingsError Db
  unfolding required_local_validation_hash_if_needed validate_cloud_api_key_if_needed
      upsert_for_user
  patch_model_settings cloud now auth p db = require_admin_user auth db >>= λ user.
      required_local_validation_hash_if_needed now user.id (get_for_user user.id db) p
        LocalModelCategory.transcription db
      >>= λ transcription_hash.
          required_local_validation_hash_if_needed now user.id (get_for_user user.id db) p
            LocalModelCategory.summary db
          >>= λ summary_hash.
              validate_cloud_models_in_catalog p
              >> (validate_cloud_api_key_if_needed cloud p (get_for_user user.id db)
                  >> ok (upsert_for_user user.id (patched p transcription_hash summary_hash) db))

  unfoldable pub post_local_model_validation :
      ℕ
      → ℕ
      → Text
      → AuthenticatedKey
      → LocalModelCategory
      → Text
      → Db
      → Result SettingsError (Text × Db)
  unfolding create_local_model_validation
  post_local_model_validation now ttl token auth category model_path db =
      require_admin_user auth db >>= λ user.
      create_local_model_validation host sha now ttl token user.id category model_path db
