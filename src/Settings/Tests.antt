-- ===== src/Settings/Tests.antt =====
-- Runs of the model settings, and instances of their theorems.
use ai_kaeyris.Prelude.{◌≡◌, refl, true, false, Option, none, some, [], ◌∷◌, err}
use ai_kaeyris.Text.{Text, codes, is_space, strip, starts_with}
use ai_kaeyris.Models.{
  Db, User, UserStatus, SystemRole, Role, ModelSettings, local, LocalModelCategory,
}
use ai_kaeyris.Samples.{empty_db}
use ai_kaeyris.Auth.{AuthenticatedKey, Source}
use ai_kaeyris.Jobs.Sample.{worker}
use ai_kaeyris.LocalModels.{Host, loaded, probe_local_model, normalize_model_path}
use ai_kaeyris.Settings.{
  admin_required, local_model_validation_required, local_model_validation_expired,
  unknown_cloud_model, cloud_api_key_invalid, require_admin_user,
}
use ai_kaeyris.Settings.Catalog.{
  is_allowed_summary_cloud_model, is_allowed_transcription_cloud_model,
}
use ai_kaeyris.Settings.Patch.{ModelSettingsPatch, get_for_user}
use ai_kaeyris.Settings.Requests.{
  Cloud, refused, patch_model_settings, post_local_model_validation,
  validate_cloud_models_in_catalog, contains,
}
use ai_kaeyris.Settings.Invariant.{SettingsRequest, validate, change, settings_request}
use ai_kaeyris.Settings.Proofs.{AreProven}
use ai_kaeyris.Settings.Adapters.{settings_requests, AreReady, settings_requests-AreReady}

abbrev gguf_host : Host
gguf_host = record {
  resolve = λ p. p;
  exists = λ p. true;
  is_readable = λ p. true;
  is_dir = λ p. false;
  is_file = λ p. true;
  has_model_bin = λ p. false;
  suffix = λ p. codes ".gguf";
  load_whisper = λ p. loaded;
  load_llama = λ p. loaded;
  is_slow = λ p. false;
}

-- A hash for the tests: it puts a digit before the text.
abbrev digest : Text → Text
digest t = 48 ∷ t

abbrev admin : User
admin = record {
  id = 2;
  username = codes "ada";
  system_role = SystemRole.admin;
  password_hash = [];
  status = UserStatus.active;
  api_key_id = some 7;
  default_campaign_id = none;
  deleted_at = none;
  last_login_at = none;
}

abbrev start : Db
start = record empty_db { users = admin ∷ [] }

abbrev web : AuthenticatedKey
web = record {
  id = 7;
  name = codes "ada";
  role = Role.gm;
  pj_id = none;
  source = Source.web_session;
  user_id = some 2;
}

-- The key is refused, whatever the model.
abbrev refusing : Cloud
refusing = record {
  call_llm = λ m k. refused (codes "no");
  call_transcription = λ m k. refused (codes "Error 401");
  lower = λ t. t;
}

abbrev no_change : ModelSettingsPatch
no_change = record {
  transcription_provider = none;
  summary_provider = none;
  transcription_local_path = none;
  summary_local_path = none;
  transcription_local_validation_id = none;
  summary_local_validation_id = none;
  transcription_cloud_model = none;
  summary_cloud_model = none;
  ollama_model = none;
  deepinfra_api_key = none;
}

abbrev go_local : ModelSettingsPatch
go_local = record no_change {
  summary_provider = some (some local);
  summary_local_path = some (some (codes "m"));
  summary_local_validation_id = some (codes "tok");
}

abbrev validation : SettingsRequest
validation = validate 100 60 (codes "tok") LocalModelCategory.summary (codes " m ")

abbrev hash_now : Option ModelSettings → Option Text
hash_now none = none
hash_now (some r) = r.summary_local_validation_hash

-- A proof, and then the choice of the model that it is for.
saved_with_proof :
    hash_now (
      get_for_user 2 (
        settings_requests gguf_host digest
          ((validation, web) ∷ (change refusing 150 go_local, web) ∷ [])
          start))
    ≡ some (digest (codes "tok"))
unfolding patch_model_settings require_admin_user post_local_model_validation normalize_model_path
    is_space strip probe_local_model validate_cloud_models_in_catalog is_allowed_summary_cloud_model
    is_allowed_transcription_cloud_model contains starts_with
saved_with_proof = refl

expired :
    settings_request gguf_host digest
      (change refusing 160 go_local)
      web
      (settings_requests gguf_host digest ((validation, web) ∷ []) start)
    ≡ err local_model_validation_expired
unfolding patch_model_settings require_admin_user post_local_model_validation normalize_model_path
    is_space strip probe_local_model validate_cloud_models_in_catalog is_allowed_summary_cloud_model
    is_allowed_transcription_cloud_model contains starts_with
expired = refl

no_proof :
    patch_model_settings gguf_host digest refusing 150 web go_local start
    ≡ err local_model_validation_required
unfolding patch_model_settings require_admin_user post_local_model_validation normalize_model_path
    is_space strip probe_local_model validate_cloud_models_in_catalog is_allowed_summary_cloud_model
    is_allowed_transcription_cloud_model contains starts_with
no_proof = refl

not_an_admin :
    patch_model_settings gguf_host digest refusing 150
      (record web { source = Source.api_key })
      go_local
      start
    ≡ err admin_required
unfolding patch_model_settings require_admin_user post_local_model_validation normalize_model_path
    is_space strip probe_local_model validate_cloud_models_in_catalog is_allowed_summary_cloud_model
    is_allowed_transcription_cloud_model contains starts_with
not_an_admin = refl

unknown_model :
    patch_model_settings gguf_host digest refusing 150 web
      (record no_change { summary_cloud_model = some (some (codes "gpt")) })
      start
    ≡ err unknown_cloud_model
unfolding patch_model_settings require_admin_user post_local_model_validation normalize_model_path
    is_space strip probe_local_model validate_cloud_models_in_catalog is_allowed_summary_cloud_model
    is_allowed_transcription_cloud_model contains starts_with
unknown_model = refl

bad_key :
    patch_model_settings gguf_host digest refusing 150 web
      (record no_change {
        transcription_cloud_model = some (some (codes "openai/whisper-large-v3"));
        deepinfra_api_key = some (codes "k");
      })
      start
    ≡ err cloud_api_key_invalid
unfolding patch_model_settings require_admin_user post_local_model_validation normalize_model_path
    is_space strip probe_local_model validate_cloud_models_in_catalog is_allowed_summary_cloud_model
    is_allowed_transcription_cloud_model contains starts_with
bad_key = refl

settings_requests-AreReady_example :
    AreProven gguf_host digest (
      settings_requests gguf_host digest
        ((validation, web) ∷ (change refusing 150 go_local, web) ∷ [])
        start)
    × AreReady worker.factories 1 (
        settings_requests gguf_host digest
          ((validation, web) ∷ (change refusing 150 go_local, web) ∷ [])
          start)
settings_requests-AreReady_example =
    settings_requests-AreReady gguf_host digest (λ t. refl) worker.factories
      ((validation, web) ∷ (change refusing 150 go_local, web) ∷ []) 1 start refl
