-- ===== src/Settings/Reply.antt =====
-- app/services/jdr/auth_router.py: what is shown of the model settings. `Operator` has the settings
-- of the operator; `lower` is `str.lower`.
use ai_kaeyris.Prelude.{
  ◌≡◌, refl, Bool, true, false, Option, none, some, if◌then◌else◌, Result, ok, ◌>>=◌,
}
use ai_kaeyris.Text.{Text, codes, strip, text_eq}
use ai_kaeyris.Models.{Db, ModelSettings, ModelProvider, cloud, local, ollama}
use ai_kaeyris.Auth.{AuthenticatedKey}
use ai_kaeyris.Jobs.Adapters.{truthy}
use ai_kaeyris.Settings.{SettingsError, require_admin_user}
use ai_kaeyris.Settings.Patch.{get_for_user}

pub record Operator : Type 0 where
  pub transcription_provider : Text
  pub llm_provider : Text
  pub transcription_model : Text
  pub llm_model : Text
  pub lower : Text → Text

pub record ModelSettingsOut : Type 0 where
  pub transcription_provider : ModelProvider
  pub summary_provider : ModelProvider
  pub transcription_local_path : Option Text
  pub summary_local_path : Option Text
  pub transcription_cloud_model : Option Text
  pub summary_cloud_model : Option Text
  pub ollama_model : Option Text
  pub deepinfra_api_key_set : Bool

abbrev column : {A : Type 0} → (ModelSettings → Option A) → Option ModelSettings → Option A
column f none = none
column f (some r) = f r

abbrev provider_or : Option ModelProvider → ModelProvider → ModelProvider
provider_or none d = d
provider_or (some p) d = p

-- `value or (default if wanted else None)`
abbrev model_or : Option Text → Bool → Text → Option Text
model_or value wanted d = if truthy value then value else if wanted then some d else none

abbrev is_cloud : ModelProvider → Bool
is_cloud cloud = true
is_cloud _ = false

abbrev is_ollama : ModelProvider → Bool
is_ollama ollama = true
is_ollama _ = false

module _ (o : Operator) where
  unfoldable pub effective_transcription_provider : ModelProvider
  effective_transcription_provider =
      if text_eq (o.lower (strip o.transcription_provider)) (codes "local") then local else cloud

  unfoldable pub effective_summary_provider : ModelProvider
  effective_summary_provider =
      if text_eq (o.lower (strip o.llm_provider)) (codes "ollama")
      then ollama
      else if text_eq (o.lower (strip o.llm_provider)) (codes "vllm")
      then local
      else cloud

  abbrev shown_transcription : Option ModelSettings → ModelProvider
  shown_transcription row =
      provider_or (column (λ r. r.transcription_provider) row) effective_transcription_provider

  abbrev shown_summary : Option ModelSettings → ModelProvider
  shown_summary row = provider_or (column (λ r. r.summary_provider) row) effective_summary_provider

  unfoldable pub model_settings_out : Option ModelSettings → ModelSettingsOut
  unfolding effective_transcription_provider effective_summary_provider
  model_settings_out row = record {
    transcription_provider = shown_transcription row;
    summary_provider = shown_summary row;
    transcription_local_path = column (λ r. r.transcription_local_path) row;
    summary_local_path = column (λ r. r.summary_local_path) row;
    transcription_cloud_model =
        model_or (column (λ r. r.transcription_cloud_model) row)
          (is_cloud (shown_transcription row)) o.transcription_model;
    summary_cloud_model =
        model_or (column (λ r. r.summary_cloud_model) row) (is_cloud (shown_summary row))
          o.llm_model;
    ollama_model =
        model_or (column (λ r. r.ollama_model) row) (is_ollama (shown_summary row)) o.llm_model;
    deepinfra_api_key_set = truthy (column (λ r. r.deepinfra_api_key) row);
  }

  unfoldable pub get_model_settings : AuthenticatedKey → Db → Result SettingsError ModelSettingsOut
  unfolding model_settings_out
  get_model_settings auth db =
      require_admin_user auth db >>= λ user. ok (model_settings_out (get_for_user user.id db))

  -- Two keys that are set cannot be told apart by the reply.
  pub model_settings_out-hides_key :
      (row : ModelSettings) (key key' : Option Text)
      → truthy key ≡ truthy key'
      → model_settings_out (some (record row { deepinfra_api_key = key }))
        ≡ model_settings_out (some (record row { deepinfra_api_key = key' }))
  unfolding model_settings_out
  model_settings_out-hides_key row key key' same = rw (same) refl
