-- ===== src/Settings/Catalog.antt =====
-- app/services/jdr/model_catalog.py: the identifiers of the cloud models that can be chosen. Labels,
-- tiers and prices are only shown.
use ai_kaeyris.Prelude.{Bool, List, [], ◌∷◌, any}
use ai_kaeyris.Text.{Text, codes, text_eq}

abbrev pub transcription_cloud_model_ids : List Text
transcription_cloud_model_ids =
    codes "openai/whisper-large-v3-turbo" ∷ codes "openai/whisper-large-v3" ∷ []

abbrev pub summary_cloud_model_ids : List Text
summary_cloud_model_ids =
    codes "meta-llama/Meta-Llama-3.1-8B-Instruct"
    ∷ codes "Qwen/Qwen2.5-72B-Instruct"
    ∷ codes "meta-llama/Meta-Llama-3.1-70B-Instruct"
    ∷ []

unfoldable pub is_allowed_transcription_cloud_model : Text → Bool
unfolding text_eq
is_allowed_transcription_cloud_model model = any (text_eq model) transcription_cloud_model_ids

unfoldable pub is_allowed_summary_cloud_model : Text → Bool
unfolding text_eq
is_allowed_summary_cloud_model model = any (text_eq model) summary_cloud_model_ids
