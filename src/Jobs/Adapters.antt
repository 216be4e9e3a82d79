-- ===== src/Jobs/Adapters.antt =====
-- The adapters of a job: the interfaces of app/adapters, and the choice among them by the settings
-- of the session's owner (app/jobs/jdr.py).
use ai_kaeyris.Prelude.{
  ℕ, ◌≡◌, refl, Bool, true, false, ◌&&◌, Option, none, some, List, [], ◌∷◌, ◌++◌, ◌==◌, opt_eq,
  if◌then◌else◌, Result, ok, err,
}
use ai_kaeyris.Text.{Text, codes}
use ai_kaeyris.Table.{first}
use ai_kaeyris.Models.{Db, ModelSettings, ModelProvider, cloud, local, ollama, Segment}
use ai_kaeyris.Repositories.{get_session}
use ai_kaeyris.Jobs.Exec.{JobError, local_settings_missing, adapter_refused, transient, permanent}

-- The system prompts of app/services/jdr/prompts.py.
pub data SystemPrompt : Type 0 where
  narrative_prompt elements_prompt pov_prompt summary_map_prompt summary_reduce_prompt :
      SystemPrompt

-- What `complete` comes to: a text, `TransientLLMError` or `PermanentLLMError`.
pub data LlmReply : Type 0 where
  answer : Text → LlmReply
  transient_error permanent_error : LlmReply

-- `LLMAdapter`. The number counts the calls of a job, so two calls may be answered differently.
pub record LlmAdapter : Type 0 where
  pub provider : Text
  pub model : Text
  pub complete : ℕ → SystemPrompt → Text → LlmReply

pub record TranscriptionResult : Type 0 where
  pub segments : List Segment
  pub language : Text
  pub model_used : Text
  pub provider : Text

pub data TranscriptionReply : Type 0 where
  heard : TranscriptionResult → TranscriptionReply
  transient_error permanent_error : TranscriptionReply

-- `TranscriptionAdapter`: the number is that of the chunk, 0 for a whole file.
pub record TranscriptionAdapter : Type 0 where
  pub transcribe : ℕ → TranscriptionReply

-- The factories of app/adapters, and the settings of the operator.
pub record Factories : Type 0 where
  pub operator_llm : LlmAdapter
  pub ollama_llm : Text → LlmAdapter
  pub personal_cloud_llm : Text → Text → LlmAdapter
  pub local_llm : Text → LlmAdapter
  pub operator_transcription : TranscriptionAdapter
  pub personal_cloud_transcription : Text → Text → TranscriptionAdapter
  pub local_transcription : Text → TranscriptionAdapter
  pub llm_model : Text
  pub transcription_model : Text

-- `value or default`
abbrev pub or_else : Option Text → Text → Text
or_else none d = d
or_else (some []) d = d
or_else (some (c ∷ s)) d = c ∷ s

pub or_else-some : (t : Text) → or_else (some t) [] ≡ t
or_else-some [] = refl
or_else-some (c ∷ t) = refl

-- `bool(value)`
abbrev pub truthy : Option Text → Bool
truthy none = false
truthy (some []) = false
truthy (some (c ∷ s)) = true

-- _resolve_session_owner_id
unfoldable pub resolve_session_owner_id : ℕ → Db → Option ℕ
resolve_session_owner_id sid db = elim (get_session sid db) [
  | none ↦ none
  | some s ↦
      let by_key =
        elim (first (λ u. opt_eq u.api_key_id (some s.gm_key_id)) db.users) as (λ _. Option ℕ) [
          | none ↦ none
          | some u ↦ some u.id
        ] in
      elim (elim s.campaign_id as (λ _. Option ℕ) [
        | none ↦ none
        | some c ↦ elim (first (λ r. r.id == c) db.campaigns) as (λ _. Option ℕ) [
          | none ↦ none
          | some r ↦ some r.owner_user_id
        ]
      ]) [ none ↦ by_key | some owner ↦ some owner ]
]

-- _load_session_model_settings
unfoldable pub load_session_model_settings : ℕ → Db → Option ModelSettings
unfolding resolve_session_owner_id
load_session_model_settings sid db = elim (resolve_session_owner_id sid db) [
  | none ↦ none
  | some owner ↦ first (λ r. r.user_id == owner) db.model_settings
]

module _ (fs : Factories) where
  -- The choice by provider, of a row whose provider is set.
  llm_by_provider : ModelProvider → ModelSettings → Result JobError LlmAdapter
  llm_by_provider ollama row = ok (fs.ollama_llm (or_else row.ollama_model fs.llm_model))
  llm_by_provider cloud row =
      if truthy row.deepinfra_api_key
      then ok (
          fs.personal_cloud_llm (or_else row.summary_cloud_model fs.llm_model)
            (or_else row.deepinfra_api_key []))
      else ok fs.operator_llm
  llm_by_provider local row =
      if truthy row.summary_local_path && truthy row.summary_local_validation_hash
      then ok (fs.local_llm (or_else row.summary_local_path []))
      else err (permanent local_settings_missing)

  llm_by_row : Option ModelSettings → Result JobError LlmAdapter
  llm_by_row none = ok fs.operator_llm
  llm_by_row (some row) = elim row.summary_provider [
    | none ↦ ok fs.operator_llm
    | some p ↦ llm_by_provider p row
  ]

  unfoldable pub build_llm_adapter_for_user : Option ModelSettings → Result JobError LlmAdapter
  unfolding llm_by_row llm_by_provider
  build_llm_adapter_for_user row = llm_by_row row

  transcription_by_provider : ModelProvider → ModelSettings → Result JobError TranscriptionAdapter
  transcription_by_provider cloud row =
      if truthy row.deepinfra_api_key
      then ok (
          fs.personal_cloud_transcription
            (or_else row.transcription_cloud_model fs.transcription_model)
            (or_else row.deepinfra_api_key []))
      else ok fs.operator_transcription
  transcription_by_provider local row =
      if truthy row.transcription_local_path && truthy row.transcription_local_validation_hash
      then ok (fs.local_transcription (or_else row.transcription_local_path []))
      else err (permanent local_settings_missing)
  transcription_by_provider ollama row = ok fs.operator_transcription

  transcription_by_row : Option ModelSettings → Result JobError TranscriptionAdapter
  transcription_by_row none = ok fs.operator_transcription
  transcription_by_row (some row) = elim row.transcription_provider [
    | none ↦ ok fs.operator_transcription
    | some p ↦ transcription_by_provider p row
  ]

  unfoldable pub build_transcription_adapter_for_user :
      Option ModelSettings → Result JobError TranscriptionAdapter
  unfolding transcription_by_row transcription_by_provider
  build_transcription_adapter_for_user row = transcription_by_row row

-- _llm_model_used
abbrev pub llm_model_used : LlmAdapter → Text
llm_model_used a = a.provider ++ codes ":" ++ a.model

-- `except TransientLLMError`, `except PermanentLLMError`
abbrev pub answer_of : LlmReply → Result JobError Text
answer_of (answer t) = ok t
answer_of LlmReply.transient_error = err transient
answer_of LlmReply.permanent_error = err (permanent adapter_refused)
