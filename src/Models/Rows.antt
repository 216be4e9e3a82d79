-- ===== src/Models/Rows.antt =====
-- One record for each table, with the columns that the services read and write.
use ai_kaeyris.Prelude.{ℕ, Bool, Option, List}
use ai_kaeyris.Text.{Text}
use ai_kaeyris.Models.Enums.{
  SystemRole, UserStatus, Role, CampaignRole, ApiKeyStatus, SessionState, JobKind,
  TranscriptionMode, ModelProvider, JobStatus, ArtifactKind, LocalModelCategory,
}

pub record User : Type 0 where
  pub id : ℕ
  pub username : Text
  pub system_role : SystemRole
  pub password_hash : Text
  pub status : UserStatus
  pub api_key_id : Option ℕ
  pub default_campaign_id : Option ℕ
  pub deleted_at : Option ℕ
  pub last_login_at : Option ℕ

pub record ApiKey : Type 0 where
  pub id : ℕ
  pub name : Text
  pub hash : Text
  pub role : Role
  pub pj_id : Option ℕ
  pub status : ApiKeyStatus

pub record WebSession : Type 0 where
  pub user_id : ℕ
  pub token_hash : Text
  pub expires_at : ℕ
  pub revoked_at : Option ℕ
  pub last_seen_at : Option ℕ

pub record Campaign : Type 0 where
  pub id : ℕ
  pub name : Text
  pub description : Option Text
  pub owner_user_id : ℕ

pub record CampaignMember : Type 0 where
  pub user_id : ℕ
  pub campaign_id : ℕ
  pub role : CampaignRole
  pub character_id : Option ℕ

pub record Pj : Type 0 where
  pub id : ℕ
  pub name : Text
  pub owner_gm_key_id : ℕ
  pub campaign_id : Option ℕ
  pub user_id : Option ℕ

pub record Session : Type 0 where
  pub id : ℕ
  pub title : Text
  pub recorded_at : ℕ
  pub gm_key_id : ℕ
  pub campaign_id : Option ℕ
  pub state : SessionState
  pub transcription_mode : TranscriptionMode
  pub campaign_context : Option Text
  pub edited_transcript_md : Option Text
  pub current_job_id : Option ℕ

-- The two places of a session's audio below the data directory:
-- `.tmp/audio-reduce/<session_id>/raw.m4a` and `audios/<session_id>.m4a`.
pub data AudioPath : Type 0 where
  raw prepared : ℕ → AudioPath

pub record AudioSource : Type 0 where
  pub session_id : ℕ
  pub path : AudioPath
  pub sha256 : Text
  pub size_bytes : ℕ
  pub duration_seconds : Option ℕ
  pub purged_at : Option ℕ

-- Offsets in a recording are whole numbers of some fixed fraction of a second.
pub record Segment : Type 0 where
  pub speaker_label : Text
  pub start_time : ℕ
  pub end_time : ℕ
  pub text : Text

pub record Transcription : Type 0 where
  pub session_id : ℕ
  pub segments : List Segment
  pub language : Text
  pub model_used : Text
  pub provider : Text
  pub completed_at : ℕ

pub record SessionPjMapping : Type 0 where
  pub session_id : ℕ
  pub speaker_label : Text
  pub pj_id : ℕ

-- A row of the elements card.
pub record Element : Type 0 where
  pub category : Text
  pub name : Text
  pub description : Text

-- `content_json`: `{"text": ...}` or `{"elements": [...]}`.
pub data Content : Type 0 where
  text : Text → Content
  elements : List Element → Content

pub record Artifact : Type 0 where
  pub session_id : ℕ
  pub kind : ArtifactKind
  pub content : Content
  pub model_used : Text
  pub generated_at : ℕ
  pub is_edited : Bool
  pub edited_at : Option ℕ
  pub edited_by : Option Text

pub record Job : Type 0 where
  pub id : ℕ
  pub kind : JobKind
  pub session_id : ℕ
  pub status : JobStatus
  pub failure_reason : Option Text
  pub started_at : Option ℕ
  pub ended_at : Option ℕ

pub record Chunk : Type 0 where
  pub id : ℕ
  pub session_id : ℕ
  pub ordre : ℕ
  pub text : Text
  pub summary_text : Option Text

pub record SessionPlayer : Type 0 where
  pub session_id : ℕ
  pub pj_id : ℕ

pub record ModelSettings : Type 0 where
  pub user_id : ℕ
  pub transcription_provider : Option ModelProvider
  pub summary_provider : Option ModelProvider
  pub transcription_local_path : Option Text
  pub summary_local_path : Option Text
  pub transcription_cloud_model : Option Text
  pub summary_cloud_model : Option Text
  pub ollama_model : Option Text
  pub transcription_local_validation_hash : Option Text
  pub summary_local_validation_hash : Option Text
  pub deepinfra_api_key : Option Text

-- Every row has the status SUCCEEDED, the only one there is.
pub record LocalModelValidation : Type 0 where
  pub validation_hash : Text
  pub user_id : ℕ
  pub category : LocalModelCategory
  pub path_hash : Text
  pub expires_at : ℕ
