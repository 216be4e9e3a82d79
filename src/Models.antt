-- ===== src/Models.antt =====
-- app/core/models.py and app/services/jdr/db/models.py: the tables and their rows.
-- Identifiers (UUIDs and RQ job ids) and instants are numbers. A `created_at` that only orders a
-- query is the position in the table; `updated_at` and display columns are left out.
pub mod Enums
pub mod Rows
use ai_kaeyris.Prelude.{List}
pub use Enums.*
pub use Rows.*

-- The database: one list of rows for each table.
pub record Db : Type 0 where
  pub users : List User
  pub api_keys : List ApiKey
  pub web_sessions : List WebSession
  pub campaigns : List Campaign
  pub members : List CampaignMember
  pub pjs : List Pj
  pub sessions : List Session
  pub audio_sources : List AudioSource
  pub transcriptions : List Transcription
  pub mappings : List SessionPjMapping
  pub artifacts : List Artifact
  pub jobs : List Job
  pub chunks : List Chunk
  pub players : List SessionPlayer
  pub model_settings : List ModelSettings
  pub validations : List LocalModelValidation
