-- ===== src/Models/Enums.antt =====
-- The enumerations of app/core/models.py and app/services/jdr/db/models.py, and the tests that the
-- services make on them.
use ai_kaeyris.Prelude.{ℕ, Bool, true, false, ◌==◌}

pub data SystemRole : Type 0 where
  admin user : SystemRole

pub data UserStatus : Type 0 where
  active inactive deleted : UserStatus

pub data Role : Type 0 where
  gm player : Role

pub data CampaignRole : Type 0 where
  gm pj : CampaignRole

pub data ApiKeyStatus : Type 0 where
  active revoked : ApiKeyStatus

pub data SessionState : Type 0 where
  created audio_uploaded transcribing transcription_failed transcribed : SessionState

pub data JobKind : Type 0 where
  transcription narrative elements povs summary : JobKind

pub data TranscriptionMode : Type 0 where
  diarised non_diarised : TranscriptionMode

pub data ModelProvider : Type 0 where
  cloud local ollama : ModelProvider

pub data JobStatus : Type 0 where
  queued running succeeded failed : JobStatus

-- The `kind` of an artifact: "summary", "narrative", "elements" or "pov:<pj_id>".
pub data ArtifactKind : Type 0 where
  summary narrative elements : ArtifactKind
  pov : ℕ → ArtifactKind

abbrev pub is_admin : SystemRole → Bool
is_admin SystemRole.admin = true
is_admin SystemRole.user = false

abbrev pub is_active : UserStatus → Bool
is_active UserStatus.active = true
is_active UserStatus.inactive = false
is_active UserStatus.deleted = false

abbrev pub is_transcribed : SessionState → Bool
is_transcribed transcribed = true
is_transcribed _ = false

abbrev pub is_transcribing : SessionState → Bool
is_transcribing transcribing = true
is_transcribing _ = false

abbrev pub is_non_diarised : TranscriptionMode → Bool
is_non_diarised diarised = false
is_non_diarised non_diarised = true

-- `kind == ...`
abbrev pub kind_eq : ArtifactKind → ArtifactKind → Bool
kind_eq ArtifactKind.summary ArtifactKind.summary = true
kind_eq ArtifactKind.narrative ArtifactKind.narrative = true
kind_eq ArtifactKind.elements ArtifactKind.elements = true
kind_eq (pov p) (pov q) = p == q
kind_eq _ _ = false

-- `kind.like("pov:%")`
abbrev pub is_pov : ArtifactKind → Bool
is_pov (pov p) = true
is_pov _ = false

pub data LocalModelCategory : Type 0 where
  transcription summary : LocalModelCategory

abbrev pub category_eq : LocalModelCategory → LocalModelCategory → Bool
category_eq LocalModelCategory.transcription LocalModelCategory.transcription = true
category_eq LocalModelCategory.summary LocalModelCategory.summary = true
category_eq _ _ = false
