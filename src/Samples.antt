-- ===== src/Samples.antt =====
-- Data for the runs in the modules of tests.
use ai_kaeyris.Prelude.{ℕ, false, none, [], ◌∷◌}
use ai_kaeyris.Text.{Text, codes}
use ai_kaeyris.Models.{
  Db, Session, SessionState, TranscriptionMode, diarised, non_diarised, transcribed, audio_uploaded,
  AudioSource, AudioPath, prepared, Pj, Chunk, Artifact, ArtifactKind, Content, pov,
}

abbrev pub empty_db : Db
empty_db = record {
  users = [];
  api_keys = [];
  web_sessions = [];
  campaigns = [];
  members = [];
  pjs = [];
  sessions = [];
  audio_sources = [];
  transcriptions = [];
  mappings = [];
  artifacts = [];
  jobs = [];
  chunks = [];
  players = [];
  model_settings = [];
  validations = [];
}

abbrev pub session_in : ℕ → SessionState → TranscriptionMode → Session
session_in id state mode = record {
  id = id;
  title = codes "Session";
  recorded_at = 0;
  gm_key_id = 7;
  campaign_id = none;
  state = state;
  transcription_mode = mode;
  campaign_context = none;
  edited_transcript_md = none;
  current_job_id = none;
}

abbrev pub audio_at : ℕ → AudioPath → AudioSource
audio_at sid path = record {
  session_id = sid;
  path = path;
  sha256 = codes "ab";
  size_bytes = 3;
  duration_seconds = none;
  purged_at = none;
}

abbrev pub pj_of_gm : ℕ → Pj
pj_of_gm id = record {
  id = id;
  name = codes "Aria";
  owner_gm_key_id = 7;
  campaign_id = none;
  user_id = none;
}

abbrev pub chunk_at : ℕ → ℕ → Text → Chunk
chunk_at id ordre text = record {
  id = id;
  session_id = 1;
  ordre = ordre;
  text = text;
  summary_text = none;
}

abbrev pub artifact_at : ArtifactKind → Artifact
artifact_at kind = record {
  session_id = 1;
  kind = kind;
  content = Content.text (codes "old");
  model_used = codes "m";
  generated_at = 2;
  is_edited = false;
  edited_at = none;
  edited_by = none;
}

-- Session 1 is transcribed from two chunks and has artifacts, and session 2 waits for the worker.
abbrev pub two_sessions : Db
two_sessions = record empty_db {
  sessions = session_in 1 transcribed non_diarised ∷ session_in 2 audio_uploaded diarised ∷ [];
  audio_sources = audio_at 1 (prepared 1) ∷ audio_at 2 (prepared 2) ∷ [];
  pjs = pj_of_gm 4 ∷ pj_of_gm 5 ∷ [];
  chunks = chunk_at 11 0 (codes "Un.") ∷ chunk_at 12 1 (codes "Deux.") ∷ [];
  artifacts =
      artifact_at ArtifactKind.summary
      ∷ artifact_at ArtifactKind.narrative
      ∷ artifact_at (pov 4)
      ∷ [];
}
