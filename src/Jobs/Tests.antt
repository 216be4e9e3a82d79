-- ===== src/Jobs/Tests.antt =====
-- Runs of the jobs, and instances of their theorems.
use ai_kaeyris.Prelude.{◌*◌, ◌≡◌, refl, arith, none, some, [], ◌∷◌, ok, err}
use ai_kaeyris.Text.{codes, strip, lstrip, rstrip, is_space}
use ai_kaeyris.Table.{update_where, delete_where}
use ai_kaeyris.Models.{
  Db, diarised, transcribing, transcribed, ModelSettings, User, UserStatus, SystemRole, local,
  non_diarised,
}
use ai_kaeyris.Repositories.{
  update_state, update_session_row, list_chunks, sort_by_ordre, insert_by_ordre, upsert_artifact,
  update_summary_text, reset_summary_texts, invalidate_pov_artifacts,
}
use ai_kaeyris.Samples.{two_sessions, empty_db, session_in}
use ai_kaeyris.Jobs.Sample.{model, transcriber, worker}
use ai_kaeyris.Jobs.Exec.{JobState, permanent, Reason, local_settings_missing}
use ai_kaeyris.Jobs.Adapters.{
  build_transcription_adapter_for_user, build_llm_adapter_for_user, load_session_model_settings,
  resolve_session_owner_id,
}
use ai_kaeyris.Jobs.Source.{
  join, summary_chunk_separator, source_of_chunks, load_session_source_document,
  edited_transcript_source,
}
use ai_kaeyris.Jobs.Generation.{summarise, summarise_each, load_summary_inputs, load_pov_targets}
use ai_kaeyris.Jobs.Transcription.{transcribe_with_optional_chunking}
use ai_kaeyris.Jobs.Writes.{
  swap_summary, write_partials, delete_narrative_and_elements, check_transcribable,
}
use ai_kaeyris.Jobs.Runs.{generate_narrative, generate_summary, transcribe_session}
use ai_kaeyris.Jobs.Runs.Outcome.{HasState, Ends, AfterError, transcribe_session-Ends}
use ai_kaeyris.Jobs.Runs.Progress.{IsComplete, transcribe_session-IsComplete}
use ai_kaeyris.Jobs.Atomic.{IsUntouched, povs_job, generate, generate_atomic}
use ai_kaeyris.Jobs.Feed.{summary_feeds_source}
use ai_kaeyris.Jobs.Stitching.{Timeline, transcribe_with_optional_chunking-Timeline}
use ai_kaeyris.Jobs.Written.{
  IsNarrated, IsSummarised, generate_narrative-IsNarrated, generate_summary-IsSwapped,
}

abbrev start_of : Db → JobState
start_of db = record { db = db; progress = [] }

transcribe_session-Ends_example :
    Ends
      (λ (u : Unit {0}) after. HasState transcribed 2 after)
      (AfterError worker two_sessions 2)
      (transcribe_session worker 2 (start_of two_sessions))
transcribe_session-Ends_example = transcribe_session-Ends worker 2 (start_of two_sessions)

transcribe_session-IsComplete_example :
    IsComplete (transcribe_session worker 2 (start_of two_sessions))
transcribe_session-IsComplete_example =
    transcribe_session-IsComplete worker 2 (start_of two_sessions) tt

transcribe_with_optional_chunking-Timeline_example :
    Timeline (2 * 10) (transcribe_with_optional_chunking transcriber 10 (some 2)).0
transcribe_with_optional_chunking-Timeline_example =
    transcribe_with_optional_chunking-Timeline transcriber 9 2
      (λ k. (omega arith, omega arith, omega arith, omega arith))

-- The GM of session 2 chose a local model and never validated its path.
abbrev gm_user : User
gm_user = record {
  id = 3;
  username = codes "gm";
  system_role = SystemRole.user;
  password_hash = [];
  status = UserStatus.active;
  api_key_id = some 7;
  default_campaign_id = none;
  deleted_at = none;
  last_login_at = none;
}

abbrev local_settings : ModelSettings
local_settings = record {
  user_id = 3;
  transcription_provider = some local;
  summary_provider = none;
  transcription_local_path = some (codes "/models/w");
  summary_local_path = none;
  transcription_cloud_model = none;
  summary_cloud_model = none;
  ollama_model = none;
  transcription_local_validation_hash = none;
  summary_local_validation_hash = none;
  deepinfra_api_key = none;
}

abbrev unvalidated : Db
unvalidated = record two_sessions { users = gm_user ∷ []; model_settings = local_settings ∷ [] }

-- Its transcription fails, and the session stays `transcribing`.
stuck_without_settings :
    ((transcribe_session worker 2 (start_of unvalidated)).0
      ≡ err (permanent local_settings_missing))
    × HasState transcribing 2 (transcribe_session worker 2 (start_of unvalidated)).1.db
unfolding transcribe_session check_transcribable build_transcription_adapter_for_user
    load_session_model_settings resolve_session_owner_id update_state update_session_row
    update_where
stuck_without_settings = (refl, (refl, tt))

-- Nobody plays in session 1, so its points of view are refused.
generate_atomic_example :
    IsUntouched worker two_sessions (generate worker 1 povs_job (start_of two_sessions)).1.db
unfolding generate load_pov_targets
generate_atomic_example =
    generate_atomic worker 1 povs_job (start_of two_sessions) (permanent Reason.no_players) refl

generate_summary-IsSwapped_example :
    IsSummarised worker 1
      (start_of two_sessions)
      (generate_summary worker 1 (start_of two_sessions)).1.db
unfolding generate_summary load_summary_inputs edited_transcript_source list_chunks
    build_llm_adapter_for_user load_session_model_settings summarise swap_summary upsert_artifact
    invalidate_pov_artifacts delete_where update_summary_text reset_summary_texts
generate_summary-IsSwapped_example =
    generate_summary-IsSwapped worker 1 (start_of two_sessions) refl

-- A transcription that its GM has edited.
abbrev edited : Db
edited = record empty_db {
  sessions =
      record (session_in 1 transcribed diarised) { edited_transcript_md = some (codes "Texte") }
      ∷ [];
}

generate_narrative-IsNarrated_example :
    IsNarrated worker 1 (start_of edited) (generate_narrative worker 1 (start_of edited)).1.db
unfolding generate_narrative load_session_source_document edited_transcript_source strip lstrip
    rstrip is_space build_llm_adapter_for_user load_session_model_settings resolve_session_owner_id
    upsert_artifact
generate_narrative-IsNarrated_example =
    generate_narrative-IsNarrated worker 1 (start_of edited) refl

summary_feeds_source_example :
    source_of_chunks (list_chunks 1 (generate_summary worker 1 (start_of two_sessions)).1.db)
    ≡ ok (join summary_chunk_separator (codes "Oui." ∷ codes "Oui." ∷ []))
unfolding generate_summary load_summary_inputs edited_transcript_source list_chunks sort_by_ordre
    insert_by_ordre build_llm_adapter_for_user load_session_model_settings summarise summarise_each
    swap_summary write_partials delete_narrative_and_elements reset_summary_texts
    update_summary_text invalidate_pov_artifacts update_where delete_where upsert_artifact join
summary_feeds_source_example =
    summary_feeds_source worker 1 (start_of two_sessions) (session_in 1 transcribed non_diarised)
      model (codes "Oui." ∷ codes "Oui." ∷ []) (codes "Oui.") refl refl ((refl, tt), (tt, tt)) refl
      refl refl (omega arith, (omega arith, tt)) refl
