-- ===== src/Jobs/Runs.antt =====
-- The jobs of app/jobs/jdr.py as sequences of transactions and waits.
pub mod Outcome
pub mod Progress
use ai_kaeyris.Prelude.{
  ℕ, zero, suc, ◌≡◌, refl, Bool, true, false, Option, none, some, List, [], ◌∷◌, ◌++◌, is_empty,
  if◌then◌else◌, Result, ok, err,
}
use ai_kaeyris.Text.{Text, codes}
use ai_kaeyris.Models.{
  Db, Session, AudioSource, AudioPath, raw, prepared, TranscriptionMode, diarised, non_diarised,
  ArtifactKind, Content, Element, transcribing, audio_uploaded,
}
use ai_kaeyris.Repositories.{update_state, upsert_artifact, update_audio_source_file}
use ai_kaeyris.Jobs.Exec.{
  Exec, JobState, JobError, Reason, Phase, reducing, failed, done, transient, permanent, unexpected,
  audio_missing, audio_reduce_failed, audio_source_lost, adapter_refused, audio_chunking_failed,
  continue, ◌>>=◌, ◌>>◌, pure, raise, lift, reading, commit, commit_or, elsewhere, report,
}
use ai_kaeyris.Jobs.Exec
use ai_kaeyris.Jobs.Adapters.{
  Factories, LlmAdapter, TranscriptionAdapter, TranscriptionResult, SystemPrompt, narrative_prompt,
  elements_prompt, answer_of, llm_model_used, load_session_model_settings,
  build_llm_adapter_for_user, build_transcription_adapter_for_user,
}
use ai_kaeyris.Jobs.Source.{load_session_source_document, build_user_prompt_with_context}
use ai_kaeyris.Jobs.Generation.{
  load_pov_targets, complete_povs, load_summary_inputs, summarise, chunked,
}
use ai_kaeyris.Jobs.Transcription.{
  TranscriptionFailure, transient_failure, permanent_failure, chunking_failure,
  transcribe_with_optional_chunking, percent_of, full_text,
}
use ai_kaeyris.Elements.{flatten_elements}
use ai_kaeyris.Elements.Reply.{Parsers, parse_elements_response}
use ai_kaeyris.Jobs.Writes.{
  upsert_povs, swap_summary, check_transcribable, mark_session_failed, persist_chunks,
  persist_transcription,
}

-- What ffmpeg makes of the raw upload: the digest and the size of the prepared file.
pub record Prepared : Type 0 where
  pub sha256 : Text
  pub size_bytes : ℕ

-- What a job meets outside the database. `world i` is what the rest of the system does to the
-- database during the i-th wait of the job.
pub record Worker : Type 0 where
  pub now : ℕ
  pub fresh : ℕ → ℕ
  pub factories : Factories
  pub seconds : ℕ → Text
  pub parsers : Parsers
  pub chunk_max_chars : ℕ
  pub chunk_duration : ℕ
  pub on_disk : AudioPath → Bool
  pub prepare : AudioPath → Option Prepared
  pub chunk_files : Option ℕ
  pub world : ℕ → Db → Db

module _ (w : Worker) (sid : ℕ) where
  -- The adapter by the settings of the session's owner.
  choose_llm : Exec LlmAdapter
  choose_llm =
      reading (λ db. build_llm_adapter_for_user w.factories (load_session_model_settings sid db))

  -- _generate_narrative and _generate_elements: one prompt, one artifact.
  unfoldable pub generate_from :
      SystemPrompt → ArtifactKind → (Text → Result JobError Content) → Exec (Unit {0})
  unfolding choose_llm
  generate_from prompt kind content = do
    (source, context) ← reading (load_session_source_document w.seconds sid)
    elsewhere (w.world 0)
    adapter ← choose_llm
    elsewhere (w.world 1)
    text ←
        lift (answer_of (adapter.complete 0 prompt (build_user_prompt_with_context context source)))
    written ← lift (content text)
    commit_or unexpected (upsert_artifact w.now sid kind written (llm_model_used adapter))

  unfoldable pub generate_narrative : Exec (Unit {0})
  unfolding generate_from
  generate_narrative =
      generate_from narrative_prompt ArtifactKind.narrative (λ t. ok (Content.text t))

  -- `flatten_elements(_parse_elements_response(raw))`
  unfoldable pub elements_content : Text → Result JobError Content
  elements_content reply = elim (parse_elements_response w.parsers reply) [
    | err e ↦ err unexpected
    | ok fields ↦ elim (flatten_elements w.parsers.str_of fields) [
      | none ↦ err unexpected
      | some rows ↦ ok (Content.elements rows)
    ]
  ]

  unfoldable pub generate_elements : Exec (Unit {0})
  unfolding generate_from elements_content
  generate_elements = generate_from elements_prompt ArtifactKind.elements elements_content

  unfoldable pub generate_povs : Exec (Unit {0})
  unfolding choose_llm
  generate_povs = do
    (targets, context) ← reading (load_pov_targets sid)
    (source, _) ← reading (load_session_source_document w.seconds sid)
    elsewhere (w.world 0)
    adapter ← choose_llm
    elsewhere (w.world 1)
    results ← lift (complete_povs adapter source context 0 targets)
    commit_or unexpected (upsert_povs w.now sid (llm_model_used adapter) results)

  unfoldable pub generate_summary : Exec (Unit {0})
  unfolding choose_llm
  generate_summary = do
    inputs ← reading (load_summary_inputs w.chunk_max_chars sid)
    elsewhere (w.world 0)
    adapter ← choose_llm
    elsewhere (w.world 1)
    (partials, final) ← lift (summarise adapter inputs)
    commit_or unexpected (swap_summary w.now sid (llm_model_used adapter) inputs partials final)

  -- _transcribe_session

  fail_with : {A : Type 0} → Reason → Option Text → Exec A
  fail_with {A} reason text = do commit (mark_session_failed sid text); raise (permanent reason)

  -- A raw upload is reduced by ffmpeg, and the audio source then names the prepared file.
  prepare_audio : AudioSource → AudioPath → Exec (Unit {0})
  unfolding fail_with
  prepare_audio audio (prepared s) = pure tt
  prepare_audio audio (raw s) = elim (w.prepare (raw s)) [
    | none ↦ fail_with audio_reduce_failed (some (codes "Audio reduce failed"))
    | some p ↦ λ state.
        elim (update_audio_source_file sid (prepared sid) p.sha256 p.size_bytes
          audio.duration_seconds state.db) [
            | none ↦
                fail_with audio_source_lost
                  (some (codes "Audio source row missing after preparation.")) state
            | some db ↦ (ok tt, record state { db = db })
          ]
  ]

  report_chunks : Option ℕ → List ℕ → Exec (Unit {0})
  report_chunks total [] = pure tt
  report_chunks none (n ∷ ns) = pure tt
  report_chunks (some total) (n ∷ ns) = do
    report Phase.transcribing (some (percent_of n total))
    report_chunks (some total) ns

  -- The `except` clauses around the call of the adapter.
  settle_transcription : Result TranscriptionFailure TranscriptionResult → Exec TranscriptionResult
  unfolding fail_with
  settle_transcription (ok r) = pure r
  settle_transcription (err transient_failure) = do
    commit (update_state sid audio_uploaded)
    report failed none
    raise transient
  settle_transcription (err permanent_failure) = do
    commit (mark_session_failed sid none)
    report failed none
    raise (permanent adapter_refused)
  settle_transcription (err chunking_failure) = do
    commit (mark_session_failed sid none)
    report failed none
    raise (permanent audio_chunking_failed)

  persist : TranscriptionMode → TranscriptionResult → Exec (Unit {0})
  persist non_diarised r = do
    texts ← lift (chunked (full_text r.segments) w.chunk_max_chars)
    commit_or unexpected (persist_chunks w.fresh sid texts)
  persist diarised r = commit_or unexpected (persist_transcription w.now sid r)

  abbrev first_phase : ℕ → Phase
  first_phase zero = Phase.transcribing
  first_phase (suc n) = reducing

  listen_with : TranscriptionAdapter → Exec TranscriptionResult
  unfolding report_chunks settle_transcription
  listen_with adapter = do
    report (first_phase w.chunk_duration) (some 0)
    elsewhere (w.world 1)
    let heard = transcribe_with_optional_chunking adapter w.chunk_duration w.chunk_files
    report_chunks w.chunk_files heard.1
    settle_transcription heard.0

  -- The session is `transcribing` from here on; the adapter is chosen outside of any `try`.
  listen : Exec TranscriptionResult
  unfolding listen_with
  listen = do
    adapter ← reading (λ db.
        build_transcription_adapter_for_user w.factories (load_session_model_settings sid db))
    listen_with adapter

  prepare_if_there : AudioSource → Exec (Unit {0})
  unfolding prepare_audio fail_with
  prepare_if_there audio =
      if w.on_disk audio.path then prepare_audio audio audio.path else fail_with audio_missing none

  finish : TranscriptionMode → TranscriptionResult → Exec (Unit {0})
  unfolding persist
  finish mode result = do persist mode result; report done (some 100)

  hear_and_finish : TranscriptionMode → Exec (Unit {0})
  unfolding listen finish
  hear_and_finish mode = do result ← listen; finish mode result

  run_transcription : AudioSource × TranscriptionMode → Exec (Unit {0})
  unfolding prepare_if_there hear_and_finish
  run_transcription (audio, mode) = do
    commit (update_state sid transcribing)
    elsewhere (w.world 0)
    prepare_if_there audio
    hear_and_finish mode

  unfoldable pub transcribe_session : Exec (Unit {0})
  unfolding run_transcription
  transcribe_session = do checked ← reading (check_transcribable sid); run_transcription checked
