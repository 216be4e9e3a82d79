-- ===== src/Routes/Survival.antt =====
-- The edited artifacts, from the guard of a generation route to the end of the job that it
-- enqueues.
pub mod Rows
pub mod Jobs
pub mod Runs
use ai_kaeyris.Prelude.{
  ℕ, ◌≡◌, refl, sym, ap, ◌∙◌, Bool, true, false, ◌&&◌, not, Option, none, some, List, [], ◌∷◌,
  select, is_empty, arith, Result, ok, err, inl, inr, Option-cases, Result-cases,
}
use ai_kaeyris.Text.{Text}
use ai_kaeyris.Models.{Db, Artifact, ArtifactKind, Content, kind_eq}
use ai_kaeyris.Repositories.{upsert_artifact, upsert_status, set_current_job_id, update_session_row}
use ai_kaeyris.Auth.{AuthenticatedKey}
use ai_kaeyris.Sessions.{enqueue_session_job}
use ai_kaeyris.Jobs.Exec.{JobState, JobError, unexpected, commit_or}
use ai_kaeyris.Jobs.Adapters.{
  SystemPrompt, narrative_prompt, elements_prompt, llm_model_used, answer_of,
  load_session_model_settings, build_llm_adapter_for_user,
}
use ai_kaeyris.Jobs.Source.{load_session_source_document, build_user_prompt_with_context}
use ai_kaeyris.Jobs.Generation.{load_pov_targets, complete_povs, load_summary_inputs, summarise}
use ai_kaeyris.Jobs.Writes.{upsert_povs, swap_summary}
use ai_kaeyris.Jobs.Runs.{
  Worker, elements_content, generate_from, generate_narrative, generate_elements, generate_povs,
  generate_summary,
}
use ai_kaeyris.Jobs.Written.{kind_eq_refl}
use ai_kaeyris.Jobs.Atomic.{
  ArtifactJob, narrative_job, elements_job, povs_job, summary_job, generate,
}
use ai_kaeyris.Routes.{
  RouteError, Targets, should_guard, edited_target, guard_regeneration_not_edited, check_material,
}
use ai_kaeyris.Routes.Generation.{
  only, povs_only, summary_and_downstream, post_narrative, post_elements, post_summary, post_povs,
}
use ai_kaeyris.Routes.Survival.Rows.{edited, Kept, upsert_artifact-Kept}
use ai_kaeyris.Routes.Survival.Runs.{
  Quiet, generate_from-Spares, generate_povs-Spares, generate_summary-Spares,
}
use ai_kaeyris.Routes.Survival.Jobs.{upsert_povs-Kept, swap_summary-Kept}

-- The route of each job.
abbrev pub post_generation :
    ArtifactJob → ℕ → ℕ → ℕ → AuthenticatedKey → Bool → Db → Result RouteError Db
post_generation narrative_job = post_narrative
post_generation elements_job = post_elements
post_generation povs_job = post_povs
post_generation summary_job = post_summary

abbrev targets_of : ArtifactJob → Targets
targets_of narrative_job = only ArtifactKind.narrative
targets_of elements_job = only ArtifactKind.elements
targets_of povs_job = povs_only
targets_of summary_job = summary_and_downstream

post_generation-unedited :
    (job : ArtifactJob) (now jid sid : ℕ) (auth : AuthenticatedKey) (db db' : Db)
    → post_generation job now jid sid auth false db ≡ ok db'
    → (select (edited_target (targets_of job) sid) db.artifacts ≡ [])
      × (db'.artifacts ≡ db.artifacts)
unfolding post_narrative post_elements post_povs post_summary guard_regeneration_not_edited
    enqueue_session_job upsert_status set_current_job_id update_session_row
post_generation-unedited narrative_job now jid sid auth db db' e = ground arith
post_generation-unedited elements_job now jid sid auth db db' e = ground arith
post_generation-unedited povs_job now jid sid auth db db' e = ground arith
post_generation-unedited summary_job now jid sid auth db db' e = ground arith

-- The edited artifacts of the whole database are the same when a job ends, whether it succeeds or
-- not, as they were when its route let it in without `force`: no generation overwrites or deletes
-- what a person has edited. The other parts of the system write no artifact between the request and
-- the end of the job.
pub edits_survive :
    (job : ArtifactJob) (now jid sid : ℕ) (auth : AuthenticatedKey) (db queued : Db) (w : Worker)
    (s : JobState)
    → post_generation job now jid sid auth false db ≡ ok queued
    → Quiet w
    → s.db.artifacts ≡ queued.artifacts
    → edited (generate w sid job s).1.db.artifacts ≡ edited db.artifacts
unfolding generate generate_narrative generate_elements
edits_survive job now jid sid auth db queued w s posted quiet same =
    spares job (ap (select (edited_target (targets_of job) sid)) unchanged ∙ guarded.0)
    ∙ ap edited unchanged
  where
    guarded :
        (select (edited_target (targets_of job) sid) db.artifacts ≡ [])
        × (queued.artifacts ≡ db.artifacts)
    guarded = post_generation-unedited job now jid sid auth db queued posted

    unchanged : s.db.artifacts ≡ db.artifacts
    unchanged = same ∙ guarded.1

    spares :
        (each : ArtifactJob)
        → select (edited_target (targets_of each) sid) s.db.artifacts ≡ []
        → edited (generate w sid each s).1.db.artifacts ≡ edited s.db.artifacts
    spares narrative_job h =
        generate_from-Spares w sid quiet narrative_prompt ArtifactKind.narrative
          (λ t. ok (Content.text t)) s h
    spares elements_job h =
        generate_from-Spares w sid quiet elements_prompt ArtifactKind.elements
          (elements_content w sid) s h
    spares povs_job h = generate_povs-Spares w sid quiet s h
    spares summary_job h = generate_summary-Spares w sid quiet s h
