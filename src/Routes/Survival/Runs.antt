-- ===== src/Routes/Survival/Runs.antt =====
-- The edited artifacts under whole runs of the jobs.
use ai_kaeyris.Prelude.{
  ℕ, ◌≡◌, ap, ◌∙◌, Option, some, List, [], select, arith, Result, inl, inr, Option-cases,
  Result-cases,
}
use ai_kaeyris.Text.{Text}
use ai_kaeyris.Models.{Db, Artifact, ArtifactKind, Content}
use ai_kaeyris.Repositories.{upsert_artifact}
use ai_kaeyris.Jobs.Exec.{JobState, JobError, unexpected, commit_or}
use ai_kaeyris.Jobs.Adapters.{
  SystemPrompt, llm_model_used, answer_of, load_session_model_settings, build_llm_adapter_for_user,
}
use ai_kaeyris.Jobs.Source.{load_session_source_document, build_user_prompt_with_context}
use ai_kaeyris.Jobs.Generation.{load_pov_targets, complete_povs, load_summary_inputs, summarise}
use ai_kaeyris.Jobs.Writes.{upsert_povs, swap_summary}
use ai_kaeyris.Jobs.Runs.{Worker, generate_from, generate_povs, generate_summary}
use ai_kaeyris.Jobs.Written.{kind_eq_refl}
use ai_kaeyris.Routes.{Targets, edited_target}
use ai_kaeyris.Routes.Generation.{only, povs_only, summary_and_downstream}
use ai_kaeyris.Routes.Survival.Rows.{edited, upsert_artifact-Kept}
use ai_kaeyris.Routes.Survival.Jobs.{upsert_povs-Kept, swap_summary-Kept}

-- The rest of the system writes no artifact while the job waits.
abbrev pub Quiet : Worker → Type 0
Quiet w = (i : ℕ) (db : Db) → (w.world i db).artifacts ≡ db.artifacts

module _ (w : Worker) (sid : ℕ) (quiet : Quiet w) where
  -- After both waits.
  waited : (db : Db) → (w.world 1 (w.world 0 db)).artifacts ≡ db.artifacts
  waited db = quiet 1 (w.world 0 db) ∙ quiet 0 db

  abbrev pub Spares : Targets → (JobState → JobState) → Type 0
  Spares t run =
      (s : JobState)
      → select (edited_target t sid) s.db.artifacts ≡ []
      → edited (run s).db.artifacts ≡ edited s.db.artifacts

  -- A last write that the database may refuse.
  written :
      (f : Db → Option Db) (x : JobError) (s : JobState) (rows : List Artifact)
      → edited s.db.artifacts ≡ rows
      → ((db' : Db) → f s.db ≡ some db' → edited db'.artifacts ≡ rows)
      → edited (commit_or x f s).1.db.artifacts ≡ rows
  written f x s rows same after = elim (Option-cases (f s.db)) [
    | inl refused ↦ rw (commit_or, refused) same
    | inr (db', done) ↦ rw (commit_or, done) (after db' done)
  ]

  -- The state in which the last write of a job runs.
  abbrev at_end : JobState → JobState
  at_end s = record s { db = w.world 1 (w.world 0 s.db) }

  -- The write of a job, of what it has generated from the state it began in.
  ending :
      (t : Targets) (f : Db → Option Db) (s : JobState)
      → ((db db' : Db)
          → select (edited_target t sid) db.artifacts ≡ []
          → f db ≡ some db'
          → edited db'.artifacts ≡ edited db.artifacts)
      → select (edited_target t sid) s.db.artifacts ≡ []
      → edited (commit_or unexpected f (at_end s)).1.db.artifacts ≡ edited s.db.artifacts
  ending t f s spares h =
      written f unexpected (at_end s) (edited s.db.artifacts) (ap edited (waited s.db)) (λ db' done.
        spares (at_end s).db db' (ap (select (edited_target t sid)) (waited s.db) ∙ h) done
        ∙ ap edited (waited s.db))

  pub generate_from-Spares :
      (prompt : SystemPrompt) (kind : ArtifactKind) (content : Text → Result JobError Content)
      → Spares (only kind) (λ s. (generate_from w sid prompt kind content s).1)
  unfolding generate_from
  generate_from-Spares prompt kind content s h =
      elim (Result-cases (load_session_source_document w.seconds sid s.db)) [
        | inr (x, e) ↦ ground (arith, e)
        | inl ((source, context), e) ↦
            elim (Result-cases (
              build_llm_adapter_for_user w.factories
                (load_session_model_settings sid (w.world 0 s.db)))) [
                  | inr (x, e') ↦ rw (e, e') (ap edited (quiet 0 s.db))
                  | inl (adapter, e') ↦
                      elim (Result-cases (
                        answer_of (
                          adapter.complete 0 prompt
                            (build_user_prompt_with_context context source)))) [
                              | inr (x, e'') ↦ rw (e, e', e'') (ap edited (waited s.db))
                              | inl (text, e'') ↦ elim (Result-cases (content text)) [
                                | inr (x, bad) ↦ rw (e, e', e'', bad) (ap edited (waited s.db))
                                | inl (out, good) ↦
                                    rw (e, e', e'', good)
                                      (ending (only kind)
                                        (upsert_artifact w.now sid kind out
                                          (llm_model_used adapter))
                                        s
                                        (λ db db' k done.
                                          (upsert_artifact-Kept (only kind) sid w.now kind out
                                            (llm_model_used adapter) db db'
                                            (ground (arith, kind_eq_refl kind)) k done).0)
                                        h)
                              ]
                            ]
                ]
      ]

  pub generate_povs-Spares : Spares povs_only (λ s. (generate_povs w sid s).1)
  unfolding generate_povs
  generate_povs-Spares s h = elim (Result-cases (load_pov_targets sid s.db)) [
    | inr (x, e) ↦ ground (arith, e)
    | inl ((targets, context), e) ↦
        elim (Result-cases (load_session_source_document w.seconds sid s.db)) [
          | inr (x, e1) ↦ ground (arith, e, e1)
          | inl ((source, _), e1) ↦
              elim (Result-cases (
                build_llm_adapter_for_user w.factories
                  (load_session_model_settings sid (w.world 0 s.db)))) [
                    | inr (x, e') ↦ rw (e, e1, e') (ap edited (quiet 0 s.db))
                    | inl (adapter, e') ↦
                        elim (Result-cases (complete_povs adapter source context 0 targets)) [
                          | inr (x, e'') ↦ rw (e, e1, e', e'') (ap edited (waited s.db))
                          | inl (results, e'') ↦
                              rw (e, e1, e', e'')
                                (ending povs_only
                                  (upsert_povs w.now sid (llm_model_used adapter) results) s
                                  (upsert_povs-Kept sid w.now (llm_model_used adapter) results) h)
                        ]
                  ]
        ]
  ]

  pub generate_summary-Spares : Spares summary_and_downstream (λ s. (generate_summary w sid s).1)
  unfolding generate_summary
  generate_summary-Spares s h =
      elim (Result-cases (load_summary_inputs w.chunk_max_chars sid s.db)) [
        | inr (x, e) ↦ ground (arith, e)
        | inl (inputs, e) ↦
            elim (Result-cases (
              build_llm_adapter_for_user w.factories
                (load_session_model_settings sid (w.world 0 s.db)))) [
                  | inr (x, e') ↦ rw (e, e') (ap edited (quiet 0 s.db))
                  | inl (adapter, e') ↦ elim (Result-cases (summarise adapter inputs)) [
                    | inr (x, e'') ↦ rw (e, e', e'') (ap edited (waited s.db))
                    | inl ((partials, final), e'') ↦
                        rw (e, e', e'')
                          (ending summary_and_downstream
                            (swap_summary w.now sid (llm_model_used adapter) inputs partials final)
                            s
                            (swap_summary-Kept sid w.now (llm_model_used adapter) inputs partials
                              final)
                            h)
                  ]
                ]
      ]
