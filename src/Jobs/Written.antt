-- ===== src/Jobs/Written.antt =====
-- The narrative job and the summary job of app/jobs/jdr.py, and the artifacts that they write.
use ai_kaeyris.Prelude.{
  ℕ, ◌≡◌, refl, subst, true, false, not, select, Option, none, some, List, [], ◌∷◌, arith, ==_refl,
  ok, Option-cases, Result-cases, inl, inr,
}
use ai_kaeyris.Text.{Text}
use ai_kaeyris.Table.{first, insert, first-update_where, select-insert_ne, select-update_where_ne}
use ai_kaeyris.Models.{Db, Artifact, ArtifactKind, Content, kind_eq}
use ai_kaeyris.Repositories.{artifact_is, regenerated, generated, upsert_artifact}
use ai_kaeyris.Jobs.Exec.{JobState}
use ai_kaeyris.Jobs.Adapters.{
  LlmAdapter, narrative_prompt, llm_model_used, answer_of, load_session_model_settings,
  build_llm_adapter_for_user,
}
use ai_kaeyris.Jobs.Source.{load_session_source_document, build_user_prompt_with_context}
use ai_kaeyris.Jobs.Runs.{Worker, generate_narrative, generate_summary}
use ai_kaeyris.Jobs.Generation.{SummaryInput, load_summary_inputs, summarise}
use ai_kaeyris.Jobs.Writes.{swap_summary}
use ai_kaeyris.Jobs.Swap.{IsSwapped, swap_summary-IsSwapped}

-- The artifact is there, fresh, with the content and the model; every other artifact, and every other
-- table, is as it was.
pub record IsWritten (now sid : ℕ) (kind : ArtifactKind) (content : Content) (model : Text)
    (before after : Db) : Type 0 where
  pub row : Artifact
  pub found : first (artifact_is sid kind) after.artifacts ≡ some row
  pub content_is : row.content ≡ content
  pub model_is : row.model_used ≡ model
  pub stamped : row.generated_at ≡ now
  pub unedited : row.is_edited ≡ false
  pub others_kept :
      select (λ r. not (artifact_is sid kind r)) after.artifacts
      ≡ select (λ r. not (artifact_is sid kind r)) before.artifacts
  pub rest_kept : after ≡ record before { artifacts = after.artifacts }

pub kind_eq_refl : (k : ArtifactKind) → kind_eq k k ≡ true
kind_eq_refl k = ground arith

first-insert :
    (sid : ℕ) (kind : ArtifactKind) (rows : List Artifact) (r : Artifact)
    → first (artifact_is sid kind) rows ≡ none
    → artifact_is sid kind r ≡ true
    → first (artifact_is sid kind) (insert r rows) ≡ some r
first-insert sid kind [] r h e = ground arith
first-insert sid kind (a ∷ rows) r h e = ground (arith, first-insert sid kind rows r)

upsert_artifact-IsWritten :
    (now sid : ℕ) (kind : ArtifactKind) (content : Content) (model : Text) (db db' : Db)
    → upsert_artifact now sid kind content model db ≡ some db'
    → IsWritten now sid kind content model db db'
unfolding upsert_artifact
upsert_artifact-IsWritten now sid kind content model db db' e =
    elim (Option-cases (first (artifact_is sid kind) db.artifacts)) [
      | inl absent ↦ record {
        row = generated now sid kind content model;
        found = ground (
          arith,
          absent,
          first-insert sid kind db.artifacts (generated now sid kind content model),
          ==_refl sid,
          kind_eq_refl kind,
        );
        content_is = refl;
        model_is = refl;
        stamped = refl;
        unedited = refl;
        others_kept = ground (
          arith,
          absent,
          select-insert_ne (λ r. not (artifact_is sid kind r))
              (generated now sid kind content model) db.artifacts,
          ==_refl sid,
          kind_eq_refl kind,
        );
        rest_kept = ground (arith, absent);
      }
      | inr (r, present) ↦ record {
        row = regenerated now content model r;
        found = ground (
          arith,
          present,
          first-update_where (artifact_is sid kind) (regenerated now content model) db.artifacts
              (λ r h. h),
        );
        content_is = refl;
        model_is = refl;
        stamped = refl;
        unedited = refl;
        others_kept = ground (
          arith,
          present,
          select-update_where_ne (λ r. not (artifact_is sid kind r)) (artifact_is sid kind)
              (regenerated now content model) db.artifacts (λ r q. ground arith)
              (λ r q. ground arith),
        );
        rest_kept = ground (arith, present);
      }
    ]

-- What a run of the narrative job rests on, and what it leaves.
pub record IsNarrated (w : Worker) (sid : ℕ) (s : JobState) (after : Db) : Type 0 where
  pub source : Text
  pub context : Option Text
  pub loaded : load_session_source_document w.seconds sid s.db ≡ ok (source, context)
  pub adapter : LlmAdapter
  pub chosen :
      build_llm_adapter_for_user w.factories (load_session_model_settings sid (w.world 0 s.db))
      ≡ ok adapter
  pub text : Text
  pub answered :
      answer_of
        (adapter.complete 0 narrative_prompt (build_user_prompt_with_context context source))
      ≡ ok text
  pub written :
      IsWritten w.now sid ArtifactKind.narrative
        (Content.text text)
        (llm_model_used adapter)
        (w.world 1 (w.world 0 s.db))
        after

-- A run of the narrative job that succeeds has written the session's narrative: the answer of the
-- language model to the prompt made of the source document that the run started from, with the model
-- that the owner's settings chose in this run, the stamp of the run and no mark of an edit. Every
-- other artifact and every other table are as the rest of the system left them while the job waited.
pub generate_narrative-IsNarrated :
    (w : Worker) (sid : ℕ) (s : JobState)
    → (generate_narrative w sid s).0 ≡ ok tt
    → IsNarrated w sid s (generate_narrative w sid s).1.db
unfolding generate_narrative upsert_artifact
generate_narrative-IsNarrated w sid s h =
    elim (Result-cases (load_session_source_document w.seconds sid s.db)) [
      | inr (x, e) ↦ ground (arith, e)
      | inl ((source, context), e) ↦
          elim (Result-cases (
            build_llm_adapter_for_user w.factories
              (load_session_model_settings sid (w.world 0 s.db)))) [
                | inr (x, e') ↦ ground (arith, e, e')
                | inl (adapter, e') ↦
                    elim (Result-cases (
                      answer_of (
                        adapter.complete 0 narrative_prompt
                          (build_user_prompt_with_context context source)))) [
                            | inr (x, e'') ↦ ground (arith, e, e', e'')
                            | inl (text, e'') ↦
                                elim (Option-cases (
                                  upsert_artifact w.now sid ArtifactKind.narrative
                                    (Content.text text) (llm_model_used adapter)
                                    (w.world 1 (w.world 0 s.db)))) [
                                      | inl refused ↦ ground (arith, e, e', e'', refused)
                                      | inr (db', done_e) ↦ record {
                                        source = source;
                                        context = context;
                                        loaded = e;
                                        adapter = adapter;
                                        chosen = e';
                                        text = text;
                                        answered = e'';
                                        written =
                                            rw (e, e', e'', done_e)
                                              (upsert_artifact-IsWritten w.now sid
                                                ArtifactKind.narrative (Content.text text)
                                                (llm_model_used adapter)
                                                (w.world 1 (w.world 0 s.db)) db' done_e);
                                      }
                                    ]
                          ]
              ]
    ]

-- What a run of the summary job rests on, and what it leaves: the text of the summary is what the
-- adapter of the owner's settings has made of the inputs of the run.
pub record IsSummarised (w : Worker) (sid : ℕ) (s : JobState) (after : Db) : Type 0 where
  pub inputs : List SummaryInput
  pub loaded : load_summary_inputs w.chunk_max_chars sid s.db ≡ ok inputs
  pub adapter : LlmAdapter
  pub chosen :
      build_llm_adapter_for_user w.factories (load_session_model_settings sid (w.world 0 s.db))
      ≡ ok adapter
  pub partials : List Text
  pub text : Text
  pub answered : summarise adapter inputs ≡ ok (partials, text)
  pub swapped : IsSwapped w.now sid (Content.text text) (llm_model_used adapter) after

-- A run of the summary job that succeeds leaves the session with a fresh summary and with no other
-- artifact: whatever it had before, and whatever the rest of the system wrote while the job waited,
-- is gone. The text of the summary is what the language model has made of the texts that the run
-- started from, and its model is the one that the settings of the session's owner chose in this run.
pub generate_summary-IsSwapped :
    (w : Worker) (sid : ℕ) (s : JobState)
    → (generate_summary w sid s).0 ≡ ok tt
    → IsSummarised w sid s (generate_summary w sid s).1.db
unfolding generate_summary
generate_summary-IsSwapped w sid s h =
    elim (Result-cases (load_summary_inputs w.chunk_max_chars sid s.db)) [
      | inr (x, e) ↦ ground (arith, e)
      | inl (inputs, e) ↦
          elim (Result-cases (
            build_llm_adapter_for_user w.factories
              (load_session_model_settings sid (w.world 0 s.db)))) [
                | inr (x, e') ↦ ground (arith, e, e')
                | inl (adapter, e') ↦ elim (Result-cases (summarise adapter inputs)) [
                  | inr (x, e'') ↦ ground (arith, e, e', e'')
                  | inl ((partials, final), e'') ↦
                      elim (Option-cases (
                        swap_summary w.now sid (llm_model_used adapter) inputs partials final
                          (w.world 1 (w.world 0 s.db)))) [
                            | inl refused ↦ ground (arith, e, e', e'', refused)
                            | inr (db', done_e) ↦ record {
                              inputs = inputs;
                              loaded = e;
                              adapter = adapter;
                              chosen = e';
                              partials = partials;
                              text = final;
                              answered = e'';
                              swapped =
                                  subst
                                    (IsSwapped w.now sid (Content.text final)
                                      (llm_model_used adapter))
                                    (ground (arith, e, e', e'', done_e))
                                    (swap_summary-IsSwapped w.now sid (llm_model_used adapter)
                                      inputs partials final (w.world 1 (w.world 0 s.db)) db'
                                      done_e);
                            }
                          ]
                ]
              ]
    ]
