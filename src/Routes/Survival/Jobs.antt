-- ===== src/Routes/Survival/Jobs.antt =====
-- The edited artifacts under a run of each job, while the rest of the system writes no artifact.
use ai_kaeyris.Prelude.{
  ℕ, ◌≡◌, refl, ap, ◌∙◌, true, ◌&&◌, ◌||◌, some, List, [], ◌∷◌, select, arith, ◌==◌, inl, inr,
  Option-cases,
}
use ai_kaeyris.Text.{Text}
use ai_kaeyris.Models.{Db, Artifact, ArtifactKind, Content, pov, is_pov, kind_eq}
use ai_kaeyris.Repositories.{upsert_artifact, invalidate_pov_artifacts, reset_summary_texts}
use ai_kaeyris.Jobs.Generation.{SummaryInput}
use ai_kaeyris.Jobs.Writes.{
  upsert_povs, swap_summary, write_partials, delete_narrative_and_elements,
}
use ai_kaeyris.Jobs.Swap.{artifacts-write_partials}
use ai_kaeyris.Routes.{edited_target}
use ai_kaeyris.Routes.Generation.{povs_only, summary_and_downstream}
use ai_kaeyris.Routes.Survival.Rows.{edited, target, Kept-delete, upsert_artifact-Kept}

module _ (sid : ℕ) where
  pub upsert_povs-Kept :
      (now : ℕ) (model : Text) (results : List (ℕ × Text)) (db db' : Db)
      → select (edited_target povs_only sid) db.artifacts ≡ []
      → upsert_povs now sid model results db ≡ some db'
      → edited db'.artifacts ≡ edited db.artifacts
  unfolding upsert_povs
  upsert_povs-Kept now model [] db db' h e = ground arith
  upsert_povs-Kept now model ((pj, text) ∷ results) db db' h e =
      elim (Option-cases (upsert_artifact now sid (pov pj) (Content.text text) model db)) [
        | inl refused ↦ ground (arith, refused)
        | inr (next, done) ↦
            let kept =
              upsert_artifact-Kept povs_only sid now (pov pj) (Content.text text) model db next refl
                h done in
            upsert_povs-Kept now model results next db' kept.1 (ground (arith, done)) ∙ kept.0
      ]

  pub swap_summary-Kept :
      (now : ℕ) (model : Text) (inputs : List SummaryInput) (partials : List Text) (final : Text)
      (db db' : Db)
      → select (edited_target summary_and_downstream sid) db.artifacts ≡ []
      → swap_summary now sid model inputs partials final db ≡ some db'
      → edited db'.artifacts ≡ edited db.artifacts
  unfolding swap_summary delete_narrative_and_elements invalidate_pov_artifacts reset_summary_texts
  swap_summary-Kept now model inputs partials final db db' h e =
      let base = write_partials inputs partials (reset_summary_texts sid db) in
      let same = artifacts-write_partials inputs partials (reset_summary_texts sid db) in
      let swept = delete_narrative_and_elements sid base in
      let one =
        Kept-delete summary_and_downstream sid
          (λ r.
            r.session_id == sid
            && (kind_eq r.kind ArtifactKind.narrative || kind_eq r.kind ArtifactKind.elements))
          base.artifacts downstream
          (ap (select (edited_target summary_and_downstream sid)) same ∙ h) in
      let two =
        Kept-delete summary_and_downstream sid (λ r. r.session_id == sid && is_pov r.kind)
          swept.artifacts povs one.1 in
      (upsert_artifact-Kept summary_and_downstream sid now ArtifactKind.summary (Content.text final)
        model (invalidate_pov_artifacts sid swept) db' refl two.1 e).0
      ∙ (two.0 ∙ (one.0 ∙ ap edited same))
    where
      downstream :
          (r : Artifact)
          → (r.session_id == sid
              && (kind_eq r.kind ArtifactKind.narrative || kind_eq r.kind ArtifactKind.elements))
            ≡ true
          → target summary_and_downstream sid r ≡ true
      downstream r q = ground arith

      povs :
          (r : Artifact)
          → (r.session_id == sid && is_pov r.kind) ≡ true
          → target summary_and_downstream sid r ≡ true
      povs r q = ground arith
