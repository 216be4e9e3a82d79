-- ===== src/Jobs/Swap.antt =====
-- The atomic swap at the end of the summary job.
use ai_kaeyris.Prelude.{
  ℕ, ◌≡◌, refl, true, false, ◌&&◌, ◌||◌, none, some, List, [], ◌∷◌, arith, is_some, select, All,
  ◌==◌, ==_refl, ◌⊎◌, inl, inr,
}
use ai_kaeyris.Text.{Text}
use ai_kaeyris.Table.{update_where, delete_where, first, insert}
use ai_kaeyris.Models.{Db, Artifact, ArtifactKind, Content, pov, is_pov, kind_eq}
use ai_kaeyris.Repositories.{
  artifact_of, artifact_is, regenerated, generated, upsert_artifact, invalidate_pov_artifacts,
  reset_summary_texts, update_summary_text,
}
use ai_kaeyris.Jobs.Generation.{SummaryInput}
use ai_kaeyris.Jobs.Writes.{swap_summary, write_partials}

-- A freshly generated artifact.
pub record IsFresh (now : ℕ) (kind : ArtifactKind) (content : Content) (model : Text) (a : Artifact)
    : Type 0 where
  pub kind_is : a.kind ≡ kind
  pub content_is : a.content ≡ content
  pub model_is : a.model_used ≡ model
  pub stamped : a.generated_at ≡ now
  pub unedited : a.is_edited ≡ false

abbrev IsSummary : Artifact → Type 0
IsSummary a = a.kind ≡ ArtifactKind.summary

left_of :
    (k : ArtifactKind)
    → is_pov k ≡ false
    → (kind_eq k ArtifactKind.narrative || kind_eq k ArtifactKind.elements) ≡ false
    → k ≡ ArtifactKind.summary
left_of ArtifactKind.summary h g = refl
left_of ArtifactKind.narrative h g = cc
left_of ArtifactKind.elements h g = cc
left_of (pov p) h g = cc

module _ (sid : ℕ) where
  -- The two DELETEs leave the session's summaries alone.
  abbrev swept : List Artifact → List Artifact
  swept rows =
      delete_where (λ r. r.session_id == sid && is_pov r.kind)
        (delete_where
          (λ r.
            r.session_id == sid
            && (kind_eq r.kind ArtifactKind.narrative || kind_eq r.kind ArtifactKind.elements))
          rows)

  swept-IsSummary : (rows : List Artifact) → All IsSummary (select (artifact_of sid) (swept rows))
  unfolding delete_where
  swept-IsSummary [] = tt
  swept-IsSummary (r ∷ rows) = ground (arith, swept-IsSummary rows, left_of r.kind)

  module _ (now : ℕ) (content : Content) (model : Text) where
    abbrev Fresh : Artifact → Type 0
    Fresh = IsFresh now ArtifactKind.summary content model

    updated-Fresh :
        (rows : List Artifact)
        → All IsSummary (select (artifact_of sid) rows)
        → All Fresh (
            select (artifact_of sid) (
              update_where
                (artifact_is sid ArtifactKind.summary)
                (regenerated now content model)
                rows))
    unfolding update_where
    updated-Fresh [] h = tt
    updated-Fresh (r ∷ rows) h = ground (arith, updated-Fresh rows)

    inserted-Fresh :
        (rows : List Artifact)
        → All IsSummary (select (artifact_of sid) rows)
        → first (artifact_is sid ArtifactKind.summary) rows ≡ none
        → All Fresh (
            select
              (artifact_of sid)
              (insert (generated now sid ArtifactKind.summary content model) rows))
    inserted-Fresh [] h e = ground (arith, ==_refl sid)
    inserted-Fresh (r ∷ rows) h e = ground (arith, inserted-Fresh rows)

    found-updated :
        (rows : List Artifact)
        → is_some (first (artifact_is sid ArtifactKind.summary) rows) ≡ true
        → is_some (
            first (artifact_is sid ArtifactKind.summary) (
              update_where
                (artifact_is sid ArtifactKind.summary)
                (regenerated now content model)
                rows))
          ≡ true
    unfolding update_where
    found-updated [] h = cc
    found-updated (r ∷ rows) h = ground (arith, found-updated rows)

    found-inserted :
        (rows : List Artifact)
        → is_some (
            first
              (artifact_is sid ArtifactKind.summary)
              (insert (generated now sid ArtifactKind.summary content model) rows))
          ≡ true
    found-inserted [] = ground (arith, ==_refl sid)
    found-inserted (r ∷ rows) = ground (arith, found-inserted rows)

  first_in_rows :
      (rows : List Artifact)
      → (first (artifact_is sid ArtifactKind.summary) rows ≡ none)
        ⊎ (is_some (first (artifact_is sid ArtifactKind.summary) rows) ≡ true)
  first_in_rows rows =
      elim (first (artifact_is sid ArtifactKind.summary) rows)
        as (λ o. (o ≡ none) ⊎ (is_some o ≡ true)) [ none ↦ inl refl | some r ↦ inr refl ]

-- What the artifacts of a session come to when a summary is written after the DELETEs.
pub record IsSwapped (now sid : ℕ) (content : Content) (model : Text) (db : Db) : Type 0 where
  pub all_fresh :
      All (IsFresh now ArtifactKind.summary content model) (select (artifact_of sid) db.artifacts)
  pub is_there : is_some (first (artifact_is sid ArtifactKind.summary) db.artifacts) ≡ true

upserted :
    (now sid : ℕ) (content : Content) (model : Text) (db db' : Db)
    → All IsSummary (select (artifact_of sid) db.artifacts)
    → upsert_artifact now sid ArtifactKind.summary content model db ≡ some db'
    → IsSwapped now sid content model db'
unfolding upsert_artifact
upserted now sid content model db db' h e = record {
  all_fresh = ground (
    arith,
    first_in_rows sid db.artifacts,
    updated-Fresh sid now content model db.artifacts,
    inserted-Fresh sid now content model db.artifacts,
  );
  is_there = ground (
    arith,
    found-updated sid now content model db.artifacts,
    found-inserted sid now content model db.artifacts,
  );
}

-- The writes to the chunks leave the artifacts alone.
pub artifacts-write_partials :
    (inputs : List SummaryInput) (partials : List Text) (db : Db)
    → (write_partials inputs partials db).artifacts ≡ db.artifacts
unfolding write_partials update_summary_text
artifacts-write_partials [] partials db = refl
artifacts-write_partials ((c, t) ∷ inputs) [] db = refl
artifacts-write_partials ((none, t) ∷ inputs) (p ∷ partials) db =
    artifacts-write_partials inputs partials db
artifacts-write_partials ((some c, t) ∷ inputs) (p ∷ partials) db =
    artifacts-write_partials inputs partials (update_summary_text c p db)

pub swap_summary-IsSwapped :
    (now sid : ℕ) (model : Text) (inputs : List SummaryInput) (partials : List Text) (final : Text)
    (db db' : Db)
    → swap_summary now sid model inputs partials final db ≡ some db'
    → IsSwapped now sid (Content.text final) model db'
unfolding swap_summary invalidate_pov_artifacts
swap_summary-IsSwapped now sid model inputs partials final db db' e =
    upserted now sid (Content.text final) model _ db'
      (swept-IsSummary sid (write_partials inputs partials (reset_summary_texts sid db)).artifacts)
      e
