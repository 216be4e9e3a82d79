-- ===== src/Routes/Survival/Rows.antt =====
-- The edited artifacts under the writes of a job that targets no edited one.
use ai_kaeyris.Prelude.{
  ℕ, ◌≡◌, refl, Bool, true, false, ◌&&◌, some, List, [], ◌∷◌, is_some, select, arith, ◌==◌, inl,
  inr, Bool-cases,
}
use ai_kaeyris.Text.{Text}
use ai_kaeyris.Table.{first, update_where, delete_where, insert}
use ai_kaeyris.Models.{Db, Artifact, ArtifactKind, Content, kind_eq}
use ai_kaeyris.Repositories.{artifact_is, regenerated, generated, upsert_artifact}
use ai_kaeyris.Routes.{Targets, should_guard, edited_target}

abbrev pub edited : List Artifact → List Artifact
edited = select (λ r. r.is_edited)

module _ (t : Targets) (sid : ℕ) where
  -- The edited artifacts are the same, and none of them is a target.
  abbrev pub Kept : List Artifact → List Artifact → Type 0
  Kept before after = (edited after ≡ edited before) × (select (edited_target t sid) after ≡ [])

  -- The targets in the session, edited or not.
  abbrev pub target : Artifact → Bool
  target r = r.session_id == sid && should_guard t r.kind

  pub Kept-update :
      (p : Artifact → Bool) (f : Artifact → Artifact) (rows : List Artifact)
      → ((r : Artifact) → p r ≡ true → target r ≡ true)
      → ((r : Artifact) → (f r).is_edited ≡ false)
      → select (edited_target t sid) rows ≡ []
      → Kept rows (update_where p f rows)
  unfolding update_where
  Kept-update p f [] within plain h = (refl, refl)
  Kept-update p f (r ∷ rows) within plain h =
      ground (arith, Kept-update p f rows within plain, within r, plain r)

  pub Kept-delete :
      (p : Artifact → Bool) (rows : List Artifact)
      → ((r : Artifact) → p r ≡ true → target r ≡ true)
      → select (edited_target t sid) rows ≡ []
      → Kept rows (delete_where p rows)
  unfolding delete_where
  Kept-delete p [] within h = (refl, refl)
  Kept-delete p (r ∷ rows) within h = ground (arith, Kept-delete p rows within, within r)

  pub Kept-insert :
      (new : Artifact) (rows : List Artifact)
      → new.is_edited ≡ false
      → select (edited_target t sid) rows ≡ []
      → Kept rows (insert new rows)
  Kept-insert new [] plain h = ground arith
  Kept-insert new (r ∷ rows) plain h = ground (arith, Kept-insert new rows)

  pub kind_eq-eq : (k l : ArtifactKind) → kind_eq k l ≡ true → k ≡ l
  kind_eq-eq k l h = ground arith

  pub upsert_artifact-Kept :
      (now : ℕ) (kind : ArtifactKind) (content : Content) (model : Text) (db db' : Db)
      → should_guard t kind ≡ true
      → select (edited_target t sid) db.artifacts ≡ []
      → upsert_artifact now sid kind content model db ≡ some db'
      → Kept db.artifacts db'.artifacts
  unfolding upsert_artifact
  upsert_artifact-Kept now kind content model db db' targeted h e =
      elim (Bool-cases (is_some (first (artifact_is sid kind) db.artifacts))) [
        | inl present ↦ ground (
          arith,
          present,
          Kept-update (artifact_is sid kind) (regenerated now content model) db.artifacts within
              (λ r. refl) h,
        )
        | inr absent ↦
            ground (
              arith,
              absent,
              Kept-insert (generated now sid kind content model) db.artifacts refl h,
            )
      ]
    where
      within : (r : Artifact) → artifact_is sid kind r ≡ true → target r ≡ true
      within r q = ground (arith, kind_eq-eq r.kind kind)
