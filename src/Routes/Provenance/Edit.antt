-- ===== src/Routes/Provenance/Edit.antt =====
-- The write of an edit, and what it keeps.
use ai_kaeyris.Prelude.{ℕ, ◌≡◌, refl, true, Option, some, arith, ok, inl, inr, Option-cases}
use ai_kaeyris.Text.{Text}
use ai_kaeyris.Table.{first, update_where, first-update_where}
use ai_kaeyris.Models.{Db, Artifact, ArtifactKind, Content}
use ai_kaeyris.Repositories.{artifact_is, update_content}
use ai_kaeyris.Auth.{AuthenticatedKey}
use ai_kaeyris.Access.{resolve_session_for_gm}
use ai_kaeyris.Access.Sight.{resolve_session_for_gm-same}
use ai_kaeyris.Routes.{get_artifact}
use ai_kaeyris.Routes.Jobs.{RqJob}
use ai_kaeyris.Routes.Artifacts.{text_edit_in, edit}

abbrev pub edited_row : ℕ → Content → Text → Artifact → Artifact
edited_row now content by r = record r {
  content = content;
  is_edited = true;
  edited_at = some now;
  edited_by = some by;
}

-- The write of an edit, and what is kept.
pub record IsEdit (sid : ℕ) (kind : ArtifactKind) (now : ℕ) (content : Content) (by : Text)
    (a : Artifact) (before after : Db) : Type 0 where
  pub old : Artifact
  pub there : get_artifact sid kind before ≡ some old
  pub changed : a ≡ edited_row now content by old
  pub written : after ≡ record before {
    artifacts = update_where (artifact_is sid kind) (edited_row now content by) before.artifacts;
  }
  pub found : get_artifact sid kind after ≡ some a

module _ (rq : ℕ → Option RqJob) (name_of : ℕ → Text) (now sid : ℕ) (auth : AuthenticatedKey) where
  pub edit-IsEdit :
      (kind : ArtifactKind) (content : Content) (db db' : Db) (a : Artifact)
      → edit rq name_of now sid auth kind content db ≡ ok (a, db')
      → IsEdit sid kind now content (name_of auth.id) a db db'
  unfolding edit update_content
  edit-IsEdit kind content db db' a e =
      elim (Option-cases (first (artifact_is sid kind) db.artifacts)) [
        | inl absent ↦ ground (arith, absent)
        | inr (old, there) ↦
            let found =
              first-update_where (artifact_is sid kind) (edited_row now content (name_of auth.id))
                db.artifacts (λ r h. h) in
            record {
              old = old;
              there = there;
              changed = ground (arith, there, found);
              written = ground (arith, there, found);
              found = ground (arith, there, found);
            }
      ]

  pub session_kept :
      (kind : ArtifactKind) (content : Content) (db db' : Db) (a : Artifact)
      → IsEdit sid kind now content (name_of auth.id) a db db'
      → resolve_session_for_gm sid auth true db' ≡ resolve_session_for_gm sid auth true db
  session_kept kind content db db' a h =
      resolve_session_for_gm-same sid auth true db db' (rw h.written refl) (rw h.written refl)

  pub pjs_kept :
      (kind : ArtifactKind) (content : Content) (db db' : Db) (a : Artifact)
      → IsEdit sid kind now content (name_of auth.id) a db db'
      → db'.pjs ≡ db.pjs
  pjs_kept kind content db db' a h = rw h.written refl

  pub text_edit_in-same : (body text : Text) → text_edit_in body ≡ ok text → text ≡ body
  unfolding text_edit_in
  text_edit_in-same body text e = ground arith
