-- ===== src/Routes/Provenance.antt =====
-- What an edit of a text leaves for those who read it next.
pub mod Edit
use ai_kaeyris.Prelude.{
  ℕ, ◌≡◌, refl, sym, ap, subst, ◌∙◌, Bool, true, false, ◌&&◌, not, Option, none, some, List, [],
  ◌∷◌, select, is_some, arith, ◌==◌, Result, ok, err, inl, inr, Option-cases, Result-cases,
}
use ai_kaeyris.Text.{Text}
use ai_kaeyris.Table.{first, update_where, first-update_where, select-update_where_ne}
use ai_kaeyris.Models.{Db, Artifact, ArtifactKind, pov, Content, kind_eq}
use ai_kaeyris.Repositories.{artifact_is, update_content}
use ai_kaeyris.Auth.{AuthenticatedKey}
use ai_kaeyris.Access.{resolve_session_for_gm}
use ai_kaeyris.Access.Sight.{resolve_session_for_gm-same}
use ai_kaeyris.Sessions.{owned_pj}
use ai_kaeyris.Routes.{RouteError, get_artifact, require_session}
use ai_kaeyris.Routes.Jobs.{RqJob, guard_artifact_edit_not_busy}
use ai_kaeyris.Routes.Provenance.Edit.{
  edited_row, IsEdit, edit-IsEdit, session_kept, pjs_kept, text_edit_in-same,
}
use ai_kaeyris.Routes.Artifacts.{
  TextOut, text_out, text_edit_in, get_narrative, get_pov, load_owned_pj_or_404, edit, patch_text,
  patch_narrative, patch_pov,
}

-- The texts that a game master edits and reads in any mode of the session.
pub data TextArtifact : Type 0 where
  narrative_text : TextArtifact
  pov_text : ℕ → TextArtifact

abbrev pub kind_of : TextArtifact → ArtifactKind
kind_of narrative_text = ArtifactKind.narrative
kind_of (pov_text pj) = pov pj

abbrev pub read_text : TextArtifact → ℕ → AuthenticatedKey → Db → Result RouteError TextOut
read_text narrative_text = get_narrative
read_text (pov_text pj) = λ sid auth db. get_pov sid auth db pj

module _ (rq : ℕ → Option RqJob) (name_of : ℕ → Text) (now sid : ℕ) (auth : AuthenticatedKey) where
  abbrev pub patch : TextArtifact → Text → Db → Result RouteError (TextOut × Db)
  patch narrative_text = patch_narrative rq name_of now sid auth
  patch (pov_text pj) = patch_pov rq name_of now sid auth pj

  -- Where an edit stands: the reply, what is read next, what is kept of the generation, and that
  -- nothing but the row of the text has changed, in this table and in the others.
  pub record IsShown (text : TextArtifact) (body : Text) (out : TextOut) (before after : Db)
      : Type 0 where
    pub read : read_text text sid auth after ≡ ok out
    pub text_is : out.text ≡ body
    pub marked : out.is_edited ≡ true
    pub dated : out.edited_at ≡ some now
    pub signed : out.edited_by ≡ some (name_of auth.id)
    pub old : Artifact
    pub there : get_artifact sid (kind_of text) before ≡ some old
    pub generation_kept : out.generated_at ≡ old.generated_at
    pub model_kept : out.model_used ≡ old.model_used
    pub others_kept :
        select (λ r. not (artifact_is sid (kind_of text) r)) after.artifacts
        ≡ select (λ r. not (artifact_is sid (kind_of text) r)) before.artifacts
    pub rest_kept : after ≡ record before { artifacts = after.artifacts }

  shown :
      (text : TextArtifact) (body : Text) (db db' : Db) (a : Artifact)
      → read_text text sid auth db' ≡ ok (text_out a)
      → IsEdit sid (kind_of text) now (Content.text body) (name_of auth.id) a db db'
      → IsShown text body (text_out a) db db'
  shown text body db db' a read h = record {
    read = read;
    text_is = rw h.changed refl;
    marked = rw h.changed refl;
    dated = rw h.changed refl;
    signed = rw h.changed refl;
    old = h.old;
    there = h.there;
    generation_kept = rw h.changed refl;
    model_kept = rw h.changed refl;
    others_kept = rw h.written (
        select-update_where_ne (λ r. not (artifact_is sid (kind_of text) r))
          (artifact_is sid (kind_of text)) (edited_row now (Content.text body) (name_of auth.id))
          db.artifacts (λ r q. ground arith) (λ r q. ground arith));
    rest_kept = rw h.written refl;
  }

  -- The reply of a patch is the artifact that its edit leaves.
  settle :
      (artifact : TextArtifact) (body text : Text) (db next db' : Db) (a : Artifact) (out : TextOut)
      → text ≡ body
      → next ≡ db'
      → text_out a ≡ out
      → read_text artifact sid auth next ≡ ok (text_out a)
      → IsEdit sid (kind_of artifact) now (Content.text text) (name_of auth.id) a db next
      → IsShown artifact body out db db'
  settle artifact body text db next db' a out same_text same_db same_out read h =
      subst (λ d. IsShown artifact body out db d) same_db
        (subst (λ o. IsShown artifact body o db next) same_out
          (subst (λ b. IsShown artifact b (text_out a) db next) same_text
            (shown artifact text db next a read h)))

  narrative_shown :
      (body : Text) (db db' : Db) (out : TextOut)
      → patch narrative_text body db ≡ ok (out, db')
      → IsShown narrative_text body out db db'
  unfolding patch_narrative patch_text get_narrative
  narrative_shown body db db' out e = elim (Result-cases (text_edit_in body)) [
    | inr (x, bad) ↦ ground (arith, bad)
    | inl (text, good) ↦ elim (Option-cases (resolve_session_for_gm sid auth true db)) [
      | inl hidden ↦ ground (arith, good, hidden)
      | inr (s, seen) ↦ elim (Result-cases (guard_artifact_edit_not_busy rq s)) [
        | inr (x, busy) ↦ ground (arith, good, seen, busy)
        | inl (_, idle) ↦
            elim (Result-cases
              (edit rq name_of now sid auth ArtifactKind.narrative (Content.text text) db)) [
                | inr (x, refused) ↦ ground (arith, good, seen, idle, refused)
                | inl ((a, next), done) ↦
                    let write =
                      edit-IsEdit rq name_of now sid auth ArtifactKind.narrative (Content.text text)
                        db next a done in
                    let kept =
                      session_kept rq name_of now sid auth ArtifactKind.narrative
                        (Content.text text) db next a write in
                    settle narrative_text body text db next db' a out
                      (text_edit_in-same rq name_of now sid auth body text good)
                      (ground (arith, good, seen, idle, done))
                      (ground (arith, good, seen, idle, done))
                      (ground (arith, kept, seen, write.found)) write
              ]
      ]
    ]
  ]

  pov_shown :
      (pj : ℕ) (body : Text) (db db' : Db) (out : TextOut)
      → patch (pov_text pj) body db ≡ ok (out, db')
      → IsShown (pov_text pj) body out db db'
  unfolding patch_pov get_pov load_owned_pj_or_404
  pov_shown pj body db db' out e = elim (Result-cases (text_edit_in body)) [
    | inr (x, bad) ↦ ground (arith, bad)
    | inl (text, good) ↦ elim (Option-cases (resolve_session_for_gm sid auth true db)) [
      | inl hidden ↦ ground (arith, good, hidden)
      | inr (s, seen) ↦ elim (Option-cases (first (owned_pj auth.id s.campaign_id pj) db.pjs)) [
        | inl foreign ↦ ground (arith, good, seen, foreign)
        | inr (p, owned) ↦ elim (Result-cases (guard_artifact_edit_not_busy rq s)) [
          | inr (x, busy) ↦ ground (arith, good, seen, owned, busy)
          | inl (_, idle) ↦
              elim (Result-cases (edit rq name_of now sid auth (pov pj) (Content.text text) db)) [
                | inr (x, refused) ↦ ground (arith, good, seen, owned, idle, refused)
                | inl ((a, next), done) ↦
                    let write =
                      edit-IsEdit rq name_of now sid auth (pov pj) (Content.text text) db next a
                        done in
                    let kept =
                      session_kept rq name_of now sid auth (pov pj) (Content.text text) db next a
                        write in
                    let pjs =
                      pjs_kept rq name_of now sid auth (pov pj) (Content.text text) db next a
                        write in
                    settle (pov_text pj) body text db next db' a out
                      (text_edit_in-same rq name_of now sid auth body text good)
                      (ground (arith, good, seen, owned, idle, done))
                      (ground (arith, good, seen, owned, idle, done))
                      (ground (arith, kept, seen, pjs, owned, write.found)) write
              ]
        ]
      ]
    ]
  ]

  -- A game master who edits the narrative or a point of view of a session reads the edited text back
  -- in the database that the edit leaves, with the mark, the date and the author of the edit and with
  -- the model and the date of the generation as they were. No other artifact and no other table is
  -- changed.
  pub patch-IsShown :
      (text : TextArtifact) (body : Text) (db db' : Db) (out : TextOut)
      → patch text body db ≡ ok (out, db')
      → IsShown text body out db db'
  patch-IsShown narrative_text body db db' out e = narrative_shown body db db' out e
  patch-IsShown (pov_text pj) body db db' out e = pov_shown pj body db db' out e
