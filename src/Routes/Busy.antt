-- ===== src/Routes/Busy.antt =====
-- The routes of app/services/jdr/router.py that enqueue a generation, and those that edit a
-- text.
use ai_kaeyris.Prelude.{
  ℕ, ◌≡◌, ◌≢◌, Bool, true, false, Option, none, some, List, [], ◌∷◌, map, select, All, arith, subst,
  sym, ==_refl, Result, ok, err, inl, inr, Option-cases,
}
use ai_kaeyris.Text.{Text}
use ai_kaeyris.Table.{first, update_where}
use ai_kaeyris.Models.{Db, Session, JobKind, Element}
use ai_kaeyris.Elements.{Json}
use ai_kaeyris.Routes.{RouteError}
use ai_kaeyris.Repositories.{session_is, upsert_status, set_current_job_id, update_session_row}
use ai_kaeyris.Auth.{AuthenticatedKey}
use ai_kaeyris.Access.{resolve_session_for_gm, get_for_gm, session_of_gm}
use ai_kaeyris.Access.Sight.{resolve_session_for_gm-IsLetIn}
use ai_kaeyris.Sessions.{enqueue_session_job}
use ai_kaeyris.Jobs.Atomic.{ArtifactJob, narrative_job, elements_job, povs_job, summary_job}
use ai_kaeyris.Routes.Jobs.{
  RqJob, func_name_kind, is_terminal, job_status, is_artifact_job, resolve_job_identity, first_arg,
  project_rq_job_out, guard_artifact_edit_not_busy, busy_job, busy_with,
}
use ai_kaeyris.Routes.Generation.{post_narrative, post_elements, post_povs, post_summary}
use ai_kaeyris.Routes.Artifacts.{
  patch_text, patch_summary, patch_narrative, patch_pov, put_elements,
}
use ai_kaeyris.Routes.Survival.{post_generation}

abbrev pub kind_of_job : ArtifactJob → JobKind
kind_of_job narrative_job = JobKind.narrative
kind_of_job elements_job = JobKind.elements
kind_of_job povs_job = JobKind.povs
kind_of_job summary_job = JobKind.summary

-- What RQ holds of the job: its function and argument, and that it is not over.
pub record IsPending (job : ArtifactJob) (sid : ℕ) (j : RqJob) : Type 0 where
  pub function_is : func_name_kind j.func_name ≡ some (kind_of_job job)
  pub argument_is : j.args ≡ some sid ∷ []
  pub pending : is_terminal (job_status j.status) ≡ false

guard_refuses :
    (rq : ℕ → Option RqJob) (job : ArtifactJob) (sid jid : ℕ) (j : RqJob) (s : Session)
    → s.id ≡ sid
    → s.current_job_id ≡ some jid
    → rq jid ≡ some j
    → IsPending job sid j
    → guard_artifact_edit_not_busy rq s ≢ ok tt
unfolding guard_artifact_edit_not_busy busy_job busy_with resolve_job_identity first_arg
    project_rq_job_out
guard_refuses rq job sid jid j s same current there h e = ground (
  arith,
  same,
  current,
  there,
  h.function_is,
  h.argument_is,
  h.pending,
  ==_refl sid,
  artifact_job job,
)
  where
    artifact_job : (job : ArtifactJob) → is_artifact_job (kind_of_job job) ≡ true
    artifact_job job = ground arith

abbrev with_job : ℕ → Session → Session
with_job jid s = record s { current_job_id = some jid }

-- The rows of the session have the job.
HasJob : ℕ → ℕ → List Session → Type 0
HasJob jid sid rows =
    All (λ (r : Session). r.current_job_id ≡ some jid) (select (session_is sid) rows)

updated-HasJob :
    (jid sid : ℕ) (rows : List Session)
    → HasJob jid sid (update_where (session_is sid) (with_job jid) rows)
unfolding HasJob update_where
updated-HasJob jid sid [] = tt
updated-HasJob jid sid (r ∷ rows) = ground (arith, updated-HasJob jid sid rows)

same_jobs :
    (jid : ℕ) (xs ys : List Session)
    → map (λ r. r.current_job_id) xs ≡ map (λ r. r.current_job_id) ys
    → All (λ (r : Session). r.current_job_id ≡ some jid) ys
    → All (λ (r : Session). r.current_job_id ≡ some jid) xs
same_jobs jid [] ys e h = tt
same_jobs jid (x ∷ xs) [] e h = cc
same_jobs jid (x ∷ xs) (y ∷ ys) e h = ground (arith, same_jobs jid xs ys)

found-HasJob :
    (sid gm jid : ℕ) (rows : List Session) (s : Session)
    → HasJob jid sid rows
    → first (session_of_gm sid gm none) rows ≡ some s
    → s.current_job_id ≡ some jid
unfolding HasJob
found-HasJob sid gm jid [] s h e = cc
found-HasJob sid gm jid (r ∷ rows) s h e = ground (arith, found-HasJob sid gm jid rows s)

-- The route writes the job into the rows of the session.
post_generation-sessions :
    (job : ArtifactJob) (now jid sid : ℕ) (auth : AuthenticatedKey) (force : Bool) (db db' : Db)
    → post_generation job now jid sid auth force db ≡ ok db'
    → db'.sessions ≡ update_where (session_is sid) (with_job jid) db.sessions
unfolding post_narrative post_elements post_povs post_summary enqueue_session_job upsert_status
    set_current_job_id update_session_row
post_generation-sessions job now jid sid auth force db db' e =
    elim (Option-cases (resolve_session_for_gm sid auth true db)) [
      | inl hidden ↦ by_job job e hidden
      | inr (s, seen) ↦
          posted job s e seen (resolve_session_for_gm-IsLetIn sid auth true db s seen).0
    ]
  where
    by_job :
        (job : ArtifactJob)
        → post_generation job now jid sid auth force db ≡ ok db'
        → resolve_session_for_gm sid auth true db ≡ none
        → db'.sessions ≡ update_where (session_is sid) (with_job jid) db.sessions
    by_job narrative_job e hidden = ground (arith, hidden)
    by_job elements_job e hidden = ground (arith, hidden)
    by_job povs_job e hidden = ground (arith, hidden)
    by_job summary_job e hidden = ground (arith, hidden)

    posted :
        (job : ArtifactJob) (s : Session)
        → post_generation job now jid sid auth force db ≡ ok db'
        → resolve_session_for_gm sid auth true db ≡ some s
        → s.id ≡ sid
        → db'.sessions ≡ update_where (session_is sid) (with_job jid) db.sessions
    posted narrative_job s e seen same = ground (arith, seen, same)
    posted elements_job s e seen same = ground (arith, seen, same)
    posted povs_job s e seen same = ground (arith, seen, same)
    posted summary_job s e seen same = ground (arith, seen, same)

-- What a game master may edit of a session.
pub data Edit : Type 0 where
  edit_summary edit_narrative : Text → Edit
  edit_pov : ℕ → Text → Edit
  edit_elements : Bool → List Element → Edit

abbrev without_reply : {A : Type 0} → Result RouteError (A × Db) → Result RouteError Db
without_reply (ok (out, db)) = ok db
without_reply (err e) = err e

module _ (rq : ℕ → Option RqJob) (name_of : ℕ → Text) (str_of : Json → Text) (now sid : ℕ)
    (auth : AuthenticatedKey) where
  abbrev pub attempt : Edit → Db → Result RouteError Db
  attempt (edit_summary body) db = without_reply (patch_summary rq name_of now sid auth body db)
  attempt (edit_narrative body) db = without_reply (patch_narrative rq name_of now sid auth body db)
  attempt (edit_pov pj body) db = without_reply (patch_pov rq name_of now sid auth pj body db)
  attempt (edit_elements confirmed rows) db =
      without_reply (put_elements rq name_of now sid auth str_of confirmed rows db)

  -- An edit that is let through has seen its session idle.
  attempt-idle :
      (edit : Edit) (db db' : Db)
      → attempt edit db ≡ ok db'
      → (s : Session) × (resolve_session_for_gm sid auth true db ≡ some s)
        × (guard_artifact_edit_not_busy rq s ≡ ok tt)
  unfolding patch_summary patch_narrative patch_pov patch_text put_elements
  attempt-idle edit db db' e = elim (Option-cases (resolve_session_for_gm sid auth true db)) [
    | inl hidden ↦ unseen edit e hidden
    | inr (s, seen) ↦ (s, seen, idle edit s e seen)
  ]
    where
      unseen :
          {A : Type 0} (edit : Edit)
          → attempt edit db ≡ ok db'
          → resolve_session_for_gm sid auth true db ≡ none
          → A
      unseen (edit_summary body) e hidden = ground (arith, hidden)
      unseen (edit_narrative body) e hidden = ground (arith, hidden)
      unseen (edit_pov pj body) e hidden = ground (arith, hidden)
      unseen (edit_elements confirmed rows) e hidden = ground (arith, hidden)

      idle :
          (edit : Edit) (s : Session)
          → attempt edit db ≡ ok db'
          → resolve_session_for_gm sid auth true db ≡ some s
          → guard_artifact_edit_not_busy rq s ≡ ok tt
      idle (edit_summary body) s e seen = ground (arith, seen)
      idle (edit_narrative body) s e seen = ground (arith, seen)
      idle (edit_pov pj body) s e seen = ground (arith, seen)
      idle (edit_elements confirmed rows) s e seen = ground (arith, seen)

-- A generation of a session has been enqueued. As long as the session still has this job as its
-- current one, and RQ holds it as queued or running, every edit of the session's summary, narrative,
-- points of view and elements is refused, by whoever sends it, whatever else has changed in the
-- database.
pub edits_wait :
    (rq : ℕ → Option RqJob) (name_of : ℕ → Text) (str_of : Json → Text) (job : ArtifactJob)
    (now later jid sid : ℕ) (auth editor : AuthenticatedKey) (force : Bool) (edit : Edit)
    (db queued current after : Db) (j : RqJob)
    → post_generation job now jid sid auth force db ≡ ok queued
    → map (λ r. r.current_job_id) (select (session_is sid) current.sessions)
      ≡ map (λ r. r.current_job_id) (select (session_is sid) queued.sessions)
    → rq jid ≡ some j
    → IsPending job sid j
    → attempt rq name_of str_of later sid editor edit current ≢ ok after
unfolding resolve_session_for_gm get_for_gm HasJob
edits_wait rq name_of str_of job now later jid sid auth editor force edit db queued current after j
      posted same there pending edited =
    let (s, seen, idle) =
      attempt-idle rq name_of str_of later sid editor edit current after edited in
    let this = (resolve_session_for_gm-IsLetIn sid editor true current s seen).0 in
    let rows = post_generation-sessions job now jid sid auth force db queued posted in
    let has : HasJob jid sid queued.sessions =
      subst (HasJob jid sid) (sym rows) (updated-HasJob jid sid db.sessions) in
    let still : HasJob jid sid current.sessions =
      same_jobs jid (select (session_is sid) current.sessions)
        (select (session_is sid) queued.sessions) same has in
    guard_refuses rq job sid jid j s this
      (found-HasJob sid editor.id jid current.sessions s still (ground (arith, seen))) there pending
      idle
