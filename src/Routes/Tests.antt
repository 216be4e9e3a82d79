-- ===== src/Routes/Tests.antt =====
-- Runs of the routes, and instances of their theorems.
use ai_kaeyris.Prelude.{
  ℕ, zero, suc, arith, ◌≡◌, ◌≢◌, refl, true, false, Option, none, some, [], ◌∷◌, ok, err,
}
use ai_kaeyris.Text.{Text, codes, text_eq, strip, lstrip, rstrip, is_space}
use ai_kaeyris.Table.{update_where}
use ai_kaeyris.Models.{Db, ArtifactKind, Content, JobKind, JobStatus, Role, pov}
use ai_kaeyris.Repositories.{list_chunks, sort_by_ordre, insert_by_ordre, update_content}
use ai_kaeyris.Samples.{two_sessions, artifact_at}
use ai_kaeyris.Auth.{AuthenticatedKey, Source}
use ai_kaeyris.Access.{resolve_session_for_gm, get_for_gm, resolve_campaign_scope_for_auth}
use ai_kaeyris.Sessions.{RqStatus, enqueue_session_job}
use ai_kaeyris.Characters.{is_pj_mapped_on_session}
use ai_kaeyris.Jobs.Exec.{Phase}
use ai_kaeyris.Jobs.Sample.{worker}
use ai_kaeyris.Jobs.Atomic.{narrative_job, generate}
use ai_kaeyris.Routes.{
  artifact_edited, player_forbidden, internal_error, guard_regeneration_not_edited, check_material,
}
use ai_kaeyris.Routes.Jobs.{
  RqJob, JobOut, text, whole, unhashable, func_name_kind, project_progress_meta, phase_of,
}
use ai_kaeyris.Routes.Generation.{post_narrative, post_summary}
use ai_kaeyris.Routes.Artifacts.{
  TextOut, text_edit_in, patch_narrative, patch_text, edit, get_my_pov,
  ensure_player_can_read_session,
}
use ai_kaeyris.Routes.Survival.{edits_survive}
use ai_kaeyris.Routes.Survival.Rows.{edited}
use ai_kaeyris.Routes.Provenance.{narrative_text, IsShown, patch-IsShown}
use ai_kaeyris.Routes.Busy.{IsPending, edit_summary, attempt, edits_wait}
use ai_kaeyris.Routes.Readers.{pov_view, IsAllowed, read_view-IsAllowed}
use ai_kaeyris.Routes.Events.{job_event_stream}
use ai_kaeyris.Routes.Events.Complete.{Readable, Ends, job_event_stream-Ends}

abbrev gm : AuthenticatedKey
gm = record {
  id = 7;
  name = codes "mj";
  role = Role.gm;
  pj_id = none;
  source = Source.api_key;
  user_id = none;
}

-- The summary of session 1 was edited by hand.
abbrev table : Db
table = record two_sessions {
  artifacts =
      record (artifact_at ArtifactKind.summary) { is_edited = true }
      ∷ artifact_at ArtifactKind.narrative
      ∷ artifact_at (pov 4)
      ∷ [];
  players = record { session_id = 1; pj_id = 4 } ∷ [];
}

abbrev queued : Db
unfolding enqueue_session_job
queued = enqueue_session_job 60 90 1 JobKind.narrative table

edits_survive_example :
    edited (generate worker 1 narrative_job (record { db = queued; progress = [] })).1.db.artifacts
    ≡ edited table.artifacts
unfolding post_narrative resolve_session_for_gm get_for_gm check_material
    guard_regeneration_not_edited queued enqueue_session_job
edits_survive_example =
    edits_survive narrative_job 60 90 1 gm table queued worker
      (record { db = queued; progress = [] }) refl (λ i db. refl) refl

summary_is_kept : post_summary 60 90 1 gm false table ≡ err artifact_edited
unfolding post_summary resolve_session_for_gm get_for_gm guard_regeneration_not_edited list_chunks
    sort_by_ordre insert_by_ordre
summary_is_kept = refl

-- Job 90 waits in RQ.
abbrev waiting : RqJob
waiting = record {
  func_name = codes "app.jobs.jdr.generate_narrative_job";
  args = some 1 ∷ [];
  status = some RqStatus.queued;
  exc_info = none;
  phase = none;
  progress_percent = none;
}

abbrev rq_waiting : ℕ → Option RqJob
rq_waiting jid = some waiting

abbrev name_of : ℕ → Text
name_of id = codes "mj"

abbrev reply : TextOut
reply = record {
  session_id = 1;
  text = codes "Neuf.";
  model_used = codes "m";
  generated_at = 2;
  is_edited = true;
  edited_at = some 70;
  edited_by = some (codes "mj");
}

abbrev patched : Db
patched = record table {
  artifacts =
      record (artifact_at ArtifactKind.summary) { is_edited = true }
      ∷ record (artifact_at ArtifactKind.narrative) {
        content = Content.text (codes "Neuf.");
        is_edited = true;
        edited_at = some 70;
        edited_by = some (codes "mj");
      }
      ∷ artifact_at (pov 4)
      ∷ [];
}

waiting-IsPending : IsPending narrative_job 1 waiting
unfolding func_name_kind text_eq
waiting-IsPending = record { function_is = refl; argument_is = refl; pending = refl }

edits_wait_example :
    attempt rq_waiting name_of
      (λ j. [])
      70
      1
      gm
      (edit_summary (codes "Neuf."))
      (record queued { artifacts = [] })
    ≢ ok patched
unfolding post_narrative resolve_session_for_gm get_for_gm check_material
    guard_regeneration_not_edited queued enqueue_session_job
edits_wait_example =
    edits_wait rq_waiting name_of (λ j. []) narrative_job 60 70 90 1 gm gm false
      (edit_summary (codes "Neuf.")) table queued (record queued { artifacts = [] }) patched waiting
      refl refl refl waiting-IsPending

patch-IsShown_example :
    IsShown (λ jid. none) name_of 70 1 gm narrative_text (codes "Neuf.") reply table patched
unfolding patch_narrative patch_text text_edit_in edit update_content update_where
    resolve_session_for_gm get_for_gm strip lstrip rstrip is_space
patch-IsShown_example =
    patch-IsShown (λ jid. none) name_of 70 1 gm narrative_text (codes "Neuf.") table patched reply
      refl

abbrev player : AuthenticatedKey
player = record gm { id = 8; role = Role.player; pj_id = some 4 }

abbrev own_pov : TextOut
own_pov = record {
  session_id = 1;
  text = codes "old";
  model_used = codes "m";
  generated_at = 2;
  is_edited = false;
  edited_at = none;
  edited_by = none;
}

read_view-IsAllowed_example : IsAllowed pov_view 1 player table own_pov
unfolding get_my_pov ensure_player_can_read_session is_pj_mapped_on_session
    resolve_campaign_scope_for_auth
read_view-IsAllowed_example =
    read_view-IsAllowed pov_view 1 player table own_pov (refl, (refl, tt)) refl

other_session : get_my_pov 2 player table ≡ err player_forbidden
unfolding get_my_pov ensure_player_can_read_session is_pj_mapped_on_session
    resolve_campaign_scope_for_auth
other_session = refl

-- The first poll finds the job running, the second one finds nothing.
abbrev two_polls : ℕ → Option RqJob
two_polls zero = some (record waiting { status = some RqStatus.started })
two_polls _ = none

abbrev first_look : JobOut
first_look = record {
  id = 90;
  kind = JobKind.narrative;
  session_id = 1;
  status = JobStatus.queued;
  failure_reason = none;
  phase = none;
  progress_percent = none;
}

two_polls-Readable : Readable two_polls
two_polls-Readable zero job e = ground arith
two_polls-Readable (suc i) job e = ground arith

job_event_stream-Ends_example :
    Ends two_polls 0 first_look (job_event_stream two_polls first_look 3 0 first_look)
job_event_stream-Ends_example = job_event_stream-Ends two_polls first_look 1 two_polls-Readable refl

-- A phase that is a list breaks the projection of the whole job.
list_as_phase : project_progress_meta (some unhashable) (some (whole 3)) ≡ err internal_error
unfolding project_progress_meta
list_as_phase = refl

known_phase :
    project_progress_meta (some (text (codes "reducing"))) (some (whole 101))
    ≡ ok (some Phase.reducing, none)
unfolding project_progress_meta phase_of text_eq
known_phase = refl
