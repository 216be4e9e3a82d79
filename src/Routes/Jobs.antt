-- ===== src/Routes/Jobs.antt =====
-- app/services/jdr/router.py: what the routes make of an RQ job, and the guard of the edits against
-- a running generation. Instants of a job are left out.
use ai_kaeyris.Prelude.{
  ℕ, Bool, true, false, ◌&&◌, ◌||◌, not, Option, none, some, List, [], ◌∷◌, is_empty, take, leb,
  ◌==◌, if◌then◌else◌, Result, ok, err, guard, require_some, ◌>>=◌,
}
use ai_kaeyris.Text.{Text, codes, strip, text_eq}
use ai_kaeyris.Models.{Db, Session, JobKind, JobStatus}
use ai_kaeyris.Auth.{AuthenticatedKey}
use ai_kaeyris.Access.{resolve_session_for_gm}
use ai_kaeyris.Sessions.{RqStatus}
use ai_kaeyris.Jobs.Exec.{Phase, reducing, failed, done}
use ai_kaeyris.Routes.{RouteError, job_not_found, artifact_busy, internal_error}

-- A value of the metadata of a job: `unhashable` is a list or a dictionary, `negative n` is -n-1.
pub data MetaValue : Type 0 where
  text : Text → MetaValue
  boolean : Bool → MetaValue
  whole negative : ℕ → MetaValue
  unhashable other : MetaValue

-- An argument of a job is a UUID, or reads as one, or not. `exc_info` is the stored traceback.
pub record RqJob : Type 0 where
  pub func_name : Text
  pub args : List (Option ℕ)
  pub status : Option RqStatus
  pub exc_info : Option Text
  pub phase : Option MetaValue
  pub progress_percent : Option MetaValue

pub record JobOut : Type 0 where
  pub id : ℕ
  pub kind : JobKind
  pub session_id : ℕ
  pub status : JobStatus
  pub failure_reason : Option Text
  pub phase : Option Phase
  pub progress_percent : Option ℕ

-- `_FUNC_NAME_TO_KIND`
unfoldable pub func_name_kind : Text → Option JobKind
func_name_kind name =
    if text_eq name (codes "app.jobs.jdr.transcribe_session_job")
    then some JobKind.transcription
    else if text_eq name (codes "app.jobs.jdr.generate_narrative_job")
    then some JobKind.narrative
    else if text_eq name (codes "app.jobs.jdr.generate_elements_job")
    then some JobKind.elements
    else if text_eq name (codes "app.jobs.jdr.generate_povs_job")
    then some JobKind.povs
    else if text_eq name (codes "app.jobs.jdr.generate_summary_job")
    then some JobKind.summary
    else none

-- `_RQ_STATUS_TO_JOB_STATUS`, and FAILED for an unknown status.
abbrev pub job_status : Option RqStatus → JobStatus
job_status (some RqStatus.queued) = JobStatus.queued
job_status (some RqStatus.deferred) = JobStatus.queued
job_status (some RqStatus.scheduled) = JobStatus.queued
job_status (some RqStatus.started) = JobStatus.running
job_status (some RqStatus.finished) = JobStatus.succeeded
job_status (some RqStatus.failed) = JobStatus.failed
job_status (some RqStatus.stopped) = JobStatus.failed
job_status (some RqStatus.canceled) = JobStatus.failed
job_status none = JobStatus.failed

-- The line boundaries of `str.splitlines`; "\r\n" gives one blank line more here, which the search
-- below skips.
abbrev is_line_end : ℕ → Bool
is_line_end c =
    leb 10 c && leb c 13 || leb 28 c && leb c 30 || c == 0x85 || c == 0x2028 || c == 0x2029

abbrev onto_line : ℕ → List Text → List Text
onto_line c [] = (c ∷ []) ∷ []
onto_line c (line ∷ lines) = (c ∷ line) ∷ lines

unfoldable pub split_lines : Text → List Text
split_lines [] = []
split_lines (c ∷ s) =
    let rest = split_lines s in if is_line_end c then [] ∷ rest else onto_line c rest

-- The last line that is not blank, stripped.
unfoldable pub last_line : List Text → Option Text
last_line [] = none
last_line (line ∷ lines) = elim (last_line lines) [
  | some later ↦ some later
  | none ↦ if is_empty (strip line) then none else some (strip line)
]

abbrev is_failed : Option RqStatus → Bool
is_failed (some RqStatus.failed) = true
is_failed _ = false

abbrev unrecorded : Text
unrecorded = codes "Job failed without a recorded error."

abbrev reason_of : Option Text → Text
reason_of none = unrecorded
reason_of (some exc) = elim (last_line (split_lines exc)) [
  | none ↦ unrecorded
  | some line ↦ take 500 line
]

unfoldable pub failure_reason_from_job : RqJob → Option Text
unfolding last_line split_lines
failure_reason_from_job job = if is_failed job.status then some (reason_of job.exc_info) else none

-- `_VALID_JOB_PHASES`
unfoldable pub phase_of : Text → Option Phase
phase_of t =
    if text_eq t (codes "reducing")
    then some reducing
    else if text_eq t (codes "transcribing")
    then some Phase.transcribing
    else if text_eq t (codes "done")
    then some done
    else if text_eq t (codes "failed")
    then some failed
    else none

-- `raw_phase in _VALID_JOB_PHASES`: an unhashable value is a `TypeError`.
abbrev pub project_phase : Option MetaValue → Result RouteError (Option Phase)
project_phase (some (text t)) = ok (phase_of t)
project_phase (some unhashable) = err internal_error
project_phase (some (boolean b)) = ok none
project_phase (some (whole n)) = ok none
project_phase (some (negative n)) = ok none
project_phase (some other) = ok none
project_phase none = ok none

abbrev pub project_percent : Option MetaValue → Option ℕ
project_percent (some (whole n)) = if leb n 100 then some n else none
project_percent _ = none

unfoldable pub project_progress_meta :
    Option MetaValue → Option MetaValue → Result RouteError (Option Phase × Option ℕ)
unfolding phase_of
project_progress_meta phase percent = do p ← project_phase phase; ok (p, project_percent percent)

unfoldable pub first_arg : List (Option ℕ) → Result RouteError ℕ
first_arg [] = err job_not_found
first_arg (none ∷ args) = err job_not_found
first_arg (some sid ∷ args) = ok sid

unfoldable pub resolve_job_identity : RqJob → Result RouteError (JobKind × ℕ)
unfolding func_name_kind first_arg
resolve_job_identity job = do
  kind ← require_some (func_name_kind job.func_name) job_not_found
  sid ← first_arg job.args
  ok (kind, sid)

unfoldable pub project_rq_job_out : ℕ → RqJob → JobKind → ℕ → Result RouteError JobOut
unfolding project_progress_meta failure_reason_from_job
project_rq_job_out jid job kind sid = do
  (phase, percent) ← project_progress_meta job.phase job.progress_percent
  ok (record {
    id = jid;
    kind = kind;
    session_id = sid;
    status = job_status job.status;
    failure_reason = failure_reason_from_job job;
    phase = phase;
    progress_percent = percent;
  })

abbrev pub is_terminal : JobStatus → Bool
is_terminal JobStatus.succeeded = true
is_terminal JobStatus.failed = true
is_terminal JobStatus.queued = false
is_terminal JobStatus.running = false

-- `_ARTIFACT_JOB_KINDS`
abbrev pub is_artifact_job : JobKind → Bool
is_artifact_job JobKind.transcription = false
is_artifact_job JobKind.narrative = true
is_artifact_job JobKind.elements = true
is_artifact_job JobKind.povs = true
is_artifact_job JobKind.summary = true

-- `rq` is `Job.fetch`: `none` is `NoSuchJobError`.
module _ (rq : ℕ → Option RqJob) where
  unfoldable pub project_job_out : ℕ → AuthenticatedKey → Db → Result RouteError JobOut
  unfolding resolve_job_identity project_rq_job_out
  project_job_out jid auth db = do
    job ← require_some (rq jid) job_not_found
    (kind, sid) ← resolve_job_identity job
    s ← require_some (resolve_session_for_gm sid auth true db) job_not_found
    project_rq_job_out jid job kind sid

  -- The job as its own check reads it; one that is unknown or unreadable blocks nothing.
  unfoldable pub busy_with : ℕ → ℕ → RqJob → Result RouteError (Unit {0})
  unfolding resolve_job_identity project_rq_job_out
  busy_with sid jid job = elim (resolve_job_identity job) [
    | err e ↦ ok tt
    | ok (kind, of) ↦
        if not (of == sid) || not (is_artifact_job kind)
        then ok tt
        else (project_rq_job_out jid job kind of >>= λ out.
            guard (is_terminal out.status) artifact_busy)
  ]

  unfoldable pub busy_job : ℕ → Option ℕ → Result RouteError (Unit {0})
  unfolding busy_with
  busy_job sid none = ok tt
  busy_job sid (some jid) = elim (rq jid) [ none ↦ ok tt | some job ↦ busy_with sid jid job ]

  unfoldable pub guard_artifact_edit_not_busy : Session → Result RouteError (Unit {0})
  unfolding busy_job
  guard_artifact_edit_not_busy s = busy_job s.id s.current_job_id
