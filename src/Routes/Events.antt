-- ===== src/Routes/Events.antt =====
-- app/services/jdr/router.py: the event stream of a job. It polls RQ once per second: `polls i` is
-- what the i-th `Job.fetch` of the stream finds. The recursion is on fuel, a number of polls.
pub mod Complete
use ai_kaeyris.Prelude.{
  ℕ, zero, suc, ◌∷◌, ◌+◌, ◌≤◌, ◌<◌, ◌≡◌, refl, Bool, true, false, Option, none, some, is_some,
  arith, if◌then◌else◌, Result, ok, err, inl, inr, Option-cases, Result-cases, Bool-cases,
}
use ai_kaeyris.Text.{Text, codes}
use ai_kaeyris.Models.{JobKind, JobStatus}
use ai_kaeyris.Jobs.Exec.{Phase}
use ai_kaeyris.Routes.{RouteError}
use ai_kaeyris.Routes.Jobs.{
  MetaValue, unhashable, RqJob, JobOut, is_terminal, job_status, project_rq_job_out,
  project_progress_meta, project_phase,
}

-- _job_event_payload: the reason of a failure that has one.
pub record Payload : Type 0 where
  pub status : JobStatus
  pub phase : Option Phase
  pub progress_percent : Option ℕ
  pub failure_reason : Option Text

abbrev reason_if : JobStatus → Option Text → Option Text
reason_if JobStatus.failed (some (c ∷ reason)) = some (c ∷ reason)
reason_if _ _ = none

unfoldable pub job_event_payload : JobOut → Payload
job_event_payload out = record {
  status = out.status;
  phase = out.phase;
  progress_percent = out.progress_percent;
  failure_reason = reason_if out.status out.failure_reason;
}

abbrev job_no_longer_available_out : JobOut → JobOut
job_no_longer_available_out out = record out {
  status = JobStatus.failed;
  failure_reason = some (codes "Job is no longer available.");
}

-- The frames that a client gets, and how they end: the server closes the stream, an exception
-- breaks it off, or the fuel is used up.
pub data Stream : Type 0 where
  frame : Payload → Stream → Stream
  closed broken running : Stream

module _ (polls : ℕ → Option RqJob) (initial : JobOut) where
  -- _refresh_visible_job_out, by the kind and the session of the first look.
  abbrev pub refreshed : RqJob → Result RouteError JobOut
  refreshed job = project_rq_job_out initial.id job initial.kind initial.session_id

  abbrev gone : Stream
  gone = frame (job_event_payload (job_no_longer_available_out initial)) closed

  unfoldable pub job_event_stream : ℕ → ℕ → JobOut → Stream
  job_event_stream zero i out = running
  job_event_stream (suc fuel) i out = frame (job_event_payload out) (elim (is_terminal out.status) [
    | true ↦ closed
    | false ↦ elim (polls i) [
      | none ↦ gone
      | some job ↦ elim (refreshed job) [
        | err e ↦ broken
        | ok next ↦ job_event_stream fuel (suc i) next
      ]
    ]
  ])
