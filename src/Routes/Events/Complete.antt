-- ===== src/Routes/Events/Complete.antt =====
-- The event stream of a job that ends, or that RQ forgets.
use ai_kaeyris.Prelude.{
  ℕ, zero, suc, ◌+◌, ◌≡◌, refl, sym, ◌∙◌, ◌⊎◌, subst, Bool, true, false, ◌&&◌, not, Option, none,
  some, arith, Result, ok, err, inl, inr, Option-cases, Result-cases, Bool-cases,
}
use ai_kaeyris.Models.{JobStatus}
use ai_kaeyris.Sessions.{RqStatus}
use ai_kaeyris.Routes.{RouteError}
use ai_kaeyris.Routes.Jobs.{
  RqJob, JobOut, is_terminal, job_status, project_rq_job_out, project_progress_meta, project_phase,
}
use ai_kaeyris.Routes.Events.{
  Stream, frame, closed, broken, running, job_event_payload, refreshed, job_event_stream,
}

-- The server closes the stream, and the last frame is the only one of a job that has ended.
unfoldable pub is_complete : Stream → Bool
is_complete (frame p closed) = is_terminal p.status
is_complete (frame p (frame q rest)) = not (is_terminal p.status) && is_complete (frame q rest)
is_complete (frame p broken) = false
is_complete (frame p running) = false
is_complete closed = false
is_complete broken = false
is_complete running = false

-- The status of the last frame of a stream that the server closes.
unfoldable pub last_status : Stream → Option JobStatus
last_status (frame p closed) = some p.status
last_status (frame p (frame q rest)) = last_status (frame q rest)
last_status (frame p broken) = none
last_status (frame p running) = none
last_status closed = none
last_status broken = none
last_status running = none

-- What RQ says of a job that has failed, and of one that is still to run or runs.
abbrev has_failed : Option RqStatus → Bool
has_failed (some RqStatus.failed) = true
has_failed (some RqStatus.stopped) = true
has_failed (some RqStatus.canceled) = true
has_failed none = true
has_failed _ = false

abbrev goes_on : Option RqStatus → Bool
goes_on (some RqStatus.queued) = true
goes_on (some RqStatus.deferred) = true
goes_on (some RqStatus.scheduled) = true
goes_on (some RqStatus.started) = true
goes_on _ = false

-- How the job ends for whoever polls it from the i-th time on.
pub data EndsAs (polls : ℕ → Option RqJob) : ℕ → JobStatus → Type 0 where
  forgotten : (i : ℕ) → polls i ≡ none → EndsAs polls i JobStatus.failed
  finished :
      (i : ℕ) (job : RqJob)
      → polls i ≡ some job
      → job.status ≡ some RqStatus.finished
      → EndsAs polls i JobStatus.succeeded
  broke_off :
      (i : ℕ) (job : RqJob)
      → polls i ≡ some job
      → has_failed job.status ≡ true
      → EndsAs polls i JobStatus.failed
  later :
      (i : ℕ) (job : RqJob) (s : JobStatus)
      → polls i ≡ some job
      → goes_on job.status ≡ true
      → EndsAs polls (suc i) s
      → EndsAs polls i s

-- The job was over at the look before, or ends at one of the polls.
abbrev How : (ℕ → Option RqJob) → ℕ → JobOut → JobStatus → Type 0
How polls i out s =
    ((is_terminal out.status ≡ true) × (s ≡ out.status))
    ⊎ ((is_terminal out.status ≡ false) × EndsAs polls i s)

-- A stream that is complete, and whose last frame says how the job ended.
pub record Ends (polls : ℕ → Option RqJob) (i : ℕ) (out : JobOut) (stream : Stream) : Type 0 where
  pub status : JobStatus
  pub complete : is_complete stream ≡ true
  pub last : last_status stream ≡ some status
  pub how : How polls i out status

-- RQ does not know the job any more, or it has ended.
abbrev pub is_over : Option RqJob → Bool
is_over none = true
is_over (some job) = is_terminal (job_status job.status)

abbrev pub is_ok : {A : Type 0} → Result RouteError A → Bool
is_ok (ok a) = true
is_ok (err e) = false

-- The metadata of every job that is polled can be read.
abbrev pub Readable : (ℕ → Option RqJob) → Type 0
Readable polls = (i : ℕ) (job : RqJob) → polls i ≡ some job → is_ok (project_phase job.phase) ≡ true

module _ (polls : ℕ → Option RqJob) (initial : JobOut) (readable : Readable polls) where
  refreshed-status :
      (job : RqJob) (next : JobOut)
      → refreshed polls initial job ≡ ok next
      → next.status ≡ job_status job.status
  unfolding project_rq_job_out
  refreshed-status job next e = ground arith

  refreshed-ok :
      (i : ℕ) (job : RqJob) (e : RouteError)
      → polls i ≡ some job
      → refreshed polls initial job ≡ err e
      → true ≡ false
  unfolding project_rq_job_out project_progress_meta
  refreshed-ok i job e found refused = ground (arith, readable i job found)

  over_status :
      (i : ℕ) (job : RqJob) (next : JobOut)
      → polls i ≡ some job
      → is_over (polls i) ≡ true
      → refreshed polls initial job ≡ ok next
      → is_terminal next.status ≡ true
  over_status i job next found over e =
      rw (refreshed-status job next e) (ground (arith, found, over))

  ended_as :
      (i : ℕ) (job : RqJob) (st : Option RqStatus)
      → polls i ≡ some job
      → job.status ≡ st
      → is_terminal (job_status st) ≡ true
      → EndsAs polls i (job_status st)
  ended_as i job none found e h = EndsAs.broke_off i job found (rw e refl)
  ended_as i job (some RqStatus.finished) found e h = EndsAs.finished i job found e
  ended_as i job (some RqStatus.failed) found e h = EndsAs.broke_off i job found (rw e refl)
  ended_as i job (some RqStatus.stopped) found e h = EndsAs.broke_off i job found (rw e refl)
  ended_as i job (some RqStatus.canceled) found e h = EndsAs.broke_off i job found (rw e refl)
  ended_as i job (some RqStatus.queued) found e h = cc
  ended_as i job (some RqStatus.deferred) found e h = cc
  ended_as i job (some RqStatus.scheduled) found e h = cc
  ended_as i job (some RqStatus.started) found e h = cc

  still_on : (st : Option RqStatus) → is_terminal (job_status st) ≡ false → goes_on st ≡ true
  still_on st h = ground arith

  -- What a poll finds, and how the job ends from the next one on.
  earlier :
      (i : ℕ) (job : RqJob) (next : JobOut) (s : JobStatus)
      → polls i ≡ some job
      → next.status ≡ job_status job.status
      → How polls (suc i) next s
      → EndsAs polls i s
  earlier i job next s found same (inl (ended, is)) =
      subst (EndsAs polls i) (sym (is ∙ same))
        (ended_as i job job.status found refl (subst (λ t. is_terminal t ≡ true) same ended))
  earlier i job next s found same (inr (going, ends)) =
      EndsAs.later i job s found
        (still_on job.status (subst (λ t. is_terminal t ≡ false) same going)) ends

  -- One poll: what remains is to go on from what it has found.
  one_poll :
      (fuel i : ℕ) (out : JobOut)
      → ((job : RqJob) (next : JobOut)
          → polls i ≡ some job
          → refreshed polls initial job ≡ ok next
          → Ends polls (suc i) next (job_event_stream polls initial (suc fuel) (suc i) next))
      → Ends polls i out (job_event_stream polls initial (suc (suc fuel)) i out)
  unfolding job_event_stream is_complete last_status job_event_payload
  one_poll fuel i out onwards = elim (Bool-cases (is_terminal out.status)) [
    | inl ended ↦ record {
      status = out.status;
      complete = rw (ended, ended) refl;
      last = ground (arith, ended);
      how = inl (ended, refl);
    }
    | inr going ↦ elim (Option-cases (polls i)) [
      | inl gone ↦ record {
        status = JobStatus.failed;
        complete = rw (going, gone, going) refl;
        last = ground (arith, going, gone);
        how = inr (going, EndsAs.forgotten i gone);
      }
      | inr (job, found) ↦ elim (Result-cases (refreshed polls initial job)) [
        | inr (e, refused) ↦ ground (arith, refreshed-ok i job e found refused)
        | inl (next, shown) ↦
            let rest = onwards job next found shown in
            record {
              status = rest.status;
              complete = rw (going, found, shown, going) rest.complete;
              last = ground (arith, going, found, shown, rest.last);
              how = inr (
                going,
                earlier i job next rest.status found (refreshed-status job next shown) rest.how,
              );
            }
      ]
    ]
  ]

  last_frame :
      (i : ℕ) (next : JobOut)
      → is_terminal next.status ≡ true
      → Ends polls i next (job_event_stream polls initial 1 i next)
  unfolding job_event_stream is_complete last_status job_event_payload
  last_frame i next ended = record {
    status = next.status;
    complete = rw (ended, ended) refl;
    last = ground (arith, ended);
    how = inl (ended, refl);
  }

  completes :
      (d i j : ℕ) (out : JobOut)
      → i + d ≡ j
      → is_over (polls j) ≡ true
      → Ends polls i out (job_event_stream polls initial (suc (suc d)) i out)
  completes zero i j out at over = one_poll zero i out λ job next found shown.
      last_frame (suc i) next (
        over_status i job next found (subst (λ k. is_over (polls k) ≡ true) (omega arith) over)
          shown)
  completes (suc d) i j out at over =
      one_poll (suc d) i out λ job next found shown. completes d (suc i) j next (omega arith) over

-- The event stream of a job ends: if RQ has forgotten the job at the n-th poll or the job has ended by
-- then, n + 2 frames are enough for the server to close the stream. Of the frames that a client gets
-- the last one, and no other, says that the job succeeded or failed, and it says how the job ended:
-- as the first look had it, or else succeeded where the first poll that does not find the job waiting
-- or started finds it finished, and failed where that poll finds it failed, stopped, cancelled,
-- without a status or not at all. The condition is that the metadata of the job can be read at every
-- poll.
pub job_event_stream-Ends :
    (polls : ℕ → Option RqJob) (initial : JobOut) (n : ℕ)
    → Readable polls
    → is_over (polls n) ≡ true
    → Ends polls 0 initial (job_event_stream polls initial (n + 2) 0 initial)
job_event_stream-Ends polls initial n readable over =
    subst (λ fuel. Ends polls 0 initial (job_event_stream polls initial fuel 0 initial))
      (omega arith) (completes polls initial readable n 0 n initial (omega arith) over)
