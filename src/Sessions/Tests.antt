-- ===== src/Sessions/Tests.antt =====
-- Runs of the operations on a session, and instances of their theorems.
use ai_kaeyris.Prelude.{ℕ, ◌≡◌, refl, arith, Option, none, [], ◌∷◌, select, err}
use ai_kaeyris.Text.{codes}
use ai_kaeyris.Models.{Session, transcribed, non_diarised}
use ai_kaeyris.Repositories.Slice.{slice}
use ai_kaeyris.Samples.{two_sessions, session_in}
use ai_kaeyris.Sessions.Spec
use ai_kaeyris.Sessions.{
  RqStatus, audio_upload_too_large, read_upload, restart_transcription_for_session,
  purge_audio_for_session,
}
use ai_kaeyris.Sessions.Lifecycle.{map_ok, restart-refines, purge-refines}
use ai_kaeyris.Sessions.Requests.{Surroundings, Request, handle}
use ai_kaeyris.Sessions.JobRows.{is_other}
use ai_kaeyris.Sessions.Isolation.{handle-isolated}

abbrev first_session : Session
first_session = session_in 1 transcribed non_diarised

abbrev no_jobs : ℕ → Option RqStatus
no_jobs jid = none

abbrev surroundings : Surroundings
surroundings = record {
  now = 9;
  jid = 77;
  rq = no_jobs;
  digest = λ bytes. bytes;
  probed = none;
  limit = 4;
}

restart-refines_example :
    map_ok (slice 1) (restart_transcription_for_session 9 77 first_session two_sessions)
    ≡ Spec.restart 77 transcribed (slice 1 two_sessions)
restart-refines_example = restart-refines 9 77 first_session two_sessions

purge-refines_example :
    map_ok (λ r. slice 1 r.1) (purge_audio_for_session 9 first_session two_sessions)
    ≡ Spec.purge 9 transcribed (slice 1 two_sessions)
purge-refines_example = purge-refines 9 first_session two_sessions

handle-isolated_example :
    (slice 2 (handle surroundings (Request.purge 1) two_sessions) ≡ slice 2 two_sessions)
    × (select
          (is_other 2 surroundings.jid none)
          (handle surroundings (Request.purge 1) two_sessions).jobs
        ≡ select (is_other 2 surroundings.jid none) two_sessions.jobs)
handle-isolated_example =
    handle-isolated surroundings (Request.purge 1) two_sessions 2 (λ h. omega (arith, h))

too_large : read_upload 4 0 (codes "ab" ∷ codes "cde" ∷ []) ≡ err audio_upload_too_large
unfolding read_upload
too_large = refl
