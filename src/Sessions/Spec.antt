-- ===== src/Sessions/Spec.antt =====
-- The specification of the life of a session: what an operation does to all its rows at once.
use ai_kaeyris.Prelude.{
  ℕ, Bool, true, false, Option, none, some, [], is_some, if◌then◌else◌, Result, ok, err,
}
use ai_kaeyris.Table.{apply_first}
use ai_kaeyris.Models.{
  SessionState, created, audio_uploaded, transcription_failed, is_transcribing, AudioSource,
}
use ai_kaeyris.Repositories.Slice.{Slice, on_row}
use ai_kaeyris.Sessions.{
  SessionError, transcription_not_stuck, transcription_still_active,
  transcription_restart_not_allowed, no_audio_to_transcribe, audio_purge_blocked,
}

abbrev pub restarted : ℕ → Slice → Slice
restarted jid s = record s {
  row =
      apply_first
        (λ r. record r {
          state = audio_uploaded;
          current_job_id = some jid;
          edited_transcript_md = none;
        })
        s.row;
  transcription = none;
  mappings = [];
  artifacts = [];
  chunks = [];
}

-- The two states from which a transcription may be done again.
abbrev pub may_restart : SessionState → Bool
may_restart SessionState.created = false
may_restart SessionState.audio_uploaded = false
may_restart SessionState.transcribing = false
may_restart SessionState.transcription_failed = true
may_restart SessionState.transcribed = true

-- There is audio that was not purged.
abbrev pub has_audio : Option AudioSource → Bool
has_audio none = false
has_audio (some a) = elim a.purged_at [ none ↦ true | some t ↦ false ]

abbrev pub restart : ℕ → SessionState → Slice → Result SessionError Slice
restart jid state s =
    if may_restart state
    then (if has_audio s.audio then ok (restarted jid s) else err no_audio_to_transcribe)
    else err transcription_restart_not_allowed

abbrev pub recover : Bool → SessionState → Slice → Result SessionError Slice
recover running state s =
    if is_transcribing state
    then (if running
        then err transcription_still_active
        else ok (on_row (λ r. record r { state = transcription_failed }) s))
    else err transcription_not_stuck

abbrev pub purged_now : ℕ → AudioSource → AudioSource
purged_now now a = if is_some a.purged_at then a else record a { purged_at = some now }

abbrev pub purged : ℕ → Slice → Slice
purged now s = record s {
  row =
      apply_first
        (λ r. record r { state = created; current_job_id = none; edited_transcript_md = none })
        s.row;
  audio = apply_first (purged_now now) s.audio;
  transcription = none;
  artifacts = [];
  chunks = [];
}

abbrev pub purge : ℕ → SessionState → Slice → Result SessionError Slice
purge now state s = if is_transcribing state then err audio_purge_blocked else ok (purged now s)
