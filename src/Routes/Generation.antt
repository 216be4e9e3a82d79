-- ===== src/Routes/Generation.antt =====
-- app/services/jdr/router.py: the routes that enqueue a generation. `jid` is the identifier that RQ
-- gives the job; the reply repeats it.
use ai_kaeyris.Prelude.{
  ℕ, Bool, true, false, ◌||◌, not, [], ◌∷◌, is_empty, select, Result, ok, guard, ◌>>=◌, ◌>>◌,
}
use ai_kaeyris.Models.{
  Db, Session, ArtifactKind, JobKind, TranscriptionMode, diarised, non_diarised, is_transcribed,
  is_non_diarised,
}
use ai_kaeyris.Repositories.{list_chunks, list_mappings, player_of}
use ai_kaeyris.Auth.{AuthenticatedKey}
use ai_kaeyris.Sessions.{enqueue_session_job}
use ai_kaeyris.Routes.{
  RouteError, session_not_transcribed, wrong_mode, no_chunks, no_mapping, Targets, require_session,
  has_edited_transcription, check_material, guard_regeneration_not_edited,
}

abbrev pub only : ArtifactKind → Targets
only kind = record { kinds = kind ∷ []; include_povs = false; include_downstream = false }

abbrev pub povs_only : Targets
povs_only = record { kinds = []; include_povs = true; include_downstream = false }

abbrev pub summary_and_downstream : Targets
summary_and_downstream = record {
  kinds = ArtifactKind.summary ∷ [];
  include_povs = false;
  include_downstream = true;
}

module _ (now jid sid : ℕ) (auth : AuthenticatedKey) (force : Bool) where
  -- The narrative and the elements card.
  post_single : ArtifactKind → JobKind → Db → Result RouteError Db
  unfolding check_material guard_regeneration_not_edited
  post_single target kind db = do
    s ← require_session sid auth db
    guard (is_transcribed s.state) session_not_transcribed
    check_material s.transcription_mode s db
    guard_regeneration_not_edited sid force (only target) db
    ok (enqueue_session_job now jid s.id kind db)

  unfoldable pub post_narrative : Db → Result RouteError Db
  unfolding post_single
  post_narrative db = post_single ArtifactKind.narrative JobKind.narrative db

  unfoldable pub post_elements : Db → Result RouteError Db
  unfolding post_single
  post_elements db = post_single ArtifactKind.elements JobKind.elements db

  unfoldable pub post_summary : Db → Result RouteError Db
  unfolding guard_regeneration_not_edited
  post_summary db = do
    s ← require_session sid auth db
    guard (is_non_diarised s.transcription_mode) wrong_mode
    guard (is_transcribed s.state) session_not_transcribed
    guard (not (is_empty (list_chunks s.id db)) || has_edited_transcription s) no_chunks
    guard_regeneration_not_edited sid force summary_and_downstream db
    ok (enqueue_session_job now jid s.id JobKind.summary db)

  -- A non-diarised session needs its material and players, a diarised one its speaker mapping.
  check_pov_targets : TranscriptionMode → Session → Db → Result RouteError (Unit {0})
  unfolding check_material
  check_pov_targets non_diarised s db = do
    check_material non_diarised s db
    guard (not (is_empty (select (player_of s.id) db.players))) no_mapping
  check_pov_targets diarised s db = guard (not (is_empty (list_mappings sid db))) no_mapping

  unfoldable pub post_povs : Db → Result RouteError Db
  unfolding check_pov_targets guard_regeneration_not_edited
  post_povs db = do
    s ← require_session sid auth db
    guard (is_transcribed s.state) session_not_transcribed
    check_pov_targets s.transcription_mode s db
    guard_regeneration_not_edited sid force povs_only db
    ok (enqueue_session_job now jid s.id JobKind.povs db)
