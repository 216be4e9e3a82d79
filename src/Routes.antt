-- ===== src/Routes.antt =====
-- app/services/jdr/router.py: what the artifact routes share. A route has authenticated its caller:
-- `auth` is what `require_gm` or `require_player` lets through. An error is the class of the
-- `AppError`; its `detail` is left out.
pub mod Jobs
pub mod Generation
pub mod Sessions
pub mod Exports
pub mod Campaigns
pub mod Characters
pub mod Artifacts
pub mod Survival
pub mod Provenance
pub mod Events
pub mod Busy
pub mod Readers
mod Tests
use ai_kaeyris.Prelude.{
  ℕ, Bool, true, false, ◌&&◌, ◌||◌, not, Option, none, some, List, [], ◌∷◌, is_some, is_empty, any,
  select, ◌==◌, if◌then◌else◌, Result, ok, err, guard, require_some, ◌>>=◌, ◌>>◌,
}
use ai_kaeyris.Text.{Text, strip}
use ai_kaeyris.Table.{first}
use ai_kaeyris.Models.{
  Db, Session, Artifact, ArtifactKind, TranscriptionMode, diarised, non_diarised, kind_eq, is_pov,
}
use ai_kaeyris.Repositories.{artifact_is, artifact_of}
use ai_kaeyris.Auth.{AuthenticatedKey}
use ai_kaeyris.Access.{resolve_session_for_gm}

-- `internal_error` is an exception that no handler maps: a 500.
pub data RouteError : Type 0 where
  session_not_found session_not_transcribed artifact_not_ready : RouteError
  artifact_edited artifact_busy elements_empty_clear_unconfirmed : RouteError
  wrong_mode no_chunks no_summary no_mapping : RouteError
  pj_not_found player_forbidden forbidden job_not_found : RouteError
  invalid_body internal_error : RouteError

unfoldable pub status_code : RouteError → ℕ
status_code session_not_found = 404
status_code session_not_transcribed = 409
status_code artifact_not_ready = 404
status_code artifact_edited = 409
status_code artifact_busy = 409
status_code elements_empty_clear_unconfirmed = 422
status_code wrong_mode = 409
status_code no_chunks = 409
status_code no_summary = 409
status_code no_mapping = 409
status_code pj_not_found = 404
status_code player_forbidden = 403
status_code forbidden = 403
status_code job_not_found = 404
status_code invalid_body = 422
status_code internal_error = 500

-- `resolve_session_for_gm`, or 404.
abbrev pub require_session : ℕ → AuthenticatedKey → Db → Result RouteError Session
require_session sid auth db =
    require_some (resolve_session_for_gm sid auth true db) session_not_found

-- `ArtifactRepository.get`
abbrev pub get_artifact : ℕ → ArtifactKind → Db → Option Artifact
get_artifact sid kind db = first (artifact_is sid kind) db.artifacts

abbrev text_or_empty : Option Text → Text
text_or_empty none = []
text_or_empty (some t) = t

unfoldable pub has_edited_transcription : Session → Bool
has_edited_transcription s = not (is_empty (strip (text_or_empty s.edited_transcript_md)))

-- Regeneration

abbrev pub is_downstream_artifact : ArtifactKind → Bool
is_downstream_artifact ArtifactKind.narrative = true
is_downstream_artifact ArtifactKind.elements = true
is_downstream_artifact ArtifactKind.summary = false
is_downstream_artifact (ArtifactKind.pov pj) = true

-- What a regeneration would overwrite: some kinds, the points of view, what hangs on the summary.
pub record Targets : Type 0 where
  pub kinds : List ArtifactKind
  pub include_povs : Bool
  pub include_downstream : Bool

abbrev pub should_guard : Targets → ArtifactKind → Bool
should_guard t k =
    any (kind_eq k) t.kinds
    || t.include_povs && is_pov k
    || t.include_downstream && is_downstream_artifact k

abbrev pub edited_target : Targets → ℕ → Artifact → Bool
edited_target t sid r = r.session_id == sid && (r.is_edited && should_guard t r.kind)

unfoldable pub guard_regeneration_not_edited :
    ℕ → Bool → Targets → Db → Result RouteError (Unit {0})
guard_regeneration_not_edited sid force t db =
    guard (force || is_empty (select (edited_target t sid) db.artifacts)) artifact_edited

-- The summary, or an edited transcription, that the artifacts of a non-diarised session need.
unfoldable pub check_material : TranscriptionMode → Session → Db → Result RouteError (Unit {0})
unfolding has_edited_transcription
check_material diarised s db = ok tt
check_material non_diarised s db =
    guard (is_some (get_artifact s.id ArtifactKind.summary db) || has_edited_transcription s)
      no_summary
