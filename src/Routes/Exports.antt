-- ===== src/Routes/Exports.antt =====
-- app/services/jdr/router.py: the routes that render an artifact as Markdown, for a game master and
-- for a player. `date`, `id_of` and `seconds` are the formats that Markdown takes.
use ai_kaeyris.Prelude.{ℕ, Result, ok, guard, require_some, ◌>>=◌, ◌>>◌}
use ai_kaeyris.Text.{Text}
use ai_kaeyris.Models.{Db, Artifact, ArtifactKind, pov, is_non_diarised}
use ai_kaeyris.Repositories.{get_session}
use ai_kaeyris.Auth.{AuthenticatedKey}
use ai_kaeyris.Characters.{get_player_pj}
use ai_kaeyris.Elements.{Json}
use ai_kaeyris.Markdown.{render_narrative_md, render_summary_md, render_elements_md, render_pov_md}
use ai_kaeyris.Routes.{
  RouteError, artifact_not_ready, wrong_mode, internal_error, require_session, get_artifact,
}
use ai_kaeyris.Routes.Artifacts.{campaign_id_for_auth, ensure_player_can_read_session}

module _ (date id_of seconds : ℕ → Text) (sid : ℕ) (auth : AuthenticatedKey) (db : Db) where
  abbrev ready : ArtifactKind → Result RouteError Artifact
  ready kind = require_some (get_artifact sid kind db) artifact_not_ready

  -- As the game master

  unfoldable pub get_narrative_md : Result RouteError Text
  get_narrative_md = do
    s ← require_session sid auth db
    a ← ready ArtifactKind.narrative
    ok (render_narrative_md date id_of seconds s a)

  unfoldable pub get_elements_md : (Json → Text) → Result RouteError Text
  get_elements_md str_of = do
    s ← require_session sid auth db
    a ← ready ArtifactKind.elements
    require_some (render_elements_md date id_of seconds str_of s a) internal_error

  unfoldable pub get_summary_md : Result RouteError Text
  get_summary_md = do
    s ← require_session sid auth db
    guard (is_non_diarised s.transcription_mode) wrong_mode
    a ← ready ArtifactKind.summary
    ok (render_summary_md date id_of seconds s a)

  -- As a player: the session and its artifact, or 404.

  unfoldable pub get_my_narrative_md : Result RouteError Text
  unfolding ensure_player_can_read_session
  get_my_narrative_md = do
    pj ← ensure_player_can_read_session sid auth db
    a ← ready ArtifactKind.narrative
    s ← require_some (get_session sid db) artifact_not_ready
    ok (render_narrative_md date id_of seconds s a)

  unfoldable pub get_my_summary_md : Result RouteError Text
  unfolding ensure_player_can_read_session
  get_my_summary_md = do
    pj ← ensure_player_can_read_session sid auth db
    a ← ready ArtifactKind.summary
    s ← require_some (get_session sid db) artifact_not_ready
    ok (render_summary_md date id_of seconds s a)

  unfoldable pub get_my_elements_md : (Json → Text) → Result RouteError Text
  unfolding ensure_player_can_read_session
  get_my_elements_md str_of = do
    pj ← ensure_player_can_read_session sid auth db
    a ← ready ArtifactKind.elements
    s ← require_some (get_session sid db) artifact_not_ready
    require_some (render_elements_md date id_of seconds str_of s a) internal_error

  unfoldable pub get_my_pov_md : Result RouteError Text
  unfolding ensure_player_can_read_session
  get_my_pov_md = do
    pj ← ensure_player_can_read_session sid auth db
    a ← ready (pov pj)
    s ← require_some (get_session sid db) artifact_not_ready
    p ← require_some (get_player_pj pj (campaign_id_for_auth auth db) db) artifact_not_ready
    ok (render_pov_md date id_of seconds s p a)
