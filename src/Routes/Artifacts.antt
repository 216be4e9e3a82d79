-- ===== src/Routes/Artifacts.antt =====
-- app/services/jdr/router.py and schemas.py: reading and editing the artifacts of a session, as its
-- game master or as a player. `now` is the time of the edit, `name_of` prints an identifier.
use ai_kaeyris.Prelude.{
  ℕ, Bool, false, ◌&&◌, ◌||◌, not, Option, none, some, List, [], ◌∷◌, is_empty, length, leb,
  if◌then◌else◌, Result, ok, guard, require_some, ◌>>=◌, ◌>>◌,
}
use ai_kaeyris.Text.{Text, codes, strip}
use ai_kaeyris.Table.{first}
use ai_kaeyris.Models.{
  Db, Session, Artifact, ArtifactKind, pov, Content, Element, Pj, is_non_diarised,
}
use ai_kaeyris.Repositories.{update_content}
use ai_kaeyris.Auth.{AuthenticatedKey}
use ai_kaeyris.Access.{resolve_campaign_scope_for_auth}
use ai_kaeyris.Sessions.{owned_pj}
use ai_kaeyris.Characters.{is_pj_mapped_on_session, list_player_sessions, get_player_pj}
use ai_kaeyris.Elements.{Json, end, field, string, object, content_of, elements_from_content}
use ai_kaeyris.Routes.{
  RouteError, artifact_not_ready, elements_empty_clear_unconfirmed, wrong_mode, pj_not_found,
  player_forbidden, forbidden, invalid_body, internal_error, require_session, get_artifact,
}
use ai_kaeyris.Routes.Jobs.{RqJob, guard_artifact_edit_not_busy}

-- schemas.py: the bodies of the edits

abbrev max_edit_chars : ℕ
max_edit_chars = 2_000_000

abbrev pub is_blank : Text → Bool
is_blank t = is_empty (strip t)

-- `TextEditIn`
unfoldable pub text_edit_in : Text → Result RouteError Text
text_edit_in t = do
  guard (not (is_empty t) && leb (length t) max_edit_chars) invalid_body
  guard (not (is_blank t)) invalid_body
  ok t

-- The limits of `Element`.
abbrev fits : Element → Bool
fits e =
    not (is_empty e.category)
    && leb (length e.category) 120
    && not (is_empty e.name)
    && leb (length e.name) 255
    && leb (length e.description) 2000

-- `Element`, whose validator strips the category and the name.
unfoldable pub element_of : Element → Option Element
element_of e =
    if fits e && not (is_blank e.category) && not (is_blank e.name)
    then some (record e { category = strip e.category; name = strip e.name })
    else none

unfoldable pub elements_of : List Element → Option (List Element)
unfolding element_of
elements_of [] = some []
elements_of (e ∷ es) = elim (element_of e) [
  | none ↦ none
  | some row ↦ elim (elements_of es) [ none ↦ none | some rows ↦ some (row ∷ rows) ]
]

-- `content_json`, as it is stored.
unfoldable pub json_of : Content → Json
json_of (Content.text t) = object (field (codes "text") (string t) end)
json_of (Content.elements rows) = content_of rows

-- What a reader gets: the text, or the rows, and where they come from.

-- `str(content.get("text", ""))`
abbrev pub text_of : Content → Text
text_of (Content.text t) = t
text_of (Content.elements rows) = []

pub record TextOut : Type 0 where
  pub session_id : ℕ
  pub text : Text
  pub model_used : Text
  pub generated_at : ℕ
  pub is_edited : Bool
  pub edited_at : Option ℕ
  pub edited_by : Option Text

abbrev pub text_out : Artifact → TextOut
text_out a = record {
  session_id = a.session_id;
  text = text_of a.content;
  model_used = a.model_used;
  generated_at = a.generated_at;
  is_edited = a.is_edited;
  edited_at = a.edited_at;
  edited_by = a.edited_by;
}

-- The views of players of the narrative and of the points of view leave the provenance out.
abbrev pub without_provenance : TextOut → TextOut
without_provenance out = record out { is_edited = false; edited_at = none; edited_by = none }

-- The rows of the card, each of which must pass as an `Element`; that it may not is a 500.
unfoldable pub elements_out : (Json → Text) → Artifact → Result RouteError (List Element)
unfolding json_of
elements_out str_of a = do
  rows ← require_some (elements_from_content str_of (json_of a.content)) internal_error
  require_some (elements_of rows) internal_error

abbrev pub campaign_id_for_auth : AuthenticatedKey → Db → Option ℕ
campaign_id_for_auth auth db = elim (resolve_campaign_scope_for_auth auth db) [
  | none ↦ none
  | some scope ↦ some scope.campaign_id
]

-- Reading, as the game master

module _ (sid : ℕ) (auth : AuthenticatedKey) (db : Db) where
  abbrev require_artifact : ArtifactKind → Result RouteError Artifact
  require_artifact kind = require_some (get_artifact sid kind db) artifact_not_ready

  unfoldable pub get_narrative : Result RouteError TextOut
  get_narrative = do
    s ← require_session sid auth db
    a ← require_artifact ArtifactKind.narrative
    ok (text_out a)

  unfoldable pub get_summary : Result RouteError TextOut
  get_summary = do
    s ← require_session sid auth db
    guard (is_non_diarised s.transcription_mode) wrong_mode
    a ← require_artifact ArtifactKind.summary
    ok (text_out a)

  unfoldable pub get_elements : (Json → Text) → Result RouteError (List Element)
  unfolding elements_out
  get_elements str_of = do
    s ← require_session sid auth db
    a ← require_artifact ArtifactKind.elements
    elements_out str_of a

  -- _load_owned_pj_or_404
  unfoldable pub load_owned_pj_or_404 : ℕ → Option ℕ → Result RouteError Pj
  load_owned_pj_or_404 pj campaign =
      require_some (first (owned_pj auth.id campaign pj) db.pjs) pj_not_found

  unfoldable pub get_pov : ℕ → Result RouteError TextOut
  unfolding load_owned_pj_or_404
  get_pov pj = do
    s ← require_session sid auth db
    p ← load_owned_pj_or_404 pj s.campaign_id
    a ← require_artifact (pov pj)
    ok (text_out a)

  -- Reading, as a player

  -- The character of the player, if it takes part in the session.
  unfoldable pub ensure_player_can_read_session : Result RouteError ℕ
  ensure_player_can_read_session = do
    pj ← require_some auth.pj_id player_forbidden
    guard (is_pj_mapped_on_session sid pj (campaign_id_for_auth auth db) db) player_forbidden
    ok pj

  unfoldable pub get_my_narrative : Result RouteError TextOut
  unfolding ensure_player_can_read_session
  get_my_narrative = do
    pj ← ensure_player_can_read_session
    a ← require_artifact ArtifactKind.narrative
    ok (without_provenance (text_out a))

  unfoldable pub get_my_summary : Result RouteError TextOut
  unfolding ensure_player_can_read_session
  get_my_summary = do
    pj ← ensure_player_can_read_session
    a ← require_artifact ArtifactKind.summary
    ok (text_out a)

  unfoldable pub get_my_elements : (Json → Text) → Result RouteError (List Element)
  unfolding ensure_player_can_read_session elements_out
  get_my_elements str_of = do
    pj ← ensure_player_can_read_session
    a ← require_artifact ArtifactKind.elements
    elements_out str_of a

  unfoldable pub get_my_pov : Result RouteError TextOut
  unfolding ensure_player_can_read_session
  get_my_pov = do
    pj ← ensure_player_can_read_session
    a ← require_artifact (pov pj)
    ok (without_provenance (text_out a))

module _ (auth : AuthenticatedKey) (db : Db) where
  unfoldable pub get_my_sessions : Result RouteError (List Session)
  get_my_sessions = do
    pj ← require_some auth.pj_id forbidden
    ok (list_player_sessions pj (campaign_id_for_auth auth db) db)

  unfoldable pub get_me : Result RouteError (Text × Pj)
  get_me = do
    pj ← require_some auth.pj_id forbidden
    p ← require_some (get_player_pj pj (campaign_id_for_auth auth db) db) pj_not_found
    ok (auth.name, p)

-- Editing

module _ (rq : ℕ → Option RqJob) (name_of : ℕ → Text) (now sid : ℕ) (auth : AuthenticatedKey) where
  -- The write, which only an artifact that is there takes, and the artifact that it leaves.
  unfoldable pub edit : ArtifactKind → Content → Db → Result RouteError (Artifact × Db)
  edit kind content db = do
    db' ←
        require_some (update_content now sid kind content (some (name_of auth.id)) db)
          artifact_not_ready
    a ← require_some (get_artifact sid kind db') artifact_not_ready
    ok (a, db')

  unfoldable pub patch_text : ArtifactKind → Text → Db → Result RouteError (TextOut × Db)
  unfolding edit text_edit_in guard_artifact_edit_not_busy
  patch_text kind body db = do
    text ← text_edit_in body
    s ← require_session sid auth db
    guard_artifact_edit_not_busy rq s
    (a, db') ← edit kind (Content.text text) db
    ok (text_out a, db')

  unfoldable pub patch_summary : Text → Db → Result RouteError (TextOut × Db)
  unfolding patch_text
  patch_summary body db = patch_text ArtifactKind.summary body db

  unfoldable pub patch_narrative : Text → Db → Result RouteError (TextOut × Db)
  unfolding patch_text
  patch_narrative body db = patch_text ArtifactKind.narrative body db

  unfoldable pub patch_pov : ℕ → Text → Db → Result RouteError (TextOut × Db)
  unfolding edit text_edit_in guard_artifact_edit_not_busy load_owned_pj_or_404
  patch_pov pj body db = do
    text ← text_edit_in body
    s ← require_session sid auth db
    p ← load_owned_pj_or_404 sid auth db pj s.campaign_id
    guard_artifact_edit_not_busy rq s
    (a, db') ← edit (pov pj) (Content.text text) db
    ok (text_out a, db')

  unfoldable pub put_elements :
      (Json → Text) → Bool → List Element → Db → Result RouteError (List Element × Db)
  unfolding edit elements_of guard_artifact_edit_not_busy elements_out
  put_elements str_of confirm_empty body db = do
    rows ← require_some (elements_of body) invalid_body
    s ← require_session sid auth db
    guard_artifact_edit_not_busy rq s
    guard (not (is_empty rows) || confirm_empty) elements_empty_clear_unconfirmed
    (a, db') ← edit ArtifactKind.elements (Content.elements rows) db
    out ← elements_out str_of a
    ok (out, db')
