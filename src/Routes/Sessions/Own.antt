-- ===== src/Routes/Sessions/Own.antt =====
-- Who changes which sessions.
use ai_kaeyris.Prelude.{
  ℕ, ◌≡◌, ◌≢◌, refl, ap, ◌∙◌, Bool, true, ◌&&◌, ◌==◌, Option, none, some, List, arith, Result, ok,
  inl, inr, Option-cases,
}
use ai_kaeyris.Text.{Text}
use ai_kaeyris.Table.{first}
use ai_kaeyris.Models.{Db, Session}
use ai_kaeyris.Repositories.Slice.{slice, slice-update_session_row_ne}
use ai_kaeyris.Auth.{AuthenticatedKey}
use ai_kaeyris.Access.{resolve_session_for_gm, get_for_gm}
use ai_kaeyris.Access.Sight.{IsLetIn, resolve_session_for_gm-IsLetIn}
use ai_kaeyris.Sessions.Requests.{Surroundings, Request, perform}
use ai_kaeyris.Sessions.Isolation.{perform_ne}
use ai_kaeyris.Routes.Sessions.{
  SessionRouteError, in_context, titled, update_session, patch_session, put_session_mapping,
  post_session_players, put_transcription_edit, recover_route, restart_route, post_audio,
  purge_audio, delete_session_route,
}

-- The routes that change or delete a session.
pub data SessionRoute : Type 0 where
  patch : Bool → Option Text → Option (Option Text) → SessionRoute
  mapping : List (Text × ℕ) → SessionRoute
  players : List ℕ → SessionRoute
  edited : Text → SessionRoute
  audio : Text → List Text → SessionRoute
  recovery restarting purging deletion : SessionRoute

abbrev pub session_route :
    Surroundings → SessionRoute → ℕ → AuthenticatedKey → Db → Result SessionRouteError Db
session_route w (patch names_mode title context) = patch_session names_mode title context
session_route w (mapping m) = put_session_mapping m
session_route w (players pjs) = post_session_players pjs
session_route w (edited content) = put_transcription_edit content
session_route w (audio mime reads) = post_audio w mime reads
session_route w recovery = recover_route w
session_route w restarting = restart_route w
session_route w purging = purge_audio w
session_route w deletion = delete_session_route w

-- The operation of a route on a session, as the service performs it.
abbrev operation : Surroundings → SessionRoute → ℕ → Session → Db → Db
operation w (patch names_mode title context) gm s db = update_session s.id title context db
operation w (mapping m) gm s db = perform w (Request.set_mapping s.id m gm s.campaign_id) s db
operation w (players pjs) gm s db = perform w (Request.set_players s.id pjs gm s.campaign_id) s db
operation w (edited content) gm s db = perform w (Request.edit s.id content) s db
operation w (audio mime reads) gm s db = perform w (Request.upload s.id mime reads) s db
operation w recovery gm s db = perform w (Request.recover s.id) s db
operation w restarting gm s db = perform w (Request.restart s.id) s db
operation w purging gm s db = perform w (Request.purge s.id) s db
operation w deletion gm s db = perform w (Request.delete s.id) s db

kept :
    (title : Option Text) (context : Option (Option Text)) (s : Session)
    → (in_context context (titled title s)).id ≡ s.id
kept none none s = refl
kept none (some c) s = refl
kept (some t) none s = refl
kept (some t) (some c) s = refl

operation_ne :
    {j : ℕ} (w : Surroundings) (r : SessionRoute) (gm : ℕ) (s : Session) (db : Db)
    → j ≢ s.id
    → slice j (operation w r gm s db) ≡ slice j db
unfolding update_session
operation_ne w (patch names_mode title context) gm s db ne =
    slice-update_session_row_ne ne db _ (kept title context)
operation_ne w (mapping m) gm s db ne = perform_ne s ne db w _
operation_ne w (players pjs) gm s db ne = perform_ne s ne db w _
operation_ne w (edited content) gm s db ne = perform_ne s ne db w _
operation_ne w (audio mime reads) gm s db ne = perform_ne s ne db w _
operation_ne w recovery gm s db ne = perform_ne s ne db w _
operation_ne w restarting gm s db ne = perform_ne s ne db w _
operation_ne w purging gm s db ne = perform_ne s ne db w _
operation_ne w deletion gm s db ne = perform_ne s ne db w _

seen-performs :
    (w : Surroundings) (r : SessionRoute) (sid : ℕ) (auth : AuthenticatedKey) (s : Session)
    (db db' : Db)
    → resolve_session_for_gm sid auth true db ≡ some s
    → session_route w r sid auth db ≡ ok db'
    → db' ≡ operation w r auth.id s db
unfolding patch_session put_session_mapping post_session_players put_transcription_edit
    recover_route restart_route post_audio purge_audio delete_session_route perform
seen-performs w (patch names_mode title context) sid auth s db db' seen done = ground arith
seen-performs w (mapping m) sid auth s db db' seen done = ground arith
seen-performs w (players pjs) sid auth s db db' seen done = ground arith
seen-performs w (edited content) sid auth s db db' seen done = ground arith
seen-performs w (audio mime reads) sid auth s db db' seen done = ground arith
seen-performs w recovery sid auth s db db' seen done = ground arith
seen-performs w restarting sid auth s db db' seen done = ground arith
seen-performs w purging sid auth s db db' seen done = ground arith
seen-performs w deletion sid auth s db db' seen done = ground arith

unseen-fails :
    (w : Surroundings) (r : SessionRoute) (sid : ℕ) (auth : AuthenticatedKey) (db db' : Db)
    → resolve_session_for_gm sid auth true db ≡ none
    → session_route w r sid auth db ≢ ok db'
unfolding patch_session put_session_mapping post_session_players put_transcription_edit
    recover_route restart_route post_audio purge_audio delete_session_route
unseen-fails w (patch names_mode title context) sid auth db db' unseen done = ground arith
unseen-fails w (mapping m) sid auth db db' unseen done = ground arith
unseen-fails w (players pjs) sid auth db db' unseen done = ground arith
unseen-fails w (edited content) sid auth db db' unseen done = ground arith
unseen-fails w (audio mime reads) sid auth db db' unseen done = ground arith
unseen-fails w recovery sid auth db db' unseen done = ground arith
unseen-fails w restarting sid auth db db' unseen done = ground arith
unseen-fails w purging sid auth db db' unseen done = ground arith
unseen-fails w deletion sid auth db db' unseen done = ground arith

seen-owned :
    (sid : ℕ) (auth : AuthenticatedKey) (s : Session) (db : Db)
    → resolve_session_for_gm sid auth true db ≡ some s
    → first (λ r. r.id == sid && r.gm_key_id == auth.id) db.sessions ≡ some s
unfolding resolve_session_for_gm get_for_gm
seen-owned sid auth s db seen = elim (Option-cases (get_for_gm sid auth.id none db)) [
  | inl absent ↦ ground (arith, absent)
  | inr (t, found) ↦ ground (arith, found)
]

-- A route that changes or deletes a session succeeds only for a session of the database that has the
-- identifier asked for and the key of the caller, and for a web account only as game master of the
-- session's campaign, if it has one; and it leaves every other session with its row, audio,
-- transcription, mapping, artifacts, chunks and players.
pub session_route-IsOwn :
    (w : Surroundings) (r : SessionRoute) (sid j : ℕ) (auth : AuthenticatedKey) (db db' : Db)
    → session_route w r sid auth db ≡ ok db'
    → j ≢ sid
    → (s : Session) × (first (λ r. r.id == sid && r.gm_key_id == auth.id) db.sessions ≡ some s)
      × IsLetIn true auth.source auth.user_id s.campaign_id db
      × (slice j db' ≡ slice j db)
session_route-IsOwn w r sid j auth db db' done ne =
    elim (Option-cases (resolve_session_for_gm sid auth true db)) [
      | inl unseen ↦ elim (unseen-fails w r sid auth db db' unseen done) [ ]
      | inr (s, seen) ↦
          let (same, owned, let_in) = resolve_session_for_gm-IsLetIn sid auth true db s seen in
          (
            s,
            seen-owned sid auth s db seen,
            let_in,
            ap (slice j) (seen-performs w r sid auth s db db' seen done)
                ∙ operation_ne w r auth.id s db (λ e. ne (e ∙ same)),
          )
    ]
