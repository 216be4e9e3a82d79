-- ===== src/Routes/Readers.antt =====
-- What a player may read.
use ai_kaeyris.Prelude.{
  ℕ, ◌≡◌, ◌∙◌, true, none, some, List, any, arith, Result, ok, err, inl, inr, Option-cases,
  Result-cases, Bool-cases,
}
use ai_kaeyris.Models.{Db, Session, Artifact, ArtifactKind, pov}
use ai_kaeyris.Repositories.{session_is}
use ai_kaeyris.Auth.{AuthenticatedKey}
use ai_kaeyris.Characters.{is_pj_mapped_on_session, list_player_sessions}
use ai_kaeyris.Characters.Participation.{Keyed, list_player_sessions-agrees}
use ai_kaeyris.Routes.{RouteError, get_artifact}
use ai_kaeyris.Routes.Artifacts.{
  TextOut, text_of, campaign_id_for_auth, ensure_player_can_read_session, get_my_narrative,
  get_my_summary, get_my_pov, get_my_sessions,
}

pub data View : Type 0 where
  narrative_view summary_view pov_view : View

-- The artifact of a view, for the character of the player.
abbrev pub kind_for : View → ℕ → ArtifactKind
kind_for narrative_view pj = ArtifactKind.narrative
kind_for summary_view pj = ArtifactKind.summary
kind_for pov_view pj = pov pj

abbrev pub read_view : View → ℕ → AuthenticatedKey → Db → Result RouteError TextOut
read_view narrative_view = get_my_narrative
read_view summary_view = get_my_summary
read_view pov_view = get_my_pov

-- The player has a character `pj`, its list of sessions has the session, and the text is that of the
-- artifact that the view is for.
pub record IsAllowed (view : View) (sid : ℕ) (auth : AuthenticatedKey) (db : Db) (out : TextOut)
    : Type 0 where
  pub pj : ℕ
  pub is_player : auth.pj_id ≡ some pj
  pub sessions : List Session
  pub listed : get_my_sessions auth db ≡ ok sessions
  pub among : any (session_is sid) sessions ≡ true
  pub artifact : Artifact
  pub there : get_artifact sid (kind_for view pj) db ≡ some artifact
  pub text_is : out.text ≡ text_of artifact.content

ensure-IsMapped :
    (sid : ℕ) (auth : AuthenticatedKey) (db : Db) (pj : ℕ)
    → ensure_player_can_read_session sid auth db ≡ ok pj
    → (auth.pj_id ≡ some pj)
      × (is_pj_mapped_on_session sid pj (campaign_id_for_auth auth db) db ≡ true)
unfolding ensure_player_can_read_session
ensure-IsMapped sid auth db pj e = elim (Option-cases auth.pj_id) [
  | inl unbound ↦ ground (arith, unbound)
  | inr (own, bound) ↦
      elim (Bool-cases (is_pj_mapped_on_session sid own (campaign_id_for_auth auth db) db)) [
        | inr outside ↦ ground (arith, bound, outside)
        | inl mapped ↦ ground (arith, bound, mapped)
      ]
]

-- The text of a narrative, a summary or a point of view that a player is given is that of a session
-- in the player's own list of sessions, and a point of view is the one of the player's own
-- character. The identifiers of the sessions are distinct.
pub read_view-IsAllowed :
    (view : View) (sid : ℕ) (auth : AuthenticatedKey) (db : Db) (out : TextOut)
    → Keyed db.sessions
    → read_view view sid auth db ≡ ok out
    → IsAllowed view sid auth db out
unfolding get_my_narrative get_my_summary get_my_pov get_my_sessions
read_view-IsAllowed view sid auth db out keyed e =
    elim (Result-cases (ensure_player_can_read_session sid auth db)) [
      | inr (x, refused) ↦ barred view e refused
      | inl (pj, let_in) ↦
          let (bound, mapped) = ensure-IsMapped sid auth db pj let_in in
          elim (Option-cases (get_artifact sid (kind_for view pj) db)) [
            | inl absent ↦ missing view e let_in absent
            | inr (a, there) ↦ record {
              pj = pj;
              is_player = bound;
              sessions = list_player_sessions pj (campaign_id_for_auth auth db) db;
              listed = ground (arith, bound);
              among =
                  list_player_sessions-agrees pj sid (campaign_id_for_auth auth db) db keyed
                  ∙ mapped;
              artifact = a;
              there = there;
              text_is = same view e let_in there;
            }
          ]
    ]
  where
    barred :
        {A : Type 0} {x : RouteError} (view : View)
        → read_view view sid auth db ≡ ok out
        → ensure_player_can_read_session sid auth db ≡ err x
        → A
    barred narrative_view e h = ground (arith, h)
    barred summary_view e h = ground (arith, h)
    barred pov_view e h = ground (arith, h)

    missing :
        {A : Type 0} {pj : ℕ} (view : View)
        → read_view view sid auth db ≡ ok out
        → ensure_player_can_read_session sid auth db ≡ ok pj
        → get_artifact sid (kind_for view pj) db ≡ none
        → A
    missing narrative_view e h absent = ground (arith, h, absent)
    missing summary_view e h absent = ground (arith, h, absent)
    missing pov_view e h absent = ground (arith, h, absent)

    same :
        {pj : ℕ} {a : Artifact} (view : View)
        → read_view view sid auth db ≡ ok out
        → ensure_player_can_read_session sid auth db ≡ ok pj
        → get_artifact sid (kind_for view pj) db ≡ some a
        → out.text ≡ text_of a.content
    same narrative_view e h there = ground (arith, h, there)
    same summary_view e h there = ground (arith, h, there)
    same pov_view e h there = ground (arith, h, there)
