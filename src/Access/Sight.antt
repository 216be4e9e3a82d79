-- ===== src/Access/Sight.antt =====
-- The sessions that a caller is shown.
use ai_kaeyris.Prelude.{
  ℕ, ◌≡◌, refl, subst, Bool, true, false, ◌&&◌, not, Option, none, some, arith, inl, inr,
  Option-cases, Bool-cases,
}
use ai_kaeyris.Table.{first, first-holds}
use ai_kaeyris.Models.{Db, CampaignMember, Session}
use ai_kaeyris.Auth.{AuthenticatedKey, Source}
use ai_kaeyris.Campaigns.{membership, is_gm}
use ai_kaeyris.Access.{shown_to, get_for_gm, session_of_gm, resolve_session_for_gm}

-- A web account is a member of the session's campaign, as its game master where that is asked for.
abbrev pub IsLetIn : Bool → Source → Option ℕ → Option ℕ → Db → Type 0
IsLetIn require_gm_role Source.web_session (some uid) (some cid) db =
    (m : CampaignMember) × (first (membership uid cid) db.members ≡ some m)
    × ((require_gm_role && not (is_gm m.role)) ≡ false)
IsLetIn require_gm_role _ _ _ db = Unit

shown_to-IsLetIn :
    (require_gm_role : Bool) (source : Source) (user campaign : Option ℕ) (db : Db)
    → shown_to require_gm_role source user campaign db ≡ true
    → IsLetIn require_gm_role source user campaign db
shown_to-IsLetIn g Source.web_session (some uid) (some cid) db e =
    elim (Option-cases (first (membership uid cid) db.members)) [
      | inl absent ↦ ground (arith, absent)
      | inr (m, found) ↦ (m, found, ground (arith, found))
    ]
shown_to-IsLetIn g Source.web_session (some uid) none db e = tt
shown_to-IsLetIn g Source.web_session none campaign db e = tt
shown_to-IsLetIn g Source.api_key user campaign db e = tt

-- A session that is shown to a caller has the identifier asked for and belongs to the caller's key;
-- if the caller is a web account and the session has a campaign, the account is a member of that
-- campaign, and its game master where the route asks for one.
pub resolve_session_for_gm-IsLetIn :
    (sid : ℕ) (auth : AuthenticatedKey) (require_gm_role : Bool) (db : Db) (s : Session)
    → resolve_session_for_gm sid auth require_gm_role db ≡ some s
    → (s.id ≡ sid)
      × (s.gm_key_id ≡ auth.id)
      × IsLetIn require_gm_role auth.source auth.user_id s.campaign_id db
unfolding resolve_session_for_gm get_for_gm
resolve_session_for_gm-IsLetIn sid auth g db s e =
    elim (Option-cases (first (session_of_gm sid auth.id none) db.sessions)) [
      | inl absent ↦ ground (arith, absent)
      | inr (r, found) ↦ elim (Bool-cases (shown_to g auth.source auth.user_id r.campaign_id db)) [
        | inr hidden ↦ ground (arith, found, hidden)
        | inl shown ↦
            let same : r ≡ s = ground (arith, found, shown) in
            let holds = first-holds (session_of_gm sid auth.id none) db.sessions {r = r} found in
            (
              ground (arith, same, holds),
              ground (arith, same, holds),
              subst (λ (t : Session). IsLetIn g auth.source auth.user_id t.campaign_id db) same
                  (shown_to-IsLetIn g auth.source auth.user_id r.campaign_id db shown),
            )
      ]
    ]

pub shown_to-same :
    (require_gm_role : Bool) (source : Source) (user campaign : Option ℕ) (db db' : Db)
    → db'.members ≡ db.members
    → shown_to require_gm_role source user campaign db'
      ≡ shown_to require_gm_role source user campaign db
shown_to-same g Source.web_session (some uid) (some cid) db db' e = rw e refl
shown_to-same g Source.web_session (some uid) none db db' e = refl
shown_to-same g Source.web_session none campaign db db' e = refl
shown_to-same g Source.api_key user campaign db db' e = refl

-- Only the sessions and the memberships decide what is shown.
pub resolve_session_for_gm-same :
    (sid : ℕ) (auth : AuthenticatedKey) (require_gm_role : Bool) (db db' : Db)
    → db'.sessions ≡ db.sessions
    → db'.members ≡ db.members
    → resolve_session_for_gm sid auth require_gm_role db'
      ≡ resolve_session_for_gm sid auth require_gm_role db
unfolding resolve_session_for_gm get_for_gm
resolve_session_for_gm-same sid auth g db db' sessions members =
    elim (Option-cases (first (session_of_gm sid auth.id none) db.sessions)) [
      | inl absent ↦ ground (arith, absent, sessions)
      | inr (s, found) ↦ ground (
        arith,
        found,
        sessions,
        shown_to-same g auth.source auth.user_id s.campaign_id db db' members,
      )
    ]
