-- ===== src/Access/Updated.antt =====
-- Who may see a session after one of its rows has changed.
use ai_kaeyris.Prelude.{ℕ, ◌≡◌, refl, Bool, none, some, arith, inl, inr, Option-cases}
use ai_kaeyris.Table.{apply_first, first-update_where_within}
use ai_kaeyris.Models.{Db, Session}
use ai_kaeyris.Repositories.{session_is, update_session_row}
use ai_kaeyris.Auth.{AuthenticatedKey}
use ai_kaeyris.Access.{session_of_gm, get_for_gm, resolve_session_for_gm}
use ai_kaeyris.Access.Sight.{shown_to-same}

-- An update that keeps who may see a session.
abbrev pub Keeps : (Session → Session) → Type 0
Keeps f =
    (s : Session)
    → ((f s).id ≡ s.id) × ((f s).gm_key_id ≡ s.gm_key_id) × ((f s).campaign_id ≡ s.campaign_id)

pub get_for_gm-update_session_row :
    (f : Session → Session) (sid gm : ℕ) (db : Db)
    → Keeps f
    → get_for_gm sid gm none (update_session_row sid f db)
      ≡ apply_first f (get_for_gm sid gm none db)
unfolding get_for_gm update_session_row
get_for_gm-update_session_row f sid gm db keep =
    first-update_where_within (session_of_gm sid gm none) (session_is sid) f db.sessions
      (λ s. ground (arith, keep s)) (λ s h. ground arith)

pub resolve_session_for_gm-update_session_row :
    (f : Session → Session) (sid : ℕ) (auth : AuthenticatedKey) (g : Bool) (db : Db) (s : Session)
    → Keeps f
    → resolve_session_for_gm sid auth g db ≡ some s
    → resolve_session_for_gm sid auth g (update_session_row sid f db) ≡ some (f s)
unfolding resolve_session_for_gm update_session_row
resolve_session_for_gm-update_session_row f sid auth g db s keep seen =
    elim (Option-cases (get_for_gm sid auth.id none db)) [
      | inl absent ↦ ground arith
      | inr (t, found) ↦ ground (
        arith,
        get_for_gm-update_session_row f sid auth.id db keep,
        keep t,
        shown_to-same g auth.source auth.user_id t.campaign_id db (update_session_row sid f db)
            refl,
      )
    ]
