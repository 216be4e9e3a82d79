-- ===== src/Sessions/Participants.antt =====
-- The players and the speaker mapping of a session.
use ai_kaeyris.Prelude.{
  ℕ, ◌≡◌, refl, ap, ◌∙◌, Bool, true, false, not, ◌&&◌, Option, List, [], ◌∷◌, map, select,
  select-append, arith, ◌==◌, ==_refl, ok,
}
use ai_kaeyris.Text.{Text}
use ai_kaeyris.Table.{delete_where, select-delete_where, select-delete_where_ne}
use ai_kaeyris.Models.{Db, Session, Artifact, is_pov}
use ai_kaeyris.Repositories.{
  player_of, mapping_of, seen, dedup, player_rows, mapping_rows, replace_players, replace_mappings,
  invalidate_pov_artifacts,
}
use ai_kaeyris.Sessions.{all_owned, set_session_players, set_session_mapping}

abbrev pub IsDistinct : List ℕ → Type 0
IsDistinct [] = Unit
IsDistinct (x ∷ xs) = (seen x xs ≡ false) × IsDistinct xs

seen-dedup :
    (x : ℕ) (done pjs : List ℕ) → seen x (dedup done pjs) ≡ (seen x pjs && not (seen x done))
unfolding dedup
seen-dedup x done [] = refl
seen-dedup x done (pj ∷ pjs) =
    ground (arith, seen-dedup x done pjs, seen-dedup x (pj ∷ done) pjs, seen_same done)
  where
    seen_same : (l : List ℕ) → pj ≡ x → seen pj l ≡ seen x l
    seen_same l e = ap (λ k. seen k l) e

dedup-IsDistinct : (done pjs : List ℕ) → IsDistinct (dedup done pjs)
unfolding dedup
dedup-IsDistinct done [] = tt
dedup-IsDistinct done (pj ∷ pjs) = ground (
  arith,
  dedup-IsDistinct done pjs,
  dedup-IsDistinct (pj ∷ done) pjs,
  seen-dedup pj (pj ∷ done) pjs,
)

-- The players that a session has, in the order of the table.
abbrev pub pjs_of : ℕ → Db → List ℕ
pjs_of sid db = map (λ r. r.pj_id) (select (player_of sid) db.players)

player_rows_self :
    (sid : ℕ) (pjs : List ℕ)
    → map (λ r. r.pj_id) (select (player_of sid) (player_rows sid pjs)) ≡ pjs
unfolding player_rows
player_rows_self sid [] = refl
player_rows_self sid (pj ∷ pjs) = rw ==_refl (ap (◌∷◌ pj) (player_rows_self sid pjs))

pjs_of-replace_players :
    (sid : ℕ) (pjs : List ℕ) (db : Db) → pjs_of sid (replace_players sid pjs db) ≡ dedup [] pjs
unfolding replace_players
pjs_of-replace_players sid pjs db =
    rw
      (
        select-append (player_of sid) (delete_where (player_of sid) db.players)
            (player_rows sid (dedup [] pjs)),
        select-delete_where (player_of sid) db.players,
      )
      (player_rows_self sid (dedup [] pjs))

-- When every requested player is a PJ of the GM, and of the campaign if one is given, setting the
-- players of a session succeeds, and the session has each requested PJ once and no other.
pub set_session_players-exact :
    (session : Session) (pjs : List ℕ) (gm : ℕ) (campaign : Option ℕ) (db : Db)
    → all_owned gm campaign pjs db ≡ true
    → (db' : Db) × (set_session_players session pjs gm campaign db ≡ ok db')
      × IsDistinct (pjs_of session.id db')
      × ((x : ℕ) → seen x (pjs_of session.id db') ≡ seen x pjs)
unfolding set_session_players
set_session_players-exact session pjs gm campaign db owned = (
  replace_players session.id pjs db,
  rw owned refl,
  rw pjs_of-replace_players (dedup-IsDistinct [] pjs),
  λ x. rw (pjs_of-replace_players, seen-dedup x [] pjs) (ground arith),
)

mapping_rows_self :
    (sid : ℕ) (m : List (Text × ℕ))
    → select (mapping_of sid) (mapping_rows sid m) ≡ mapping_rows sid m
unfolding mapping_rows
mapping_rows_self sid [] = refl
mapping_rows_self sid ((label, pj) ∷ m) = ground (arith, ==_refl sid, mapping_rows_self sid m)

mapping-replaced :
    (sid : ℕ) (m : List (Text × ℕ)) (db : Db)
    → select (mapping_of sid) (replace_mappings sid m db).mappings ≡ mapping_rows sid m
unfolding replace_mappings
mapping-replaced sid m db =
    rw
      (
        select-append (mapping_of sid) (delete_where (mapping_of sid) db.mappings)
            (mapping_rows sid m),
        select-delete_where (mapping_of sid) db.mappings,
      )
      (mapping_rows_self sid m)

abbrev pub pov_of : ℕ → Artifact → Bool
pov_of sid r = r.session_id == sid && is_pov r.kind

abbrev pub other_artifact_of : ℕ → Artifact → Bool
other_artifact_of sid r = r.session_id == sid && not (is_pov r.kind)

others_kept :
    (sid : ℕ) (m : List (Text × ℕ)) (db : Db)
    → select (other_artifact_of sid) (replace_mappings sid m db).artifacts
      ≡ select (other_artifact_of sid) db.artifacts
unfolding replace_mappings
others_kept sid m db = refl

-- When every PJ of a mapping belongs to the GM, and to the campaign if one is given, setting the
-- mapping succeeds: it replaces the whole mapping of the session by the given pairs in their
-- order, and deletes every point-of-view artifact of the session and no other artifact of it.
pub set_session_mapping-exact :
    (session : Session) (m : List (Text × ℕ)) (gm : ℕ) (campaign : Option ℕ) (db : Db)
    → all_owned gm campaign (map (λ e. e.1) m) db ≡ true
    → (db' : Db) × (set_session_mapping session m gm campaign db ≡ ok db')
      × (select (mapping_of session.id) db'.mappings ≡ mapping_rows session.id m)
      × (select (pov_of session.id) db'.artifacts ≡ [])
      × (select (other_artifact_of session.id) db'.artifacts
          ≡ select (other_artifact_of session.id) db.artifacts)
unfolding set_session_mapping invalidate_pov_artifacts
set_session_mapping-exact session m gm campaign db owned = (
  invalidate_pov_artifacts session.id (replace_mappings session.id m db),
  rw owned refl,
  mapping-replaced session.id m db,
  select-delete_where (pov_of session.id) (replace_mappings session.id m db).artifacts,
  select-delete_where_ne (other_artifact_of session.id) (pov_of session.id)
        (replace_mappings session.id m db).artifacts (λ r h. ground arith)
      ∙ others_kept session.id m db,
)
