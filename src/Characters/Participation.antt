-- ===== src/Characters/Participation.antt =====
-- The list of a player's sessions, and the question whether it may read one.
use ai_kaeyris.Prelude.{
  ℕ, ◌≡◌, refl, ◌∙◌, Bool, false, ◌&&◌, Option, none, some, List, [], ◌∷◌, is_some, any, select,
  arith, ◌==◌, ==_iff, inl, inr, Option-cases,
}
use ai_kaeyris.Table.{first}
use ai_kaeyris.Models.{Db, Session, TranscriptionMode, diarised, non_diarised}
use ai_kaeyris.Repositories.{session_is}
use ai_kaeyris.Characters.{
  mapped_to, plays_in, takes_part, in_scope, list_player_sessions, is_pj_mapped_on_session,
  mapped_row,
}

-- The primary key.
abbrev pub Keyed : List Session → Type 0
Keyed [] = Unit
Keyed (s ∷ rows) = (select (session_is s.id) rows ≡ []) × Keyed rows

any-first {ℓ} : {A : Type ℓ} (p : A → Bool) (rows : List A) → any p rows ≡ is_some (first p rows)
any-first p [] = refl
any-first p (r ∷ rows) = ground (arith, any-first p rows)

takes_part-mapped_row :
    (pj : ℕ) (db : Db) (mode : TranscriptionMode) (sid : ℕ)
    → takes_part pj db mode sid ≡ mapped_row sid pj db mode
takes_part-mapped_row pj db diarised sid = any-first (mapped_to sid pj) db.mappings
takes_part-mapped_row pj db non_diarised sid = any-first (plays_in sid pj) db.players

-- The answer about one session, on the rows of the table.
abbrev answer : (TranscriptionMode → ℕ → Bool) → ℕ → Option ℕ → List Session → Bool
answer t sid campaign rows = elim (first (λ s. s.id == sid && in_scope campaign s) rows) [
  | none ↦ false
  | some s ↦ t s.transcription_mode sid
]

absent :
    (t : TranscriptionMode → ℕ → Bool) (sid : ℕ) (campaign : Option ℕ) (rows : List Session)
    → select (session_is sid) rows ≡ []
    → any (session_is sid) (select (λ s. t s.transcription_mode s.id && in_scope campaign s) rows)
      ≡ false
absent t sid campaign [] h = refl
absent t sid campaign (s ∷ rows) h = ground (arith, absent t sid campaign rows)

absent_first :
    (sid : ℕ) (campaign : Option ℕ) (rows : List Session)
    → select (session_is sid) rows ≡ []
    → first (λ s. s.id == sid && in_scope campaign s) rows ≡ none
absent_first sid campaign [] h = refl
absent_first sid campaign (s ∷ rows) h = ground (arith, absent_first sid campaign rows)

agrees :
    (t : TranscriptionMode → ℕ → Bool) (sid : ℕ) (campaign : Option ℕ) (rows : List Session)
    → Keyed rows
    → any (session_is sid) (select (λ s. t s.transcription_mode s.id && in_scope campaign s) rows)
      ≡ answer t sid campaign rows
agrees t sid campaign [] keyed = refl
agrees t sid campaign (s ∷ rows) keyed = ground (
  arith,
  keyed,
  ==_iff s.id sid,
  agrees t sid campaign rows keyed.1,
  absent t sid campaign rows,
  absent_first sid campaign rows,
)

-- A session is in the list of a player's sessions exactly when the player may read it: when the
-- character is in the speaker mapping of a diarised session, or in the player list of another, and
-- the session is in the campaign, if one is given. The identifiers of the sessions are distinct.
pub list_player_sessions-agrees :
    (pj sid : ℕ) (campaign : Option ℕ) (db : Db)
    → Keyed db.sessions
    → any (session_is sid) (list_player_sessions pj campaign db)
      ≡ is_pj_mapped_on_session sid pj campaign db
unfolding list_player_sessions is_pj_mapped_on_session
list_player_sessions-agrees pj sid campaign db keyed =
    agrees (takes_part pj db) sid campaign db.sessions keyed ∙ answer_eq
  where
    answer_eq :
        answer (takes_part pj db) sid campaign db.sessions
        ≡ is_pj_mapped_on_session sid pj campaign db
    answer_eq = elim (Option-cases (first (λ s. s.id == sid && in_scope campaign s) db.sessions)) [
      | inl none_found ↦ ground (arith, none_found)
      | inr (s, found) ↦ ground (arith, found, takes_part-mapped_row pj db s.transcription_mode sid)
    ]
