-- ===== src/Characters.antt =====
-- app/services/jdr/logic.py and db/repositories.py: the characters of the players (PJ), and the
-- sessions that a character takes part in.
pub mod Permitted
pub mod Participation
mod Tests
use ai_kaeyris.Prelude.{
  ℕ, Bool, true, false, ◌&&◌, ◌||◌, not, Option, none, some, List, [], ◌∷◌, is_some, any, select,
  ◌==◌, opt_eq, if◌then◌else◌, Result, ok, err, guard, require_some, ◌>>=◌, ◌>>◌,
}
use ai_kaeyris.Text.{Text, text_eq}
use ai_kaeyris.Table.{first, update_where, insert}
use ai_kaeyris.Models.{
  Db, User, ApiKey, Pj, CampaignMember, Session, SessionPjMapping, SessionPlayer, TranscriptionMode,
  diarised, non_diarised,
}
use ai_kaeyris.Users.{user_is}
use ai_kaeyris.Players.{key_is}
use ai_kaeyris.Campaigns.{campaign_is}
use ai_kaeyris.Access.{
  CampaignContextError, pj_is, require_campaign_membership, require_campaign_gm,
}
use ai_kaeyris.Sessions.{owned_pj}

-- `campaign_access` is `CampaignAccessError`, from the checks of membership.
pub data PjError : Type 0 where
  duplicate_pj pj_campaign_resolution pj_forbidden pj_assignment campaign_access : PjError

abbrev pub access_checked : {A : Type 0} → Result CampaignContextError A → Result PjError A
access_checked (ok a) = ok a
access_checked (err e) = err campaign_access

-- PjRepository

-- The uniqueness constraint on (campaign_id, name).
abbrev pub pj_named : ℕ → Text → Pj → Bool
pj_named cid name p = opt_eq p.campaign_id (some cid) && text_eq p.name name

-- The row meets the constraint and the foreign keys.
abbrev pub accepts_pj : Pj → ℕ → Db → Bool
accepts_pj p cid db =
    not (any (pj_named cid p.name) db.pjs)
    && is_some (first (campaign_is cid) db.campaigns)
    && is_some (first (key_is p.owner_gm_key_id) db.api_keys)

abbrev pub new_pj : ℕ → Text → ℕ → ℕ → Option ℕ → Pj
new_pj id name gm cid user = record {
  id = id;
  name = name;
  owner_gm_key_id = gm;
  campaign_id = some cid;
  user_id = user;
}

-- Any integrity error is reported as a duplicate name.
unfoldable pub insert_pj : ℕ → Pj → Db → Result PjError Db
insert_pj cid p db = do
  guard (accepts_pj p cid db) duplicate_pj
  ok (record db { pjs = insert p db.pjs })

abbrev pub pj_of_gm : ℕ → Option ℕ → Pj → Bool
pj_of_gm gm none p = p.owner_gm_key_id == gm
pj_of_gm gm (some cid) p = p.owner_gm_key_id == gm && opt_eq p.campaign_id (some cid)

-- The join with the memberships of the user.
abbrev pub shares_campaign : ℕ → Pj → CampaignMember → Bool
shares_campaign uid p m = m.user_id == uid && opt_eq p.campaign_id (some m.campaign_id)

abbrev pub pj_of_member : ℕ → Option ℕ → List CampaignMember → Pj → Bool
pj_of_member uid none members p = any (shares_campaign uid p) members
pj_of_member uid (some cid) members p =
    any (shares_campaign uid p) members && opt_eq p.campaign_id (some cid)

-- Creation

abbrev or_default : Option ℕ → User → Option ℕ
or_default (some cid) u = some cid
or_default none u = u.default_campaign_id

-- The campaign of a new character; a web account must be its game master.
unfoldable pub requested_campaign : Option ℕ → Option ℕ → Db → Result PjError ℕ
requested_campaign none campaign db = require_some campaign pj_campaign_resolution
requested_campaign (some uid) campaign db = do
  u ← require_some (first (user_is uid) db.users) pj_forbidden
  cid ← require_some (or_default campaign u) pj_campaign_resolution
  m ← access_checked (require_campaign_gm uid cid db)
  ok cid

-- The account that is to play the character is there.
abbrev pub assignable : Option ℕ → Db → Bool
assignable none db = true
assignable (some uid) db = is_some (first (user_is uid) db.users)

-- `id` is the new identifier.
unfoldable pub create_pj :
    ℕ → Text → ℕ → Option ℕ → Option ℕ → Option ℕ → Db → Result PjError (Pj × Db)
unfolding requested_campaign insert_pj
create_pj id name gm user campaign requester db = do
  cid ← requested_campaign requester campaign db
  guard (assignable user db) pj_assignment
  db' ← insert_pj cid (new_pj id name gm cid user) db
  ok (new_pj id name gm cid user, db')

-- Change

-- A web account must be game master of the character's campaign.
abbrev may_change : Option ℕ → Pj → Db → Result PjError (Unit {0})
may_change none p db = ok tt
may_change (some uid) p db = do
  cid ← require_some p.campaign_id campaign_access
  m ← access_checked (require_campaign_gm uid cid db)
  ok tt

-- The fields that a change sets: a name, and an account or none.
abbrev pub changed : Option Text → Option (Option ℕ) → Pj → Pj
changed none none p = p
changed (some name) none p = record p { name = name }
changed none (some user) p = record p { user_id = user }
changed (some name) (some user) p = record p { name = name; user_id = user }

abbrev assigned : Option (Option ℕ) → Db → Bool
assigned none db = true
assigned (some user) db = assignable user db

-- Another character of the campaign has the name.
abbrev pub renames_onto : Pj → Pj → Bool
renames_onto p q =
    not (q.id == p.id)
    && is_some p.campaign_id
    && opt_eq q.campaign_id p.campaign_id
    && text_eq q.name p.name

-- `none` when the game master has no such character.
unfoldable pub update_pj :
    ℕ
    → ℕ
    → Option Text
    → Option (Option ℕ)
    → Option ℕ
    → Option ℕ
    → Db
    → Result PjError (Option (Pj × Db))
update_pj pj gm name user campaign requester db = elim (first (owned_pj gm campaign pj) db.pjs) [
  | none ↦ ok none
  | some p ↦ do
    may_change requester p db
    guard (assigned user db) pj_assignment
    guard (not (any (renames_onto (changed name user p)) db.pjs)) duplicate_pj
    ok (
        some (
          changed name user p,
          record db { pjs = update_where (pj_is pj) (changed name user) db.pjs },
        ))
]

-- Lists

unfoldable pub list_pjs : ℕ → Option ℕ → Option ℕ → Db → Result PjError (List Pj)
list_pjs gm campaign none db = ok (select (pj_of_gm gm campaign) db.pjs)
list_pjs gm none (some uid) db = ok (select (pj_of_member uid none db.members) db.pjs)
list_pjs gm (some cid) (some uid) db = do
  m ← access_checked (require_campaign_membership uid cid db)
  ok (select (pj_of_member uid (some cid) db.members) db.pjs)

abbrev pj_in : ℕ → Option ℕ → Pj → Bool
pj_in pj none p = p.id == pj
pj_in pj (some cid) p = p.id == pj && opt_eq p.campaign_id (some cid)

unfoldable pub get_player_pj : ℕ → Option ℕ → Db → Option Pj
get_player_pj pj campaign db = first (pj_in pj campaign) db.pjs

-- The sessions of a character

abbrev pub mapped_to : ℕ → ℕ → SessionPjMapping → Bool
mapped_to sid pj m = m.session_id == sid && m.pj_id == pj

abbrev pub plays_in : ℕ → ℕ → SessionPlayer → Bool
plays_in sid pj p = p.session_id == sid && p.pj_id == pj

-- The outer joins of the list, with DISTINCT: some mapping or some player row matches, by mode.
abbrev pub takes_part : ℕ → Db → TranscriptionMode → ℕ → Bool
takes_part pj db diarised sid = any (mapped_to sid pj) db.mappings
takes_part pj db non_diarised sid = any (plays_in sid pj) db.players

abbrev pub in_scope : Option ℕ → Session → Bool
in_scope none s = true
in_scope (some cid) s = opt_eq s.campaign_id (some cid)

unfoldable pub list_player_sessions : ℕ → Option ℕ → Db → List Session
list_player_sessions pj campaign db =
    select (λ s. takes_part pj db s.transcription_mode s.id && in_scope campaign s) db.sessions

-- The question about one session looks for a first row.
abbrev mapped_row : ℕ → ℕ → Db → TranscriptionMode → Bool
mapped_row sid pj db non_diarised = is_some (first (plays_in sid pj) db.players)
mapped_row sid pj db diarised = is_some (first (mapped_to sid pj) db.mappings)

unfoldable pub is_pj_mapped_on_session : ℕ → ℕ → Option ℕ → Db → Bool
is_pj_mapped_on_session sid pj campaign db =
    elim (first (λ s. s.id == sid && in_scope campaign s) db.sessions) [
      | none ↦ false
      | some s ↦ mapped_row sid pj db s.transcription_mode
    ]
