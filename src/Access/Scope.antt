-- ===== src/Access/Scope.antt =====
-- What the campaign scope of a caller and the sight of a session rest on.
use ai_kaeyris.Prelude.{
  ℕ, ◌≡◌, true, Option, none, some, List, [], ◌∷◌, arith, ◌⊎◌, inl, inr, Option-cases,
}
use ai_kaeyris.Table.{first, first-holds}
use ai_kaeyris.Models.{Db, User, Campaign, CampaignMember, CampaignRole, Role, Pj, is_active}
use ai_kaeyris.Auth.{Source}
use ai_kaeyris.Campaigns.{campaign_is, membership}
use ai_kaeyris.Access.{
  CampaignScope, ActiveCampaignContext, get_default_campaign, first_joined, default_joined,
  resolve_active_campaign_for_user,
}

-- The campaign of the oldest membership is there.
first_joined-there :
    (uid : ℕ) (members : List CampaignMember) (campaigns : List Campaign) (c : Campaign)
    (m : CampaignMember)
    → first_joined uid members campaigns ≡ some (c, m)
    → first (campaign_is c.id) campaigns ≡ some c
unfolding first_joined
first_joined-there uid [] campaigns c m e = cc
first_joined-there uid (r ∷ members) campaigns c m e = ground (
  arith,
  first_joined-there uid members campaigns c m,
  first-holds (campaign_is r.campaign_id) campaigns {r = c},
)

-- The oldest membership is a membership of its campaign.
first_joined-first :
    (uid : ℕ) (members : List CampaignMember) (campaigns : List Campaign) (c : Campaign)
    (m : CampaignMember)
    → first_joined uid members campaigns ≡ some (c, m)
    → first (membership uid c.id) members ≡ some m
unfolding first_joined
first_joined-first uid [] campaigns c m e = cc
first_joined-first uid (r ∷ members) campaigns c m e = ground (
  arith,
  first_joined-first uid members campaigns c m,
  first_joined-there uid members campaigns c m,
  first-holds (campaign_is r.campaign_id) campaigns {r = c},
)

default_joined-first :
    (u : User) (db : Db) (c : Campaign) (m : CampaignMember)
    → default_joined u db ≡ some (c, m)
    → first (membership u.id c.id) db.members ≡ some m
unfolding default_joined
default_joined-first u db c m e = elim (Option-cases u.default_campaign_id) [
  | inl unset ↦ ground (arith, unset)
  | inr (cid, set) ↦ ground (arith, set, first-holds (campaign_is cid) db.campaigns {r = c})
]

-- A member in the role and with the character of its scope.
abbrev pub Joins : Db → ℕ → ℕ → CampaignRole → Option ℕ → Type 0
Joins db uid cid role character =
    (m : CampaignMember) × (first (membership uid cid) db.members ≡ some m)
    × (role ≡ m.role)
    × (character ≡ m.character_id)

pub resolve_active_campaign_for_user-Joins :
    (u : User) (db : Db) (a : ActiveCampaignContext)
    → resolve_active_campaign_for_user u db ≡ some a
    → (is_active u.status ≡ true) × Joins db u.id a.id a.role a.character_id
unfolding resolve_active_campaign_for_user
resolve_active_campaign_for_user-Joins u db a e = elim (Option-cases (default_joined u db)) [
  | inr ((c, m), set) ↦ (
    ground (arith, set),
    (
      m,
      ground (arith, set, default_joined-first u db c m),
      ground (arith, set),
      ground (arith, set),
    ),
  )
  | inl unset ↦ elim (Option-cases (first_joined u.id db.members db.campaigns)) [
    | inl none_left ↦ ground (arith, unset, none_left)
    | inr ((c, m), joined) ↦ (
      ground (arith, unset, joined),
      (
        m,
        ground (arith, unset, joined, first_joined-first u.id db.members db.campaigns c m),
        ground (arith, unset, joined),
        ground (arith, unset, joined),
      ),
    )
  ]
]

-- What a scope rests on: an active web account that is a member; or, for a caller that is not a web
-- account, a key of a player with its character, or the key of an operator (or of a player without a
-- character).
pub data IsScoped (db : Db) (source : Source) (user : Option ℕ) (role : Role) (pj : Option ℕ)
    (scope : CampaignScope) : Type 0 where
  by_member :
      (u : User)
      → source ≡ Source.web_session
      → user ≡ some u.id
      → scope.user_id ≡ some u.id
      → is_active u.status ≡ true
      → Joins db u.id scope.campaign_id scope.role scope.character_id
      → IsScoped db source user role pj scope
  by_player :
      (p : Pj)
      → (source ≡ Source.api_key) ⊎ (user ≡ none)
      → role ≡ Role.player
      → pj ≡ some p.id
      → p.campaign_id ≡ some scope.campaign_id
      → scope.role ≡ CampaignRole.pj
      → scope.character_id ≡ some p.id
      → IsScoped db source user role pj scope
  by_operator :
      (c : Campaign)
      → (source ≡ Source.api_key) ⊎ (user ≡ none)
      → (role ≡ Role.gm) ⊎ (pj ≡ none)
      → get_default_campaign db ≡ some c
      → scope.campaign_id ≡ c.id
      → scope.role ≡ CampaignRole.gm
      → IsScoped db source user role pj scope
