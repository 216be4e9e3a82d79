-- ===== src/Campaigns/Deletion.antt =====
-- The deletion of a campaign.
use ai_kaeyris.Prelude.{
  ℕ, ◌≡◌, refl, Bool, true, some, List, [], ◌∷◌, arith, is_empty, select, ◌==◌, ◌&&◌, opt_eq, ok,
  Option-cases, Result-cases, inl, inr,
}
use ai_kaeyris.Table.{first, update_where, select-delete_where}
use ai_kaeyris.Models.{Db, User, CampaignMember, CampaignRole}
use ai_kaeyris.Campaigns.{
  campaign_is, membership, is_gm, in_campaign, pj_in_campaign, require_gm, delete_campaign,
  without_default,
}

abbrev member_of : ℕ → CampaignMember → Bool
member_of cid m = m.campaign_id == cid

abbrev defaults_to : ℕ → User → Bool
defaults_to cid u = opt_eq u.default_campaign_id (some cid)

no_default :
    (cid : ℕ) (users : List User)
    → select (defaults_to cid) (update_where (defaults_to cid) without_default users) ≡ []
unfolding update_where
no_default cid [] = refl
no_default cid (u ∷ users) = ground (arith, no_default cid users)

-- Whoever deleted the campaign was a member of it in the role of GM, and nothing refers to the
-- campaign any more: no row, membership, session or character, and nobody's default.
pub record IsUnreferenced (cid uid : ℕ) (before after : Db) : Type 0 where
  pub by_gm :
      (m : CampaignMember) × (first (λ r. r.user_id == uid && r.campaign_id == cid) before.members
        ≡ some m)
      × (m.role ≡ CampaignRole.gm)
  pub row_gone : select (campaign_is cid) after.campaigns ≡ []
  pub members_gone : select (member_of cid) after.members ≡ []
  pub no_sessions : select (in_campaign cid) after.sessions ≡ []
  pub no_pjs : select (pj_in_campaign cid) after.pjs ≡ []
  pub default_of_nobody : select (defaults_to cid) after.users ≡ []

is_empty-nil : {A : Type 0} (xs : List A) → is_empty xs ≡ true → xs ≡ []
is_empty-nil [] h = refl
is_empty-nil (x ∷ xs) h = cc

gm_role : (r : CampaignRole) → is_gm r ≡ true → r ≡ CampaignRole.gm
gm_role CampaignRole.gm h = refl
gm_role CampaignRole.pj h = cc

gm_member :
    (cid uid : ℕ) (db : Db)
    → require_gm uid cid db ≡ ok tt
    → (m : CampaignMember) × (first (λ r. r.user_id == uid && r.campaign_id == cid) db.members
        ≡ some m)
      × (m.role ≡ CampaignRole.gm)
gm_member cid uid db e = elim (Option-cases (first (membership uid cid) db.members)) [
  | inl absent ↦ ground (arith, absent)
  | inr (m, found) ↦ (m, found, gm_role m.role (ground (arith, found)))
]

-- A deletion of a campaign that succeeds was asked for by a GM of it, and leaves no row, member,
-- session, character or default that refers to it.
pub delete_campaign-IsUnreferenced :
    (cid uid : ℕ) (db db' : Db)
    → delete_campaign cid uid db ≡ ok db'
    → IsUnreferenced cid uid db db'
unfolding delete_campaign
delete_campaign-IsUnreferenced cid uid db db' e =
    elim (Option-cases (first (campaign_is cid) db.campaigns)) [
      | inl absent ↦ ground (arith, absent)
      | inr (c, found) ↦ elim (Result-cases (require_gm uid cid db)) [
        | inr (x, refused) ↦ ground (arith, found, refused)
        | inl (_, gm) ↦ record {
          by_gm = gm_member cid uid db gm;
          row_gone = ground (arith, found, gm, select-delete_where (campaign_is cid) db.campaigns);
          members_gone = ground (arith, found, gm, select-delete_where (member_of cid) db.members);
          no_sessions =
              ground (arith, found, gm, is_empty-nil (select (in_campaign cid) db.sessions));
          no_pjs = ground (arith, found, gm, is_empty-nil (select (pj_in_campaign cid) db.pjs));
          default_of_nobody = ground (arith, found, gm, no_default cid db.users);
        }
      ]
    ]
