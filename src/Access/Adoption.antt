-- ===== src/Access/Adoption.antt =====
-- The users that were there before campaigns, once they are adopted into the default campaign.
use ai_kaeyris.Prelude.{
  ℕ, ◌≡◌, refl, sym, ap, subst, ◌∙◌, Bool, false, ◌&&◌, not, none, some, List, [], ◌∷◌, is_some,
  select, arith, ◌==◌, ==_refl, All, ok, inl, inr, Option-cases, Result-cases,
}
use ai_kaeyris.Text.{Text}
use ai_kaeyris.Table.{
  first, update_where, first-update_where, first-insert_absent, select-update_where_ne,
  select-insert_ne,
}
use ai_kaeyris.Models.{Db, User, Campaign, CampaignMember, CampaignRole, Session}
use ai_kaeyris.Users.{user_is}
use ai_kaeyris.Users.Keyed.{Keyed}
use ai_kaeyris.Campaigns.{membership, with_default}
use ai_kaeyris.Access.{
  campaign_role_for_system_role, ensure_user_membership, adopt_users, unplaced, adopting_owner,
  ensure_default_campaign, adopt_existing_users_into_default_campaign,
}

-- A row of the user that lacks a default campaign.
abbrev pub lacks_default : ℕ → User → Bool
lacks_default uid r = r.id == uid && not (is_some r.default_campaign_id)

abbrev pub elsewhere : ℕ → CampaignMember → Bool
elsewhere cid m = not (m.campaign_id == cid)

-- What one `ensure_user_membership` does.
record IsEnsured (u : User) (cid : ℕ) (role : CampaignRole) (before after : Db) : Type 0 where
  m : CampaignMember
  joined : first (membership u.id cid) after.members ≡ some m
  role_set : m.role ≡ role
  others_kept :
      (uid : ℕ)
      → (u.id == uid) ≡ false
      → first (membership uid cid) after.members ≡ first (membership uid cid) before.members
  elsewhere_kept : select (elsewhere cid) after.members ≡ select (elsewhere cid) before.members
  users_set : after.users ≡ update_where (user_is u.id) (with_default cid) before.users
  sessions_kept : after.sessions ≡ before.sessions

ensure_user_membership-IsEnsured :
    (u : User) (cid : ℕ) (role : CampaignRole) (db db' : Db) (m : CampaignMember)
    → ensure_user_membership u cid (some role) none db ≡ ok (m, db')
    → IsEnsured u cid role db db'
unfolding ensure_user_membership
ensure_user_membership-IsEnsured u cid role db db' m e =
    elim (Option-cases (first (membership u.id cid) db.members)) [
      | inl absent ↦ record {
        m = m;
        joined = ground (
          arith,
          absent,
          first-insert_absent (membership u.id cid) m db.members,
          ==_refl u.id,
          ==_refl cid,
        );
        role_set = ground (arith, absent);
        others_kept =
            λ uid apart. ground (arith, absent, select-insert_ne (membership uid cid) m db.members);
        elsewhere_kept =
            ground (arith, absent, select-insert_ne (elsewhere cid) m db.members, ==_refl cid);
        users_set = ground (arith, absent);
        sessions_kept = ground (arith, absent);
      }
      | inr (old, present) ↦ record {
        m = m;
        joined = ground (
          arith,
          present,
          first-update_where (membership u.id cid) (λ r. record r { role = role }) db.members
              (λ r h. h),
        );
        role_set = ground (arith, present);
        others_kept = λ uid apart. ground (
          arith,
          present,
          select-update_where_ne (membership uid cid) (membership u.id cid)
              (λ r. record r { role = role }) db.members (λ r h. ground arith)
              (λ r h. ground arith),
        );
        elsewhere_kept = ground (
          arith,
          present,
          select-update_where_ne (elsewhere cid) (membership u.id cid)
              (λ r. record r { role = role }) db.members (λ r h. ground arith)
              (λ r h. ground arith),
        );
        users_set = ground (arith, present);
        sessions_kept = ground (arith, present);
      }
    ]

-- The user of the step has a default after it, and no user loses one.
defaults_set :
    (uid cid : ℕ) (rows : List User)
    → select (lacks_default uid) (update_where (user_is uid) (with_default cid) rows) ≡ []
unfolding update_where
defaults_set uid cid [] = refl
defaults_set uid cid (r ∷ rows) = ground (arith, defaults_set uid cid rows)

defaults_kept :
    (uid vid cid : ℕ) (rows : List User)
    → select (lacks_default uid) rows ≡ []
    → select (lacks_default uid) (update_where (user_is vid) (with_default cid) rows) ≡ []
unfolding update_where
defaults_kept uid vid cid [] h = refl
defaults_kept uid vid cid (r ∷ rows) h = ground (arith, defaults_kept uid vid cid rows)

-- The user is a member of the campaign in the role of its account, and has a default campaign.
abbrev pub IsAdopted : ℕ → Db → User → Type 0
IsAdopted cid db u =
    (m : CampaignMember) × (first (membership u.id cid) db.members ≡ some m)
    × (m.role ≡ campaign_role_for_system_role u.system_role)
    × (select (lacks_default u.id) db.users ≡ [])

IsAdopted-step :
    (u : User) (cid : ℕ) (db db' : Db)
    → IsEnsured u cid (campaign_role_for_system_role u.system_role) db db'
    → IsAdopted cid db' u
IsAdopted-step u cid db db' h =
    (h.m, h.joined, h.role_set, rw h.users_set (defaults_set u.id cid db.users))

IsAdopted-keep :
    (u v : User) (cid : ℕ) (role : CampaignRole) (db db' : Db)
    → IsEnsured v cid role db db'
    → (v.id == u.id) ≡ false
    → IsAdopted cid db u
    → IsAdopted cid db' u
IsAdopted-keep u v cid role db db' h apart (m, joined, role_set, defaults) = (
  m,
  h.others_kept u.id apart ∙ joined,
  role_set,
  rw h.users_set (defaults_kept u.id v.id cid db.users defaults),
)

adopt_users-keep :
    (u : User) (cid : ℕ) (users : List User) (db db' : Db)
    → select (user_is u.id) users ≡ []
    → adopt_users cid users db ≡ ok db'
    → IsAdopted cid db u
    → IsAdopted cid db' u
unfolding adopt_users
adopt_users-keep u cid [] db db' apart e h =
    subst (λ d. IsAdopted cid d u) {x = db} {y = db'} (ground arith) h
adopt_users-keep u cid (v ∷ users) db db' apart e h =
    elim (Result-cases
      (ensure_user_membership v cid (some (campaign_role_for_system_role v.system_role)) none db)) [
        | inr (x, refused) ↦ ground (arith, refused)
        | inl ((m, next), done) ↦
            adopt_users-keep u cid users next db' (ground arith) (ground (arith, done)) (
              IsAdopted-keep u v cid (campaign_role_for_system_role v.system_role) db next
                (ensure_user_membership-IsEnsured v cid
                  (campaign_role_for_system_role v.system_role) db next m done)
                (ground arith) h)
      ]

adopt_users-All :
    (cid : ℕ) (users : List User) (db db' : Db)
    → Keyed users
    → adopt_users cid users db ≡ ok db'
    → All (IsAdopted cid db') users
unfolding adopt_users
adopt_users-All cid [] db db' keyed e = tt
adopt_users-All cid (u ∷ users) db db' (fresh, keyed) e =
    elim (Result-cases
      (ensure_user_membership u cid (some (campaign_role_for_system_role u.system_role)) none db)) [
        | inr (x, refused) ↦ ground (arith, refused)
        | inl ((m, next), done) ↦ (
          adopt_users-keep u cid users next db' fresh (ground (arith, done)) (
              IsAdopted-step u cid db next (
                ensure_user_membership-IsEnsured u cid (campaign_role_for_system_role u.system_role)
                  db next m done)),
          adopt_users-All cid users next db' keyed (ground (arith, done)),
        )
      ]

adopt_users-elsewhere :
    (cid : ℕ) (users : List User) (db db' : Db)
    → adopt_users cid users db ≡ ok db'
    → select (elsewhere cid) db'.members ≡ select (elsewhere cid) db.members
unfolding adopt_users
adopt_users-elsewhere cid [] db db' e = ground arith
adopt_users-elsewhere cid (u ∷ users) db db' e =
    elim (Result-cases
      (ensure_user_membership u cid (some (campaign_role_for_system_role u.system_role)) none db)) [
        | inr (x, refused) ↦ ground (arith, refused)
        | inl ((m, next), done) ↦
            adopt_users-elsewhere cid users next db' (ground (arith, done))
            ∙ (ensure_user_membership-IsEnsured u cid (campaign_role_for_system_role u.system_role)
                db next m done).elsewhere_kept
      ]

all_placed :
    (cid : ℕ) (rows : List Session)
    → select unplaced (update_where unplaced (λ s. record s { campaign_id = some cid }) rows) ≡ []
unfolding update_where
all_placed cid [] = refl
all_placed cid (s ∷ rows) = ground (arith, all_placed cid rows)

ensure_default_campaign-users :
    (cid owner : ℕ) (name : Text) (db : Db)
    → ((ensure_default_campaign cid owner name db).1.users ≡ db.users)
      × ((ensure_default_campaign cid owner name db).1.members ≡ db.members)
unfolding ensure_default_campaign
ensure_default_campaign-users cid owner name db = ground arith

pub record IsAdoption (c : Campaign) (before after : Db) : Type 0 where
  pub everyone : All (IsAdopted c.id after) before.users
  pub placed : select unplaced after.sessions ≡ []
  pub elsewhere_kept :
      select (elsewhere c.id) after.members ≡ select (elsewhere c.id) before.members

-- Once the users are adopted into the campaign `c`, each of them is a member of it, in the role that
-- its account gives (administrators are game masters), and has a default campaign; every session
-- has a campaign; and the memberships in other campaigns are as they were. The identifiers of the
-- accounts are distinct.
pub adopt_existing_users-IsAdoption :
    (cid : ℕ) (name : Text) (db db' : Db) (c : Campaign)
    → Keyed db.users
    → adopt_existing_users_into_default_campaign cid name db ≡ ok (some c, db')
    → IsAdoption c db db'
unfolding adopt_existing_users_into_default_campaign
adopt_existing_users-IsAdoption cid name db db' c keyed e =
    elim (Option-cases (adopting_owner db)) [
      | inl nobody ↦ ground (arith, nobody)
      | inr (owner, found) ↦
          let start = ensure_default_campaign cid owner.id name db in
          let (same_users, same_members) = ensure_default_campaign-users cid owner.id name db in
          elim (Result-cases (adopt_users start.0.id start.1.users start.1)) [
            | inr (x, refused) ↦ ground (arith, found, refused)
            | inl (after, done) ↦
                subst (λ d. IsAdoption c db d) (ground (arith, found, done))
                  (subst
                    (λ k. IsAdoption k db (record after {
                      sessions =
                          update_where unplaced (λ s. record s { campaign_id = some k.id })
                            after.sessions;
                    }))
                    {x = start.0} {y = c} (ground (arith, found, done))
                    (record {
                      everyone = subst (All (IsAdopted start.0.id after)) same_users (
                          adopt_users-All start.0.id start.1.users start.1 after
                            (subst Keyed (sym same_users) keyed) done);
                      placed = all_placed start.0.id after.sessions;
                      elsewhere_kept =
                          adopt_users-elsewhere start.0.id start.1.users start.1 after done
                          ∙ ap (select (elsewhere start.0.id)) same_members;
                    }))
          ]
    ]
