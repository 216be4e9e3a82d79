-- ===== src/Campaigns/Names.antt =====
-- The names of the campaigns of one owner.
use ai_kaeyris.Prelude.{
  ℕ, ◌≡◌, refl, false, inl, inr, Option, none, some, List, [], ◌∷◌, arith, is_some, select, Result,
  ok, err, Option-cases, Result-cases,
}
use ai_kaeyris.Text.{Text, strip}
use ai_kaeyris.Table.{first, first-holds}
use ai_kaeyris.Models.{Db, Campaign}
use ai_kaeyris.Campaigns.{
  CampaignError, campaign_is, require_gm, clashes_with, user_has_campaign_named, create_campaign,
  check_name, renamed, described, update_campaign,
}
use ai_kaeyris.Campaigns.Apart.{
  alike, other_alike, AreNamedApart, AreNamedApart-insert, AreNamedApart-update, others_apart,
}

-- Python and the database agree on the letters of a name.
abbrev pub Agree : (Text → Text) → (Text → Text) → Type 0
Agree lower db_key = (name : Text) → db_key (strip name) ≡ lower (strip name)

module _ (lower db_key : Text → Text) (agree : Agree lower db_key) where
  no_alike :
      (owner : ℕ) (name : Text) (new : Campaign) (rows : List Campaign)
      → new.name ≡ strip name
      → new.owner_user_id ≡ owner
      → is_some (first (clashes_with lower db_key owner name none) rows) ≡ false
      → select (alike db_key new) rows ≡ []
  no_alike owner name new [] a b h = refl
  no_alike owner name new (c ∷ rows) a b h =
      ground (arith, agree name, no_alike owner name new rows a b)

  no_other :
      (owner cid k : ℕ) (name : Text) (x : Campaign) (rows : List Campaign)
      → k ≡ cid
      → x.name ≡ strip name
      → x.owner_user_id ≡ owner
      → is_some (first (clashes_with lower db_key owner name (some k)) rows) ≡ false
      → select (other_alike db_key cid x) rows ≡ []
  no_other owner cid k name x [] same a b h = refl
  no_other owner cid k name x (c ∷ rows) same a b h =
      ground (arith, agree name, no_other owner cid k name x rows same a b)

  -- A new campaign takes an identifier that no other has; then the campaigns stay named apart.
  create_campaign-AreNamedApart :
      (cid owner : ℕ) (name : Text) (description : Option Text) (db db' : Db)
      → select (campaign_is cid) db.campaigns ≡ []
      → AreNamedApart db_key db.campaigns
      → create_campaign lower db_key cid owner name description db ≡ ok db'
      → AreNamedApart db_key db'.campaigns
  unfolding create_campaign user_has_campaign_named
  create_campaign-AreNamedApart cid owner name description db db' fresh h e =
      let new : Campaign = record {
        id = cid;
        name = strip name;
        description = description;
        owner_user_id = owner;
      } in
      ground (
        arith,
        no_alike owner name new db.campaigns,
        AreNamedApart-insert db_key new db.campaigns fresh,
      )

  id_found :
      (cid : ℕ) (c0 : Campaign) (rows : List Campaign)
      → first (campaign_is cid) rows ≡ some c0
      → c0.id ≡ cid
  id_found cid c0 rows e = ground (arith, first-holds (campaign_is cid) rows {r = c0} e)

  edited : Option Text → Option (Option Text) → Campaign → Campaign
  edited name description r = described lower db_key description (renamed lower db_key name r)

  edited_same :
      (name : Option Text) (description : Option (Option Text)) (c : Campaign)
      → (edited name description c).id ≡ c.id
  unfolding edited
  edited_same name description c = ground arith

  edited_others :
      (name : Option Text) (description : Option (Option Text)) (cid : ℕ) (c0 : Campaign) (db : Db)
      → AreNamedApart db_key db.campaigns
      → first (campaign_is cid) db.campaigns ≡ some c0
      → check_name lower db_key name c0 db ≡ ok tt
      → select (other_alike db_key cid (edited name description c0)) db.campaigns ≡ []
  unfolding edited user_has_campaign_named
  edited_others none none cid c0 db h e k = others_apart db_key cid c0 db.campaigns h e
  edited_others none (some d) cid c0 db h e k = others_apart db_key cid c0 db.campaigns h e
  edited_others (some name) none cid c0 db h e k =
      no_other c0.owner_user_id cid c0.id name (edited (some name) none c0) db.campaigns
        (id_found cid c0 db.campaigns e) refl refl (ground (arith, k))
  edited_others (some name) (some d) cid c0 db h e k =
      no_other c0.owner_user_id cid c0.id name (edited (some name) (some d) c0) db.campaigns
        (id_found cid c0 db.campaigns e) refl refl (ground (arith, k))

  update_campaign-AreNamedApart :
      (cid uid : ℕ) (name : Option Text) (description : Option (Option Text)) (db db' : Db)
      → AreNamedApart db_key db.campaigns
      → update_campaign lower db_key cid uid name description db ≡ ok db'
      → AreNamedApart db_key db'.campaigns
  unfolding update_campaign edited
  update_campaign-AreNamedApart cid uid name description db db' h e =
      elim (Option-cases (first (campaign_is cid) db.campaigns)) [
        | inl absent ↦ ground (arith, absent)
        | inr (c0, found) ↦ elim (Result-cases (require_gm uid cid db)) [
          | inr (x, refused) ↦ ground (arith, found, refused)
          | inl (_, gm) ↦ elim (Result-cases (check_name lower db_key name c0 db)) [
            | inr (x, refused) ↦ ground (arith, found, gm, refused)
            | inl (_, free) ↦ ground (
              arith,
              found,
              gm,
              free,
              AreNamedApart-update db_key cid (edited name description) c0 db.campaigns
                  (edited_same name description) found
                  (edited_others name description cid c0 db h found free) h,
            )
          ]
        ]
      ]

-- The requests that name campaigns.
pub data NamingRequest : Type 0 where
  create : ℕ → ℕ → Text → Option Text → NamingRequest
  update : ℕ → ℕ → Option Text → Option (Option Text) → NamingRequest

abbrev pub HasFreshId : NamingRequest → Db → Type 0
HasFreshId (create cid owner name description) db = select (campaign_is cid) db.campaigns ≡ []
HasFreshId (update cid uid name description) db = Unit

-- Commit, or roll back.
abbrev settled : Result CampaignError Db → Db → Db
settled (ok db') db = db'
settled (err e) db = db

unfoldable pub naming_request : (Text → Text) → (Text → Text) → NamingRequest → Db → Db
naming_request lower db_key (create cid owner name description) db =
    settled (create_campaign lower db_key cid owner name description db) db
naming_request lower db_key (update cid uid name description) db =
    settled (update_campaign lower db_key cid uid name description db) db

-- As long as Python and the database agree on the lower case of names, no creation and no change of
-- a campaign gives one owner two campaigns whose names differ only in their case or in white space
-- around them, provided that a new campaign takes a fresh identifier.
pub naming_request-AreNamedApart :
    (lower db_key : Text → Text) (r : NamingRequest) (db : Db)
    → Agree lower db_key
    → HasFreshId r db
    → AreNamedApart db_key db.campaigns
    → AreNamedApart db_key (naming_request lower db_key r db).campaigns
unfolding naming_request
naming_request-AreNamedApart lower db_key (create cid owner name description) db agree fresh h =
    elim (Result-cases (create_campaign lower db_key cid owner name description db)) [
      | inl (db', e) ↦ ground (
        arith,
        e,
        create_campaign-AreNamedApart lower db_key agree cid owner name description db db' fresh h
            e,
      )
      | inr (x, e) ↦ ground (arith, e, h)
    ]
naming_request-AreNamedApart lower db_key (update cid uid name description) db agree fresh h =
    elim (Result-cases (update_campaign lower db_key cid uid name description db)) [
      | inl (db', e) ↦ ground (
        arith,
        e,
        update_campaign-AreNamedApart lower db_key agree cid uid name description db db' h e,
      )
      | inr (x, e) ↦ ground (arith, e, h)
    ]
