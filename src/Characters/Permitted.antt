-- ===== src/Characters/Permitted.antt =====
-- Who may create a character, and what a created character is good for.
use ai_kaeyris.Prelude.{
  ℕ, ◌≡◌, refl, Bool, true, false, Option, none, some, List, [], ◌∷◌, any, select, arith, ==_refl,
  ok, inl, inr, Option-cases, Result-cases,
}
use ai_kaeyris.Text.{Text}
use ai_kaeyris.Text.Equality.{text_eq_refl}
use ai_kaeyris.Table.{first, insert, select-insert}
use ai_kaeyris.Models.{Db, Pj, CampaignMember}
use ai_kaeyris.Campaigns.{membership, is_gm}
use ai_kaeyris.Access.{require_campaign_membership, require_campaign_gm}
use ai_kaeyris.Sessions.{owned_pj, all_owned}
use ai_kaeyris.Characters.{pj_named, insert_pj, requested_campaign, create_pj}

-- A web account is game master of the campaign; a key needs no membership.
abbrev pub ByGm : Option ℕ → ℕ → Db → Type 0
ByGm none cid db = Unit
ByGm (some uid) cid db =
    (m : CampaignMember) × (first (membership uid cid) db.members ≡ some m) × (is_gm m.role ≡ true)

requested_campaign-ByGm :
    (requester campaign : Option ℕ) (db : Db) (cid : ℕ)
    → requested_campaign requester campaign db ≡ ok cid
    → ByGm requester cid db
unfolding requested_campaign require_campaign_gm require_campaign_membership
requested_campaign-ByGm none campaign db cid e = tt
requested_campaign-ByGm (some uid) campaign db cid e =
    elim (Option-cases (first (membership uid cid) db.members)) [
      | inl absent ↦ ground (arith, absent)
      | inr (m, found) ↦ (m, found, ground (arith, found))
    ]

none_selected {ℓ} :
    {A : Type ℓ} (p : A → Bool) (rows : List A) → any p rows ≡ false → select p rows ≡ []
none_selected p [] h = refl
none_selected p (r ∷ rows) h = ground (arith, none_selected p rows)

any-insert {ℓ} :
    {A : Type ℓ} (p : A → Bool) (r : A) (rows : List A) → p r ≡ true → any p (insert r rows) ≡ true
any-insert p r [] h = ground arith
any-insert p r (a ∷ rows) h = ground (arith, any-insert p r rows)

-- The new character is in the campaign `cid`.
pub record IsCreated (requester : Option ℕ) (gm cid : ℕ) (p : Pj) (before after : Db) : Type 0 where
  pub by_gm : ByGm requester cid before
  pub only_one : select (pj_named cid p.name) after.pjs ≡ p ∷ []
  pub accepted : all_owned gm (some cid) (p.id ∷ []) after ≡ true

-- A web account that has created a character is game master of a campaign, and the character is in
-- that campaign. It is the only one there of its name, and the lists of players and the speaker
-- mappings of the campaign's sessions accept it from the key of its owner.
pub create_pj-IsCreated :
    (id : ℕ) (name : Text) (gm : ℕ) (user campaign requester : Option ℕ) (db db' : Db) (p : Pj)
    → create_pj id name gm user campaign requester db ≡ ok (p, db')
    → (cid : ℕ) × (p.campaign_id ≡ some cid) × IsCreated requester gm cid p db db'
unfolding create_pj insert_pj all_owned
create_pj-IsCreated id name gm user campaign requester db db' p e =
    elim (Result-cases (requested_campaign requester campaign db)) [
      | inr (x, refused) ↦ ground (arith, refused)
      | inl (cid, asked) ↦ (
        cid,
        ground (arith, asked),
        record {
          by_gm = requested_campaign-ByGm requester campaign db cid asked;
          only_one = ground (
            arith,
            asked,
            text_eq_refl name,
            ==_refl cid,
            none_selected (pj_named cid name) db.pjs,
            select-insert (pj_named cid name) p db.pjs,
          );
          accepted = ground (
            arith,
            asked,
            ==_refl cid,
            ==_refl id,
            ==_refl gm,
            any-insert (owned_pj gm (some cid) id) p db.pjs,
          );
        },
      )
    ]
