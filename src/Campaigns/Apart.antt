-- ===== src/Campaigns/Apart.antt =====
-- Campaigns of which no two have one owner and one name, under an insertion and a change of one.
use ai_kaeyris.Prelude.{
  ℕ, ◌≡◌, refl, Bool, false, ◌&&◌, not, some, List, [], ◌∷◌, arith, select, ◌==◌,
}
use ai_kaeyris.Text.{Text, text_eq}
use ai_kaeyris.Text.Equality.{text_eq_sym}
use ai_kaeyris.Table.{first, update_where, insert}
use ai_kaeyris.Models.{Campaign}
use ai_kaeyris.Campaigns.{campaign_is}

module _ (db_key : Text → Text) where
  -- The two campaigns are of one owner and one name, to the database.
  abbrev pub alike : Campaign → Campaign → Bool
  alike c d = d.owner_user_id == c.owner_user_id && text_eq (db_key d.name) (db_key c.name)

  -- The identifiers are a primary key, and no two campaigns are alike.
  abbrev pub AreNamedApart : List Campaign → Type 0
  AreNamedApart [] = Unit
  AreNamedApart (c ∷ rows) =
      (select (campaign_is c.id) rows ≡ []) × (select (alike c) rows ≡ []) × AreNamedApart rows

  pub alike_sym : (c d : Campaign) → alike c d ≡ alike d c
  alike_sym c d = ground (arith, text_eq_sym (db_key c.name) (db_key d.name))

  insert_none :
      (p : Campaign → Bool) (new : Campaign) (rows : List Campaign)
      → p new ≡ false
      → select p rows ≡ []
      → select p (insert new rows) ≡ []
  insert_none p new [] e h = ground arith
  insert_none p new (c ∷ rows) e h = ground (arith, insert_none p new rows)

  pub AreNamedApart-insert :
      (new : Campaign) (rows : List Campaign)
      → select (campaign_is new.id) rows ≡ []
      → select (alike new) rows ≡ []
      → AreNamedApart rows
      → AreNamedApart (insert new rows)
  AreNamedApart-insert new [] fresh apart h = (refl, refl, tt)
  AreNamedApart-insert new (c ∷ rows) fresh apart h = (
    insert_none (campaign_is c.id) new rows (ground arith) h.0,
    insert_none (alike c) new rows (ground (arith, alike_sym c new)) h.1,
    AreNamedApart-insert new rows (ground arith) (ground arith) h.2,
  )

  update_absent :
      (cid : ℕ) (f : Campaign → Campaign) (rows : List Campaign)
      → select (campaign_is cid) rows ≡ []
      → update_where (campaign_is cid) f rows ≡ rows
  unfolding update_where
  update_absent cid f [] h = refl
  update_absent cid f (c ∷ rows) h = ground (arith, update_absent cid f rows)

  absent_update :
      (k cid : ℕ) (f : Campaign → Campaign) (rows : List Campaign)
      → ((c : Campaign) → (f c).id ≡ c.id)
      → select (campaign_is k) rows ≡ []
      → select (campaign_is k) (update_where (campaign_is cid) f rows) ≡ []
  unfolding update_where
  absent_update k cid f [] same h = refl
  absent_update k cid f (c ∷ rows) same h = ground (arith, same c, absent_update k cid f rows same)

  -- The one changed row is unlike `r`, and the others are as they were.
  unlike_update :
      (cid : ℕ) (f : Campaign → Campaign) (r c0 : Campaign) (rows : List Campaign)
      → AreNamedApart rows
      → first (campaign_is cid) rows ≡ some c0
      → alike r (f c0) ≡ false
      → select (alike r) rows ≡ []
      → select (alike r) (update_where (campaign_is cid) f rows) ≡ []
  unfolding update_where
  unlike_update cid f r c0 [] apart e unlike h = refl
  unlike_update cid f r c0 (c ∷ rows) apart e unlike h =
      ground (arith, apart, unlike_update cid f r c0 rows apart.2, update_absent cid f rows)

  -- The rows other than that of the identifier.
  abbrev pub other_alike : ℕ → Campaign → Campaign → Bool
  other_alike cid x d = alike x d && not (d.id == cid)

  alone :
      (cid : ℕ) (x : Campaign) (rows : List Campaign)
      → select (other_alike cid x) rows ≡ []
      → select (campaign_is cid) rows ≡ []
      → select (alike x) rows ≡ []
  alone cid x [] h k = refl
  alone cid x (c ∷ rows) h k = ground (arith, alone cid x rows)

  pub AreNamedApart-update :
      (cid : ℕ) (f : Campaign → Campaign) (c0 : Campaign) (rows : List Campaign)
      → ((c : Campaign) → (f c).id ≡ c.id)
      → first (campaign_is cid) rows ≡ some c0
      → select (other_alike cid (f c0)) rows ≡ []
      → AreNamedApart rows
      → AreNamedApart (update_where (campaign_is cid) f rows)
  unfolding update_where
  AreNamedApart-update cid f c0 [] same e others h = tt
  AreNamedApart-update cid f c0 (c ∷ rows) same e others h = ground (
    arith,
    h,
    same c,
    AreNamedApart-update cid f c0 rows same,
    alone cid (f c0) rows,
    update_absent cid f rows,
    absent_update c.id cid f rows same,
    unlike_update cid f c c0 rows h.2,
    alike_sym c (f c0),
  )

  found_unlike :
      (cid : ℕ) (c c0 : Campaign) (rows : List Campaign)
      → first (campaign_is cid) rows ≡ some c0
      → select (alike c) rows ≡ []
      → alike c c0 ≡ false
  found_unlike cid c c0 [] e h = cc
  found_unlike cid c c0 (d ∷ rows) e h = ground (arith, found_unlike cid c c0 rows)

  fewer_alike :
      (cid : ℕ) (x : Campaign) (rows : List Campaign)
      → select (alike x) rows ≡ []
      → select (other_alike cid x) rows ≡ []
  fewer_alike cid x [] h = refl
  fewer_alike cid x (d ∷ rows) h = ground (arith, fewer_alike cid x rows)

  pub others_apart :
      (cid : ℕ) (c0 : Campaign) (rows : List Campaign)
      → AreNamedApart rows
      → first (campaign_is cid) rows ≡ some c0
      → select (other_alike cid c0) rows ≡ []
  others_apart cid c0 [] h e = refl
  others_apart cid c0 (c ∷ rows) h e = ground (
    arith,
    h,
    others_apart cid c0 rows h.2,
    fewer_alike cid c0 rows,
    found_unlike cid c c0 rows,
    alike_sym c c0,
  )
