-- ===== src/Markdown/Categories.antt =====
-- The rows of the elements card, as its export groups them by category.
use ai_kaeyris.Prelude.{
  ◌≡◌, refl, sym, subst, ◌∙◌, Bool, true, false, List, [], ◌∷◌, ◌++◌, any, select, All, arith,
  append_assoc, append-nil, inl, inr, Bool-cases,
}
use ai_kaeyris.Text.{Text, text_eq}
use ai_kaeyris.Text.Equality.{text_eq_refl, text_eq_sym, text_eq-eq}
use ai_kaeyris.Table.{insert, select-insert, select-insert_ne}
use ai_kaeyris.Models.{Element}
use ai_kaeyris.Markdown.{Groups, add_row, group_onto, group_by_category}

abbrev pub in_category : Text → Element → Bool
in_category k r = text_eq r.category k

abbrev pub has_category : Text → Groups → Bool
has_category k = any (λ g. text_eq k g.0)

-- Each group holds the rows of its category, in order; no category comes twice; none is left out.
abbrev pub Each : List Element → Groups → Type 0
Each rows = All (λ g. g.1 ≡ select (in_category g.0) rows)

abbrev pub AreDistinct : Groups → Type 0
AreDistinct [] = Unit
AreDistinct (g ∷ groups) = (has_category g.0 groups ≡ false) × AreDistinct groups

abbrev pub Covers : Groups → List Element → Type 0
Covers groups = All (λ (r : Element). has_category r.category groups ≡ true)

module _ (row : Element) where
  no_rows :
      (k : Text) (groups : Groups) (done : List Element)
      → Covers groups done
      → has_category k groups ≡ false
      → select (in_category k) done ≡ []
  no_rows k groups [] covered absent = refl
  no_rows k groups (r ∷ done) (c, covered) absent = elim (Bool-cases (text_eq r.category k)) [
    | inr other ↦ rw other (no_rows k groups done covered absent)
    | inl same ↦
        ground (
          arith,
          absent,
          subst (λ q. has_category q groups ≡ true) (text_eq-eq r.category k same) c,
        )
  ]

  insert-Each :
      (done : List Element) (k : Text) (groups : Groups)
      → text_eq row.category k ≡ true
      → has_category k groups ≡ false
      → Each done groups
      → Each (insert row done) groups
  insert-Each done k [] same apart each = tt
  insert-Each done k ((l, rows) ∷ groups) same apart (e, each) =
      let is = text_eq-eq row.category k same in
      (
        e ∙ sym (select-insert_ne (in_category l) row done (ground (arith, is, apart))),
        insert-Each done k groups same (ground (arith, apart)) each,
      )

  add_row-Each :
      (done : List Element) (groups : Groups)
      → Each done groups
      → AreDistinct groups
      → (has_category row.category groups ≡ false → select (in_category row.category) done ≡ [])
      → Each (insert row done) (add_row row groups)
  unfolding add_row
  add_row-Each done [] each distinct fresh = (
    sym (
        select-insert (in_category row.category) row done (text_eq_refl row.category)
        ∙ rw (fresh refl) refl),
    tt,
  )
  add_row-Each done ((k, rows) ∷ groups) (e, each) (apart, distinct) fresh =
      elim (Bool-cases (text_eq row.category k)) [
        | inl same ↦ rw same (
          rw e (sym (select-insert (in_category k) row done same)),
          insert-Each done k groups same apart each,
        )
        | inr other ↦ rw other (
          e ∙ sym (select-insert_ne (in_category k) row done other),
          add_row-Each done groups each distinct (λ h. fresh (ground (arith, other, h))),
        )
      ]

  add_row-has :
      (k : Text) (groups : Groups)
      → has_category k groups ≡ true
      → has_category k (add_row row groups) ≡ true
  unfolding add_row
  add_row-has k [] h = cc
  add_row-has k ((l, rows) ∷ groups) h = ground (arith, add_row-has k groups)

  add_row-has_own : (groups : Groups) → has_category row.category (add_row row groups) ≡ true
  unfolding add_row
  add_row-has_own [] = ground (arith, text_eq_refl row.category)
  add_row-has_own ((l, rows) ∷ groups) = ground (arith, add_row-has_own groups)

  -- No other category comes in.
  add_row-lacks :
      (k : Text) (groups : Groups)
      → has_category k groups ≡ false
      → text_eq k row.category ≡ false
      → has_category k (add_row row groups) ≡ false
  unfolding add_row
  add_row-lacks k [] h apart = ground arith
  add_row-lacks k ((l, rows) ∷ groups) h apart = ground (arith, add_row-lacks k groups)

  add_row-AreDistinct : (groups : Groups) → AreDistinct groups → AreDistinct (add_row row groups)
  unfolding add_row
  add_row-AreDistinct [] h = (refl, tt)
  add_row-AreDistinct ((k, rows) ∷ groups) (apart, h) = elim (Bool-cases (text_eq row.category k)) [
    | inl same ↦ rw same (apart, h)
    | inr other ↦ rw other (
      add_row-lacks k groups apart (text_eq_sym k row.category ∙ other),
      add_row-AreDistinct groups h,
    )
  ]

  add_row-Covers :
      (done : List Element) (groups : Groups)
      → Covers groups done
      → Covers (add_row row groups) (insert row done)
  add_row-Covers [] groups covered = (add_row-has_own groups, tt)
  add_row-Covers (r ∷ done) groups (c, covered) =
      (add_row-has r.category groups c, add_row-Covers done groups covered)

-- The groups of the rows.
pub record AreGroups (rows : List Element) (groups : Groups) : Type 0 where
  pub each : Each rows groups
  pub distinct : AreDistinct groups
  pub covers : Covers groups rows

group_onto-AreGroups :
    (done rows : List Element) (groups : Groups)
    → AreGroups done groups
    → AreGroups (done ++ rows) (group_onto groups rows)
unfolding group_onto
group_onto-AreGroups done [] groups h = subst (λ r. AreGroups r groups) (sym (append-nil done)) h
group_onto-AreGroups done (row ∷ rows) groups h =
    subst (λ r. AreGroups r (group_onto (add_row row groups) rows))
      (append_assoc done (row ∷ []) rows)
      (group_onto-AreGroups (insert row done) rows (add_row row groups) (record {
        each =
            add_row-Each row done groups h.each h.distinct
              (no_rows row row.category groups done h.covers);
        distinct = add_row-AreDistinct row groups h.distinct;
        covers = add_row-Covers row done groups h.covers;
      }))

-- The export of the elements card has each category once, under it exactly the rows of that category
-- in the order of the card, and leaves no row out.
pub group_by_category-AreGroups : (rows : List Element) → AreGroups rows (group_by_category rows)
unfolding group_by_category
group_by_category-AreGroups rows =
    group_onto-AreGroups [] rows [] (record { each = tt; distinct = tt; covers = tt })
