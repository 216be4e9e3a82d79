-- ===== src/Table.antt =====
-- A database table is the list of its rows in the order of their insertion, and the statements
-- that the repositories issue: SELECT, UPDATE, DELETE with a WHERE test, and INSERT.
-- ORDER BY created_at is the order of the table.
use ai_kaeyris.Prelude.{
  ◌≡◌, refl, ap, ◌∙◌, Bool, true, false, not, Option, none, some, List, [], ◌∷◌, ◌++◌, map, select,
  head?, if◌then◌else◌, arith, select-append, append-nil,
}

module _ {ℓ} {A : Type ℓ} where
  -- `scalar(select(...).where(p))`: the first row that passes.
  abbrev pub first : (A → Bool) → List A → Option A
  first p rows = head? (select p rows)

  unfoldable pub update_where : (A → Bool) → (A → A) → List A → List A
  update_where p f [] = []
  update_where p f (r ∷ rows) = (if p r then f r else r) ∷ update_where p f rows

  unfoldable pub delete_where : (A → Bool) → List A → List A
  delete_where p = select (λ r. not (p r))

  abbrev pub insert : A → List A → List A
  insert r rows = rows ++ r ∷ []

module _ {ℓ} {A : Type ℓ} where
  -- An UPDATE changes the rows of its test, and leaves them in place.
  pub select-update_where :
      (p : A → Bool) (f : A → A) (rows : List A)
      → ((r : A) → p r ≡ true → p (f r) ≡ true)
      → select p (update_where p f rows) ≡ map f (select p rows)
  unfolding update_where
  select-update_where p f [] keep = refl
  select-update_where p f (r ∷ rows) keep =
      ground (arith, select-update_where p f rows keep, keep r)

  -- An UPDATE is not seen by a test that no changed row passes, before or after.
  pub select-update_where_ne :
      (q p : A → Bool) (f : A → A) (rows : List A)
      → ((r : A) → p r ≡ true → q r ≡ false)
      → ((r : A) → p r ≡ true → q (f r) ≡ false)
      → select q (update_where p f rows) ≡ select q rows
  unfolding update_where
  select-update_where_ne q p f [] before after = refl
  select-update_where_ne q p f (r ∷ rows) before after =
      ground (arith, select-update_where_ne q p f rows before after, before r, after r)

  pub select-delete_where : (p : A → Bool) (rows : List A) → select p (delete_where p rows) ≡ []
  unfolding delete_where
  select-delete_where p [] = refl
  select-delete_where p (r ∷ rows) = ground (arith, select-delete_where p rows)

  pub select-delete_where_ne :
      (q p : A → Bool) (rows : List A)
      → ((r : A) → p r ≡ true → q r ≡ false)
      → select q (delete_where p rows) ≡ select q rows
  unfolding delete_where
  select-delete_where_ne q p [] apart = refl
  select-delete_where_ne q p (r ∷ rows) apart =
      ground (arith, select-delete_where_ne q p rows apart, apart r)

  -- An INSERT comes last among the rows that pass, or is not seen.
  pub select-insert :
      (p : A → Bool) (r : A) (rows : List A)
      → p r ≡ true
      → select p (insert r rows) ≡ select p rows ++ r ∷ []
  select-insert p r rows h = rw (select-append p rows (r ∷ []), h)

  pub select-insert_ne :
      (p : A → Bool) (r : A) (rows : List A)
      → p r ≡ false
      → select p (insert r rows) ≡ select p rows
  select-insert_ne p r rows h = rw (select-append p rows (r ∷ []), h) (append-nil _)

module _ {ℓ} {A : Type ℓ} where
  abbrev pub apply_first : (A → A) → Option A → Option A
  apply_first f none = none
  apply_first f (some a) = some (f a)

  head?-map : (f : A → A) (rows : List A) → head? (map f rows) ≡ apply_first f (head? rows)
  head?-map f [] = refl
  head?-map f (r ∷ rows) = refl

  pub first-update_where :
      (p : A → Bool) (f : A → A) (rows : List A)
      → ((r : A) → p r ≡ true → p (f r) ≡ true)
      → first p (update_where p f rows) ≡ apply_first f (first p rows)
  first-update_where p f rows keep =
      ap head? (select-update_where p f rows keep) ∙ head?-map f (select p rows)

module _ {ℓ} {A : Type ℓ} where
  -- What a SELECT finds passes its test.
  pub first-holds : (p : A → Bool) (rows : List A) {r : A} → first p rows ≡ some r → p r ≡ true
  first-holds p [] h = cc
  first-holds p (a ∷ rows) {r} h = ground (arith, first-holds p rows {r = r})

module _ {ℓ} {A : Type ℓ} where
  -- A row that is inserted is found, unless an older one is.
  pub first-insert_absent :
      (p : A → Bool) (r : A) (rows : List A)
      → first p rows ≡ none
      → p r ≡ true
      → first p (insert r rows) ≡ some r
  first-insert_absent p r [] absent h = ground arith
  first-insert_absent p r (a ∷ rows) absent h = ground (arith, first-insert_absent p r rows)

  pub first-insert_found :
      (p : A → Bool) (r : A) (rows : List A) {a : A}
      → first p rows ≡ some a
      → first p (insert r rows) ≡ some a
  first-insert_found p r [] h = cc
  first-insert_found p r (b ∷ rows) {a} h = ground (arith, first-insert_found p r rows {a = a})

module _ {ℓ} {A : Type ℓ} where
  -- An UPDATE seen by a narrower test that the change keeps.
  pub first-update_where_within :
      (q p : A → Bool) (f : A → A) (rows : List A)
      → ((r : A) → q (f r) ≡ q r)
      → ((r : A) → q r ≡ true → p r ≡ true)
      → first q (update_where p f rows) ≡ apply_first f (first q rows)
  unfolding update_where
  first-update_where_within q p f [] keep within = refl
  first-update_where_within q p f (r ∷ rows) keep within =
      ground (arith, first-update_where_within q p f rows keep within, keep r, within r)
