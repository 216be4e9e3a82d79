-- ===== src/Elements/Canonical.antt =====
-- The elements of an artifact, read more than once.
use ai_kaeyris.Prelude.{
  ◌≡◌, refl, ap, ap₂, ◌∙◌, false, Option, none, some, List, [], ◌∷◌, ◌++◌, is_empty, All, arith,
  subst, Option-cases, inl, inr,
}
use ai_kaeyris.Text.{Text, codes, strip, lstrip, rstrip, is_space, text_eq}
use ai_kaeyris.Text.Strip.{strip-strip}
use ai_kaeyris.Models.{Element}
use ai_kaeyris.Elements.{
  Json, string, other, array, object, JsonList, nil, cons, Fields, get, str_get, or_default,
  named_row, clean_row, bucket_rows, items, bucket, append_opt, flatten_elements, category_of,
  tagged_rows, by_shape, elements_from_content, entry_of, entries_of, content_of,
}

-- A row without white space around its texts, with a category and a name.
pub record IsClean (e : Element) : Type 0 where
  pub category_stripped : strip e.category ≡ e.category
  pub category_given : is_empty e.category ≡ false
  pub name_stripped : strip e.name ≡ e.name
  pub name_given : is_empty e.name ≡ false
  pub description_stripped : strip e.description ≡ e.description

All-append : (xs ys : List Element) → All IsClean xs → All IsClean ys → All IsClean (xs ++ ys)
All-append [] ys h k = k
All-append (x ∷ xs) ys h k = (h.0, All-append xs ys h.1 k)

module _ (str_of : Json → Text) where
  or_default_stripped : (t : Text) → strip t ≡ t → strip (or_default str_of t) ≡ or_default str_of t
  unfolding strip lstrip rstrip is_space
  or_default_stripped [] h = refl
  or_default_stripped (c ∷ t) h = h

  or_default_given : (t : Text) → is_empty (or_default str_of t) ≡ false
  or_default_given [] = refl
  or_default_given (c ∷ t) = refl

  named_row-IsClean :
      (category name : Text) (fields : Fields)
      → strip name ≡ name
      → All IsClean (named_row str_of category name fields)
  named_row-IsClean category [] fields h = tt
  named_row-IsClean category (c ∷ name) fields h = (
    record {
      category_stripped = or_default_stripped (strip category) (strip-strip category);
      category_given = or_default_given (strip category);
      name_stripped = h;
      name_given = refl;
      description_stripped = strip-strip (str_get str_of (codes "description") fields);
    },
    tt,
  )

  clean_row-IsClean :
      (category : Text) (entry : Json) → All IsClean (clean_row str_of category entry)
  unfolding clean_row
  clean_row-IsClean category (string t) = tt
  clean_row-IsClean category (other b t) = tt
  clean_row-IsClean category (array ts) = tt
  clean_row-IsClean category (object fields) =
      named_row-IsClean category (strip (str_get str_of (codes "name") fields)) fields
        (strip-strip (str_get str_of (codes "name") fields))

  bucket_rows-IsClean :
      (label : Text) (entries : JsonList) → All IsClean (bucket_rows str_of label entries)
  unfolding bucket_rows
  bucket_rows-IsClean label nil = tt
  bucket_rows-IsClean label (cons entry entries) =
      All-append (clean_row str_of label entry) (bucket_rows str_of label entries)
        (clean_row-IsClean label entry) (bucket_rows-IsClean label entries)

  tagged_rows-IsClean : (entries : JsonList) → All IsClean (tagged_rows str_of entries)
  unfolding tagged_rows
  tagged_rows-IsClean nil = tt
  tagged_rows-IsClean (cons entry entries) =
      All-append (clean_row str_of (category_of str_of entry) entry) (tagged_rows str_of entries)
        (clean_row-IsClean (category_of str_of entry) entry) (tagged_rows-IsClean entries)

  abbrev pub AllClean : Option (List Element) → Type 0
  AllClean none = Unit
  AllClean (some rows) = All IsClean rows

  bucket-AllClean :
      (key label : Text) (buckets : Fields) → AllClean (bucket str_of key label buckets)
  unfolding bucket
  bucket-AllClean key label buckets = elim (Option-cases (items str_of (get key buckets))) [
    | inl e ↦ ground (arith, e)
    | inr (entries, e) ↦ ground (arith, e, bucket_rows-IsClean label entries)
  ]

  append_opt-AllClean :
      (xs ys : Option (List Element))
      → AllClean xs
      → AllClean ys
      → AllClean (append_opt str_of xs ys)
  append_opt-AllClean none ys h k = tt
  append_opt-AllClean (some xs) none h k = tt
  append_opt-AllClean (some xs) (some ys) h k = All-append xs ys h k

  pub flatten_elements-AllClean : (buckets : Fields) → AllClean (flatten_elements str_of buckets)
  unfolding flatten_elements
  flatten_elements-AllClean buckets =
      append_opt-AllClean _ _ (bucket-AllClean (codes "npcs") (codes "PNJ") buckets) (
        append_opt-AllClean _ _ (bucket-AllClean (codes "locations") (codes "Lieux") buckets) (
          append_opt-AllClean _ _ (bucket-AllClean (codes "items") (codes "Objets") buckets)
            (bucket-AllClean (codes "clues") (codes "Indices") buckets)))

  by_shape-AllClean : (o : Option Json) (fields : Fields) → AllClean (by_shape str_of o fields)
  by_shape-AllClean none fields = flatten_elements-AllClean fields
  by_shape-AllClean (some (array entries)) fields = tagged_rows-IsClean entries
  by_shape-AllClean (some (string t)) fields = flatten_elements-AllClean fields
  by_shape-AllClean (some (other b t)) fields = flatten_elements-AllClean fields
  by_shape-AllClean (some (object f)) fields = flatten_elements-AllClean fields

  elements-AllClean : (content : Json) → AllClean (elements_from_content str_of content)
  unfolding elements_from_content
  elements-AllClean (string t) = tt
  elements-AllClean (other b t) = tt
  elements-AllClean (array ts) = tt
  elements-AllClean (object fields) = by_shape-AllClean (get (codes "elements") fields) fields

  or_default_same : (t : Text) → is_empty t ≡ false → or_default str_of t ≡ t
  or_default_same [] h = cc
  or_default_same (c ∷ t) h = refl

  named_row_same :
      (category name : Text) (fields : Fields) (e : Element)
      → is_empty name ≡ false
      → or_default str_of (strip category) ≡ e.category
      → name ≡ e.name
      → strip (str_get str_of (codes "description") fields) ≡ e.description
      → named_row str_of category name fields ≡ e ∷ []
  named_row_same category [] fields e h a b c = cc
  named_row_same category (x ∷ name) fields e h a b c = ground (arith, a, b, c)

  clean_row-entry_of :
      (e : Element)
      → IsClean e
      → clean_row str_of (category_of str_of (entry_of e)) (entry_of e) ≡ e ∷ []
  unfolding clean_row get text_eq
  clean_row-entry_of e h =
      named_row_same e.category (strip e.name) _ e (ap is_empty h.name_stripped ∙ h.name_given)
        (ap (or_default str_of) h.category_stripped ∙ or_default_same e.category h.category_given)
        h.name_stripped h.description_stripped

  tagged_rows-entries_of :
      (rows : List Element) → All IsClean rows → tagged_rows str_of (entries_of rows) ≡ rows
  unfolding tagged_rows entries_of
  tagged_rows-entries_of [] h = refl
  tagged_rows-entries_of (e ∷ rows) h =
      ap₂ ◌++◌ (clean_row-entry_of e h.0) (tagged_rows-entries_of rows h.1)

  elements-content_of :
      (rows : List Element)
      → All IsClean rows
      → elements_from_content str_of (content_of rows) ≡ some rows
  unfolding elements_from_content content_of get text_eq
  elements-content_of rows h = ap some (tagged_rows-entries_of rows h)

-- What an artifact's content reads as, in the new shape or in the old one of four buckets, is read
-- back the same once it is stored in the new shape.
pub elements_from_content-stored :
    (str_of : Json → Text) (content : Json) (rows : List Element)
    → elements_from_content str_of content ≡ some rows
    → elements_from_content str_of (content_of rows) ≡ some rows
elements_from_content-stored str_of content rows e =
    elements-content_of str_of rows (subst (AllClean str_of) e (elements-AllClean str_of content))
