-- ===== src/Elements.antt =====
-- app/services/jdr/elements.py: the rows of the elements card, read from JSON.
pub mod Canonical
pub mod Reply
mod Tests
use ai_kaeyris.Prelude.{
  ℕ, ◌≡◌, Bool, true, false, Option, none, some, List, [], ◌∷◌, ◌++◌, is_empty, if◌then◌else◌,
}
use ai_kaeyris.Text.{Text, codes, strip, text_eq}
use ai_kaeyris.Models.{Element}

-- JSON as Python reads it; `other` is a number, a Boolean or null, by whether it is true in a
-- condition and what `str` prints of it. The keys of an object are distinct.
mutual
  pub data Json : Type 0 where
    string : Text → Json
    other : Bool → Text → Json
    array : JsonList → Json
    object : Fields → Json

  pub data JsonList : Type 0 where
    nil : JsonList
    cons : Json → JsonList → JsonList

  pub data Fields : Type 0 where
    end : Fields
    field : Text → Json → Fields → Fields

-- `d.get(key)`
unfoldable pub get : Text → Fields → Option Json
get key end = none
get key (field k v fields) = let rest = get key fields in if text_eq k key then some v else rest

-- `str` of an array or of an object is a parameter.
module _ (str_of : Json → Text) where
  abbrev pub str : Json → Text
  str (string t) = t
  str (other b t) = t
  str (array items) = str_of (array items)
  str (object fields) = str_of (object fields)

  -- `str(d.get(key, ""))`
  abbrev pub str_get : Text → Fields → Text
  str_get key fields = elim (get key fields) [ none ↦ [] | some v ↦ str v ]

  -- `... or DEFAULT_CATEGORY`
  abbrev or_default : Text → Text
  or_default [] = codes "Autres"
  or_default (c ∷ s) = c ∷ s

  abbrev named_row : Text → Text → Fields → List Element
  named_row category [] fields = []
  named_row category (c ∷ name) fields =
      record {
        category = or_default (strip category);
        name = c ∷ name;
        description = strip (str_get (codes "description") fields);
      }
      ∷ []

  -- The row of an entry, or none.
  unfoldable pub clean_row : Text → Json → List Element
  clean_row category (object fields) =
      named_row category (strip (str_get (codes "name") fields)) fields
  clean_row category _ = []

  -- `buckets.get(key) or []`, of which an array is gone through.
  bucket_rows : Text → JsonList → List Element
  unfolding clean_row
  bucket_rows label nil = []
  bucket_rows label (cons entry entries) = clean_row label entry ++ bucket_rows label entries

  -- What the loop goes through: a text and an object yield no entries, and a number that is not 0 or
  -- `True` is a `TypeError`: `none`.
  abbrev items : Option Json → Option JsonList
  items none = some nil
  items (some (array entries)) = some entries
  items (some (string t)) = some nil
  items (some (object fields)) = some nil
  items (some (other false t)) = some nil
  items (some (other true t)) = none

  bucket : Text → Text → Fields → Option (List Element)
  unfolding bucket_rows get
  bucket key label buckets = elim (items (get key buckets)) [
    | none ↦ none
    | some entries ↦ some (bucket_rows label entries)
  ]

  abbrev append_opt : Option (List Element) → Option (List Element) → Option (List Element)
  append_opt none ys = none
  append_opt (some xs) none = none
  append_opt (some xs) (some ys) = some (xs ++ ys)

  unfoldable pub flatten_elements : Fields → Option (List Element)
  unfolding bucket
  flatten_elements buckets = append_opt (bucket (codes "npcs") (codes "PNJ") buckets) (
      append_opt (bucket (codes "locations") (codes "Lieux") buckets) (
        append_opt (bucket (codes "items") (codes "Objets") buckets)
          (bucket (codes "clues") (codes "Indices") buckets)))

  abbrev category_of : Json → Text
  category_of (object fields) = str_get (codes "category") fields
  category_of _ = []

  unfoldable pub tagged_rows : JsonList → List Element
  unfolding clean_row
  tagged_rows nil = []
  tagged_rows (cons entry entries) = clean_row (category_of entry) entry ++ tagged_rows entries

  abbrev by_shape : Option Json → Fields → Option (List Element)
  by_shape (some (array entries)) fields = some (tagged_rows entries)
  by_shape _ fields = flatten_elements fields

  unfoldable pub elements_from_content : Json → Option (List Element)
  unfolding tagged_rows flatten_elements get
  elements_from_content (object fields) = by_shape (get (codes "elements") fields) fields
  elements_from_content _ = some []

-- `{"elements": rows}`, as the backend stores it.
abbrev pub entry_of : Element → Json
entry_of e = object (
    field (codes "category") (string e.category) (
      field (codes "name") (string e.name)
        (field (codes "description") (string e.description) end)))

unfoldable pub entries_of : List Element → JsonList
entries_of [] = nil
entries_of (e ∷ es) = cons (entry_of e) (entries_of es)

unfoldable pub content_of : List Element → Json
unfolding entries_of
content_of rows = object (field (codes "elements") (array (entries_of rows)) end)
