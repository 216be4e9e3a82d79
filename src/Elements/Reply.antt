-- ===== src/Elements/Reply.antt =====
-- app/jobs/jdr.py: reading the reply of the language model to the elements prompt. `json.loads` and
-- the search for a fenced block are parameters: both are Python's library.
use ai_kaeyris.Prelude.{
  ℕ, ◌≢◌, Option, none, some, List, [], ◌∷◌, ◌++◌, ◌==◌, if◌then◌else◌, Result, ok, err, ◌>>=◌,
}
use ai_kaeyris.Text.{Text, codes, strip}
use ai_kaeyris.Models.{Element}
use ai_kaeyris.Elements.{
  Json, string, array, object, JsonList, nil, cons, Fields, end, field, get, str_get,
}

-- What `json.loads` may raise: `JSONDecodeError`, `TypeError`, or something else, such as the
-- `RecursionError` of a deep nesting and the `ValueError` of a number with too many digits.
pub data LoadsError : Type 0 where
  decode_error type_error other_error : LoadsError

-- The library: `json.loads`, whose `null` is none, the first fenced block, and `str`.
pub record Parsers : Type 0 where
  pub loads : Text → Result LoadsError (Option Json)
  pub fenced : Text → Option Text
  pub str_of : Json → Text

-- From the first "{" on.
abbrev from_brace : Text → Option Text
from_brace [] = none
from_brace (c ∷ s) = let rest = from_brace s in if c == 123 then some (c ∷ s) else rest

abbrev onto : ℕ → Option Text → Option Text
onto c none = none
onto c (some s) = some (c ∷ s)

-- Up to the last "}".
abbrev to_brace : Text → Option Text
to_brace [] = none
to_brace (c ∷ s) = elim (to_brace s) [
  | some t ↦ some (c ∷ t)
  | none ↦ if c == 125 then some (c ∷ []) else none
]

abbrev outermost : Text → Option Text
outermost raw = elim (from_brace raw) [ none ↦ none | some s ↦ to_brace s ]

-- The `except` clause of _try_parse_json.
abbrev caught : Result LoadsError (Option Json) → Result LoadsError (Option Json)
caught (ok j) = ok j
caught (err decode_error) = ok none
caught (err type_error) = ok none
caught (err other_error) = err other_error

-- `if parsed is None: parsed = ...`
abbrev or_then : Option Json → Result LoadsError (Option Json) → Result LoadsError (Option Json)
or_then (some j) rest = ok (some j)
or_then none rest = rest

module _ (p : Parsers) where
  abbrev try_parse_json : Text → Result LoadsError (Option Json)
  try_parse_json payload = caught (p.loads payload)

  abbrev parsed_of : Option Text → Result LoadsError (Option Json)
  parsed_of none = ok none
  parsed_of (some payload) = try_parse_json payload

  -- The whole reply, then its fenced block, then its outermost braces.
  unfoldable pub parse_reply : Text → Result LoadsError (Option Json)
  parse_reply raw = do
    whole ← try_parse_json raw
    or_then whole (do fenced ← parsed_of (p.fenced raw); or_then fenced (parsed_of (outermost raw)))

  abbrev named_entry : Text → Text → JsonList → JsonList
  named_entry [] description rest = rest
  named_entry (c ∷ name) description rest =
      cons
        (object (
          field (codes "name") (string (c ∷ name))
            (field (codes "description") (string description) end)))
        rest

  abbrev normalise_entry : Json → JsonList → JsonList
  normalise_entry (object fields) rest =
      named_entry (strip (str_get p.str_of (codes "name") fields))
        (strip (str_get p.str_of (codes "description") fields)) rest
  normalise_entry _ rest = rest

  unfoldable pub normalise_all : JsonList → JsonList
  normalise_all nil = nil
  normalise_all (cons entry entries) = normalise_entry entry (normalise_all entries)

  abbrev normalise_element_list : Option Json → JsonList
  normalise_element_list (some (array entries)) = normalise_all entries
  normalise_element_list _ = nil

  -- `parsed.get(key) if isinstance(parsed, dict) else None`
  abbrev bucket_of : Text → Option Json → Option Json
  bucket_of key (some (object fields)) = get key fields
  bucket_of key _ = none

  abbrev fields_of : Option Json → Fields
  fields_of parsed =
      field (codes "npcs") (array (normalise_element_list (bucket_of (codes "npcs") parsed))) (
        field (codes "locations")
          (array (normalise_element_list (bucket_of (codes "locations") parsed)))
          (field (codes "items") (array (normalise_element_list (bucket_of (codes "items") parsed)))
            (field (codes "clues")
              (array (normalise_element_list (bucket_of (codes "clues") parsed))) end)))

  unfoldable pub parse_elements_response : Text → Result LoadsError Fields
  unfolding parse_reply normalise_all get
  parse_elements_response raw = do parsed ← parse_reply raw; ok (fields_of parsed)

  -- The row of an entry of the reply: an object with a name that is not blank.
  abbrev row_from : Text → Text → Text → List Element
  row_from label [] description = []
  row_from label (c ∷ name) description =
      record { category = label; name = c ∷ name; description = description } ∷ []

  abbrev row_of : Text → Json → List Element
  row_of label (object fields) =
      row_from label (strip (str_get p.str_of (codes "name") fields))
        (strip (str_get p.str_of (codes "description") fields))
  row_of label _ = []

  abbrev rows_in : Text → JsonList → List Element
  rows_in label nil = []
  rows_in label (cons entry entries) = row_of label entry ++ rows_in label entries

  -- The rows under a key of the reply, when it is an object that has an array there.
  abbrev rows_at : Text → Text → Option Json → List Element
  rows_at key label (some (object fields)) = elim (get key fields) [
    | some (array entries) ↦ rows_in label entries
    | _ ↦ []
  ]
  rows_at key label _ = []

  abbrev pub rows_of : Option Json → List Element
  rows_of reply =
      rows_at (codes "npcs") (codes "PNJ") reply
      ++ (rows_at (codes "locations") (codes "Lieux") reply
          ++ (rows_at (codes "items") (codes "Objets") reply
              ++ rows_at (codes "clues") (codes "Indices") reply))

  abbrev IsCaught : Result LoadsError (Option Json) → Type 0
  IsCaught r = r ≢ err other_error
