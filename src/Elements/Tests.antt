-- ===== src/Elements/Tests.antt =====
-- Readings of the elements card, and an instance of its theorem.
use ai_kaeyris.Prelude.{◌≡◌, refl, if◌then◌else◌, ok, err, none, some, [], ◌∷◌}
use ai_kaeyris.Text.{Text, codes, strip, lstrip, rstrip, is_space, text_eq}
use ai_kaeyris.Models.{Element}
use ai_kaeyris.Elements.{
  Json, string, array, object, nil, cons, end, field, get, clean_row, bucket_rows, bucket,
  flatten_elements, elements_from_content,
}
use ai_kaeyris.Elements.Reply.{Parsers, decode_error, other_error, parse_reply}

abbrev str_of : Json → Text
str_of j = []

-- The old shape: two characters, one of them without a name.
abbrev old_content : Json
old_content = object (
    field (codes "npcs")
      (array (
        cons (object (field (codes "name") (string (codes " Bram ")) end))
          (cons (object (field (codes "name") (string (codes " ")) end)) nil)))
      end)

abbrev bram : Element
bram = record { category = codes "PNJ"; name = codes "Bram"; description = [] }

old_read : elements_from_content str_of old_content ≡ some (bram ∷ [])
unfolding elements_from_content flatten_elements bucket bucket_rows clean_row get strip lstrip
    rstrip is_space text_eq
old_read = refl

-- Replies of which only what is in braces parses, and a number that is too long.
abbrev in_braces : Json
in_braces = object (
    field (codes "npcs")
      (array
        (cons (string []) (cons (object (field (codes "name") (string (codes " Bram ")) end)) nil)))
      end)

abbrev parsers : Parsers
parsers = record {
  loads = λ t. if text_eq t (codes "{}") then ok (some in_braces) else err decode_error;
  fenced = λ t. none;
  str_of = str_of;
}

reply_in_braces : parse_reply parsers (codes "Oui : {}.") ≡ ok (some in_braces)
unfolding parse_reply text_eq
reply_in_braces = refl

long_number :
    parse_reply (record parsers { loads = λ t. err other_error }) (codes "1") ≡ err other_error
unfolding parse_reply
long_number = refl
