-- ===== src/AudioRange/Tests.antt =====
-- Ranges of a small file, and an instance of the theorem.
use ai_kaeyris.Prelude.{
  ◌-◌, ◌+◌, ◌≤◌, ◌<◌, ◌≡◌, refl, arith, some, [], ◌∷◌, concat, length, take, drop, ok, err,
}
use ai_kaeyris.Text.{Text, codes, starts_with, strip, lstrip, rstrip, is_space, text_eq}
use ai_kaeyris.AudioRange.{
  ParsedInt, no_number, number, invalid_byte_range, split_dash, range_of, parse_range_header,
  iter_file_range,
}
use ai_kaeyris.AudioRange.Served.{parse_range_header-served}

-- One digit.
abbrev int : Text → ParsedInt
int (c ∷ []) = number (c - 48)
int _ = no_number

suffix_range : parse_range_header int (some (codes "bytes=-2")) 5 ≡ ok (some (3, 4))
unfolding parse_range_header range_of split_dash starts_with strip lstrip rstrip is_space text_eq
suffix_range = refl

outside_range : parse_range_header int (some (codes "bytes=5-")) 5 ≡ err invalid_byte_range
unfolding parse_range_header range_of split_dash starts_with strip lstrip rstrip is_space text_eq
outside_range = refl

parse_range_header-served_example :
    (1 ≤ 4)
    × (4 < 5)
    × (concat (iter_file_range 3 (codes "abcde") 1 (4 - 1 + 1))
        ≡ take (4 - 1 + 1) (drop 1 (codes "abcde")))
    × (length (concat (iter_file_range 3 (codes "abcde") 1 (4 - 1 + 1))) ≡ 4 - 1 + 1)
unfolding parse_range_header range_of split_dash starts_with strip lstrip rstrip is_space text_eq
parse_range_header-served_example =
    parse_range_header-served int (some (codes "bytes=1-9")) 3 1 4 (codes "abcde") (omega arith)
      refl
