-- ===== src/AudioRange.antt =====
-- app/services/jdr/batch/router.py: the part of a session's audio that a Range header asks for.
-- `int` is a parameter, by what the code looks at of its result.
pub mod Served
mod Tests
use ai_kaeyris.Prelude.{
  ℕ, zero, suc, ◌+◌, ◌-◌, min, ◌≡◌, Bool, true, false, ◌||◌, not, Option, none, some, List, [], ◌∷◌,
  length, take, drop, any, is_empty, leb, ltb, ◌==◌, if◌then◌else◌, Result, ok, err, guard,
  require_some, ◌>>=◌, ◌>>◌,
}
use ai_kaeyris.Text.{Text, codes, strip, starts_with}

-- The one `ValueError`.
pub data RangeError : Type 0 where
  invalid_byte_range : RangeError

pub data ParsedInt : Type 0 where
  no_number negative : ParsedInt
  number : ℕ → ParsedInt

abbrev before_dash : ℕ → Option (Text × Text) → Option (Text × Text)
before_dash c none = none
before_dash c (some (s, e)) = some (c ∷ s, e)

-- `range_spec.split("-", 1)`, if there is a "-".
unfoldable pub split_dash : Text → Option (Text × Text)
split_dash [] = none
split_dash (c ∷ s) = let rest = split_dash s in if c == 45 then some ([], s) else before_dash c rest

-- The last checks, and the end cut to the size.
abbrev pub checked : ℕ → ℕ → ℕ → Result RangeError (ℕ × ℕ)
checked size start end =
    if leb size start || ltb end start
    then err invalid_byte_range
    else ok (start, min end (size - 1))

module _ (int : Text → ParsedInt) where
  -- The last `n` bytes.
  abbrev suffix : ℕ → ParsedInt → Result RangeError (ℕ × ℕ)
  suffix size (number (suc n)) = checked size (size - suc n) (size - 1)
  suffix size _ = err invalid_byte_range

  abbrev from_to : ℕ → ParsedInt → ParsedInt → Result RangeError (ℕ × ℕ)
  from_to size (number start) (number end) = checked size start end
  from_to size _ _ = err invalid_byte_range

  abbrev from_on : ℕ → ParsedInt → Result RangeError (ℕ × ℕ)
  from_on size (number start) = checked size start (size - 1)
  from_on size _ = err invalid_byte_range

  unfoldable pub range_of : ℕ → Text → Text → Result RangeError (ℕ × ℕ)
  range_of size [] end = suffix size (int end)
  range_of size (c ∷ start) [] = from_on size (int (c ∷ start))
  range_of size (c ∷ start) (d ∷ end) = from_to size (int (c ∷ start)) (int (d ∷ end))

  -- `none`: the whole file.
  abbrev by_value : ℕ → Text → Result RangeError (Option (ℕ × ℕ))
  by_value size value = do
    guard (not (size == 0)) invalid_byte_range
    guard (starts_with (codes "bytes=") value) invalid_byte_range
    let spec = strip (drop 6 value)
    guard (not (any (λ c. c == 44) spec)) invalid_byte_range
    (start, end) ← require_some (split_dash spec) invalid_byte_range
    range ← range_of size start end
    ok (some range)

  unfoldable pub parse_range_header : Option Text → ℕ → Result RangeError (Option (ℕ × ℕ))
  unfolding range_of split_dash
  parse_range_header none size = ok none
  parse_range_header (some header) size =
      if is_empty (strip header) then ok none else by_value size (strip header)

-- The loop over the open file: `left` holds the bytes from the position on, and a read brings as
-- many as it asks for while there are so many. Each round but the last takes at least one of the
-- remaining bytes, so that their number is fuel enough.
unfoldable pub read_loop : ℕ → ℕ → ℕ → Text → List Text
read_loop chunk_size zero remaining left = []
read_loop chunk_size (suc fuel) zero left = []
read_loop chunk_size (suc fuel) (suc r) [] = []
read_loop chunk_size (suc fuel) (suc r) (b ∷ left) =
    let n = min chunk_size (suc r) in
    take n (b ∷ left)
    ∷ read_loop chunk_size fuel (suc r - length (take n (b ∷ left))) (drop n (b ∷ left))

unfoldable pub iter_file_range : ℕ → Text → ℕ → ℕ → List Text
unfolding read_loop
iter_file_range chunk_size file start len = read_loop chunk_size len len (drop start file)
