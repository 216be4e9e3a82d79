-- ===== src/AudioRange/Served.antt =====
-- The range that is answered, and the bytes that are sent.
use ai_kaeyris.Prelude.{
  ℕ, zero, suc, ◌+◌, ◌-◌, ◌≤◌, ◌<◌, min, ◌≡◌, refl, sym, ap, ◌∙◌, Option, none, some, [], ◌∷◌, ◌++◌,
  concat, length, take, drop, length-take, length-drop, Result, ok, err, Option-cases, inl, inr,
  arith,
}
use ai_kaeyris.Text.{Text, strip}
use ai_kaeyris.AudioRange.{
  RangeError, ParsedInt, split_dash, checked, range_of, parse_range_header, read_loop,
  iter_file_range,
}

-- A range of bytes that is there.
abbrev IsInside : ℕ → Result RangeError (ℕ × ℕ) → Type 0
IsInside size (ok (start, end)) = (start ≤ end) × (end < size)
IsInside size (err e) = Unit

checked-IsInside : (size start end : ℕ) → IsInside size (checked size start end)
checked-IsInside size start end = ground arith

range_of-IsInside :
    (int : Text → ParsedInt) (size : ℕ) (start end : Text)
    → IsInside size (range_of int size start end)
unfolding range_of
range_of-IsInside int size [] end = ground arith
range_of-IsInside int size (c ∷ start) [] = ground arith
range_of-IsInside int size (c ∷ start) (d ∷ end) = ground arith

parse_range_header-IsInside :
    (int : Text → ParsedInt) (header : Option Text) (size start end : ℕ)
    → parse_range_header int header size ≡ ok (some (start, end))
    → (start ≤ end) × (end < size)
unfolding parse_range_header
parse_range_header-IsInside int none size start end e = cc
parse_range_header-IsInside int (some header) size start end e =
    elim (Option-cases (split_dash (strip (drop 6 (strip header))))) [
      | inl no_dash ↦ ground (arith, no_dash)
      | inr ((s, t), dash) ↦ ground (arith, dash, range_of-IsInside int size s t)
    ]

take_nil : (n : ℕ) → take {A = ℕ} n [] ≡ []
take_nil zero = refl
take_nil (suc n) = refl

-- A take is a shorter take, and what is left of it from the rest.
take_rest :
    (n m : ℕ) (xs : Text)
    → n ≤ m
    → take n xs ++ take (m - length (take n xs)) (drop n xs) ≡ take m xs
take_rest zero m xs h = ap (λ k. take k xs) (omega arith)
take_rest (suc n) m [] h = take_nil (m - 0) ∙ sym (take_nil m)
take_rest (suc n) zero (x ∷ xs) h = absurd (omega (arith, h))
take_rest (suc n) (suc m) (x ∷ xs) h =
    ap (◌∷◌ x) (
      ap (λ k. take n xs ++ take k (drop n xs)) (omega arith) ∙ take_rest n m xs (omega (arith, h)))

length-take_pos : (n b : ℕ) (xs : Text) → 0 < n → 0 < length (take n (b ∷ xs))
length-take_pos zero b xs h = absurd (omega (arith, h))
length-take_pos (suc n) b xs h = omega arith

read_loop_lem :
    (chunk_size fuel remaining : ℕ) (left : Text)
    → 0 < chunk_size
    → remaining ≤ fuel
    → concat (read_loop chunk_size fuel remaining left) ≡ take remaining left
unfolding read_loop
read_loop_lem chunk_size zero zero left pos h = refl
read_loop_lem chunk_size zero (suc r) left pos h = absurd (omega (arith, h))
read_loop_lem chunk_size (suc fuel) zero left pos h = refl
read_loop_lem chunk_size (suc fuel) (suc r) [] pos h = refl
read_loop_lem chunk_size (suc fuel) (suc r) (b ∷ left) pos h =
    let n = min chunk_size (suc r) in
    ap (◌++◌ (take n (b ∷ left))) (
      read_loop_lem chunk_size fuel (suc r - length (take n (b ∷ left))) (drop n (b ∷ left)) pos
        (omega (arith, h, length-take_pos n b left (omega (arith, pos)))))
    ∙ take_rest n (suc r) (b ∷ left) (omega arith)

-- When the header asks for a range of a file that is as large as its size says, the range lies in
-- the file, and the pieces that are sent, of whatever positive size, are together exactly the bytes
-- of the file from the first of the range to the last, which are as many as Content-Length says.
pub parse_range_header-served :
    (int : Text → ParsedInt) (header : Option Text) (chunk_size start end : ℕ) (file : Text)
    → 0 < chunk_size
    → parse_range_header int header (length file) ≡ ok (some (start, end))
    → (start ≤ end)
      × (end < length file)
      × (concat (iter_file_range chunk_size file start (end - start + 1))
          ≡ take (end - start + 1) (drop start file))
      × (length (concat (iter_file_range chunk_size file start (end - start + 1)))
          ≡ end - start + 1)
unfolding iter_file_range
parse_range_header-served int header chunk_size start end file pos e =
    let inside = parse_range_header-IsInside int header (length file) start end e in
    let sent =
      read_loop_lem chunk_size (end - start + 1) (end - start + 1) (drop start file) pos
        (omega arith) in
    (
      inside.0,
      inside.1,
      sent,
      ap length sent
          ∙ omega (
            arith,
            inside,
            length-take (end - start + 1) (drop start file),
            length-drop start file,
          ),
    )
