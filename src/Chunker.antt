-- ===== src/Chunker.antt =====
-- app/services/jdr/text_chunker.py: a long text is split into chunks of at most `max_chars`
-- characters, at the best natural boundary of each window.
pub mod Cut
pub mod Split
mod Tests
use ai_kaeyris.Prelude.{
  ℕ, zero, suc, ◌+◌, Bool, true, false, ◌&&◌, ◌||◌, Option, none, some, List, [], ◌∷◌, length, take,
  drop, leb, ◌==◌, if◌then◌else◌, Result, ok, err, ◌>>=◌,
}
use ai_kaeyris.Text.{Text, is_space, lstrip, strip}

-- `no_fuel` marks a run of the loop that is not finished; with enough fuel it does not occur.
pub data ChunkError : Type 0 where
  max_chars_not_positive : ChunkError
  no_fuel : ChunkError

-- The last position at which the rest of the text passes a test: `str.rfind`.
unfoldable pub rfind : (Text → Bool) → Text → Option ℕ
rfind p [] = none
rfind p (c ∷ s) = elim (rfind p s) [
  | some i ↦ some (suc i)
  | none ↦ if p (c ∷ s) then some 0 else none
]

-- `"\n\n"` stands here.
abbrev at_paragraph : Text → Bool
at_paragraph (a ∷ b ∷ s) = a == 10 && b == 10
at_paragraph _ = false

-- `" "` stands here.
abbrev at_blank : Text → Bool
at_blank [] = false
at_blank (a ∷ s) = a == 32

-- `[.!?…]`
abbrev ends_sentence : ℕ → Bool
ends_sentence c = c == b'.' || c == b'!' || c == b'?' || c == 0x2026

-- The loop over `_SENTENCE_END_RE.finditer(window)`: the end of the last match, where `p` is the
-- position that the scan has reached and `found` the end of the last match so far.
last_sentence : ℕ → Option ℕ → Text → Option ℕ
last_sentence p found [] = found
last_sentence p found (c ∷ []) = found
last_sentence p found (c ∷ d ∷ s) = elim (ends_sentence c && is_space d) [
  | true ↦ last_sentence (p + 2) (some (p + 2)) s
  | false ↦ last_sentence (p + 1) found (d ∷ s)
]

abbrev cut_blank : ℕ → Option ℕ → ℕ
cut_blank max_chars none = max_chars
cut_blank max_chars (some space) = if leb 1 space then space + 1 else max_chars

abbrev cut_sentence : ℕ → Text → Option ℕ → ℕ
cut_sentence max_chars window (some end) = end
cut_sentence max_chars window none = cut_blank max_chars (rfind at_blank window)

abbrev cut_paragraph : ℕ → Text → Option ℕ → ℕ
cut_paragraph max_chars window none = cut_sentence max_chars window (last_sentence 0 none window)
cut_paragraph max_chars window (some para) =
    if leb 1 para then para + 2 else cut_sentence max_chars window (last_sentence 0 none window)

unfoldable pub find_cut_point : Text → ℕ → ℕ
unfolding last_sentence rfind
find_cut_point text max_chars =
    let window = take max_chars text in cut_paragraph max_chars window (rfind at_paragraph window)

-- `if head: chunks.append(head)`
abbrev prepend : Text → List Text → List Text
prepend [] chunks = chunks
prepend (c ∷ s) chunks = (c ∷ s) ∷ chunks

-- The `while remaining` loop.
split_loop : ℕ → ℕ → Text → Result ChunkError (List Text)
split_loop zero max_chars remaining = err no_fuel
split_loop (suc fuel) max_chars [] = ok []
split_loop (suc fuel) max_chars (c ∷ s) =
    let cut_at = find_cut_point (c ∷ s) max_chars in
    let rest = split_loop fuel max_chars (lstrip (drop cut_at (c ∷ s))) in
    if leb (length (c ∷ s)) max_chars
    then ok (strip (c ∷ s) ∷ [])
    else (rest >>= λ chunks. ok (prepend (strip (take cut_at (c ∷ s))) chunks))

unfoldable pub chunk_text : Text → ℕ → Result ChunkError (List Text)
unfolding split_loop
chunk_text text zero = err max_chars_not_positive
chunk_text text (suc n) = split_loop (suc (length (strip text))) (suc n) (strip text)
