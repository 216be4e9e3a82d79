-- ===== src/Chunker/Cut.antt =====
-- The cut points of the text chunker, and its windows.
use ai_kaeyris.Prelude.{
  ℕ, suc, ◌+◌, ◌≤◌, ◌<◌, ◌≡◌, Bool, true, Option, none, some, [], ◌∷◌, length, take, length-take,
  arith,
}
use ai_kaeyris.Text.{Text}
use ai_kaeyris.Chunker.{rfind, at_paragraph, at_blank, last_sentence, find_cut_point}

-- What a search finds lies before the end of the text, with all that the test wants behind it.
abbrev EndsBy : ℕ → ℕ → Option ℕ → Type 0
EndsBy k n none = Unit
EndsBy k n (some i) = i + k ≤ n

shift-EndsBy : (k n : ℕ) (o : Option ℕ) → EndsBy k n o → EndsBy k (suc n) o
shift-EndsBy k n none h = tt
shift-EndsBy k n (some i) h = omega arith

rfind-EndsBy :
    (k : ℕ) (p : Text → Bool)
    → ((s : Text) → p s ≡ true → k ≤ length s)
    → (s : Text) → EndsBy k (length s) (rfind p s)
unfolding rfind
rfind-EndsBy k p long [] = tt
rfind-EndsBy k p long (c ∷ s) = ground (arith, rfind-EndsBy k p long s, long (c ∷ s))

at_paragraph_long : (s : Text) → at_paragraph s ≡ true → 2 ≤ length s
at_paragraph_long [] h = cc
at_paragraph_long (a ∷ []) h = cc
at_paragraph_long (a ∷ b ∷ s) h = omega arith

at_blank_long : (s : Text) → at_blank s ≡ true → 1 ≤ length s
at_blank_long [] h = cc
at_blank_long (a ∷ s) h = omega arith

-- Ends of sentences lie between 1 and `n`.
abbrev EndsWithin : ℕ → Option ℕ → Type 0
EndsWithin n none = Unit
EndsWithin n (some e) = (1 ≤ e) × (e ≤ n)

last_sentence-EndsWithin :
    (p n : ℕ) (found : Option ℕ) (s : Text)
    → EndsWithin n found
    → p + length s ≤ n
    → EndsWithin n (last_sentence p found s)
unfolding last_sentence
last_sentence-EndsWithin p n found [] h le = h
last_sentence-EndsWithin p n found (c ∷ []) h le = h
last_sentence-EndsWithin p n found (c ∷ d ∷ s) h le = ground (
  arith,
  last_sentence-EndsWithin (p + 2) n (some (p + 2)) s,
  last_sentence-EndsWithin (p + 1) n found (d ∷ s),
)

pub find_cut_point_bounds :
    (text : Text) (max_chars : ℕ)
    → 0 < max_chars
    → (1 ≤ find_cut_point text max_chars) × (find_cut_point text max_chars ≤ max_chars)
unfolding find_cut_point
find_cut_point_bounds text max_chars pos = ground (
  arith,
  length-take max_chars text,
  rfind-EndsBy 2 at_paragraph at_paragraph_long (take max_chars text),
  rfind-EndsBy 1 at_blank at_blank_long (take max_chars text),
  last_sentence-EndsWithin 0 max_chars none (take max_chars text),
)
