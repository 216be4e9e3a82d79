-- ===== src/Chunker/Split.antt =====
-- The splitting loop of the text chunker.
use ai_kaeyris.Prelude.{
  ℕ, zero, suc, ◌≤◌, ◌<◌, ◌≡◌, refl, ◌∙◌, inl, inr, List, [], ◌∷◌, ◌++◌, length, take, drop,
  length-take, length-drop, take-append-drop, select-append, concat, All, arith, leb, Bool-cases,
  Result, ok, ◌>>=◌, append-nil,
}
use ai_kaeyris.Text.{Text, lstrip, strip, solid}
use ai_kaeyris.Text.Strip.{
  solid-lstrip, solid-strip, length-lstrip-le, length-strip-le, strip-strip, IsTrimmed,
  lstrip-IsTrimmed, strip-IsTrimmed, strip-ne-nil,
}
use ai_kaeyris.Chunker.{ChunkError, prepend, find_cut_point, split_loop, chunk_text}
use ai_kaeyris.Chunker.Cut.{find_cut_point_bounds}

-- What is promised of one chunk.
pub record IsChunk (max_chars : ℕ) (c : Text) : Type 0 where
  pub filled : 0 < length c
  pub fits : length c ≤ max_chars
  pub stripped : strip c ≡ c

-- What is promised of a split: it is a list of chunks, and holds the text's solid characters.
pub record IsSplit (text : Text) (max_chars : ℕ) (r : Result ChunkError (List Text)) : Type 0 where
  pub chunks : List Text
  pub returned : r ≡ ok chunks
  pub each : All (IsChunk max_chars) chunks
  pub content : solid (concat chunks) ≡ solid text

solid-append : (s t : Text) → solid (s ++ t) ≡ solid s ++ solid t
solid-append s t = select-append _ s t

-- One round: the head goes in front, and the rest goes on.
concat-prepend : (h : Text) (cs : List Text) → concat (prepend h cs) ≡ h ++ concat cs
concat-prepend [] cs = refl
concat-prepend (c ∷ s) cs = refl

All-prepend :
    (max_chars : ℕ) (h : Text) (cs : List Text)
    → length h ≤ max_chars
    → strip h ≡ h
    → All (IsChunk max_chars) cs
    → All (IsChunk max_chars) (prepend h cs)
All-prepend max_chars [] cs le st each = each
All-prepend max_chars (c ∷ s) cs le st each =
    (record { filled = omega arith; fits = le; stripped = st }, each)

round_content :
    (cut : ℕ) (text : Text) (cs : List Text)
    → solid (concat cs) ≡ solid (lstrip (drop cut text))
    → solid (concat (prepend (strip (take cut text)) cs)) ≡ solid text
round_content cut text cs h =
    rw
      (concat-prepend, solid-append, solid-strip, h, solid-lstrip, ← solid-append, take-append-drop)

-- A text that fits is one chunk.
last_chunk :
    (max_chars c : ℕ) (s : Text)
    → IsTrimmed (c ∷ s)
    → length (c ∷ s) ≤ max_chars
    → IsSplit (c ∷ s) max_chars (ok (strip (c ∷ s) ∷ []))
last_chunk max_chars c s trimmed le = record {
  chunks = strip (c ∷ s) ∷ [];
  returned = refl;
  each = (
    record {
      filled = strip-ne-nil c s trimmed;
      fits = omega (arith, length-strip-le (c ∷ s));
      stripped = strip-strip (c ∷ s);
    },
    tt,
  );
  content = rw append-nil (solid-strip (c ∷ s));
}

round-IsSplit :
    (cut max_chars : ℕ) (text : Text) (r : Result ChunkError (List Text))
    → cut ≤ max_chars
    → IsSplit (lstrip (drop cut text)) max_chars r
    → IsSplit text max_chars (r >>= λ chunks. ok (prepend (strip (take cut text)) chunks))
round-IsSplit cut max_chars text r le s = record {
  chunks = prepend (strip (take cut text)) s.chunks;
  returned = rw s.returned;
  each =
      All-prepend max_chars (strip (take cut text)) s.chunks
        (omega (arith, length-strip-le (take cut text), length-take cut text))
        (strip-strip (take cut text)) s.each;
  content = round_content cut text s.chunks s.content;
}

split_loop-IsSplit :
    (fuel max_chars : ℕ) (text : Text)
    → 0 < max_chars
    → IsTrimmed text
    → length text < fuel
    → IsSplit text max_chars (split_loop fuel max_chars text)
unfolding split_loop
split_loop-IsSplit zero max_chars text pos trimmed h = absurd (omega arith)
split_loop-IsSplit (suc fuel) max_chars [] pos trimmed h = record {
  chunks = [];
  returned = refl;
  each = tt;
  content = refl;
}
split_loop-IsSplit (suc fuel) max_chars (c ∷ s) pos trimmed h =
    let cut = find_cut_point (c ∷ s) max_chars in
    let bounds = find_cut_point_bounds (c ∷ s) max_chars pos in
    let rest = lstrip (drop cut (c ∷ s)) in
    elim (Bool-cases (leb (length (c ∷ s)) max_chars)) [
      | inl short ↦ rw short (last_chunk max_chars c s trimmed (ground arith))
      | inr long ↦ rw long (
          round-IsSplit cut max_chars (c ∷ s) (split_loop fuel max_chars rest) bounds.1 (
            split_loop-IsSplit fuel max_chars rest pos (lstrip-IsTrimmed (drop cut (c ∷ s)))
              (omega (arith, length-lstrip-le (drop cut (c ∷ s)), length-drop cut (c ∷ s)))))
    ]

-- For a positive `max_chars`, `chunk_text` returns: its loop always ends. Every chunk holds
-- between 1 and `max_chars` characters and has no whitespace at its ends, and the chunks together
-- hold exactly the characters of the text that are no whitespace, in their order.
pub chunk_text-IsSplit :
    (text : Text) (max_chars : ℕ)
    → 0 < max_chars
    → IsSplit text max_chars (chunk_text text max_chars)
unfolding chunk_text
chunk_text-IsSplit text zero pos = absurd (omega arith)
chunk_text-IsSplit text (suc n) pos =
    let s =
      split_loop-IsSplit (suc (length (strip text))) (suc n) (strip text) pos (strip-IsTrimmed text)
        (omega arith) in
    record {
      chunks = s.chunks;
      returned = s.returned;
      each = s.each;
      content = s.content ∙ solid-strip text;
    }
