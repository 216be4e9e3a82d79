-- ===== src/Chunker/Tests.antt =====
-- Runs of the text chunker, and an instance of its theorem.
use ai_kaeyris.Prelude.{◌≡◌, refl, [], ◌∷◌, arith, ok, err}
use ai_kaeyris.Text.{codes, is_space, strip}
use ai_kaeyris.Chunker.{max_chars_not_positive, find_cut_point, chunk_text}
use ai_kaeyris.Chunker.Split.{IsSplit, chunk_text-IsSplit}

at_a_sentence :
    chunk_text (codes " Un. Deux trois ") 10 ≡ ok (codes "Un." ∷ codes "Deux trois" ∷ [])
unfolding chunk_text strip is_space find_cut_point
at_a_sentence = refl

at_max_chars : chunk_text (codes "abcdef") 4 ≡ ok (codes "abcd" ∷ codes "ef" ∷ [])
unfolding chunk_text strip is_space find_cut_point
at_max_chars = refl

refused : chunk_text (codes "abc") 0 ≡ err max_chars_not_positive
unfolding chunk_text strip is_space find_cut_point
refused = refl

chunk_text-IsSplit_example :
    IsSplit (codes " Un. Deux trois ") 10 (chunk_text (codes " Un. Deux trois ") 10)
chunk_text-IsSplit_example = chunk_text-IsSplit (codes " Un. Deux trois ") 10 (omega arith)
