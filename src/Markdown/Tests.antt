-- ===== src/Markdown/Tests.antt =====
-- Runs of the exports.
use ai_kaeyris.Prelude.{ℕ, ◌≡◌, refl, [], ◌∷◌}
use ai_kaeyris.Text.{Text, codes, strip, lstrip, rstrip, is_space, text_eq}
use ai_kaeyris.Models.{Segment, Element}
use ai_kaeyris.Markdown.Grouping.{AreTurns, group_consecutive_speaker_segments-AreTurns}
use ai_kaeyris.Markdown.{
  group_consecutive_speaker_segments, group_from, group_by_category, group_onto, add_row,
  format_speaker,
}

abbrev says : Text → ℕ → ℕ → Text → Segment
says speaker start finish words = record {
  speaker_label = speaker;
  start_time = start;
  end_time = finish;
  text = words;
}

-- Two segments of one speaker make a turn, and a long silence ends one.
two_speakers :
    group_consecutive_speaker_segments 50 (
      says (codes "A") 0 20 (codes "Un ")
      ∷ says (codes "A") 30 40 (codes " deux")
      ∷ says (codes "B") 41 60 (codes "Trois")
      ∷ says (codes "B") 110 120 (codes "quatre")
      ∷ [])
    ≡ says (codes "A") 0 40 (codes "Un deux")
      ∷ says (codes "B") 41 60 (codes "Trois")
      ∷ says (codes "B") 110 120 (codes "quatre")
      ∷ []
unfolding group_consecutive_speaker_segments group_from strip lstrip rstrip is_space text_eq
two_speakers = refl

group_consecutive_speaker_segments-AreTurns_example :
    AreTurns 50 (says (codes "A") 0 20 (codes "Un ") ∷ says (codes "A") 30 40 (codes "deux") ∷ []) (
      group_consecutive_speaker_segments 50
        (says (codes "A") 0 20 (codes "Un ") ∷ says (codes "A") 30 40 (codes "deux") ∷ []))
group_consecutive_speaker_segments-AreTurns_example =
    group_consecutive_speaker_segments-AreTurns 50
      (says (codes "A") 0 20 (codes "Un ") ∷ says (codes "A") 30 40 (codes "deux") ∷ [])

abbrev row : Text → Text → Element
row category name = record { category = category; name = name; description = [] }

by_category :
    group_by_category (
      row (codes "PNJ") (codes "a")
      ∷ row (codes "Lieux") (codes "b")
      ∷ row (codes "PNJ") (codes "c")
      ∷ [])
    ≡ (codes "PNJ", row (codes "PNJ") (codes "a") ∷ row (codes "PNJ") (codes "c") ∷ [])
      ∷ (codes "Lieux", row (codes "Lieux") (codes "b") ∷ [])
      ∷ []
unfolding group_by_category group_onto add_row text_eq
by_category = refl

named_speaker : format_speaker (codes "s1") ((codes "s1", codes "Aria") ∷ []) ≡ codes "Aria (s1)"
unfolding format_speaker text_eq
named_speaker = refl
