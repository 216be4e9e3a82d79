-- ===== src/Markdown.antt =====
-- app/services/jdr/markdown.py: the Markdown exports of a session. The formats of instants, of
-- identifiers and of seconds (`:.1f`) are parameters.
pub mod Grouping
pub mod Categories
mod Tests
use ai_kaeyris.Prelude.{
  ℕ, ◌+◌, Bool, true, false, ◌&&◌, Option, none, some, List, [], ◌∷◌, ◌++◌, is_empty, ltb, concat,
  map, if◌then◌else◌,
}
use ai_kaeyris.Text.{Text, codes, strip, lstrip, rstrip, text_eq}
use ai_kaeyris.Models.{
  Session, SessionState, created, audio_uploaded, transcribing, transcription_failed, transcribed,
  Segment, Transcription, Artifact, Content, Element, Pj,
}
use ai_kaeyris.Jobs.Source.{join}
use ai_kaeyris.Elements.{Json, elements_from_content}
use ai_kaeyris.Routes.Artifacts.{text_of, json_of}

-- `SessionState.value`
abbrev pub state_value : SessionState → Text
state_value created = codes "created"
state_value audio_uploaded = codes "audio_uploaded"
state_value transcribing = codes "transcribing"
state_value transcription_failed = codes "transcription_failed"
state_value transcribed = codes "transcribed"

abbrev lines : List Text → Text
lines = join (10 ∷ [])

-- Speaker turns

-- The later segment is appended to the turn.
abbrev pub merge : Segment → Segment → Segment
merge last seg = record last {
  end_time = seg.end_time;
  text = strip (rstrip last.text ++ 32 ∷ lstrip seg.text);
}

-- The same speaker, and a gap below the limit; the gap may be negative.
abbrev pub continues : ℕ → Segment → Segment → Bool
continues gap last seg =
    text_eq seg.speaker_label last.speaker_label && ltb seg.start_time (last.end_time + gap)

-- `last` is the turn that is still open.
unfoldable pub group_from : ℕ → Segment → List Segment → List Segment
group_from gap last [] = last ∷ []
group_from gap last (seg ∷ segments) =
    let merged = group_from gap (merge last seg) segments in
    let next = group_from gap seg segments in if continues gap last seg then merged else last ∷ next

unfoldable pub group_consecutive_speaker_segments : ℕ → List Segment → List Segment
unfolding group_from
group_consecutive_speaker_segments gap [] = []
group_consecutive_speaker_segments gap (seg ∷ segments) = group_from gap seg segments

-- The display name of a label, from a mapping to names.
abbrev pub lookup : Text → List (Text × Text) → Option Text
lookup label [] = none
lookup label ((k, name) ∷ mapping) =
    let rest = lookup label mapping in if text_eq k label then some name else rest

unfoldable pub format_speaker : Text → List (Text × Text) → Text
format_speaker label mapping = elim (lookup label mapping) [
  | none ↦ label
  | some name ↦ name ++ (codes " (" ++ (label ++ codes ")"))
]

-- Rows of the card by category

-- The categories in the order of their first row.
abbrev pub Groups : Type 0
Groups = List (Text × List Element)

-- `grouped.setdefault(row["category"], []).append(row)`
unfoldable pub add_row : Element → Groups → Groups
add_row row [] = (row.category, row ∷ []) ∷ []
add_row row ((category, rows) ∷ groups) =
    let rest = add_row row groups in
    if text_eq row.category category
    then (category, rows ++ row ∷ []) ∷ groups
    else (category, rows) ∷ rest

unfoldable pub group_onto : Groups → List Element → Groups
unfolding add_row
group_onto groups [] = groups
group_onto groups (row ∷ rows) = group_onto (add_row row groups) rows

unfoldable pub group_by_category : List Element → Groups
unfolding group_onto
group_by_category rows = group_onto [] rows

-- `text if text else placeholder`
abbrev or_placeholder : Text → Text → Text
or_placeholder [] placeholder = placeholder
or_placeholder (c ∷ text) placeholder = c ∷ text

abbrev row_line : Element → Text
row_line e =
    if is_empty e.description
    then codes "- **" ++ (e.name ++ codes "**")
    else codes "- **" ++ (e.name ++ (codes "** — " ++ e.description))

group_lines : Text × List Element → List Text
group_lines (category, rows) = (codes "## " ++ category) ∷ [] ∷ map row_line rows ++ [] ∷ []

module _ (date id_of seconds : ℕ → Text) where
  unfoldable pub render_session_header : Session → Text
  render_session_header s = lines (
      (codes "# Session : " ++ s.title)
      ∷ []
      ∷ (codes "- **Date** : " ++ date s.recorded_at)
      ∷ (codes "- **Identifiant** : " ++ id_of s.id)
      ∷ (codes "- **État** : " ++ state_value s.state)
      ∷ []
      ∷ codes "---"
      ∷ []
      ∷ [])

  -- The heading, the body, and the attribution below a rule.
  document : Session → Text → List Text → Text → Text
  unfolding render_session_header
  document s title body footer = lines (
      render_session_header s ∷ (codes "## " ++ title) ∷ [] ∷ body
      ++ codes "---" ∷ [] ∷ footer ∷ [])

  abbrev attribution : Text → Artifact → Text
  attribution start a =
      codes "_"
      ++ (start
          ++ (codes " par `"
              ++ (a.model_used ++ (codes "`, le " ++ (date a.generated_at ++ codes "._")))))

  turn_lines : List (Text × Text) → Segment → List Text
  unfolding format_speaker
  turn_lines mapping seg =
      (codes "**["
        ++ (seconds seg.start_time
            ++ (codes "s → "
                ++ (seconds seg.end_time
                    ++ (codes "s] " ++ (format_speaker seg.speaker_label mapping ++ codes "**"))))))
      ∷ []
      ∷ or_placeholder (strip seg.text) (codes "_(silence)_")
      ∷ []
      ∷ []

  abbrev turns : List (Text × Text) → List Segment → List Text
  turns mapping [] = codes "_(aucun segment)_" ∷ [] ∷ []
  turns mapping (seg ∷ segments) = concat (map (turn_lines mapping) (seg ∷ segments))

  unfoldable pub render_transcription_md : ℕ → List (Text × Text) → Session → Transcription → Text
  unfolding document turn_lines group_consecutive_speaker_segments
  render_transcription_md gap mapping s t =
      document s (codes "Transcription")
        (turns mapping (group_consecutive_speaker_segments gap t.segments))
        (codes "_Transcription produite par `"
          ++ (t.model_used
              ++ (codes "` ("
                  ++ (t.provider ++ (codes "), langue `" ++ (t.language ++ codes "`._"))))))

  render_text : Text → Text → Text → Session → Artifact → Text
  unfolding document
  render_text title placeholder start s a =
      document s title (or_placeholder (strip (text_of a.content)) placeholder ∷ [] ∷ [])
        (attribution start a)

  unfoldable pub render_narrative_md : Session → Artifact → Text
  unfolding render_text
  render_narrative_md =
      render_text (codes "Résumé narratif") (codes "_(résumé vide)_") (codes "Résumé produit")

  unfoldable pub render_summary_md : Session → Artifact → Text
  unfolding render_text
  render_summary_md =
      render_text (codes "Résumé global de la session") (codes "_(résumé vide)_")
        (codes "Résumé produit")

  unfoldable pub render_pov_md : Session → Pj → Artifact → Text
  unfolding render_text
  render_pov_md s pj a =
      render_text (codes "Point de vue : " ++ pj.name) (codes "_(POV vide)_") (codes "POV produit")
        s a

  abbrev category_lines : Groups → List Text
  category_lines [] = codes "_(aucun élément)_" ∷ [] ∷ []
  category_lines (g ∷ groups) = concat (map group_lines (g ∷ groups))

  -- `none`: what is stored is no card.
  unfoldable pub render_elements_md : (Json → Text) → Session → Artifact → Option Text
  unfolding group_by_category group_lines render_session_header json_of
  render_elements_md str_of s a = elim (elements_from_content str_of (json_of a.content)) [
    | none ↦ none
    | some rows ↦ some (
        lines (
          render_session_header s ∷ category_lines (group_by_category rows)
          ++ codes "---" ∷ [] ∷ attribution (codes "Fiche produite") a ∷ []))
  ]
