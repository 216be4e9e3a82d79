-- ===== src/Jobs/Source.antt =====
-- The source document of an artifact job, and the prompts built from it (app/jobs/jdr.py).
use ai_kaeyris.Prelude.{
  ℕ, Bool, true, not, Option, none, some, List, [], ◌∷◌, ◌++◌, map, any, is_empty, if◌then◌else◌,
  Result, ok, guard, require_some, ◌>>=◌, ◌>>◌,
}
use ai_kaeyris.Text.{Text, codes, strip}
use ai_kaeyris.Table.{first}
use ai_kaeyris.Models.{
  Db, Session, Segment, Chunk, TranscriptionMode, diarised, non_diarised, is_transcribed,
}
use ai_kaeyris.Repositories.{transcription_of, get_session, list_chunks}
use ai_kaeyris.Jobs.Exec.{
  JobError, permanent, session_not_found, not_transcribed, no_chunks, missing_summaries,
  no_transcription,
}
use ai_kaeyris.Jobs.Adapters.{or_else, truthy}

-- `sep.join(parts)`
unfoldable pub join : Text → List Text → Text
join sep [] = []
join sep (t ∷ []) = t
join sep (t ∷ u ∷ ts) = t ++ (sep ++ join sep (u ∷ ts))

-- `_SUMMARY_CHUNK_SEPARATOR`, "\n\n---\n\n"
abbrev pub summary_chunk_separator : Text
summary_chunk_separator = 10 ∷ 10 ∷ codes "---" ++ 10 ∷ 10 ∷ []

-- _edited_transcript_source: an edit that is blank counts as none.
unfoldable pub edited_transcript_source : Session → Option Text
edited_transcript_source s = elim s.edited_transcript_md [
  | none ↦ none
  | some content ↦ if is_empty (strip content) then none else some content
]

abbrev pub lacks_summary : Chunk → Bool
lacks_summary c = not (truthy c.summary_text)

-- The summaries of the chunks, joined.
unfoldable pub source_of_chunks : List Chunk → Result JobError Text
unfolding join
source_of_chunks chunks = do
  guard (not (is_empty chunks)) (permanent no_chunks)
  guard (not (any lacks_summary chunks)) (permanent missing_summaries)
  ok (join summary_chunk_separator (map (λ c. or_else c.summary_text []) chunks))

-- `seconds` prints a number of seconds with one decimal.
module _ (seconds : ℕ → Text) where
  unfoldable pub format_segment : Segment → Text
  format_segment s =
      codes "["
      ++ (seconds s.start_time
          ++ (codes "s → "
              ++ (seconds s.end_time
                  ++ (codes "s] " ++ (s.speaker_label ++ (codes " : " ++ strip s.text))))))

  unfoldable pub format_segments_for_narrative : List Segment → Text
  unfolding format_segment join
  format_segments_for_narrative segments =
      if is_empty segments
      then codes "(transcription vide)"
      else join (10 ∷ []) (map format_segment segments)

  source_by_mode : TranscriptionMode → ℕ → Db → Result JobError Text
  unfolding source_of_chunks format_segments_for_narrative
  source_by_mode non_diarised sid db = source_of_chunks (list_chunks sid db)
  source_by_mode diarised sid db = do
    t ← require_some (first (transcription_of sid) db.transcriptions) (permanent no_transcription)
    ok (format_segments_for_narrative t.segments)

  source_text : Session → Db → Result JobError Text
  unfolding edited_transcript_source source_by_mode
  source_text s db = elim (edited_transcript_source s) [
    | some text ↦ ok text
    | none ↦ source_by_mode s.transcription_mode s.id db
  ]

  -- The text that the prompt is about, and the campaign's context.
  unfoldable pub load_session_source_document : ℕ → Db → Result JobError (Text × Option Text)
  unfolding source_text
  load_session_source_document sid db = do
    s ← require_some (get_session sid db) (permanent session_not_found)
    guard (is_transcribed s.state) (permanent not_transcribed)
    text ← source_text s db
    ok (text, s.campaign_context)

-- The lines of the prompts; "\n" is 10.
abbrev context_header : Text
context_header =
    codes
      "CONTEXTE DE CAMPAGNE (informations hors-transcript, à utiliser uniquement pour ancrer noms récurrents, ton et fil narratif) :"

abbrev transcription_header : Text
transcription_header = codes "TRANSCRIPTION DE LA SESSION :"

abbrev rule : Text
rule = 10 ∷ 10 ∷ codes "---" ++ 10 ∷ 10 ∷ []

-- `if not campaign_context or not campaign_context.strip()`
abbrev is_blank : Option Text → Bool
is_blank none = true
is_blank (some c) = is_empty (strip c)

unfoldable pub build_user_prompt_with_context : Option Text → Text → Text
build_user_prompt_with_context context block =
    if is_blank context
    then block
    else context_header
      ++ (10 ∷ strip (or_else context []) ++ (rule ++ (transcription_header ++ 10 ∷ block)))

unfoldable pub build_pov_user_prompt : Text → Text → Text → Option Text → Text
build_pov_user_prompt name label block context =
    let header =
      codes "POINT DE VUE DE : "
      ++ (name
          ++ (10 ∷ codes "LABEL DE LOCUTEUR ASSOCIÉ : "
              ++ (label
                  ++ (10
                        ∷ codes
                            "Tous les autres labels (speaker_*, unknown) sont d'autres joueurs ou le MJ."
                      ++ 10 ∷ [])))) in
    if is_blank context
    then header ++ (10 ∷ codes "---" ++ (10 ∷ 10 ∷ transcription_header ++ 10 ∷ block))
    else header
      ++ (10 ∷ context_header
          ++ (10 ∷ strip (or_else context []) ++ (rule ++ (transcription_header ++ 10 ∷ block))))
