-- ===== src/Jobs/Generation.antt =====
-- What the artifact jobs load, and their calls of the language model (app/jobs/jdr.py).
use ai_kaeyris.Prelude.{
  ℕ, suc, not, Option, none, some, List, [], ◌∷◌, select, is_empty, length, ◌==◌, Result, ok, err,
  guard, require_some, ◌>>=◌, ◌>>◌,
}
use ai_kaeyris.Text.{Text, codes}
use ai_kaeyris.Table.{first}
use ai_kaeyris.Models.{
  Db, Session, Pj, SessionPlayer, SessionPjMapping, Chunk, TranscriptionMode, diarised,
  non_diarised, is_transcribed, is_non_diarised,
}
use ai_kaeyris.Repositories.{get_session, list_chunks, list_mappings, player_of}
use ai_kaeyris.Chunker.{chunk_text}
use ai_kaeyris.Jobs.Exec.{
  JobError, permanent, unexpected, session_not_found, not_transcribed, no_players, no_mapping,
  not_non_diarised, blank_edit, no_chunks,
}
use ai_kaeyris.Jobs.Adapters.{
  LlmAdapter, answer_of, pov_prompt, summary_map_prompt, summary_reduce_prompt,
}
use ai_kaeyris.Jobs.Source.{
  join, summary_chunk_separator, edited_transcript_source, build_pov_user_prompt,
}

-- Points of view: a PJ that was found, or not, with its speaker label.

abbrev pub PovTarget : Type 0
PovTarget = Option Pj × Text

pj_by_id : ℕ → Db → Option Pj
pj_by_id pj db = first (λ r. r.id == pj) db.pjs

player_targets : List SessionPlayer → Db → List PovTarget
unfolding pj_by_id
player_targets [] db = []
player_targets (p ∷ ps) db =
    (pj_by_id p.pj_id db, codes "(non-diarised : aucun label)") ∷ player_targets ps db

-- `speaker_label or "(non-diarised : aucun label)"`
abbrev label_or_none : Text → Text
label_or_none [] = codes "(non-diarised : aucun label)"
label_or_none (c ∷ s) = c ∷ s

mapping_targets : List SessionPjMapping → Db → List PovTarget
unfolding pj_by_id
mapping_targets [] db = []
mapping_targets (m ∷ ms) db =
    (pj_by_id m.pj_id db, label_or_none m.speaker_label) ∷ mapping_targets ms db

targets_by_mode : TranscriptionMode → ℕ → Db → Result JobError (List PovTarget)
unfolding player_targets mapping_targets
targets_by_mode non_diarised sid db = do
  let players = select (player_of sid) db.players
  guard (not (is_empty players)) (permanent no_players)
  ok (player_targets players db)
targets_by_mode diarised sid db = do
  let mappings = list_mappings sid db
  guard (not (is_empty mappings)) (permanent no_mapping)
  ok (mapping_targets mappings db)

unfoldable pub load_pov_targets : ℕ → Db → Result JobError (List PovTarget × Option Text)
unfolding targets_by_mode
load_pov_targets sid db = do
  s ← require_some (get_session sid db) (permanent session_not_found)
  guard (is_transcribed s.state) (permanent not_transcribed)
  targets ← targets_by_mode s.transcription_mode sid db
  ok (targets, s.campaign_context)

-- One call for each PJ that was found; `i` is the number of the call.
unfoldable pub complete_povs :
    LlmAdapter → Text → Option Text → ℕ → List PovTarget → Result JobError (List (ℕ × Text))
complete_povs a source context i [] = ok []
complete_povs a source context i ((none, label) ∷ targets) =
    complete_povs a source context i targets
complete_povs a source context i ((some pj, label) ∷ targets) = do
  text ← answer_of (a.complete i pov_prompt (build_pov_user_prompt pj.name label source context))
  results ← complete_povs a source context (suc i) targets
  ok ((pj.id, text) ∷ results)

-- The summary: the texts to summarise, with the chunk that each belongs to, if any.

abbrev pub SummaryInput : Type 0
SummaryInput = Option ℕ × Text

abbrev pub chunk_inputs : List Chunk → List SummaryInput
chunk_inputs [] = []
chunk_inputs (c ∷ cs) = (some c.id, c.text) ∷ chunk_inputs cs

abbrev edited_inputs : List Text → List SummaryInput
edited_inputs [] = []
edited_inputs (t ∷ ts) = (none, t) ∷ edited_inputs ts

abbrev inputs_of_edit : Result JobError (List Text) → Result JobError (List SummaryInput)
inputs_of_edit r = do
  texts ← r
  guard (not (is_empty texts)) (permanent blank_edit)
  ok (edited_inputs texts)

-- A `ValueError` of `chunk_text` is no job error.
abbrev pub chunked : Text → ℕ → Result JobError (List Text)
chunked text max_chars = elim (chunk_text text max_chars) [
  | ok texts ↦ ok texts
  | err e ↦ err unexpected
]

summary_inputs : ℕ → Session → Db → Result JobError (List SummaryInput)
summary_inputs max_chars s db = elim (edited_transcript_source s) [
  | some text ↦ inputs_of_edit (chunked text max_chars)
  | none ↦ do
    let chunks = list_chunks s.id db
    guard (not (is_empty chunks)) (permanent no_chunks)
    ok (chunk_inputs chunks)
]

unfoldable pub load_summary_inputs : ℕ → ℕ → Db → Result JobError (List SummaryInput)
unfolding summary_inputs
load_summary_inputs max_chars sid db = do
  s ← require_some (get_session sid db) (permanent session_not_found)
  guard (is_non_diarised s.transcription_mode) (permanent not_non_diarised)
  guard (is_transcribed s.state) (permanent not_transcribed)
  summary_inputs max_chars s db

-- Map: one call for each text.
unfoldable pub summarise_each : LlmAdapter → ℕ → List SummaryInput → Result JobError (List Text)
summarise_each a i [] = ok []
summarise_each a i ((chunk, text) ∷ inputs) = do
  partial ← answer_of (a.complete i summary_map_prompt text)
  partials ← summarise_each a (suc i) inputs
  ok (partial ∷ partials)

-- Reduce: one more call, unless there is exactly one partial summary.
abbrev consolidate : LlmAdapter → List Text → Result JobError Text
consolidate a (partial ∷ []) = ok partial
consolidate a partials =
    answer_of
      (a.complete (length partials) summary_reduce_prompt (join summary_chunk_separator partials))

unfoldable pub summarise : LlmAdapter → List SummaryInput → Result JobError (List Text × Text)
unfolding summarise_each
summarise a inputs = do
  partials ← summarise_each a 0 inputs
  final ← consolidate a partials
  ok (partials, final)
