-- ===== src/Jobs/Feed.antt =====
-- The chunks that a summary job leaves to the jobs that come after it.
pub mod Partials
use ai_kaeyris.Prelude.{
  ℕ, suc, ◌≡◌, ◌<◌, refl, ap, ◌∙◌, Bool, false, Option, none, some, List, [], ◌∷◌, map, any, select,
  arith, All, length, is_empty, ◌==◌, ==_iff, sym, ok, Result-cases, Option-cases, inl, inr, ap₂,
  subst,
}
use ai_kaeyris.Text.{Text}
use ai_kaeyris.Table.{first-holds}
use ai_kaeyris.Models.{Db, Session, Chunk, Content, ArtifactKind}
use ai_kaeyris.Repositories.{
  chunk_of, session_is, get_session, list_chunks, sort_by_ordre, upsert_artifact,
  invalidate_pov_artifacts, reset_summary_texts, update_summary_text,
}
use ai_kaeyris.Repositories.Chunks.{
  changed, with_summary, without_summary, list_chunks-update_summary_text,
  list_chunks-reset_summary_texts,
}
use ai_kaeyris.Jobs.Exec.{JobState}
use ai_kaeyris.Jobs.Adapters.{
  LlmAdapter, or_else, llm_model_used, build_llm_adapter_for_user, load_session_model_settings,
}
use ai_kaeyris.Jobs.Source.{
  join, summary_chunk_separator, source_of_chunks, lacks_summary, edited_transcript_source,
}
use ai_kaeyris.Jobs.Generation.{
  SummaryInput, chunk_inputs, summarise_each, summarise, load_summary_inputs,
}
use ai_kaeyris.Jobs.Runs.{Worker, generate_summary}
use ai_kaeyris.Jobs.Writes.{swap_summary, write_partials}
use ai_kaeyris.Jobs.Feed.Partials.{
  HasDistinctIds, written, list_chunks-write_partials, summaries, summaries-written, ids-map,
  source_of_summaries,
}

length-summarise_each :
    (a : LlmAdapter) (i : ℕ) (inputs : List SummaryInput) (ps : List Text)
    → summarise_each a i inputs ≡ ok ps
    → length ps ≡ length inputs
unfolding summarise_each
length-summarise_each a i [] ps h = ground arith
length-summarise_each a i ((c, t) ∷ inputs) ps h =
    elim (Result-cases (summarise_each a (suc i) inputs)) [
      | inl (rest, e) ↦ ground (arith, e, length-summarise_each a (suc i) inputs rest e)
      | inr (x, e) ↦ ground (arith, e)
    ]

list_chunks_of : (sid : ℕ) (a b : Db) → a.chunks ≡ b.chunks → list_chunks sid a ≡ list_chunks sid b
unfolding list_chunks
list_chunks_of sid a b e = ap (λ rows. sort_by_ordre (select (chunk_of sid) rows)) e

chunks-upsert_artifact :
    (now sid : ℕ) (kind : ArtifactKind) (content : Content) (model : Text) (db db' : Db)
    → upsert_artifact now sid kind content model db ≡ some db'
    → db'.chunks ≡ db.chunks
unfolding upsert_artifact
chunks-upsert_artifact now sid kind content model db db' e = ground arith

list_chunks-swap_summary :
    (now sid : ℕ) (model : Text) (inputs : List SummaryInput) (partials : List Text) (final : Text)
    (db db' : Db)
    → swap_summary now sid model inputs partials final db ≡ some db'
    → list_chunks sid db'
      ≡ written inputs partials (map (changed (chunk_of sid) without_summary) (list_chunks sid db))
unfolding swap_summary invalidate_pov_artifacts
list_chunks-swap_summary now sid model inputs partials final db db' e =
    list_chunks_of sid db' (write_partials inputs partials (reset_summary_texts sid db))
      (chunks-upsert_artifact now sid ArtifactKind.summary (Content.text final) model _ db' e)
    ∙ list_chunks-write_partials sid inputs partials (reset_summary_texts sid db)
    ∙ ap (written inputs partials) (list_chunks-reset_summary_texts sid db)

length-partials :
    (a : LlmAdapter) (inputs : List SummaryInput) (partials : List Text) (final : Text)
    → summarise a inputs ≡ ok (partials, final)
    → length partials ≡ length inputs
unfolding summarise
length-partials a inputs partials final h = elim (Result-cases (summarise_each a 0 inputs)) [
  | inl (ps, e) ↦ ground (arith, e, length-summarise_each a 0 inputs ps e)
  | inr (x, e) ↦ ground (arith, e)
]

length-chunk_inputs : (cs : List Chunk) → length (chunk_inputs cs) ≡ length cs
length-chunk_inputs [] = refl
length-chunk_inputs (c ∷ cs) = ap suc (length-chunk_inputs cs)

nonempty_of_length :
    {A B : Type 0} (xs : List A) (ys : List B)
    → length ys ≡ length xs
    → is_empty xs ≡ false
    → is_empty ys ≡ false
nonempty_of_length [] ys e h = cc
nonempty_of_length (x ∷ xs) [] e h = absurd (omega arith)
nonempty_of_length (x ∷ xs) (y ∷ ys) e h = refl

nonempty_of_summaries :
    (cs : List Chunk) (ps : List Text)
    → summaries cs ≡ map some ps
    → is_empty ps ≡ false
    → is_empty cs ≡ false
nonempty_of_summaries [] [] e h = cc
nonempty_of_summaries [] (p ∷ ps) e h = cc
nonempty_of_summaries (c ∷ cs) ps e h = refl

-- After the swap, each chunk has its partial summary, and the chunks are read as these.
swap_feeds_source :
    (now sid : ℕ) (model : Text) (a : LlmAdapter) (partials : List Text) (final : Text)
    (db db' : Db)
    → HasDistinctIds (list_chunks sid db)
    → is_empty (list_chunks sid db) ≡ false
    → summarise a (chunk_inputs (list_chunks sid db)) ≡ ok (partials, final)
    → All (λ t. 0 < length t) partials
    → swap_summary now sid model (chunk_inputs (list_chunks sid db)) partials final db ≡ some db'
    → source_of_chunks (list_chunks sid db') ≡ ok (join summary_chunk_separator partials)
unfolding source_of_chunks
swap_feeds_source now sid model a partials final db db' distinct some_chunk summarised filled
      swapped =
    let chunks = list_chunks sid db in
    let reset = map (changed (chunk_of sid) without_summary) chunks in
    let len =
      length-partials a (chunk_inputs chunks) partials final summarised
      ∙ length-chunk_inputs chunks in
    let each : summaries (list_chunks sid db') ≡ map some partials =
      ap summaries
        (list_chunks-swap_summary now sid model (chunk_inputs chunks) partials final db db' swapped)
      ∙ summaries-written chunks reset partials distinct (ids-map (chunk_of sid) chunks) len in
    let read = source_of_summaries (list_chunks sid db') partials each filled in
    rw (
      nonempty_of_summaries (list_chunks sid db') partials each
          (nonempty_of_length chunks partials len some_chunk),
      read.0,
      read.1,
    )

-- What a run on a session without an edit starts from.
inputs-chunks :
    (max_chars sid : ℕ) (db : Db) (row : Session) (inputs : List SummaryInput)
    → get_session sid db ≡ some row
    → edited_transcript_source row ≡ none
    → load_summary_inputs max_chars sid db ≡ ok inputs
    → (inputs ≡ chunk_inputs (list_chunks sid db)) × (is_empty (list_chunks sid db) ≡ false)
unfolding load_summary_inputs
inputs-chunks max_chars sid db row inputs found unedited loaded =
    let same = (==_iff row.id sid).0 (first-holds (session_is sid) db.sessions {r = row} found) in
    subst (λ k. (inputs ≡ chunk_inputs (list_chunks k db)) × (is_empty (list_chunks k db) ≡ false))
      same (ground (arith, found, unedited), ground (arith, found, unedited))

-- A run of the summary job succeeds on a session whose transcript nobody has edited, the rest of the
-- system changes no chunk while the job waits, and none of the partial summaries is empty. Then the
-- source document that the narrative, elements and point-of-view jobs read from the session's chunks
-- is exactly these partial summaries in the order of the chunks, joined by the separator: none is
-- missing, stale or attached to another chunk. (The identifiers of chunks are a primary key.)
pub summary_feeds_source :
    (w : Worker) (sid : ℕ) (s : JobState) (row : Session) (adapter : LlmAdapter)
    (partials : List Text) (text : Text)
    → get_session sid s.db ≡ some row
    → edited_transcript_source row ≡ none
    → HasDistinctIds (list_chunks sid s.db)
    → (w.world 1 (w.world 0 s.db)).chunks ≡ s.db.chunks
    → build_llm_adapter_for_user w.factories (load_session_model_settings sid (w.world 0 s.db))
      ≡ ok adapter
    → summarise adapter (chunk_inputs (list_chunks sid s.db)) ≡ ok (partials, text)
    → All (λ t. 0 < length t) partials
    → (generate_summary w sid s).0 ≡ ok tt
    → source_of_chunks (list_chunks sid (generate_summary w sid s).1.db)
      ≡ ok (join summary_chunk_separator partials)
unfolding generate_summary
summary_feeds_source w sid s row adapter partials text found unedited distinct quiet chosen
      summarised filled h =
    elim (Result-cases (load_summary_inputs w.chunk_max_chars sid s.db)) [
      | inr (x, refused) ↦ ground (arith, refused)
      | inl (inputs, loaded) ↦
          let (from_chunks, some_chunk) =
            inputs-chunks w.chunk_max_chars sid s.db row inputs found unedited loaded in
          let later = w.world 1 (w.world 0 s.db) in
          let kept : list_chunks sid later ≡ list_chunks sid s.db =
            list_chunks_of sid later s.db quiet in
          let answered : summarise adapter inputs ≡ ok (partials, text) =
            ap (summarise adapter) from_chunks ∙ summarised in
          elim (Option-cases
            (swap_summary w.now sid (llm_model_used adapter) inputs partials text later)) [
              | inl refused ↦ ground (arith, loaded, chosen, answered, refused)
              | inr (db', done) ↦
                  subst
                    (λ d.
                      source_of_chunks (list_chunks sid d)
                      ≡ ok (join summary_chunk_separator partials))
                    (ground (arith, loaded, chosen, answered, done))
                    (swap_feeds_source w.now sid (llm_model_used adapter) adapter partials text
                      later db' (subst HasDistinctIds (sym kept) distinct)
                      (subst (λ cs. is_empty cs ≡ false) (sym kept) some_chunk)
                      (subst (λ cs. summarise adapter (chunk_inputs cs) ≡ ok (partials, text))
                        (sym kept) summarised)
                      filled
                      (subst
                        (λ i.
                          swap_summary w.now sid (llm_model_used adapter) i partials text later
                          ≡ some db')
                        (from_chunks ∙ ap chunk_inputs (sym kept)) done))
            ]
    ]
