-- ===== src/Jobs/Feed/Partials.antt =====
-- The chunks of a session, and the partial summaries that are written to them.
use ai_kaeyris.Prelude.{
  ℕ, ◌≡◌, ◌<◌, refl, ap, ◌∙◌, Bool, false, Option, none, some, List, [], ◌∷◌, map, any, arith, All,
  length, ◌==◌, ap₂, subst,
}
use ai_kaeyris.Text.{Text}
use ai_kaeyris.Models.{Db, Chunk}
use ai_kaeyris.Repositories.{list_chunks, update_summary_text}
use ai_kaeyris.Repositories.Chunks.{
  changed, with_summary, without_summary, list_chunks-update_summary_text,
}
use ai_kaeyris.Jobs.Adapters.{or_else}
use ai_kaeyris.Jobs.Source.{lacks_summary}
use ai_kaeyris.Jobs.Generation.{SummaryInput, chunk_inputs}
use ai_kaeyris.Jobs.Writes.{write_partials}

-- The identifiers are a primary key.
abbrev pub HasDistinctIds : List Chunk → Type 0
HasDistinctIds [] = Unit
HasDistinctIds (c ∷ cs) = All (λ d. (d.id == c.id) ≡ false) cs × HasDistinctIds cs

-- The writes of the partial summaries, one after the other, on a list of chunks.
abbrev pub written : List SummaryInput → List Text → List Chunk → List Chunk
written [] ps cs = cs
written ((c, t) ∷ inputs) [] cs = cs
written ((none, t) ∷ inputs) (p ∷ ps) cs = written inputs ps cs
written ((some cid, t) ∷ inputs) (p ∷ ps) cs =
    written inputs ps (map (changed (λ c. c.id == cid) (with_summary p)) cs)

pub list_chunks-write_partials :
    (sid : ℕ) (inputs : List SummaryInput) (ps : List Text) (db : Db)
    → list_chunks sid (write_partials inputs ps db) ≡ written inputs ps (list_chunks sid db)
unfolding write_partials
list_chunks-write_partials sid [] ps db = refl
list_chunks-write_partials sid ((c, t) ∷ inputs) [] db = refl
list_chunks-write_partials sid ((none, t) ∷ inputs) (p ∷ ps) db =
    list_chunks-write_partials sid inputs ps db
list_chunks-write_partials sid ((some cid, t) ∷ inputs) (p ∷ ps) db =
    list_chunks-write_partials sid inputs ps (update_summary_text cid p db)
    ∙ ap (written inputs ps) (list_chunks-update_summary_text sid cid p db)

abbrev ids : List Chunk → List ℕ
ids [] = []
ids (c ∷ cs) = c.id ∷ ids cs

apart_sym : (a b : ℕ) → (a == b) ≡ false → (b == a) ≡ false
apart_sym a b h = ground arith

-- A write to a chunk that is not there.
untouched :
    (cid : ℕ) (p : Text) (cs : List Chunk)
    → All (λ d. (d.id == cid) ≡ false) cs
    → map (changed (λ c. c.id == cid) (with_summary p)) cs ≡ cs
untouched cid p [] h = refl
untouched cid p (c ∷ cs) h = ground (arith, untouched cid p cs)

skipped :
    (c : Chunk) (k : ℕ) (p : Text)
    → (c.id == k) ≡ false
    → changed (λ e. e.id == k) (with_summary p) c ≡ c
skipped c k p h = rw h

hit :
    (c : Chunk) (k : ℕ) (p : Text)
    → c.id ≡ k
    → changed (λ e. e.id == k) (with_summary p) c ≡ with_summary p c
hit c k p h = ground arith

All-ids :
    (k : ℕ) (cs ds : List Chunk)
    → ids cs ≡ ids ds
    → All (λ d. (d.id == k) ≡ false) ds
    → All (λ c. (c.id == k) ≡ false) cs
All-ids k [] ds e h = tt
All-ids k (c ∷ cs) [] e h = cc
All-ids k (c ∷ cs) (d ∷ ds) e h = ground (arith, All-ids k cs ds)

-- Writes to other chunks go past the first one.
written-cons :
    (c : Chunk) (inputs : List Chunk) (ps : List Text) (cs : List Chunk)
    → All (λ d. (d.id == c.id) ≡ false) inputs
    → written (chunk_inputs inputs) ps (c ∷ cs) ≡ c ∷ written (chunk_inputs inputs) ps cs
written-cons c [] ps cs h = refl
written-cons c (d ∷ inputs) [] cs h = refl
written-cons c (d ∷ inputs) (p ∷ ps) cs h =
    ap
      (λ x.
        written (chunk_inputs inputs) ps
          (x ∷ map (changed (λ e. e.id == d.id) (with_summary p)) cs))
      (skipped c d.id p (apart_sym d.id c.id h.0))
    ∙ (written-cons c inputs ps (map (changed (λ e. e.id == d.id) (with_summary p)) cs) h.1)

abbrev pub summaries : List Chunk → List (Option Text)
summaries [] = []
summaries (c ∷ cs) = c.summary_text ∷ summaries cs

-- Each chunk gets its partial summary.
pub summaries-written :
    (inputs cs : List Chunk) (ps : List Text)
    → HasDistinctIds inputs
    → ids cs ≡ ids inputs
    → length ps ≡ length inputs
    → summaries (written (chunk_inputs inputs) ps cs) ≡ map some ps
summaries-written [] [] [] d e l = refl
summaries-written [] [] (p ∷ ps) d e l = absurd (omega arith)
summaries-written [] (c ∷ cs) ps d e l = cc
summaries-written (d ∷ inputs) [] ps distinct e l = cc
summaries-written (d ∷ inputs) (c ∷ cs) [] distinct e l = absurd (omega arith)
summaries-written (d ∷ inputs) (c ∷ cs) (p ∷ ps) distinct e l =
    ap (λ x. summaries (written (chunk_inputs inputs) ps x))
      (ap₂ (λ a rest. a ∷ rest) (hit c d.id p (cc))
        (untouched d.id p cs (All-ids d.id cs inputs (cc) distinct.0)))
    ∙ ap summaries (
        written-cons (with_summary p c) inputs ps cs
          (subst (λ k. All (λ x. (x.id == k) ≡ false) inputs) (cc) distinct.0))
    ∙ ap (◌∷◌ (some p)) (summaries-written inputs cs ps distinct.1 (cc) (omega arith))

-- The reset keeps the identifiers.
pub ids-map :
    (q : Chunk → Bool) (cs : List Chunk) → ids (map (changed q without_summary) cs) ≡ ids cs
ids-map q [] = refl
ids-map q (c ∷ cs) = ground (arith, ids-map q cs)

-- With each summary there and not empty, the source is their joining.
pub source_of_summaries :
    (cs : List Chunk) (ps : List Text)
    → summaries cs ≡ map some ps
    → All (λ t. 0 < length t) ps
    → (any lacks_summary cs ≡ false) × (map (λ c. or_else c.summary_text []) cs ≡ ps)
source_of_summaries [] [] e h = (refl, refl)
source_of_summaries [] (p ∷ ps) e h = cc
source_of_summaries (c ∷ cs) [] e h = cc
source_of_summaries (c ∷ cs) ([] ∷ ps) e h = absurd (omega (arith, h.0))
source_of_summaries (c ∷ cs) ((a ∷ p) ∷ ps) e h = ground (arith, source_of_summaries cs ps)
