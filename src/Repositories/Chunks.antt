-- ===== src/Repositories/Chunks.antt =====
-- The chunks of a session in their order, and what an UPDATE does to them.
use ai_kaeyris.Prelude.{
  ℕ, ◌≡◌, refl, ap, ◌∙◌, Bool, none, some, List, [], ◌∷◌, map, arith, select, ◌==◌, if◌then◌else◌,
}
use ai_kaeyris.Text.{Text}
use ai_kaeyris.Table.{update_where}
use ai_kaeyris.Models.{Db, Chunk}
use ai_kaeyris.Repositories.{
  chunk_of, insert_by_ordre, sort_by_ordre, list_chunks, update_summary_text, reset_summary_texts,
}

-- A change of a chunk that keeps its place.
pub record KeepsPlace (g : Chunk → Chunk) : Type 0 where
  pub session : (c : Chunk) → (g c).session_id ≡ c.session_id
  pub order : (c : Chunk) → (g c).ordre ≡ c.ordre

module _ (g : Chunk → Chunk) (keep : KeepsPlace g) where
  map-insert_by_ordre :
      (c : Chunk) (cs : List Chunk)
      → insert_by_ordre (g c) (map g cs) ≡ map g (insert_by_ordre c cs)
  unfolding insert_by_ordre
  map-insert_by_ordre c [] = refl
  map-insert_by_ordre c (d ∷ ds) =
      ground (arith, keep.order c, keep.order d, map-insert_by_ordre c ds)

  map-sort_by_ordre : (cs : List Chunk) → sort_by_ordre (map g cs) ≡ map g (sort_by_ordre cs)
  unfolding sort_by_ordre
  map-sort_by_ordre [] = refl
  map-sort_by_ordre (c ∷ cs) = rw (map-sort_by_ordre cs) (map-insert_by_ordre c (sort_by_ordre cs))

-- An UPDATE, as a change of each row.
abbrev pub changed : (Chunk → Bool) → (Chunk → Chunk) → Chunk → Chunk
changed q f c = if q c then f c else c

module _ (q : Chunk → Bool) (f : Chunk → Chunk) (keep : KeepsPlace f) where
  changed-KeepsPlace : KeepsPlace (changed q f)
  changed-KeepsPlace = record {
    session = λ c. ground (arith, keep.session c);
    order = λ c. ground (arith, keep.order c);
  }

  select-changed :
      (sid : ℕ) (rows : List Chunk)
      → select (chunk_of sid) (update_where q f rows)
        ≡ map (changed q f) (select (chunk_of sid) rows)
  unfolding update_where
  select-changed sid [] = refl
  select-changed sid (c ∷ rows) = ground (arith, select-changed sid rows, keep.session c)

  list_chunks-update_where :
      (sid : ℕ) (db : Db)
      → list_chunks sid (record db { chunks = update_where q f db.chunks })
        ≡ map (changed q f) (list_chunks sid db)
  unfolding list_chunks
  list_chunks-update_where sid db =
      ap sort_by_ordre (select-changed sid db.chunks)
      ∙ map-sort_by_ordre (changed q f) changed-KeepsPlace (select (chunk_of sid) db.chunks)

abbrev pub with_summary : Text → Chunk → Chunk
with_summary t c = record c { summary_text = some t }

abbrev pub without_summary : Chunk → Chunk
without_summary c = record c { summary_text = none }

pub list_chunks-update_summary_text :
    (sid cid : ℕ) (t : Text) (db : Db)
    → list_chunks sid (update_summary_text cid t db)
      ≡ map (changed (λ c. c.id == cid) (with_summary t)) (list_chunks sid db)
unfolding update_summary_text
list_chunks-update_summary_text sid cid t db =
    list_chunks-update_where _ (with_summary t) (record { session = λ c. refl; order = λ c. refl })
      sid db

pub list_chunks-reset_summary_texts :
    (sid : ℕ) (db : Db)
    → list_chunks sid (reset_summary_texts sid db)
      ≡ map (changed (chunk_of sid) without_summary) (list_chunks sid db)
unfolding reset_summary_texts
list_chunks-reset_summary_texts sid db =
    list_chunks-update_where _ without_summary (record { session = λ c. refl; order = λ c. refl })
      sid db
