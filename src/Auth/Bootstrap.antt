-- ===== src/Auth/Bootstrap.antt =====
-- The import of keys from the environment.
use ai_kaeyris.Prelude.{
  ℕ, suc, ◌≡◌, refl, ap, ◌∙◌, true, false, inl, inr, some, List, [], ◌∷◌, ◌++◌, arith, All,
  is_empty, length, ◌==◌, ok, Result-cases,
}
use ai_kaeyris.Text.{Text, starts_with, codes, strip, text_eq}
use ai_kaeyris.Models.{Db}
use ai_kaeyris.Auth.{
  ApiKeyEntry, split, partition, parse_entry, parse_parts, parse_api_keys, imported,
  bootstrap_api_keys_from_env,
}

length-imported :
    (fresh : ℕ → ℕ) (i : ℕ) (entries : List ApiKeyEntry)
    → length (imported fresh i entries) ≡ length entries
unfolding imported
length-imported fresh i [] = refl
length-imported fresh i (e ∷ entries) = ap suc (length-imported fresh (suc i) entries)

-- A restart imports nothing again: when the first start inserted `n` keys, that is how many the
-- database has, and, unless there were none, the next start inserts none and changes nothing,
-- whatever the environment then says.
pub bootstrap_once :
    (fresh fresh' : ℕ → ℕ) (raw raw' : Text) (n : ℕ) (db db' : Db)
    → db.api_keys ≡ []
    → bootstrap_api_keys_from_env fresh raw db ≡ ok (suc n, db')
    → (length db'.api_keys ≡ suc n) × (bootstrap_api_keys_from_env fresh' raw' db' ≡ ok (0, db'))
unfolding bootstrap_api_keys_from_env
bootstrap_once fresh fresh' raw raw' n db db' empty e = elim (Result-cases (parse_api_keys raw)) [
  | inr (x, refused) ↦ ground (arith, refused)
  | inl (entries, parsed) ↦ ground (arith, parsed, length-imported fresh 0 entries)
]

-- What the environment variable is written from.
abbrev render_entry : ApiKeyEntry → Text
render_entry e = e.name ++ 58 ∷ e.hash

abbrev pub render : List ApiKeyEntry → Text
render [] = []
render (e ∷ []) = render_entry e
render (e ∷ f ∷ entries) = render_entry e ++ 59 ∷ render (f ∷ entries)

abbrev Without : ℕ → Text → Type 0
Without c = All (λ d. (d == c) ≡ false)

-- A name without `:` and `;`, a hash of Argon2id without `;`, neither with spaces around.
pub record IsRenderable (e : ApiKeyEntry) : Type 0 where
  pub no_colon : Without 58 e.name
  pub no_semicolon : Without 59 e.name
  pub hash_no_semicolon : Without 59 e.hash
  pub name_stripped : strip e.name ≡ e.name
  pub hash_stripped : strip e.hash ≡ e.hash
  pub stripped : strip (render_entry e) ≡ render_entry e
  pub named : is_empty e.name ≡ false
  pub argon2id : starts_with (codes "$argon2id$") e.hash ≡ true

partition-render :
    (name hash : Text) → Without 58 name → partition (name ++ 58 ∷ hash) ≡ some (name, hash)
unfolding partition
partition-render [] hash h = refl
partition-render (c ∷ name) hash h = ground (arith, h, partition-render name hash h.1)

Without-append : (c : ℕ) (s t : Text) → Without c s → Without c t → Without c (s ++ t)
Without-append c [] t h k = k
Without-append c (d ∷ s) t h k = (h.0, Without-append c s t h.1 k)

split-last : (sep : ℕ) (s : Text) → Without sep s → split sep s ≡ s ∷ []
unfolding split
split-last sep [] h = refl
split-last sep (c ∷ s) h = ground (arith, h, split-last sep s h.1)

split-append : (sep : ℕ) (s t : Text) → Without sep s → split sep (s ++ sep ∷ t) ≡ s ∷ split sep t
unfolding split
split-append sep [] t h = ground arith
split-append sep (c ∷ s) t h = ground (arith, h, split-append sep s t h.1)

hash_present : (h : Text) → starts_with (codes "$argon2id$") h ≡ true → is_empty h ≡ false
unfolding starts_with text_eq
hash_present [] h = cc
hash_present (c ∷ s) h = refl

parse_entry-render : (e : ApiKeyEntry) → IsRenderable e → parse_entry (render_entry e) ≡ ok e
unfolding parse_entry
parse_entry-render e h = ground (
  arith,
  h.argon2id,
  h.named,
  h.name_stripped,
  h.hash_stripped,
  partition-render e.name e.hash h.no_colon,
  hash_present e.hash h.argon2id,
)

nonempty_render : (name t : Text) → is_empty (name ++ 58 ∷ t) ≡ false
nonempty_render [] t = refl
nonempty_render (c ∷ name) t = refl

parse_parts-render :
    (e : ApiKeyEntry) (parts : List Text) (entries : List ApiKeyEntry)
    → IsRenderable e
    → parse_parts parts ≡ ok entries
    → parse_parts (render_entry e ∷ parts) ≡ ok (e ∷ entries)
unfolding parse_parts
parse_parts-render e parts entries h rest =
    ground (arith, h.stripped, rest, parse_entry-render e h, nonempty_render e.name e.hash)

no_semicolon_in : (e : ApiKeyEntry) → IsRenderable e → Without 59 (render_entry e)
no_semicolon_in e h =
    Without-append 59 e.name (58 ∷ e.hash) h.no_semicolon (refl, h.hash_no_semicolon)

parts_of_render :
    (entries : List ApiKeyEntry) (e : ApiKeyEntry)
    → All IsRenderable (e ∷ entries)
    → parse_parts (split 59 (render (e ∷ entries))) ≡ ok (e ∷ entries)
unfolding parse_parts
parts_of_render [] e h =
    ap parse_parts (split-last 59 (render_entry e) (no_semicolon_in e h.0))
    ∙ parse_parts-render e [] [] h.0 refl
parts_of_render (f ∷ entries) e h =
    ap parse_parts (split-append 59 (render_entry e) (render (f ∷ entries)) (no_semicolon_in e h.0))
    ∙ parse_parts-render e _ (f ∷ entries) h.0 (parts_of_render entries f h.1)

-- Entries that are written as `name:hash`, joined by semicolons, are parsed back as they were, when
-- no name holds a colon or a semicolon, no hash a semicolon, nothing is padded with white space,
-- and the hashes are of Argon2id.
pub parse_api_keys-render :
    (entries : List ApiKeyEntry)
    → All IsRenderable entries
    → parse_api_keys (render entries) ≡ ok entries
unfolding parse_api_keys
parse_api_keys-render [] h = refl
parse_api_keys-render (e ∷ entries) h = ground (arith, parts_of_render entries e h)
