-- ===== src/Settings/Proofs.antt =====
-- The proofs that a local model was accepted, as the model settings refer to them.
use ai_kaeyris.Prelude.{
  ℕ, ◌≡◌, refl, ap, Bool, true, false, ◌&&◌, ◌||◌, not, Option, none, some, [], is_empty, arith, ok,
  inl, inr, Option-cases,
}
use ai_kaeyris.Text.{Text, strip, text_eq}
use ai_kaeyris.Text.Equality.{text_eq-eq}
use ai_kaeyris.Table.{first-holds}
use ai_kaeyris.Models.{Db, ModelSettings, ModelProvider, LocalModelCategory, LocalModelValidation}
use ai_kaeyris.Jobs.Adapters.{or_else, or_else-some, truthy}
use ai_kaeyris.LocalModels.{Host, normalize_model_path}
use ai_kaeyris.Settings.{get_by_hash, proves, require_local_model_validation_hash}
use ai_kaeyris.Settings.Patch.{
  value_of, if_set, if_some, provider_field, path_field, hash_field, is_local, opt_text_eq,
  needs_proof, get_for_user,
}

-- The hash is that of a proof for this user, this category and this path.
abbrev shows :
    Host → (Text → Text) → ℕ → LocalModelCategory → Text → Option LocalModelValidation → Bool
shows host sha uid category path none = false
shows host sha uid category path (some v) = proves host sha uid category (host.resolve path) v

module _ (host : Host) (sha : Text → Text) where
  abbrev pub is_backed : ℕ → LocalModelCategory → Option Text → Option Text → Db → Bool
  is_backed uid category path hash db =
      not (is_empty (strip (or_else path [])))
      && (truthy hash
          && shows host sha uid category (strip (or_else path []))
              (get_by_hash (or_else hash []) db))

  abbrev pub is_proven : ℕ → LocalModelCategory → ModelSettings → Db → Bool
  is_proven uid category r db =
      not (is_local (provider_field category r))
      || is_backed uid category (path_field category r) (hash_field category r) db

  -- Every user's settings of a local model have their proof.
  abbrev pub AreProven : Db → Type 0
  AreProven db =
      (uid : ℕ) (category : LocalModelCategory) (r : ModelSettings)
      → get_for_user uid db ≡ some r
      → is_proven uid category r db ≡ true

module _ (host : Host) (sha : Text → Text)
    (sha-truthy : (t : Text) → truthy (some (sha t)) ≡ true) where
  -- What a proof that is found under the hash of a token shows.
  found-is_backed :
      (uid : ℕ) (category : LocalModelCategory) (path : Option Text) (token : Text) (db : Db)
      (v : LocalModelValidation)
      → get_by_hash (sha token) db ≡ some v
      → is_empty (strip (or_else path [])) ≡ false
      → proves host sha uid category (host.resolve (strip (or_else path []))) v ≡ true
      → is_backed host sha uid category path (some v.validation_hash) db ≡ true
  found-is_backed uid category path token db v found solid shown =
      rw (key, or_else-some (sha token), found, solid, sha-truthy token) shown
    where
      key : v.validation_hash ≡ sha token
      key =
          text_eq-eq _ _
            (first-holds (λ r. text_eq r.validation_hash (sha token)) db.validations found)

  pub require_local_model_validation_hash-is_backed :
      (now uid : ℕ) (category : LocalModelCategory) (path id : Option Text) (db : Db) (h : Text)
      → require_local_model_validation_hash host sha now uid category path id db ≡ ok h
      → is_backed host sha uid category path (some h) db ≡ true
  unfolding require_local_model_validation_hash normalize_model_path
  require_local_model_validation_hash-is_backed now uid category path id db h e =
      elim (Option-cases (get_by_hash (sha (strip (or_else id []))) db)) [
        | inl absent ↦ ground arith
        | inr (v, found) ↦
            ground (arith, found-is_backed uid category path (strip (or_else id [])) db v found)
      ]

same_path : (new old : Option Text) → opt_text_eq new old ≡ true → if_some new old ≡ old
same_path none old h = refl
same_path (some new) none h = cc
same_path (some new) (some old) h = ap some (text_eq-eq new old h)

-- A row whose new version is local, and of which no proof was asked, was local with this path.
pub unasked :
    (provider : Option (Option ModelProvider)) (path : Option (Option Text))
    (old_provider : Option ModelProvider) (old_path old_hash : Option Text)
    → needs_proof provider path old_provider old_path old_hash ≡ false
    → is_local (if_set provider old_provider) ≡ true
    → (is_local old_provider ≡ true) × (if_some (value_of path) old_path ≡ old_path)
unasked none none old_provider old_path old_hash quiet now_local = ground arith
unasked (some none) none old_provider old_path old_hash quiet now_local = ground arith
unasked (some (some p)) none old_provider old_path old_hash quiet now_local = ground arith
unasked none (some new) old_provider old_path old_hash quiet now_local =
    ground (arith, same_path new old_path)
unasked (some none) (some new) old_provider old_path old_hash quiet now_local = ground arith
unasked (some (some p)) (some new) old_provider old_path old_hash quiet now_local =
    ground (arith, same_path new old_path)
